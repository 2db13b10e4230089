-- ===== src/Router/Collect/Ends.antt =====
-- A fan-out to backends that have time-outs, or are not silent, comes to an end.
use rust_yamp.Prelude.{
  ◌≡◌, refl, inl, inr, Bool, true, false, Option, List, [], ◌∷◌, Text, Result, All, ok, err,
  if◌then◌else◌, if_all, Option-cases,
}
use rust_yamp.Json.{Json}
use rust_yamp.Float.{Float}
use rust_yamp.Dict.{Dict, text_key}
use rust_yamp.Dict
use rust_yamp.Router.{Awaited, io, never, Backend, Sent, Reply, Router, Capability}
use rust_yamp.Router.Request.{replace_backend, request, available}
use rust_yamp.Router.Request.Prompt.{Ends, Prompt, request-Ends, request-Prompt, replace-Prompt}
use rust_yamp.Router.Collect.{
  select, unavailable_ids, look_up, fetch, cache_get, join_all, add_outcome,
}
use rust_yamp.Router.Listing.{Cursors}

module _ (f : Float) (wire : List Sent → Sent → Reply) (clock : List Sent → f.F64) where
  open f use {F64}

  chosen-Prompt :
      (selected : Bool) (b : Backend F64) (chosen : List (Backend F64))
      → Prompt f wire clock b
      → All (Prompt f wire clock) chosen
      → All (Prompt f wire clock) (if selected then b ∷ chosen else chosen)
  chosen-Prompt true b chosen p ps = (p, ps)
  chosen-Prompt false b chosen p ps = ps

  pub select-Prompt :
      (resilient : Bool) (keywords : List Json) (restrict : Option Cursors) (now : F64)
      (bs : List (Backend F64))
      → All (Prompt f wire clock) bs
      → All (Prompt f wire clock) (select f wire clock resilient keywords restrict now bs).0
        × All (Prompt f wire clock) (select f wire clock resilient keywords restrict now bs).1
  unfolding select available
  select-Prompt resilient keywords restrict now [] ps = (tt, tt)
  select-Prompt resilient keywords restrict now (b ∷ bs) (p, ps) =
      let (kept, chosen) = select-Prompt resilient keywords restrict now bs ps in
      let first = if_all (Prompt f wire clock) resilient _ _ p p in
      ((first, kept), chosen-Prompt _ _ _ first chosen)

  pub look_up-Prompt :
      (r : Router F64) (c : Capability) (use_cache : Bool) (bs : List (Backend F64))
      (hits : Dict Text Json)
      → All (Prompt f wire clock) bs
      → ((look_up f wire clock r c use_cache bs hits).0.backends ≡ r.backends)
        × All (Prompt f wire clock) (look_up f wire clock r c use_cache bs hits).2
  unfolding look_up
  look_up-Prompt r c use_cache [] hits ps = (refl, tt)
  look_up-Prompt r c use_cache (b ∷ bs) hits (p, ps) =
      let found = cache_get f wire clock r.cache use_cache b.id c.list r.principal (clock r.sent) in
      elim (Option-cases found.1) [
        | inl e ↦
            rw (look_up, e)
              (let (same, rest) =
                  look_up-Prompt (record r { cache = found.0 }) c use_cache bs hits ps in
                (same, (p, rest)))
        | inr (result, e) ↦
            rw (look_up, e)
              (look_up-Prompt (record r { cache = found.0 }) c use_cache bs
                (Dict.insert hits b.id result) ps)
      ]

  pub fetch-Prompt :
      (r : Router F64) (c : Capability) (params : Text → Json) (bs : List (Backend F64))
      → All (Prompt f wire clock) bs
      → All (Prompt f wire clock) r.backends
      → All (Prompt f wire clock) (fetch f wire clock r c params bs).0.backends
        × All (λ (o : Text × Awaited Json). Ends o.1) (fetch f wire clock r c params bs).1
  unfolding fetch replace_backend
  fetch-Prompt r c params [] ps rs = (rs, tt)
  fetch-Prompt r c params (b ∷ bs) (p, ps) rs =
      let (b', sent, outcome) = request f wire clock b r.sent c.list (params b.id) in
      let p' = request-Prompt f wire clock b r.sent c.list (params b.id) p in
      let (kept, ends) =
        fetch-Prompt (replace_backend f wire clock (record r { sent = sent }) b') c params bs ps
          (replace-Prompt f wire clock r.backends b' rs p') in
      (kept, (request-Ends f wire clock b r.sent c.list (params b.id) p, ends))

  pub unavailable-Prompt :
      (bs : List (Backend F64)) (now : F64)
      → All (Prompt f wire clock) bs
      → All (Prompt f wire clock) (unavailable_ids f wire clock bs now).0
  unfolding unavailable_ids available
  unavailable-Prompt [] now ps = tt
  unavailable-Prompt (b ∷ bs) now (p, ps) = (p, unavailable-Prompt bs now ps)

  -- All outcomes are there.
  abbrev pub Joined : Awaited (List (Text × Result Json)) → Type 0
  Joined (ok outcomes) = Unit {0}
  Joined (err e) = ⊥

  add_outcome-Joined :
      (id : Text) (outcome : Result Json) (x : Awaited (List (Text × Result Json)))
      → Joined x
      → Joined (add_outcome f wire clock id outcome x)
  add_outcome-Joined id outcome (ok outcomes) h = tt
  add_outcome-Joined id outcome (err e) h = h

  pub join_all-Joined :
      (outcomes : List (Text × Awaited Json))
      → All (λ (o : Text × Awaited Json). Ends o.1) outcomes
      → Joined (join_all f wire clock outcomes)
  unfolding join_all
  join_all-Joined [] h = tt
  join_all-Joined ((id, ok response) ∷ outcomes) (u, h) =
      add_outcome-Joined id (ok response) _ (join_all-Joined outcomes h)
  join_all-Joined ((id, err (io e)) ∷ outcomes) (u, h) =
      add_outcome-Joined id (err e) _ (join_all-Joined outcomes h)
  join_all-Joined ((id, err never) ∷ outcomes) (u, h) = u
