-- ===== src/Router/Collect/Survives.antt =====
-- A list that is collected in resilient mode does not fail, and no fan-out changes the mode.
use rust_yamp.Prelude.{
  ◌≡◌, refl, inl, inr, Bool, true, false, Option, none, List, [], ◌∷◌, Text, Bytes, Result, All, ok,
  err, if◌then◌else◌, ◌∙◌, sym, ascii, not, ◌&&◌, is_some, if_all, map, ap, Option-cases,
}
use rust_yamp.Json.{Json, is_null}
use rust_yamp.Variants.{resolve_cursor}
use rust_yamp.Float.{Float}
use rust_yamp.Dict.{Dict, text_key}
use rust_yamp.Dict
use rust_yamp.Router.{Awaited, io, never, Backend, Sent, Reply, Router, Capability, Namespacing}
use rust_yamp.Router.Request.{replace_backend, request}
use rust_yamp.Router.Request.Prompt.{Prompt}
use rust_yamp.Router.Collect.{
  select, unavailable_ids, cursors_of, look_up, fetch, absorb, composed, collect, cache_get,
  join_all, absorb_all,
}
use rust_yamp.Router.Collect.Ends.{
  select-Prompt, look_up-Prompt, fetch-Prompt, unavailable-Prompt, Joined, join_all-Joined,
}
use rust_yamp.Router.Collect.Replies.{
  FetchedSourced, empty-Sourced, absorb_all-sent, absorb_all-Sourced, join_all-Answering,
  fetch-Answering, look_up-uncached,
}
use rust_yamp.Router.Listing.{
  Query, Fetched, Collected, Cursors, effective_variant, filter_array, has_filter, params_for,
}

-- A failure is one of a router that is not resilient, and no endless wait.
abbrev pub Fails {ℓ} : {A : Type ℓ} → Bool → Awaited A → Type 0
Fails resilient (ok a) = Unit {0}
Fails resilient (err (io e)) = resilient ≡ false
Fails resilient (err never) = ⊥

pub unless_resilient {ℓ κ} :
    {A : Type ℓ} (P : A → Type κ) (b : Bool) (x y : A)
    → P x
    → (b ≡ false → P y)
    → P (if b then x else y)
unless_resilient P true x y p q = p
unless_resilient P false x y p q = q refl

module _ (f : Float) (wire : List Sent → Sent → Reply) (clock : List Sent → f.F64) where
  open f use {F64}

  -- The mode and the promptness of the backends.
  abbrev pub Kept : Bool → Router F64 → Type 0
  Kept resilient r = (r.resilient ≡ resilient) × All (Prompt f wire clock) r.backends

  -- They are kept, and a failure comes only to a router that is not resilient.
  abbrev pub Survives {ℓ} : {A : Type ℓ} → Bool → Router F64 × Awaited A → Type 0
  Survives resilient (r, result) = Kept resilient r × Fails resilient result

  -- What decides how a list is composed.
  abbrev pub mode : Router F64 → Bool × Bool × Namespacing
  mode r = (r.resilient, r.single, r.namespacing)

  look_up-mode :
      (r : Router F64) (c : Capability) (use_cache : Bool) (bs : List (Backend F64))
      (hits : Dict Text Json)
      → mode (look_up f wire clock r c use_cache bs hits).0 ≡ mode r
  unfolding look_up
  look_up-mode r c use_cache [] hits = refl
  look_up-mode r c use_cache (b ∷ bs) hits =
      let found = cache_get f wire clock r.cache use_cache b.id c.list r.principal (clock r.sent) in
      elim (Option-cases found.1) [
        | inl e ↦ rw (look_up, e) (look_up-mode (record r { cache = found.0 }) c use_cache bs hits)
        | inr (result, e) ↦
            rw (look_up, e)
              (look_up-mode (record r { cache = found.0 }) c use_cache bs
                (Dict.insert hits b.id result))
      ]

  fetch-mode :
      (r : Router F64) (c : Capability) (params : Text → Json) (bs : List (Backend F64))
      → mode (fetch f wire clock r c params bs).0 ≡ mode r
  unfolding fetch replace_backend
  fetch-mode r c params [] = refl
  fetch-mode r c params (b ∷ bs) =
      let (b', sent, outcome) = request f wire clock b r.sent c.list (params b.id) in
      fetch-mode (replace_backend f wire clock (record r { sent = sent }) b') c params bs

  -- The mode and the backends after the outcomes, and a failure among them.
  absorb-mode :
      (flag : Bool) (c : Capability) (use_cache : Bool) (outcomes : List (Text × Result Json))
      (r : Router F64) (acc : Fetched)
      → r.resilient ≡ flag
      → (mode (absorb f wire clock r c use_cache outcomes acc).0 ≡ mode r)
        × ((absorb f wire clock r c use_cache outcomes acc).0.backends ≡ r.backends)
        × Fails flag (absorb f wire clock r c use_cache outcomes acc).1
  unfolding absorb
  absorb-mode flag c use_cache [] r acc h = (refl, refl, tt)
  absorb-mode flag c use_cache ((id, err e) ∷ outcomes) r acc h =
      unless_resilient
        (λ (x : Router F64 × Awaited Fetched).
          (mode x.0 ≡ mode r) × (x.0.backends ≡ r.backends) × Fails flag x.1)
        r.resilient _ _ (absorb-mode flag c use_cache outcomes r _ h)
        (λ off. (refl, refl, sym h ∙ off))
  absorb-mode flag c use_cache ((id, ok response) ∷ outcomes) r acc h =
      absorb-mode flag c use_cache outcomes _ _ h

  absorb_all-mode :
      (c : Capability) (use_cache : Bool) (outcomes : Awaited (List (Text × Result Json)))
      (r : Router F64) (acc : Fetched)
      → (mode (absorb_all f wire clock r c use_cache outcomes acc).0 ≡ mode r)
        × ((absorb_all f wire clock r c use_cache outcomes acc).0.backends ≡ r.backends)
  absorb_all-mode c use_cache (err e) r acc = (refl, refl)
  absorb_all-mode c use_cache (ok outcomes) r acc =
      let (same, backends, fails) = absorb-mode r.resilient c use_cache outcomes r acc refl in
      (same, backends)

  absorb_all-Fails :
      (flag : Bool) (c : Capability) (use_cache : Bool)
      (outcomes : Awaited (List (Text × Result Json))) (r : Router F64) (acc : Fetched)
      → r.resilient ≡ flag
      → Joined f wire clock outcomes
      → Fails flag (absorb_all f wire clock r c use_cache outcomes acc).1
  absorb_all-Fails flag c use_cache (err e) r acc h j = absurd j
  absorb_all-Fails flag c use_cache (ok outcomes) r acc h j =
      (absorb-mode flag c use_cache outcomes r acc h).2

  abbrev pub ids_of : List (Backend F64) → List Text
  ids_of bs = map (λ (b : Backend F64). b.id) bs

  -- What a list is composed from: the router after the fan-out, and what the backends that were
  -- chosen gave.
  pub record Gathered (r : Router F64) (c : Capability) (q : Query) (restrict : Option Cursors)
      (x : Router F64 × Awaited Collected) : Type 0 where
    pub router : Router F64
    pub fetched : Awaited Fetched
    pub composition :
        x
        ≡ composed f wire clock router c q
            (ids_of
              (select f wire clock r.resilient
                (filter_array q.list_filter (ascii "keywords"))
                restrict
                (clock r.sent)
                r.backends).1)
            fetched
    pub same_mode : mode router ≡ mode r
    pub survives : All (Prompt f wire clock) r.backends → Survives r.resilient (router, fetched)
    pub sourced : r.cache ≡ none → FetchedSourced f wire clock router.sent fetched

  composed-Survives :
      (flag : Bool) (r : Router F64) (c : Capability) (q : Query) (ids : List Text)
      (fetched : Awaited Fetched)
      → Survives flag (r, fetched)
      → Survives flag (composed f wire clock r c q ids fetched)
  unfolding composed
  composed-Survives flag r c q ids (err e) h = h
  composed-Survives flag r c q ids (ok fetched) h = h

  module _ (to_vec : Json → Bytes) (from_slice : Bytes → Option Json) where
    pub collect-Gathered :
        (r : Router F64) (c : Capability) (q : Query)
        → Gathered r c q
            (cursors_of f wire clock to_vec from_slice (resolve_cursor to_vec from_slice q.cursor))
            (collect f wire clock to_vec from_slice r c q)
    unfolding collect
    collect-Gathered r c q =
        let restrict =
          cursors_of f wire clock to_vec from_slice (resolve_cursor to_vec from_slice q.cursor) in
        let variant = effective_variant r.variants q.variant in
        let (backends, chosen) =
          select f wire clock r.resilient (filter_array q.list_filter (ascii "keywords")) restrict
            (clock r.sent) r.backends in
        let use_cache =
          not (has_filter q.list_filter) && is_null q.cursor && not (is_some variant) in
        let r0 = record r { backends = backends } in
        let (r1, hits, misses) = look_up f wire clock r0 c use_cache chosen [] in
        let params = params_for r.single q variant restrict in
        let (r2, outcomes) = fetch f wire clock r1 c params misses in
        let (asked, down) = unavailable_ids f wire clock r2.backends (clock r2.sent) in
        let r3 = if r.resilient then record r2 { backends = asked } else r2 in
        let found : Fetched = record {
          per_backend = hits;
          unavailable = if r.resilient then down else [];
        } in
        let kept : mode r3 ≡ mode r2 =
          if_all (λ (x : Router F64). mode x ≡ mode r2) r.resilient (record r2 { backends = asked })
            r2 refl refl in
        let same : mode r3 ≡ mode r =
          kept ∙ fetch-mode r1 c params misses ∙ look_up-mode r0 c use_cache chosen [] in
        let joined = join_all f wire clock outcomes in
        let (absorbed, backends_kept) = absorb_all-mode c use_cache joined r3 found in
        record {
          router = (absorb_all f wire clock r3 c use_cache joined found).0;
          fetched = (absorb_all f wire clock r3 c use_cache joined found).1;
          composition = refl;
          same_mode = absorbed ∙ same;
          survives = λ ps.
              let (kept0, chosen_prompt) =
                select-Prompt f wire clock r.resilient
                  (filter_array q.list_filter (ascii "keywords")) restrict (clock r.sent) r.backends
                  ps in
              let (same1, misses_prompt) =
                look_up-Prompt f wire clock r0 c use_cache chosen [] chosen_prompt in
              let (kept2, ends) =
                fetch-Prompt f wire clock r1 c params misses misses_prompt (rw same1 kept0) in
              let kept3 =
                if_all (λ (x : Router F64). All (Prompt f wire clock) x.backends) r.resilient
                  (record r2 { backends = asked }) r2
                  (unavailable-Prompt f wire clock r2.backends (clock r2.sent) kept2) kept2 in
              (
                (
                  ap (λ (m : Bool × Bool × Namespacing). m.0) (absorbed ∙ same),
                  rw backends_kept kept3,
                ),
                absorb_all-Fails r.resilient c use_cache joined r3 found
                    (ap (λ (m : Bool × Bool × Namespacing). m.0) same)
                    (join_all-Joined f wire clock outcomes ends),
              );
          sourced = λ uncached.
              let unsent =
                absorb_all-sent f wire clock c use_cache joined r3 found
                ∙ if_all (λ (x : Router F64). x.sent ≡ r2.sent) r.resilient
                    (record r2 { backends = asked }) r2 refl refl in
              let missed = look_up-uncached f wire clock r0 c use_cache chosen [] uncached in
              rw unsent (
                absorb_all-Sourced f wire clock r2.sent c use_cache joined r3 found
                  (join_all-Answering f wire clock r2.sent outcomes
                    (fetch-Answering f wire clock r1 c params misses))
                  (rw missed (empty-Sourced f wire clock r2.sent)));
        }

    pub collect-Survives :
        (r : Router F64) (c : Capability) (q : Query)
        → All (Prompt f wire clock) r.backends
        → Survives r.resilient (collect f wire clock to_vec from_slice r c q)
    collect-Survives r c q ps =
        let g = collect-Gathered r c q in
        rw g.composition (composed-Survives r.resilient g.router c q _ g.fetched (g.survives ps))
