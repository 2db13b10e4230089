-- ===== src/Router/Collect/Replies.antt =====
-- Where a list that `collect` of src/router.rs composes comes from: the replies to its own requests.
use rust_yamp.Prelude.{
  ℕ, ◌≡◌, refl, sym, ◌∙◌, inl, inr, Bool, Option, none, some, List, [], ◌∷◌, ◌++◌, append_assoc,
  append-nil, Text, text_eq, eq_of_text_eq, Result, ok, err, if_all, All, Bool-cases, unwrap_or,
  ascii, some_injective,
}
use rust_yamp.Json.{Json, object, empty}
use rust_yamp.Json
use rust_yamp.Float.{Float}
use rust_yamp.Cache.{ListCache}
use rust_yamp.Dict.{Dict, text_key, get-insert}
use rust_yamp.Dict
use rust_yamp.Router.{
  Backend, Sent, Reply, send_failed, answered, silent, disconnected, Router, Capability, Awaited,
  io, never,
}
use rust_yamp.Router.Request.{replace_backend, request, settle, unanswered, outgoing}
use rust_yamp.Router.Collect.{
  look_up, fetch, join_all, add_outcome, absorb, absorb_all, cache_get, Outcomes,
}
use rust_yamp.Router.Listing.{Fetched}

-- The result of a response; one without it is taken for an empty one.
abbrev pub result_of : Json → Json
result_of response = unwrap_or (Json.get response (ascii "result")) (object empty)

module _ (f : Float) (wire : List Sent → Sent → Reply) (clock : List Sent → f.F64) where
  open f use {F64}

  -- The response is the backend's reply to a message of the trace, which was written to it after the
  -- messages before.
  abbrev pub Replied : List Sent → Text → Json → Type 0
  Replied trace id response =
      (m : Sent) × (before : List Sent) × (after : List Sent) × (m.backend ≡ id)
      × (trace ≡ before ++ m ∷ after)
      × (wire before m ≡ answered response)

  -- Each result of the map is that of a reply of its backend.
  abbrev pub Sourced : List Sent → Dict Text Json → Type 0
  Sourced trace results =
      (id : Text) (result : Json)
      → Dict.get results id ≡ some result
      → (response : Json) × (result ≡ result_of response) × Replied trace id response

  abbrev pub FetchedSourced : List Sent → Awaited Fetched → Type 0
  FetchedSourced trace (ok fetched) = Sourced trace fetched.per_backend
  FetchedSourced trace (err e) = Unit {0}

  unanswered-ok :
      (b : Backend F64) (mid : Text) (now : F64) (timeout : Option ℕ) (response : Json)
      → (unanswered f b mid now timeout).1 ≡ ok response
      → silent ≡ answered response
  unfolding unanswered
  unanswered-ok b mid now none response h = absurd (cc)
  unanswered-ok b mid now (some d) response h = absurd (cc)

  settle-ok :
      (b : Backend F64) (mid : Text) (now : F64) (reply : Reply) (response : Json)
      → (settle f b mid now reply).1 ≡ ok response
      → reply ≡ answered response
  unfolding settle
  settle-ok b mid now (send_failed e) response h = absurd (cc)
  settle-ok b mid now (answered message) response h = cc
  settle-ok b mid now disconnected response h = absurd (cc)
  settle-ok b mid now silent response h = unanswered-ok b mid now b.timeout response h

  fetch-extends :
      (r : Router F64) (c : Capability) (params : Text → Json) (bs : List (Backend F64))
      → (rest : List Sent) × ((fetch f wire clock r c params bs).0.sent ≡ r.sent ++ rest)
  unfolding fetch replace_backend request
  fetch-extends r c params [] = ([], sym (append-nil r.sent))
  fetch-extends r c params (b ∷ bs) =
      let (b', sent, outcome) = request f wire clock b r.sent c.list (params b.id) in
      let m = outgoing f wire clock b c.list (params b.id) in
      let (rest, e) =
        fetch-extends (replace_backend f wire clock (record r { sent = sent }) b') c params bs in
      (m ∷ rest, e ∙ append_assoc r.sent (m ∷ []) rest)

  -- The outcome, if it is a response, is a reply.
  abbrev Answering : List Sent → Text × Awaited Json → Type 0
  Answering trace (id, outcome) =
      (response : Json) → outcome ≡ ok response → Replied trace id response

  pub fetch-Answering :
      (r : Router F64) (c : Capability) (params : Text → Json) (bs : List (Backend F64))
      → All
          (Answering (fetch f wire clock r c params bs).0.sent)
          (fetch f wire clock r c params bs).1
  unfolding fetch replace_backend request outgoing
  fetch-Answering r c params [] = tt
  fetch-Answering r c params (b ∷ bs) =
      let (b', sent, outcome) = request f wire clock b r.sent c.list (params b.id) in
      let m = outgoing f wire clock b c.list (params b.id) in
      let r' = replace_backend f wire clock (record r { sent = sent }) b' in
      let (rest, e) = fetch-extends r' c params bs in
      (
        λ response h. (
          m,
          r.sent,
          rest,
          refl,
          e ∙ append_assoc r.sent (m ∷ []) rest,
          settle-ok _ _ _ _ response h,
        ),
        fetch-Answering r' c params bs,
      )

  abbrev pub JoinedAnswering : List Sent → Awaited Outcomes → Type 0
  JoinedAnswering trace (err e) = Unit {0}
  JoinedAnswering trace (ok outcomes) =
      All
        (λ (o : Text × Result Json).
          (response : Json) → o.1 ≡ ok response → Replied trace o.0 response)
        outcomes

  add_outcome-Answering :
      (trace : List Sent) (id : Text) (outcome : Result Json) (x : Awaited Outcomes)
      → ((response : Json) → outcome ≡ ok response → Replied trace id response)
      → JoinedAnswering trace x
      → JoinedAnswering trace (add_outcome f wire clock id outcome x)
  add_outcome-Answering trace id outcome (err e) h hs = tt
  add_outcome-Answering trace id outcome (ok outcomes) h hs = (h, hs)

  pub join_all-Answering :
      (trace : List Sent) (outcomes : List (Text × Awaited Json))
      → All (Answering trace) outcomes
      → JoinedAnswering trace (join_all f wire clock outcomes)
  unfolding join_all
  join_all-Answering trace [] hs = tt
  join_all-Answering trace ((id, ok v) ∷ outcomes) (h, hs) =
      add_outcome-Answering trace id (ok v) _ (λ response e. h response (cc))
        (join_all-Answering trace outcomes hs)
  join_all-Answering trace ((id, err (io e)) ∷ outcomes) (h, hs) =
      add_outcome-Answering trace id (err e) _ (λ response e. absurd (cc))
        (join_all-Answering trace outcomes hs)
  join_all-Answering trace ((id, err never) ∷ outcomes) (h, hs) = tt

  pub empty-Sourced : (trace : List Sent) → Sourced trace []
  unfolding Dict.get
  empty-Sourced trace id result h = absurd (cc)

  insert-Sourced :
      (trace : List Sent) (results : Dict Text Json) (id : Text) (response : Json)
      → Replied trace id response
      → Sourced trace results
      → Sourced trace (Dict.insert results id (result_of response))
  insert-Sourced trace results id response p s i result h =
      let after = sym (get-insert results id i (result_of response)) ∙ h in
      elim (Bool-cases (text_eq id i)) [
        | inl e ↦ (response, sym (some_injective (rw e at after)), rw (← eq_of_text_eq id i e) p)
        | inr e ↦ s i result (rw e at after)
      ]

  absorb-Sourced :
      (trace : List Sent) (c : Capability) (use_cache : Bool) (outcomes : Outcomes) (r : Router F64)
      (acc : Fetched)
      → JoinedAnswering trace (ok outcomes)
      → Sourced trace acc.per_backend
      → FetchedSourced trace (absorb f wire clock r c use_cache outcomes acc).1
  unfolding absorb
  absorb-Sourced trace c use_cache [] r acc hs s = s
  absorb-Sourced trace c use_cache ((id, err e) ∷ outcomes) r acc (h, hs) s =
      if_all (λ (x : Router F64 × Awaited Fetched). FetchedSourced trace x.1) r.resilient _ _
        (absorb-Sourced trace c use_cache outcomes r _ hs s) tt
  absorb-Sourced trace c use_cache ((id, ok response) ∷ outcomes) r acc (h, hs) s =
      absorb-Sourced trace c use_cache outcomes _ _ hs
        (insert-Sourced trace acc.per_backend id response (h response refl) s)

  pub absorb_all-Sourced :
      (trace : List Sent) (c : Capability) (use_cache : Bool) (outcomes : Awaited Outcomes)
      (r : Router F64) (acc : Fetched)
      → JoinedAnswering trace outcomes
      → Sourced trace acc.per_backend
      → FetchedSourced trace (absorb_all f wire clock r c use_cache outcomes acc).1
  absorb_all-Sourced trace c use_cache (err e) r acc hs s = tt
  absorb_all-Sourced trace c use_cache (ok outcomes) r acc hs s =
      absorb-Sourced trace c use_cache outcomes r acc hs s

  absorb-sent :
      (c : Capability) (use_cache : Bool) (outcomes : Outcomes) (r : Router F64) (acc : Fetched)
      → (absorb f wire clock r c use_cache outcomes acc).0.sent ≡ r.sent
  unfolding absorb
  absorb-sent c use_cache [] r acc = refl
  absorb-sent c use_cache ((id, err e) ∷ outcomes) r acc =
      if_all (λ (x : Router F64 × Awaited Fetched). x.0.sent ≡ r.sent) r.resilient _ _
        (absorb-sent c use_cache outcomes r _) refl
  absorb-sent c use_cache ((id, ok response) ∷ outcomes) r acc =
      absorb-sent c use_cache outcomes _ _

  pub absorb_all-sent :
      (c : Capability) (use_cache : Bool) (outcomes : Awaited Outcomes) (r : Router F64)
      (acc : Fetched)
      → (absorb_all f wire clock r c use_cache outcomes acc).0.sent ≡ r.sent
  absorb_all-sent c use_cache (err e) r acc = refl
  absorb_all-sent c use_cache (ok outcomes) r acc = absorb-sent c use_cache outcomes r acc

  get-uncached :
      (cache : Option (ListCache F64)) (use_cache : Bool) (id method : Text)
      (principal : Option Text) (now : F64)
      → cache ≡ none
      → ((cache_get f wire clock cache use_cache id method principal now).0 ≡ none)
        × ((cache_get f wire clock cache use_cache id method principal now).1 ≡ none)
  get-uncached none use_cache id method principal now h = (refl, refl)
  get-uncached (some cache) use_cache id method principal now h = absurd (cc)

  -- Without a cache nothing is found in it.
  pub look_up-uncached :
      (r : Router F64) (c : Capability) (use_cache : Bool) (bs : List (Backend F64))
      (hits : Dict Text Json)
      → r.cache ≡ none
      → (look_up f wire clock r c use_cache bs hits).1 ≡ hits
  unfolding look_up
  look_up-uncached r c use_cache [] hits h = refl
  look_up-uncached r c use_cache (b ∷ bs) hits h =
      let found = cache_get f wire clock r.cache use_cache b.id c.list r.principal (clock r.sent) in
      let (still, missed) =
        get-uncached r.cache use_cache b.id c.list r.principal (clock r.sent) h in
      rw (look_up, missed)
        (look_up-uncached (record r { cache = found.0 }) c use_cache bs hits still)
