-- ===== src/Router/Request/Prompt.antt =====
-- A request of src/router.rs comes to an end where its backend has a time-out or is not silent.
use rust_yamp.Prelude.{
  ℕ, ◌≡◌, ◌≢◌, refl, Bool, Option, none, some, List, [], ◌∷◌, Text, text_eq, ok, err, if_all, All,
  ◌>>=◌,
}
use rust_yamp.Json.{Json}
use rust_yamp.Float.{Float}
use rust_yamp.Router.{
  Backend, Sent, Reply, send_failed, answered, silent, disconnected, Router, Awaited, io, never,
}
use rust_yamp.Router.Request.{
  available, settle, unanswered, outgoing, request, request_of, find_backend, replace,
}
use rust_yamp.Router.Route.{owner, first_backend, admitted}

-- It ends, with a value or with an error.
abbrev pub Ends {ℓ} : {A : Type ℓ} → Awaited A → Type 0
Ends (ok a) = Unit {0}
Ends (err (io e)) = Unit {0}
Ends (err never) = ⊥

module _ (f : Float) (wire : List Sent → Sent → Reply) (clock : List Sent → f.F64) where
  open f use {F64}

  -- A backend that has no time-out is not silent.
  abbrev pub Prompt : Backend F64 → Type 0
  Prompt b =
      (sent : List Sent) (m : Sent) → m.backend ≡ b.id → b.timeout ≡ none → wire sent m ≢ silent

  unanswered-Ends :
      (b : Backend F64) (mid : Text) (now : F64) (timeout : Option ℕ)
      → timeout ≢ none
      → Ends (unanswered f b mid now timeout).1
  unfolding unanswered
  unanswered-Ends b mid now none h = h refl
  unanswered-Ends b mid now (some d) h = tt

  unanswered-Prompt :
      (b : Backend F64) (mid : Text) (now : F64) (timeout : Option ℕ)
      → Prompt b
      → Prompt (unanswered f b mid now timeout).0
  unfolding unanswered
  unanswered-Prompt b mid now none p = p
  unanswered-Prompt b mid now (some d) p = p

  settle-Ends :
      (b : Backend F64) (mid : Text) (now : F64) (reply : Reply)
      → (b.timeout ≡ none → reply ≢ silent)
      → Ends (settle f b mid now reply).1
  unfolding settle
  settle-Ends b mid now (send_failed e) h = tt
  settle-Ends b mid now (answered message) h = tt
  settle-Ends b mid now disconnected h = tt
  settle-Ends b mid now silent h = unanswered-Ends b mid now b.timeout (λ e. h e refl)

  settle-Prompt :
      (b : Backend F64) (mid : Text) (now : F64) (reply : Reply)
      → Prompt b
      → Prompt (settle f b mid now reply).0
  unfolding settle
  settle-Prompt b mid now (send_failed e) p = p
  settle-Prompt b mid now (answered message) p = p
  settle-Prompt b mid now disconnected p = p
  settle-Prompt b mid now silent p = unanswered-Prompt b mid now b.timeout p

  pub request-Ends :
      (b : Backend F64) (sent : List Sent) (method : Text) (params : Json)
      → Prompt b
      → Ends (request f wire clock b sent method params).2
  unfolding request outgoing
  request-Ends b sent method params p = settle-Ends _ _ _ _ (p sent _ refl)

  pub request-Prompt :
      (b : Backend F64) (sent : List Sent) (method : Text) (params : Json)
      → Prompt b
      → Prompt (request f wire clock b sent method params).0
  unfolding request
  request-Prompt b sent method params p = settle-Prompt _ _ _ _ p

  pub request_of-Ends :
      (r : Router F64) (b : Backend F64) (method : Text) (params : Json)
      → Prompt b
      → Ends (request_of f wire clock r b method params).1
  unfolding request_of
  request_of-Ends r b method params p = request-Ends b r.sent method params p

  pub replace-Prompt :
      (bs : List (Backend F64)) (b : Backend F64)
      → All Prompt bs
      → Prompt b
      → All Prompt (replace f wire clock bs b)
  unfolding replace
  replace-Prompt [] b ps p = tt
  replace-Prompt (c ∷ cs) b (q, qs) p =
      if_all (All Prompt) (text_eq c.id b.id) _ _ (p, qs) (q, replace-Prompt cs b qs p)

  -- The backend that is asked, if there is one.
  abbrev pub Asked : Option (Backend F64 × Text) → Type 0
  Asked none = Unit {0}
  Asked (some (b, original)) = Prompt b

  found-Asked :
      (bs : List (Backend F64)) (bid original : Text)
      → All Prompt bs
      → Asked (find_backend f wire clock bs bid >>= λ b. some (b, original))
  unfolding find_backend
  found-Asked [] bid original ps = tt
  found-Asked (b ∷ bs) bid original (p, ps) =
      if_all (λ (o : Option (Backend F64)). Asked (o >>= λ c. some (c, original)))
        (text_eq b.id bid) _ _ p (found-Asked bs bid original ps)

  pub owner-Asked :
      (r : Router F64) (resolved : Option (Text × Text))
      → All Prompt r.backends
      → Asked (owner f wire clock r resolved)
  owner-Asked r none ps = tt
  owner-Asked r (some (bid, original)) ps = found-Asked r.backends bid original ps

  pub first-Asked :
      (bs : List (Backend F64)) (value : Text)
      → All Prompt bs
      → Asked (first_backend f wire clock bs value)
  first-Asked [] value ps = tt
  first-Asked (b ∷ bs) value (p, ps) = p

  pub admitted-Prompt :
      (r : Router F64) (b : Backend F64) → Prompt b → Prompt (admitted f wire clock r b).1
  unfolding admitted available
  admitted-Prompt r b p =
      if_all (λ (x : Router F64 × Backend F64 × Bool). Prompt x.1) r.resilient _ _ p p
