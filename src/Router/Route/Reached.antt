-- ===== src/Router/Route/Reached.antt =====
-- Whom the router writes to for a task request or a subscription: the owner of the name, once, or
-- nobody.
use rust_yamp.Prelude.{
  ◌≡◌, refl, sym, ap, ◌∙◌, ◌⊎◌, inl, inr, Bool, true, false, ◌&&◌, Option, none, some, List, [],
  ◌∷◌, ◌++◌, Text, ascii, text_eq, eq_of_text_eq, ok, err, ◌>>=◌, unwrap_or, if◌then◌else◌, if_all,
  Bool-cases, Option-cases, some_injective,
}
use rust_yamp.Json.{Json, as_str}
use rust_yamp.Float.{Float}
use rust_yamp.Namespace.{split}
use rust_yamp.Tasks.{resolve_task, namespace_task_id}
use rust_yamp.Tasks
use rust_yamp.Router.{Awaited, io, never, Backend, Sent, Reply, Router}
use rust_yamp.Router.Request.{find_backend, request_of, outgoing, available, replace_backend}
use rust_yamp.Router.Local.{named, param}
use rust_yamp.Router.Route.{
  admitted, traced_params, relayed, forward_to, owner, task_at, route_task, serve_local_task,
  subscribe_local, subscription_at,
}

-- At most one message is written, and it is for the given backend.
abbrev pub Writes : List Sent → List Sent → Text → Type 0
Writes sent sent' bid =
    (sent' ≡ sent) ⊎ ((m : Json) × (sent' ≡ sent ++ record { backend = bid; message = m } ∷ []))

-- The same, for the backend of a resolved name.
abbrev pub WritesOwner : List Sent → List Sent → Option (Text × Text) → Type 0
WritesOwner sent sent' none = sent' ≡ sent
WritesOwner sent sent' (some (bid, original)) = Writes sent sent' bid

pub unwritten :
    (sent sent' : List Sent) (o : Option (Text × Text)) → sent' ≡ sent → WritesOwner sent sent' o
unwritten sent sent' none h = h
unwritten sent sent' (some (bid, original)) h = inl h

pub else_all {ℓ κ} :
    {A : Type ℓ} (P : A → Type κ) (b : Bool) (x y : A) → b ≡ false → P y → P (if b then x else y)
else_all P true x y e p = absurd (cc)
else_all P false x y e p = p

pub and_false : (a b : Bool) → b ≡ false → (a && b) ≡ false
and_false true b h = h
and_false false b h = refl

pub false_and : (a b c : Bool) → a ≡ false → (a && b && c) ≡ false
false_and true b c h = absurd (cc)
false_and false b c h = refl

pub same_field :
    (m message : Json) (field : Text)
    → param m field ≡ param message field
    → named m field ≡ named message field
unfolding named
same_field m message field h = ap (λ o. unwrap_or (o >>= as_str) []) h

module _ (f : Float) (wire : List Sent → Sent → Reply) (clock : List Sent → f.F64) where
  open f use {F64}

  find_backend-id :
      (bs : List (Backend F64)) (bid : Text) (b : Backend F64)
      → find_backend f wire clock bs bid ≡ some b
      → b.id ≡ bid
  unfolding find_backend
  find_backend-id [] bid b h = absurd (cc)
  find_backend-id (x ∷ bs) bid b h = elim (Bool-cases (text_eq x.id bid)) [
    | inl e ↦
        ap (λ (y : Backend F64). y.id) (sym (some_injective (rw e at h))) ∙ eq_of_text_eq x.id bid e
    | inr e ↦ find_backend-id bs bid b (rw e at h)
  ]

  pub admitted-quiet :
      (r : Router F64) (b : Backend F64)
      → ((admitted f wire clock r b).0.sent ≡ r.sent) × ((admitted f wire clock r b).1.id ≡ b.id)
  unfolding admitted available replace_backend
  admitted-quiet r b =
      if_all (λ (x : Router F64 × Backend F64 × Bool). (x.0.sent ≡ r.sent) × (x.1.id ≡ b.id))
        r.resilient _ _ (refl, refl) (refl, refl)

  relayed-quiet :
      (id : Json) (bid : Text) (adapt : Json → Json) (x : Router F64 × Awaited Json)
      → (relayed f wire clock id bid adapt x).0.sent ≡ x.0.sent
  unfolding relayed
  relayed-quiet id bid adapt (r, ok v) = refl
  relayed-quiet id bid adapt (r, err never) = refl
  relayed-quiet id bid adapt (r, err (io e)) =
      if_all (λ (x : Router F64 × Awaited Json). x.0.sent ≡ r.sent) r.resilient _ _ refl refl

  request_of-sent :
      (r : Router F64) (b : Backend F64) (method : Text) (params : Json)
      → (request_of f wire clock r b method params).0.sent
        ≡ r.sent ++ outgoing f wire clock b method params ∷ []
  unfolding request_of
  request_of-sent r b method params = refl

  pub traced-quiet :
      (r : Router F64) (message : Json) (field original : Text)
      → (traced_params f wire clock r message field original).0.sent ≡ r.sent
  unfolding traced_params
  traced-quiet r message field original = refl

  outgoing-backend :
      (b : Backend F64) (method : Text) (params : Json)
      → (outgoing f wire clock b method params).backend ≡ b.id
  unfolding outgoing
  outgoing-backend b method params = refl

  -- A request that is made after admission.
  pub requested-Writes :
      (r : Router F64) (b : Backend F64) (r' : Router F64) (method : Text) (params : Json)
      → r'.sent ≡ r.sent
      → Writes r.sent
          (request_of f wire clock r' (admitted f wire clock r b).1 method params).0.sent
          b.id
  requested-Writes r b r' method params same =
      let b' = (admitted f wire clock r b).1 in
      let m = outgoing f wire clock b' method params in
      inr (
        m.message,
        request_of-sent r' b' method params
            ∙ ap (λ s. s ++ m ∷ []) same
            ∙ ap (λ i. r.sent ++ record { backend = i; message = m.message } ∷ [])
                (outgoing-backend b' method params ∙ (admitted-quiet r b).1),
      )

  forward_to-Writes :
      (r : Router F64) (message id : Json) (method field : Text) (adapt : Text → Json → Json)
      (b : Backend F64) (original : Text)
      → Writes r.sent
          (forward_to f wire clock r message id method field adapt (b, original)).0.sent
          b.id
  unfolding forward_to
  forward_to-Writes r message id method field adapt b original =
      let (r1, b1, allowed) = admitted f wire clock r b in
      let (r2, params) = traced_params f wire clock r1 message field original in
      let quiet = (admitted-quiet r b).0 in
      if_all (λ (x : Router F64 × Awaited Json). Writes r.sent x.0.sent b.id) allowed
        (relayed f wire clock id b1.id (adapt b1.id) (request_of f wire clock r2 b1 method params))
        _
        (rw (relayed-quiet id b1.id (adapt b1.id) (request_of f wire clock r2 b1 method params))
          (requested-Writes r b r2 method params (traced-quiet r1 message field original ∙ quiet)))
        (inl quiet)

  -- The owner of a resolved name is the backend of that id.
  pub owner-cases :
      (r : Router F64) (resolved : Option (Text × Text))
      → (owner f wire clock r resolved ≡ none)
        ⊎ ((b : Backend F64) × (original : Text) × (owner f wire clock r resolved
              ≡ some (b, original))
            × (resolved ≡ some (b.id, original)))
  owner-cases r none = inl refl
  owner-cases r (some (bid, original)) =
      elim (Option-cases (find_backend f wire clock r.backends bid)) [
        | inl e ↦ inl (rw e refl)
        | inr (b, e) ↦ inr (
          b,
          original,
          rw e refl,
          ap (λ i. some (i, original)) (sym (find_backend-id r.backends bid b e)),
        )
      ]

  task_at-WritesOwner :
      (r : Router F64) (message id : Json) (method task_id : Text) (resolved : Option (Text × Text))
      → WritesOwner r.sent
          (task_at f wire clock r message id method task_id (owner f wire clock r resolved)).0.sent
          resolved
  task_at-WritesOwner r message id method task_id resolved = elim (owner-cases r resolved) [
    | inl e ↦ rw e (unwritten r.sent r.sent resolved refl)
    | inr (b, original, e, q) ↦
        rw (e, q)
          (forward_to-Writes r message id method (ascii "taskId")
            (λ bid result. namespace_task_id result bid) b original)
  ]

  serve_local_task-quiet :
      (r : Router F64) (id : Json) (method task_id : Text)
      → (serve_local_task f wire clock r id method task_id).0.sent ≡ r.sent
  unfolding serve_local_task
  serve_local_task-quiet r id method task_id =
      if_all (λ (x : Router F64). x.sent ≡ r.sent) (text_eq method (ascii "tasks/cancel")) _ _ refl
        refl

  -- A request about a task is at most one message, to the backend that the task's id names; about a
  -- task of the router itself, or of no backend, nothing is written.
  route_task-WritesOwner :
      (r : Router F64) (message id : Json) (method : Text)
      → WritesOwner r.sent
          (route_task f wire clock r message id method).0.sent
          (split (named message (ascii "taskId")))
  unfolding route_task
  route_task-WritesOwner r message id method =
      let task_id = named message (ascii "taskId") in
      if_all (λ (x : Router F64 × Awaited Json). WritesOwner r.sent x.0.sent (split task_id))
        (r.server_tasks && Tasks.contains r.tasks_store task_id) _ _
        (unwritten r.sent _ (split task_id) (serve_local_task-quiet r id method task_id))
        (task_at-WritesOwner r message id method task_id (split task_id))

  subscribe_local-quiet :
      (r : Router F64) (id : Json) (method uri : Text)
      → (subscribe_local f wire clock r id method uri).0.sent ≡ r.sent
  unfolding subscribe_local
  subscribe_local-quiet r id method uri =
      if_all (λ (x : Router F64 × Awaited Json). x.0.sent ≡ r.sent) r.subscriptions_enabled _ _ refl
        refl

  subscription_at-WritesOwner :
      (r : Router F64) (message id : Json) (method uri : Text) (resolved : Option (Text × Text))
      → WritesOwner r.sent
          (subscription_at f wire clock r message id method uri
            (owner f wire clock r resolved)).0.sent
          resolved
  subscription_at-WritesOwner r message id method uri resolved = elim (owner-cases r resolved) [
    | inl e ↦ rw e (unwritten r.sent _ resolved (subscribe_local-quiet r id method uri))
    | inr (b, original, e, q) ↦
        rw (e, q)
          (forward_to-Writes r message id method (ascii "uri") (λ bid result. result) b original)
  ]
