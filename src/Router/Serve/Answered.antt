-- ===== src/Router/Serve/Answered.antt =====
-- The route loop answers a request under the request's own id, or its end is an error.
use rust_yamp.Prelude.{◌≡◌, Bool, true, false, Option, none, some, List, Text, Bytes, ok, err}
use rust_yamp.Json.{Json}
use rust_yamp.Json
use rust_yamp.Float.{Float}
use rust_yamp.Router.{Awaited, io, never, Sent, Reply, Router, Capability, capabilities}
use rust_yamp.Router.Request.Prompt.{Prompt}
use rust_yamp.Router.Collect.Survives.{Survives}
use rust_yamp.Router.Route.Answered.{Carries}
use rust_yamp.Router.Serve.{find_call, spawn_pooled_call, is_local_call}

-- A refusal, if there is one, carries the id.
abbrev Refuses : Json → Option Json → Type 0
Refuses id none = Unit {0}
Refuses id (some v) = Carries id v

-- What one message comes to: a response under its id, nothing yet where the pool took the call, or a
-- failure of a router that is not resilient, and no endless wait.
abbrev pub Responds : {A : Type 0} → Bool → Json → (A → Type 0) → A × Awaited (Option Json) → Type 0
Responds resilient id pooled (r, err (io e)) = resilient ≡ false
Responds resilient id pooled (r, err never) = ⊥
Responds resilient id pooled (r, ok none) = pooled r
Responds resilient id pooled (r, ok (some v)) = Carries id v

module _ (f : Float) (wire : List Sent → Sent → Reply) (clock : List Sent → f.F64)
    (encode : Json → Bytes) (decode : Bytes → Option Json) (validates : Json → Json → Option Bool)
    (render : List Text → Text) (lower : Text → Text) (debug : Text → Text)
    (id_key : Json → Text) where
  open f use {F64}

  -- The pool took the call: it is one of a local handler, and its task is spawned, under its id.
  abbrev pub Pooled : Router F64 → Json → Json → Option Text → Router F64 → Type 0
  Pooled r message id method r' =
      (r.pool_enabled ≡ true)
      × ((c : Capability) × (find_call capabilities method ≡ some c)
          × (is_local_call f wire clock encode decode validates render lower debug id_key r message
                c
              ≡ true))
      × (r'
          ≡ spawn_pooled_call f wire clock encode decode validates render lower debug id_key r
              message id)

  abbrev Beside :
      Bool → Json → (Router F64 → Type 0) → Option (Router F64 × Awaited (Option Json)) → Type 0
  Beside resilient id pooled none = Unit {0}
  Beside resilient id pooled (some x) = Responds resilient id pooled x
