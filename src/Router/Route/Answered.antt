-- ===== src/Router/Route/Answered.antt =====
-- Whatever a task request or a subscription comes to, an answer carries the request's id.
use rust_yamp.Prelude.{
  ◌≡◌, refl, false, ◌∙◌, sym, Bool, ◌&&◌, Option, none, some, List, Text, ascii, text_eq, text_lt,
  All, ok, err, map_or_all, if_all,
}
use rust_yamp.Json.{
  Json, Map, object, string, array, insert, lookup, extend, index, as_str, get_str, of_list,
  json_object,
}
use rust_yamp.Json
use rust_yamp.Float.{Float}
use rust_yamp.Tasks.{namespace_task_id, resolve_task}
use rust_yamp.Tasks
use rust_yamp.Dict.{text_key}
use rust_yamp.Router.{
  Awaited, io, never, Backend, Sent, Reply, Router, result_response, error_response,
}
use rust_yamp.Router.Local.{named}
use rust_yamp.Router.Collect.Survives.{unless_resilient}
use rust_yamp.Router.Route.{
  answer, admitted, relayed, forward_to, serve_local_task, route_task, subscribe_local,
  route_subscription, traced_params, owner, task_at, subscription_at,
}
use rust_yamp.Router.Request.{request_of, replace_backend}
use rust_yamp.Router.Request.Prompt.{
  Ends, Prompt, Asked, request_of-Ends, admitted-Prompt, owner-Asked, first-Asked,
}

-- A response carries the id; an error of the router ends the session without one.
abbrev pub Carries : Json → Json → Type 0
Carries id v = Json.get v (ascii "id") ≡ some id

-- An answer under the id, or a failure of a router that is not resilient, and no endless wait.
abbrev pub Answers {ℓ} : {A : Type ℓ} → Bool → Json → A × Awaited Json → Type 0
Answers resilient id (r, err (io e)) = resilient ≡ false
Answers resilient id (r, err never) = ⊥
Answers resilient id (r, ok v) = Carries id v

pub result_response-Carries : (id v : Json) → Carries id (result_response id v)
unfolding result_response Json.get lookup insert extend text_eq text_lt
result_response-Carries id v = refl

pub error_response-Carries : (id v : Json) → Carries id (error_response id v)
unfolding error_response Json.get lookup insert extend text_eq text_lt
error_response-Carries id v = refl

pub answer-Carries :
    (trace : Bool) (id v : Json) (adapt : Json → Json) → Carries id (answer trace id v adapt)
unfolding answer
answer-Carries trace id v adapt =
    map_or_all (Carries id) (Json.get v (ascii "result")) _ _ (error_response-Carries id _)
      (λ result. result_response-Carries id _)

module _ (f : Float) (wire : List Sent → Sent → Reply) (clock : List Sent → f.F64) where
  open f use {F64}

  relayed-Answers :
      (flag : Bool) (id : Json) (bid : Text) (adapt : Json → Json) (x : Router F64 × Awaited Json)
      → x.0.resilient ≡ flag
      → Ends x.1
      → Answers flag id (relayed f wire clock id bid adapt x)
  unfolding relayed
  relayed-Answers flag id bid adapt (r, err never) h e = e
  relayed-Answers flag id bid adapt (r, ok v) h u = answer-Carries r.trace id v adapt
  relayed-Answers flag id bid adapt (r, err (io e)) h u =
      unless_resilient (Answers flag id) r.resilient _ _ (error_response-Carries id _)
        (λ off. sym h ∙ off)

  pub admitted-resilient :
      (r : Router F64) (b : Backend F64) → (admitted f wire clock r b).0.resilient ≡ r.resilient
  unfolding admitted replace_backend
  admitted-resilient r b =
      if_all (λ (x : Router F64 × Backend F64 × Bool). x.0.resilient ≡ r.resilient) r.resilient _ _
        refl refl

  forward_to-Answers :
      (r : Router F64) (message id : Json) (method field : Text) (adapt : Text → Json → Json)
      (target : Backend F64 × Text)
      → Prompt f wire clock target.0
      → Answers r.resilient id (forward_to f wire clock r message id method field adapt target)
  unfolding forward_to request_of replace_backend traced_params
  forward_to-Answers r message id method field adapt (b, original) p =
      let (r1, b1, allowed) = admitted f wire clock r b in
      let (r2, params) = traced_params f wire clock r1 message field original in
      if_all (Answers r.resilient id) allowed _ _
        (relayed-Answers r.resilient id b1.id (adapt b1.id)
          (request_of f wire clock r2 b1 method params) (admitted-resilient r b)
          (request_of-Ends f wire clock r2 b1 method params (admitted-Prompt f wire clock r b p)))
        (error_response-Carries id _)

  serve_local_task-Carries :
      (r : Router F64) (id : Json) (method task_id : Text)
      → Carries id (serve_local_task f wire clock r id method task_id).1
  unfolding serve_local_task
  serve_local_task-Carries r id method task_id = result_response-Carries id _

  task_at-Answers :
      (r : Router F64) (message id : Json) (method task_id : Text)
      (target : Option (Backend F64 × Text))
      → Asked f wire clock target
      → Answers r.resilient id (task_at f wire clock r message id method task_id target)
  task_at-Answers r message id method task_id none p = error_response-Carries id _
  task_at-Answers r message id method task_id (some target) p =
      forward_to-Answers r message id method (ascii "taskId")
        (λ bid result. namespace_task_id result bid) target p

  pub route_task-Answers :
      (r : Router F64) (message id : Json) (method : Text)
      → All (Prompt f wire clock) r.backends
      → Answers r.resilient id (route_task f wire clock r message id method)
  unfolding route_task
  route_task-Answers r message id method ps =
      let task_id = named message (ascii "taskId") in
      if_all (Answers r.resilient id) (r.server_tasks && Tasks.contains r.tasks_store task_id) _ _
        (serve_local_task-Carries r id method task_id)
        (task_at-Answers r message id method task_id (owner f wire clock r (resolve_task task_id))
          (owner-Asked f wire clock r (resolve_task task_id) ps))

  subscribe_local-Answers :
      (r : Router F64) (id : Json) (method uri : Text)
      → Answers r.resilient id (subscribe_local f wire clock r id method uri)
  unfolding subscribe_local
  subscribe_local-Answers r id method uri =
      if_all (Answers r.resilient id) r.subscriptions_enabled _ _ (result_response-Carries id _)
        (error_response-Carries id _)

  subscription_at-Answers :
      (r : Router F64) (message id : Json) (method uri : Text)
      (target : Option (Backend F64 × Text))
      → Asked f wire clock target
      → Answers r.resilient id (subscription_at f wire clock r message id method uri target)
  subscription_at-Answers r message id method uri none p = subscribe_local-Answers r id method uri
  subscription_at-Answers r message id method uri (some target) p =
      forward_to-Answers r message id method (ascii "uri") (λ bid result. result) target p

  pub route_subscription-Answers :
      (r : Router F64) (message id : Json) (method : Text)
      → All (Prompt f wire clock) r.backends
      → Answers r.resilient id (route_subscription f wire clock r message id method)
  unfolding route_subscription
  route_subscription-Answers r message id method ps =
      subscription_at-Answers r message id method (named message (ascii "uri")) _ (
        if_all (Asked f wire clock) r.single _ _ (first-Asked f wire clock r.backends _ ps)
          (owner-Asked f wire clock r _ ps))
