-- ===== src/Router/Route.antt =====
-- `route_task` and `route_subscription` of src/router.rs, what they share with `route_call`, and the
-- tasks that the router serves itself.
pub mod Answered
pub mod Reached
use rust_yamp.Prelude.{
  ℕ, ◌+◌, Bool, true, false, not, ◌&&◌, ◌||◌, Option, none, some, List, [], ◌∷◌, ◌++◌, map, Text,
  Bytes, ascii, text_eq, Result, ok, err, if◌then◌else◌, ◌>>=◌, unwrap_or, is_some, map_or,
}
use rust_yamp.Json.{
  Json, Map, null, string, array, object, empty, of_list, get_str, as_str, index, json_object,
}
use rust_yamp.Json
use rust_yamp.Float.{Float}
use rust_yamp.Namespace.{split}
use rust_yamp.Capability.{search_tools}
use rust_yamp.Handler.{Registry, handler_for}
use rust_yamp.Filters.{Filter}
use rust_yamp.Filters
use rust_yamp.Signing.{attestation_record, outcome_record}
use rust_yamp.Tasks.{
  is_text, is_task_result, namespace_task_id, resolve_task, task_handle, status_failed,
}
use rust_yamp.Tasks
use rust_yamp.Subscriptions.{subscribe, unsubscribe}
use rust_yamp.Dict.{Dict, text_key}
use rust_yamp.Dict
use rust_yamp.Router.{
  Awaited, Failure, io, never, Backend, Sent, Reply, Router, Capability, tools, resources, resolve,
  put, get_or_empty, apply_trace, trace_request, result_response, error_response, fail_with,
  error_value,
}
use rust_yamp.Errors.{minus}
use rust_yamp.Router.Request.{available, find_backend, replace_backend, request_of}
use rust_yamp.Router.Local.{
  DispatchOpts, param, named, arguments_of, is_block, dispatch_local, record_audit,
}
use rust_yamp.Router.Collect.{collect}
use rust_yamp.Router.Listing.{Query, Collected}
use rust_yamp.Router.Aggregate.{field_names}

-- The answer for what a backend answered: its result, or its error.
unfoldable pub answer : Bool → Json → Json → (Json → Json) → Json
unfolding result_response error_response apply_trace
answer trace id response adapt =
    map_or (Json.get response (ascii "result"))
      (error_response id (
        unwrap_or (Json.get response (ascii "error"))
          (error_value (minus 32603) (ascii "backend error"))))
      (λ result. result_response id (apply_trace trace (adapt result)))

module _ (f : Float) (wire : List Sent → Sent → Reply) (clock : List Sent → f.F64) where
  open f use {F64}

  -- The backend that a resolved pair names, and the backend's own name.
  abbrev pub owner : Router F64 → Option (Text × Text) → Option (Backend F64 × Text)
  owner r resolved = do
    (bid, original) ← resolved
    b ← find_backend f wire clock r.backends bid
    some (b, original)

  -- `(0usize, value)` of a single backend.
  abbrev pub first_backend : List (Backend F64) → Text → Option (Backend F64 × Text)
  first_backend [] value = none
  first_backend (b ∷ bs) value = some (b, value)

  abbrev pub unavailable_response : Json → Text → Json
  unavailable_response id bid = fail_with id 32003 (ascii "backend unavailable: " ++ bid)

  abbrev pub failed_response : Json → Text → Json
  failed_response id bid = fail_with id 32003 (ascii "backend call failed: " ++ bid)

  -- The admission of a request to its backend: the breaker is asked in resilient mode only.
  unfoldable pub admitted : Router F64 → Backend F64 → Router F64 × Backend F64 × Bool
  admitted r b =
      let (b', allowed) = available f b (clock r.sent) in
      if r.resilient then (replace_backend f wire clock r b', b', allowed) else (r, b, true)

  -- The parameters of a forwarded request: the backend's own name, and the hop.
  unfoldable pub traced_params : Router F64 → Json → Text → Text → Router F64 × Json
  unfolding trace_request
  traced_params r message field original =
      let (counter, params) =
        trace_request r.trace r.counter
          (put (get_or_empty message (ascii "params")) field (string original)) in
      (record r { counter = counter }, params)

  -- The outcome of a request that is not audited.
  unfoldable pub relayed :
      Json → Text → (Json → Json) → Router F64 × Awaited Json → Router F64 × Awaited Json
  unfolding answer
  relayed id bid adapt (r, ok response) = (r, ok (answer r.trace id response adapt))
  relayed id bid adapt (r, err never) = (r, err never)
  relayed id bid adapt (r, err (io e)) =
      if r.resilient then (r, ok (failed_response id bid)) else (r, err (io e))

  -- `route_task` and `route_subscription` at their backend.
  unfoldable pub forward_to :
      Router F64
      → Json
      → Json
      → Text
      → Text
      → (Text → Json → Json)
      → Backend F64 × Text
      → Router F64 × Awaited Json
  unfolding admitted traced_params relayed request_of
  forward_to r message id method field adapt (b, original) =
      let (r1, b1, allowed) = admitted r b in
      let (r2, params) = traced_params r1 message field original in
      let done = relayed id b1.id (adapt b1.id) (request_of f wire clock r2 b1 method params) in
      if allowed then done else (r1, ok (unavailable_response id b.id))

  -- `serve_local_task`.
  unfoldable pub serve_local_task : Router F64 → Json → Text → Text → Router F64 × Json
  unfolding result_response apply_trace
  serve_local_task r id method task_id =
      let r' =
        if text_eq method (ascii "tasks/cancel")
        then record r {
          task_handles = Dict.remove r.task_handles task_id;
          tasks_store = (Tasks.cancel r.tasks_store task_id).0;
        }
        else r in
      let item =
        unwrap_or (Tasks.get r'.tasks_store task_id)
          (json_object ((ascii "status", string status_failed) ∷ [])) in
      (
        r',
        result_response id (
            apply_trace r.trace (
              task_handle task_id (unwrap_or (get_str item (ascii "status")) status_failed)
                (Json.get item (ascii "result")) (Json.get item (ascii "error")))),
      )

  abbrev pub task_at :
      Router F64
      → Json
      → Json
      → Text
      → Text
      → Option (Backend F64 × Text)
      → Router F64 × Awaited Json
  task_at r message id method task_id none =
      (r, ok (fail_with id 32602 (ascii "unknown task: " ++ task_id)))
  task_at r message id method task_id (some target) =
      forward_to r message id method (ascii "taskId") (λ bid result. namespace_task_id result bid)
        target

  unfoldable pub route_task : Router F64 → Json → Json → Text → Router F64 × Awaited Json
  unfolding named resolve_task forward_to
  route_task r message id method =
      let task_id = named message (ascii "taskId") in
      let (r', own) = serve_local_task r id method task_id in
      if r.server_tasks && Tasks.contains r.tasks_store task_id
      then (r', ok own)
      else task_at r message id method task_id (owner r (resolve_task task_id))

  -- A URI that no backend owns.
  unfoldable pub subscribe_local : Router F64 → Json → Text → Text → Router F64 × Awaited Json
  unfolding result_response apply_trace
  subscribe_local r id method uri =
      let changed =
        if text_eq method (ascii "resources/subscribe")
        then subscribe r.subscriptions uri
        else (unsubscribe r.subscriptions uri).0 in
      if r.subscriptions_enabled
      then (
        record r { subscriptions = changed },
        ok (result_response id (apply_trace r.trace (object empty))),
      )
      else (r, ok (fail_with id 32602 (ascii "unknown resource: " ++ uri)))

  abbrev pub subscription_at :
      Router F64
      → Json
      → Json
      → Text
      → Text
      → Option (Backend F64 × Text)
      → Router F64 × Awaited Json
  subscription_at r message id method uri none = subscribe_local r id method uri
  subscription_at r message id method uri (some target) =
      forward_to r message id method (ascii "uri") (λ bid result. result) target

  unfoldable pub route_subscription : Router F64 → Json → Json → Text → Router F64 × Awaited Json
  unfolding named resolve resources forward_to subscribe_local
  route_subscription r message id method =
      let uri = named message (ascii "uri") in
      subscription_at r message id method uri
        (if r.single then first_backend r.backends uri else owner r (resolve resources.kind uri))
