-- ===== src/Router/Serve.antt =====
-- `route_loop` of src/router.rs: what one message of the client does, and the calls and tasks that run
-- beside the loop, each from its start to its end. `now_ms` is the wall clock's reading.
pub mod Answered
pub mod Finished
use rust_yamp.Prelude.{
  ℕ, Bool, true, false, not, ◌&&◌, ◌||◌, Option, none, some, List, [], ◌∷◌, ◌++◌, map, Text, Bytes,
  ascii, text_eq, Result, ok, err, if◌then◌else◌, ◌>>=◌, unwrap_or, is_some, map_or,
}
use rust_yamp.Prelude.Sort.{elem}
use rust_yamp.Json.{Json, null, string, array, object, number, empty, of_list, get_str, json_object}
use rust_yamp.Json
use rust_yamp.JsonRpc.{method_of}
use rust_yamp.Float.{Float}
use rust_yamp.Errors.{minus, error_object}
use rust_yamp.Handler.{handler_for}
use rust_yamp.Pool.{is_method, deadline}
use rust_yamp.Pool
use rust_yamp.Tasks.{is_task_method, is_task_augmented, task_handle, status_working}
use rust_yamp.Tasks
use rust_yamp.Subscriptions.{is_subscribe_method}
use rust_yamp.Variants.{selected_variant}
use rust_yamp.Dict.{Dict, text_key}
use rust_yamp.Dict
use rust_yamp.Router.{
  Awaited, Failure, io, never, Sent, Reply, Router, Capability, capabilities, tools, resolve,
  get_or_empty, apply_trace, result_response, error_response, fail_with,
}
use rust_yamp.Router.Local.{param, run_pooled}
use rust_yamp.Router.Reader.{route_client_reply, forward_client_notification}
use rust_yamp.Router.Listing.{Query}
use rust_yamp.Router.Aggregate.{aggregate}
use rust_yamp.Router.Local.{named}
use rust_yamp.Router.Call.{opts_of, route_call}
use rust_yamp.Router.Route.{route_task, route_subscription}

unfoldable pub unknown_variant : Json → List Text → Text → Json
unknown_variant id variants variant = error_response id (
    json_object (
      (ascii "code", number (minus 32602))
      ∷ (ascii "message", string (ascii "unknown variant: " ++ variant))
      ∷ (
        ascii "data",
        json_object ((ascii "availableVariants", array (of_list (map string variants))) ∷ []),
      )
      ∷ []))

unfoldable pub variant_error : Json → List Text → Option Text → Option Json
unfolding unknown_variant elem
variant_error id variants none = none
variant_error id [] (some variant) =
    some (fail_with id 32602 (ascii "Server variants not supported"))
variant_error id (v ∷ vs) (some variant) =
    if elem variant (v ∷ vs) then none else some (unknown_variant id (v ∷ vs) variant)

-- `CAPABILITIES.iter().find(|c| Some(c.call) == method)`, and the same by `list`.
unfoldable pub find_call : List Capability → Option Text → Option Capability
unfolding is_method
find_call [] method = none
find_call (c ∷ cs) method = if is_method method c.call then some c else find_call cs method

unfoldable pub find_list : List Capability → Option Text → Option Capability
unfolding is_method
find_list [] method = none
find_list (c ∷ cs) method = if is_method method c.list then some c else find_list cs method

module _ (f : Float) (wire : List Sent → Sent → Reply) (clock : List Sent → f.F64)
    (encode : Json → Bytes) (decode : Bytes → Option Json) (validates : Json → Json → Option Bool)
    (render : List Text → Text) (lower : Text → Text) (debug : Text → Text)
    (id_key : Json → Text) where
  open f use {F64}

  -- The resolution is that of the name before the filters.
  unfoldable pub is_local_call : Router F64 → Json → Capability → Bool
  unfolding named resolve
  is_local_call r message c =
      if text_eq c.call (ascii "tools/call")
      then map_or (resolve c.kind (named message c.field)) false
          (λ t. is_some (handler_for r.registry t.0))
      else false

  -- The `progressToken` of a call.
  abbrev pub token_of : Json → Option Text
  token_of message = do
    meta ← param message (ascii "_meta")
    token ← Json.get meta (ascii "progressToken")
    some (id_key token)

  abbrev pub with_token : Dict Text Json → Option Text → Json → Dict Text Json
  with_token tokens none id = tokens
  with_token tokens (some token) id = Dict.insert tokens token id

  abbrev pub without_token : Dict Text Json → Option Text → Dict Text Json
  without_token tokens none = tokens
  without_token tokens (some token) = Dict.remove tokens token

  -- `spawn_pooled_call`: what it does at once.
  unfoldable pub spawn_pooled_call : Router F64 → Json → Json → Router F64
  spawn_pooled_call r message id = record r {
    pool_tokens = with_token r.pool_tokens (token_of message) id;
    pool_tasks = Dict.insert r.pool_tasks (id_key id) tt;
  }

  -- What its task does once it holds a permit.
  unfoldable pub start_pooled : Router F64 → Json → ℕ → Router F64
  start_pooled r id now_ms = record r {
    inflight = Pool.register id_key r.inflight id (deadline now_ms r.pool_idle_ms);
  }

  abbrev pub idle_error : Json → Json
  idle_error id =
      error_response id (error_object (minus 32603) (some (ascii "call exceeded idle deadline")))

  -- The end of the task: the call ran to its end, or its idle deadline came first, which can only be
  -- where there is one.
  unfoldable pub finish_pooled : Router F64 → Json → Json → Bool → Router F64 × Json
  unfolding run_pooled
  finish_pooled r message id in_time =
      let (audit, response) =
        run_pooled encode validates r.registry r.filter_chain r.audit
          (opts_of f wire clock encode decode validates render lower r) message id in
      (
        record r {
          audit = if in_time then audit else r.audit;
          inflight = (Pool.remove id_key r.inflight id).0;
          pool_tasks = Dict.remove r.pool_tasks (id_key id);
          pool_tokens = without_token r.pool_tokens (token_of message);
        },
        if in_time then response else idle_error id,
      )

  -- `originate_task` with the spawn of its execution.
  unfoldable pub originate_task : Router F64 → Json → Router F64 × Json
  unfolding result_response apply_trace
  originate_task r id =
      let (store, task_id) = Tasks.create r.tasks_store in
      (
        record r { tasks_store = store; task_handles = Dict.insert r.task_handles task_id tt },
        result_response id (apply_trace r.trace (task_handle task_id status_working none none)),
      )

  abbrev pub settled : Tasks.ServerTasks → Text → Json → Option Json → Tasks.ServerTasks
  settled store task_id response (some result) = Tasks.complete store task_id result
  settled store task_id response none = Tasks.fail store task_id (
      unwrap_or (Json.get response (ascii "error"))
        (error_object (minus 32603) (some (ascii "task execution failed"))))

  -- The end of a task's execution.
  unfoldable pub finish_task : Router F64 → Json → Json → Text → Router F64
  unfolding run_pooled
  finish_task r message id task_id =
      let (audit, response) =
        run_pooled encode validates r.registry r.filter_chain r.audit
          (opts_of f wire clock encode decode validates render lower r) message id in
      record r {
        audit = audit;
        tasks_store = settled r.tasks_store task_id response (Json.get response (ascii "result"));
        task_handles = Dict.remove r.task_handles task_id;
      }

  abbrev pub query_of : Json → Query
  query_of params = record {
    list_filter = get_or_empty params (ascii "filter");
    cursor = unwrap_or (Json.get params (ascii "cursor")) null;
    variant = selected_variant params;
  }

  -- The serial dispatch of a request.
  unfoldable pub dispatch : Router F64 → Json → Json → Option Text → Router F64 × Awaited Json
  unfolding is_task_method is_subscribe_method variant_error aggregate find_list find_call
      route_call route_task route_subscription capabilities
  dispatch r message id method =
      let params = get_or_empty message (ascii "params") in
      let q = query_of params in
      let name = unwrap_or method [] in
      let listed : Capability → Router F64 × Awaited Json =
        λ c. aggregate debug encode decode f wire clock r id c q in
      let called : Router F64 × Awaited Json =
        map_or (find_call capabilities method)
          (
            r,
            ok (
                fail_with id 32601
                  (ascii "method not routable: " ++ unwrap_or method (ascii "<none>"))),
          )
          (route_call f wire clock encode decode validates render lower r message id) in
      let routed : Router F64 × Awaited Json =
        map_or (find_list capabilities method) called listed in
      let surfaced : Router F64 × Awaited Json =
        if is_method method (ascii "server/discover") then listed tools else routed in
      let checked : Router F64 × Awaited Json =
        map_or (variant_error id r.variants q.variant) surfaced (λ refusal. (r, ok refusal)) in
      if is_some method && is_task_method name
      then route_task f wire clock r message id name
      else if is_some method && is_subscribe_method name
      then route_subscription f wire clock r message id name
      else checked

  -- The calls that run beside the loop: a task's handle is answered at once, and a pooled call not.
  unfoldable pub run_beside :
      Router F64 → Json → Json → Option Text → Option (Router F64 × Awaited (Option Json))
  unfolding is_local_call spawn_pooled_call originate_task find_call capabilities is_task_augmented
  run_beside r message id method =
      let (r', handle) = originate_task r id in
      let params = get_or_empty message (ascii "params") in
      let beside : Option (Router F64 × Awaited (Option Json)) =
        if r.server_tasks && is_task_augmented params
        then some (r', ok (some handle))
        else if r.pool_enabled
        then some (spawn_pooled_call r message id, ok none)
        else none in
      map_or (if r.server_tasks || r.pool_enabled then find_call capabilities method else none) none
        λ c. if is_local_call r message c then beside else none

  abbrev pub some_response : Router F64 × Awaited Json → Router F64 × Awaited (Option Json)
  some_response (r, err e) = (r, err e)
  some_response (r, ok response) = (r, ok (some response))

  abbrev pub serial_unless :
      Option (Router F64 × Awaited (Option Json))
      → Router F64 × Awaited Json
      → Router F64 × Awaited (Option Json)
  serial_unless (some beside) serial = beside
  serial_unless none serial = some_response serial

  -- What a message with or without an id does; a response that is sent is `some`.
  unfoldable pub with_id :
      Router F64 → ℕ → Json → Option Text → Option Json → Router F64 × Awaited (Option Json)
  unfolding run_beside dispatch
  with_id r now_ms message method none =
      (forward_client_notification f id_key r now_ms message, ok none)
  with_id r now_ms message method (some id) =
      serial_unless (run_beside r message id method) (dispatch r message id method)

  -- One round of the loop.
  unfoldable pub on_message : Router F64 → ℕ → Json → Router F64 × Awaited (Option Json)
  unfolding with_id
  on_message r now_ms message =
      let method = method_of message in
      let id = Json.get message (ascii "id") in
      if not (is_some method) && is_some id
      then (route_client_reply f r message, ok none)
      else with_id r now_ms message method id
