-- ===== src/Router/Call.antt =====
-- `route_call` of src/router.rs.
pub mod Local
pub mod Answered
pub mod Reached
use rust_yamp.Prelude.{
  ℕ, ◌+◌, Bool, true, false, not, ◌&&◌, ◌||◌, Option, none, some, List, [], ◌∷◌, ◌++◌, map, Text,
  Bytes, ascii, text_eq, Result, ok, err, if◌then◌else◌, ◌>>=◌, unwrap_or, is_some, map_or,
}
use rust_yamp.Json.{
  Json, Map, null, string, array, object, empty, of_list, get_str, as_str, index, json_object,
}
use rust_yamp.Json
use rust_yamp.Float.{Float}
use rust_yamp.Namespace.{split}
use rust_yamp.Capability.{search_tools}
use rust_yamp.Handler.{Registry, handler_for}
use rust_yamp.Filters.{Filter}
use rust_yamp.Filters
use rust_yamp.Signing.{attestation_record, outcome_record}
use rust_yamp.Tasks.{
  is_text, is_task_result, namespace_task_id, resolve_task, task_handle, status_failed,
}
use rust_yamp.Tasks
use rust_yamp.Subscriptions.{subscribe, unsubscribe}
use rust_yamp.Dict.{Dict, text_key}
use rust_yamp.Dict
use rust_yamp.Router.{
  Awaited, Failure, io, never, Backend, Sent, Reply, Router, Capability, tools, resources, resolve,
  put, get_or_empty, apply_trace, trace_request, result_response, error_response, fail_with,
  error_value,
}
use rust_yamp.Errors.{minus}
use rust_yamp.Router.Request.{available, find_backend, replace_backend, request_of}
use rust_yamp.Router.Local.{
  DispatchOpts, param, named, arguments_of, is_block, dispatch_local, record_audit,
}
use rust_yamp.Router.Collect.{collect}
use rust_yamp.Router.Listing.{Query, Collected}
use rust_yamp.Router.Aggregate.{field_names}
use rust_yamp.Router.Route.{
  answer, owner, first_backend, unavailable_response, failed_response, admitted, traced_params,
  relayed, forward_to, serve_local_task, task_at, route_task, subscribe_local, subscription_at,
  route_subscription,
}

abbrev pub is_tools_call : Capability → Bool
is_tools_call c = text_eq c.call (ascii "tools/call")

abbrev pub proxy_search_tool : Text
proxy_search_tool = ascii "proxy__search_tools"

-- `overrides.iter().find(|(_, exposed)| exposed == value)`, the namespaced name.
unfoldable pub find_exposed : Dict Text Text → Text → Text
find_exposed [] value = value
find_exposed ((namespaced, exposed) ∷ m) value =
    if text_eq exposed value then namespaced else find_exposed m value

abbrev pub plain_query : Query
plain_query = record { list_filter = object empty; cursor = null; variant = none }

-- What a call's result becomes: the id of a task is namespaced.
unfoldable pub adapt_call : Capability → Text → Json → Json
unfolding is_task_result namespace_task_id
adapt_call c bid result =
    if is_tools_call c && is_task_result result then namespace_task_id result bid else result

module _ (f : Float) (wire : List Sent → Sent → Reply) (clock : List Sent → f.F64) where
  open f use {F64}

  module _ (encode : Json → Bytes) (decode : Bytes → Option Json)
      (validates : Json → Json → Option Bool) (render : List Text → Text)
      (lower : Text → Text) where
    abbrev pub audited : Router F64 → Json → Router F64
    audited r item = record r { audit = record_audit encode validates r.audit item }

    -- The outcome of a forwarded call, with its audit record.
    unfoldable pub call_outcome :
        Json → Capability → Text → Text → Router F64 × Awaited Json → Router F64 × Awaited Json
    unfolding answer adapt_call
    call_outcome id c name bid (r, ok response) = (
      audited r (outcome_record c.call (some name) (is_some (Json.get response (ascii "result")))),
      ok (answer r.trace id response (adapt_call c bid)),
    )
    call_outcome id c name bid (r, err never) = (r, err never)
    call_outcome id c name bid (r, err (io e)) =
        if r.resilient
        then (
          audited r (outcome_record c.call (some name) false),
          ok (failed_response f wire clock id bid),
        )
        else (r, err (io e))

    -- A call at its backend: admission, attestation, the request, its outcome.
    unfoldable pub call_at :
        Router F64
        → Json
        → Json
        → Capability
        → Text
        → Backend F64 × Text
        → Router F64 × Awaited Json
    unfolding admitted traced_params call_outcome request_of
    call_at r message id c value (b, original) =
        let (r1, b1, allowed) = admitted f wire clock r b in
        let (r2, params) = traced_params f wire clock r1 message c.field original in
        let r3 =
          audited r2
            (attestation_record (unwrap_or r.principal (ascii "anonymous")) c.call (some value)) in
        let done = call_outcome id c value b1.id (request_of f wire clock r3 b1 c.call params) in
        if allowed then done else (r1, ok (unavailable_response f wire clock id b.id))

    abbrev pub call_target :
        Router F64
        → Json
        → Json
        → Capability
        → Text
        → Option (Backend F64 × Text)
        → Router F64 × Awaited Json
    call_target r message id c value none =
        (r, ok (fail_with id 32602 (ascii "unknown " ++ (c.field ++ (ascii ": " ++ value)))))
    call_target r message id c value (some target) = call_at r message id c value target

    -- The reverse map of passthrough, warmed by a list where the name is not there yet.
    unfoldable pub warmed : Router F64 → Text → Router F64 × Awaited (Unit {0})
    warmed r value =
        let (r', found) = collect f wire clock encode decode r tools plain_query in
        let after : Router F64 × Awaited (Unit {0}) =
          (r', elim found [ ok l ↦ ok tt | err e ↦ err e ]) in
        if Dict.contains_key r.reverse value then (r, ok tt) else after

    abbrev pub passthrough_at :
        Json
        → Json
        → Capability
        → Text
        → Router F64 × Awaited (Unit {0})
        → Router F64 × Awaited Json
    passthrough_at message id c value (r, err e) = (r, err e)
    passthrough_at message id c value (r, ok warm) =
        call_target r message id c value (owner f wire clock r (Dict.get r.reverse value))

    -- The backend that owns the name, by the strategy, and the call there.
    unfoldable pub route_remote :
        Router F64 → Json → Json → Capability → Text → Router F64 × Awaited Json
    unfolding warmed call_at resolve find_exposed split
    route_remote r message id c value =
        if r.single
        then call_target r message id c value (first_backend f wire clock r.backends value)
        else if is_tools_call c && text_eq r.namespacing.strategy (ascii "manual")
        then call_target r message id c value
            (owner f wire clock r (split (find_exposed r.namespacing.overrides value)))
        else if is_tools_call c && text_eq r.namespacing.strategy (ascii "passthrough")
        then passthrough_at message id c value (warmed r value)
        else call_target r message id c value (owner f wire clock r (resolve c.kind value))

    -- The search meta-tool. `render` prints a list of names.
    abbrev pub searched : Json → Json → Router F64 × Awaited Collected → Router F64 × Awaited Json
    searched message id (r, err e) = (r, err e)
    searched message id (r, ok found) = (
      r,
      ok (
          result_response id (
            apply_trace r.trace (
              json_object (
                (
                  ascii "content",
                  array (
                      of_list (
                        json_object (
                          (ascii "type", string (ascii "text"))
                          ∷ (
                            ascii "text",
                            string (
                                render (
                                  field_names tools (
                                    search_tools lower
                                      (unwrap_or
                                        (param message (ascii "arguments") >>= λ a.
                                          get_str a (ascii "query"))
                                        [])
                                      found.items))),
                          )
                          ∷ [])
                        ∷ [])),
                )
                ∷ [])))),
    )

    unfoldable pub opts_of : Router F64 → DispatchOpts
    opts_of r = record {
      validate = r.validate_schemas;
      trace = r.trace;
      output_limit = r.output_limit;
    }

    -- The handler that a resolved name finds here.
    abbrev pub local_target : Registry → Option (Text × Text) → Option (Text × Text)
    local_target registry none = none
    local_target registry (some (bid, original)) =
        if is_some (handler_for registry bid) then some (bid, original) else none

    -- The `tools/call` of a local handler, or the remote call.
    abbrev pub local_or_remote :
        Router F64
        → Json
        → Json
        → Capability
        → Text
        → Option (Text × Text)
        → Router F64 × Awaited Json
    local_or_remote r message id c value none = route_remote r message id c value
    local_or_remote r message id c value (some (bid, original)) = (
      r,
      ok (
          dispatch_local encode validates r.registry (opts_of r) bid original (arguments_of message)
            id),
    )

    -- `route_call` after the filters.
    unfoldable pub route_filtered :
        Router F64 → Json → Json → Capability → Router F64 × Awaited Json
    unfolding named route_remote opts_of resolve
    route_filtered r message id c =
        let value = named message c.field in
        let search = searched message id (collect f wire clock encode decode r tools plain_query) in
        if r.disclose && is_tools_call c && text_eq value proxy_search_tool
        then search
        else local_or_remote r message id c value
            (if is_tools_call c then local_target r.registry (resolve c.kind value) else none)

    abbrev pub filtered :
        Router F64 → Json → Json → Capability → Option (List Filter) → Router F64 × Awaited Json
    filtered r message id c none = route_filtered r message id c
    filtered r message id c (some chain) =
        let outcome = Filters.run chain (ascii "request") message in
        if is_block outcome
        then (
          audited r (outcome_record c.call (some (named message c.field)) false),
          ok (index outcome (ascii "response")),
        )
        else route_filtered r (unwrap_or (Json.get outcome (ascii "message")) message) id c

    unfoldable pub route_call : Router F64 → Json → Json → Capability → Router F64 × Awaited Json
    unfolding route_filtered
    route_call r message id c = filtered r message id c r.filter_chain
