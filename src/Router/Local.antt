-- ===== src/Router/Local.antt =====
-- Calls that local handlers serve, in src/router.rs: `dispatch_local`, and `run_pooled` of the worker
-- pool. `encode` is serde_json's printing and `validates` the jsonschema crate's verdict.
use rust_yamp.Prelude.{
  ℕ, Bool, false, Option, none, some, List, [], ◌∷◌, ◌++◌, Text, Bytes, ascii, if◌then◌else◌, ◌>>=◌,
  unwrap_or, map_or,
}
use rust_yamp.Json.{Json, null, string, object, empty, get_str, index, as_str}
use rust_yamp.Json
use rust_yamp.Errors.{minus, error_object}
use rust_yamp.Schema.{validate_call_args, validate_call_result}
use rust_yamp.Server.{exceeds_output_cap}
use rust_yamp.Namespace.{split}
use rust_yamp.Tasks.{is_text}
use rust_yamp.Handler.{Handler, Registry, handler_for}
use rust_yamp.Filters.{Filter}
use rust_yamp.Filters
use rust_yamp.Signing.{AuditLog, append, outcome_record}
use rust_yamp.Router.{apply_trace, result_response, error_response, fail_with}

pub record DispatchOpts : Type 0 where
  pub validate : Bool
  pub trace : Bool
  pub output_limit : ℕ

-- `list_tools().into_iter().find(|t| t.get("name") == Some(original))`
unfoldable pub find_tool : List Json → Text → Option Json
unfolding is_text
find_tool [] original = none
find_tool (t ∷ ts) original =
    if is_text (get_str t (ascii "name")) original then some t else find_tool ts original

-- `message.get("params").and_then(|p| p.get(key))`
abbrev pub param : Json → Text → Option Json
param message key = Json.get message (ascii "params") >>= λ p. Json.get p key

-- `message.get("params").and_then(|p| p.get(key)).and_then(Value::as_str).unwrap_or("")`
unfoldable pub named : Json → Text → Text
named message key = unwrap_or (param message key >>= as_str) []

unfoldable pub arguments_of : Json → Json
arguments_of message = unwrap_or (param message (ascii "arguments")) (object empty)

abbrev pub is_block : Json → Bool
is_block outcome = is_text (as_str (index outcome (ascii "action"))) (ascii "block")

module _ (encode : Json → Bytes) (validates : Json → Json → Option Bool) where
  -- The result on its way out: the bound, then the trace.
  unfoldable pub emit : DispatchOpts → Json → Json → Json
  unfolding apply_trace result_response error_response
  emit opts id result =
      if exceeds_output_cap encode result opts.output_limit
      then error_response id
          (error_object (minus 32603) (some (ascii "server output exceeds size limit")))
      else result_response id (apply_trace opts.trace result)

  -- The validation of the result, and of the arguments before the call.
  unfoldable pub check_result : DispatchOpts → Option Json → Json → Json → Json
  unfolding emit
  check_result opts tool id result =
      map_or
        (tool >>= λ t. validate_call_result validates (Json.get t (ascii "outputSchema")) result)
        (emit opts id result) (error_response id)

  unfoldable pub check_args : DispatchOpts → Option Json → Handler → Text → Json → Json → Json
  unfolding check_result
  check_args opts tool handler original arguments id =
      map_or
        (tool >>= λ t. validate_call_args validates (Json.get t (ascii "inputSchema")) arguments)
        (check_result opts tool id (handler.call_tool original arguments)) (error_response id)

  unfoldable pub dispatch_to : Option Handler → DispatchOpts → Text → Text → Json → Json → Json
  unfolding check_args find_tool
  dispatch_to none opts handler_id original arguments id =
      fail_with id 32601 (ascii "unknown tool: " ++ handler_id)
  dispatch_to (some handler) opts handler_id original arguments id =
      check_args opts (if opts.validate then find_tool handler.list_tools original else none)
        handler original arguments id

  unfoldable pub dispatch_local : Registry → DispatchOpts → Text → Text → Json → Json → Json
  unfolding dispatch_to
  dispatch_local registry opts handler_id original arguments id =
      dispatch_to (handler_for registry handler_id) opts handler_id original arguments id

  -- `record_audit`, and the same in a pooled call.
  unfoldable pub record_audit : Option AuditLog → Json → Option AuditLog
  record_audit none item = none
  record_audit (some log) item = some (append encode log item).0

  abbrev pub dispatch_split :
      Registry → DispatchOpts → Json → Json → Text → Option (Text × Text) → Json
  dispatch_split registry opts message id name none =
      fail_with id 32601 (ascii "unknown tool: " ++ name)
  dispatch_split registry opts message id name (some (bid, original)) =
      dispatch_local registry opts bid original (arguments_of message) id

  -- What `run_pooled` does after the filters.
  unfoldable pub dispatch_named : Registry → DispatchOpts → Json → Json → Json
  unfolding dispatch_local arguments_of named
  dispatch_named registry opts message id =
      let name = named message (ascii "name") in
      dispatch_split registry opts message id name (split name)

  unfoldable pub run_pooled :
      Registry
      → Option (List Filter)
      → Option AuditLog
      → DispatchOpts
      → Json
      → Json
      → Option AuditLog × Json
  unfolding dispatch_named record_audit
  run_pooled registry none audit opts message id = (audit, dispatch_named registry opts message id)
  run_pooled registry (some chain) audit opts message id =
      let outcome = Filters.run chain (ascii "request") message in
      if is_block outcome
      then (
        record_audit audit
            (outcome_record (ascii "tools/call") (param message (ascii "name") >>= as_str) false),
        index outcome (ascii "response"),
      )
      else (audit, dispatch_named registry opts (index outcome (ascii "message")) id)
