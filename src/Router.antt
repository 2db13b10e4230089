-- ===== src/Router.antt =====
-- src/router.rs: the state of the forward router and of its backends. What a backend does with a
-- request is `wire`, of the messages that were written to the backends before, in order; the clock
-- is read as a function of the same trace. `sent`, that trace, is what the model adds to the fields.
pub mod Request
pub mod Local
pub mod Reader
pub mod Listing
pub mod Collect
pub mod Aggregate
pub mod Route
pub mod Call
pub mod Serve
pub mod Surface
pub mod Handshake
pub mod Configure
pub mod Publisher
use rust_yamp.Prelude.{
  ℕ, zero, suc, ◌+◌, ◌*◌, ◌/◌, ◌%◌, ◌^◌, Bool, true, false, not, ◌&&◌, ◌||◌, Option, none, some,
  List, [], ◌∷◌, ◌++◌, Text, Bytes, ascii, text_eq, if◌then◌else◌, ◌>>=◌, unwrap_or, is_some,
  ResultOf,
}
use rust_yamp.Prelude.Hex.{hex_digit}
use rust_yamp.Json.{
  Json, Map, Number, number, string, object, empty, json_object, insert, as_object, contains_key,
  modify,
}
use rust_yamp.Json
use rust_yamp.Errors.{minus}
use rust_yamp.Namespace.{prefix, prefix_uri, split, split_uri}
use rust_yamp.Observability.{append_hop, ensure_trace_context, traceparent}
use rust_yamp.Dict.{Dict}
use rust_yamp.Breaker.{CircuitBreaker}
use rust_yamp.Cache.{ListCache}
use rust_yamp.Tasks.{ServerTasks}
use rust_yamp.Subscriptions.{Subscriptions}
use rust_yamp.Pool.{InFlight}
use rust_yamp.Signing.{AuditLog}
use rust_yamp.Handler.{Registry}
use rust_yamp.Filters.{Filter}

-- How a capability's items are named.
pub data Kind : Type 0 where
  by_name by_uri : Kind

pub record Capability : Type 0 where
  pub list : Text
  pub call : Text
  pub collection : Text
  pub field : Text
  pub kind : Kind

unfoldable pub tools : Capability
tools = record {
  list = ascii "tools/list";
  call = ascii "tools/call";
  collection = ascii "tools";
  field = ascii "name";
  kind = by_name;
}

unfoldable pub prompts : Capability
prompts = record {
  list = ascii "prompts/list";
  call = ascii "prompts/get";
  collection = ascii "prompts";
  field = ascii "name";
  kind = by_name;
}

unfoldable pub resources : Capability
resources = record {
  list = ascii "resources/list";
  call = ascii "resources/read";
  collection = ascii "resources";
  field = ascii "uri";
  kind = by_uri;
}

unfoldable pub capabilities : List Capability
unfolding tools prompts resources
capabilities = tools ∷ prompts ∷ resources ∷ []

unfoldable pub label : Kind → Text → Text → Text
label by_name id value = prefix id value
label by_uri id value = prefix_uri id value

unfoldable pub resolve : Kind → Text → Option (Text × Text)
resolve by_name value = split value
resolve by_uri value = split_uri value

-- `{n:0width$x}`, for a number that fits.
unfoldable pub hex_fixed : ℕ → ℕ → Text
hex_fixed zero n = []
hex_fixed (suc width) n = hex_fixed width (n / 16) ++ hex_digit (n % 16) ∷ []

-- The ids that the counter gives next.
unfoldable pub trace_ids : ℕ → Text × Text
unfolding hex_fixed
trace_ids n = (hex_fixed 32 n, hex_fixed 16 n)

-- `self.pending` is the set of the ids whose answer is awaited.
pub record Backend (F64 : Type 0) : Type 0 where
  pub id : Text
  pub breaker : Option (CircuitBreaker F64)
  pub timeout : Option ℕ
  pub token : Option Text
  pub next_id : ℕ
  pub pending : Dict Text (Unit {0})
  pub keywords : List Text
  pub capabilities : Json
  pub server_info : Option Json

pub record Sent : Type 0 where
  pub backend : Text
  pub message : Json

-- What a request comes to: the write fails, an answer, the end of the connection, or silence for as
-- long as the code waits.
pub data Reply : Type 0 where
  send_failed : Text → Reply
  answered : Json → Reply
  disconnected silent : Reply

-- Why there is no value: an error of the code, or that it waits forever, where nothing that follows
-- is run.
pub data Failure : Type 0 where
  io : Text → Failure
  never : Failure

abbrev pub Awaited {ℓ} : Type ℓ → Type ℓ
Awaited A = ResultOf Failure A

pub record Namespacing : Type 0 where
  pub strategy : Text
  pub overrides : Dict Text Text
  pub priority : List Text

-- `pool_sem` is the number of its permits. `counter` is the one of `trace_ids`, and `sent` what was
-- written to the backends. The client's transport and the channels are not part of it.
pub record Router (F64 : Type 0) : Type 0 where
  pub backends : List (Backend F64)
  pub resilient : Bool
  pub single : Bool
  pub trace : Bool
  pub disclose : Bool
  pub disclose_threshold : ℕ
  pub cache : Option (ListCache F64)
  pub principal : Option Text
  pub server_requests : Dict Text (Text × Json)
  pub server_req_seq : ℕ
  pub reverse : Dict Text (Text × Text)
  pub audit : Option AuditLog
  pub namespacing : Namespacing
  pub registry : Registry
  pub issuer : Option Text
  pub audience : Option Text
  pub variants : List Text
  pub filter_chain : Option (List Filter)
  pub list_directives : Option (ℕ × Text)
  pub validate_schemas : Bool
  pub pool_enabled : Bool
  pub pool_idle_ms : ℕ
  pub pool_cap : Option ℕ
  pub inflight : InFlight
  pub pool_tasks : Dict Text (Unit {0})
  pub pool_tokens : Dict Text Json
  pub server_tasks : Bool
  pub tasks_store : ServerTasks
  pub task_handles : Dict Text (Unit {0})
  pub subscriptions_enabled : Bool
  pub subscriptions : Subscriptions
  pub output_limit : ℕ
  pub drain_ms : ℕ
  pub counter : ℕ
  pub sent : List Sent

-- `value.get(key).cloned().unwrap_or_else(|| json!({}))`
abbrev pub get_or_empty : Json → Text → Json
get_or_empty value key = unwrap_or (Json.get value key) (object empty)

-- `if let Some(object) = value.as_object_mut() { object.insert(key, v); }`
abbrev pub put : Json → Text → Json → Json
put value key v = modify value λ m. insert m key v

unfoldable pub apply_trace : Bool → Json → Json
apply_trace trace result =
    if trace
    then put result (ascii "_meta")
        (append_hop (get_or_empty result (ascii "_meta")) (ascii "forward"))
    else result

-- `trace_request`: the counter of ids moves only where one is made.
unfoldable pub trace_request : Bool → ℕ → Json → ℕ × Json
unfolding trace_ids
trace_request trace counter params =
    let meta = append_hop (get_or_empty params (ascii "_meta")) (ascii "forward") in
    let carried = is_some (Json.get meta traceparent) in
    if trace
    then (
      (if carried then counter else (counter + 1) % 2 ^ 64),
      put params (ascii "_meta") (ensure_trace_context meta (trace_ids counter)),
    )
    else (counter, params)

-- `json!({ "jsonrpc": "2.0", "id": id, key: value })`
unfoldable pub response : Json → Text → Json → Json
response id key value =
    json_object ((ascii "jsonrpc", string (ascii "2.0")) ∷ (ascii "id", id) ∷ (key, value) ∷ [])

unfoldable pub result_response : Json → Json → Json
unfolding response
result_response id result = response id (ascii "result") result

unfoldable pub error_response : Json → Json → Json
unfolding response
error_response id error = response id (ascii "error") error

unfoldable pub error_value : Number → Text → Json
error_value code message =
    json_object ((ascii "code", number code) ∷ (ascii "message", string message) ∷ [])

abbrev pub fail_with : Json → ℕ → Text → Json
fail_with id code message = error_response id (error_value (minus code) message)
