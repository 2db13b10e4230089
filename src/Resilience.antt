-- ===== src/Resilience.antt =====
-- `ResilientRouter` of src/resilience.rs. A channel is what the router calls: `reply` says what it
-- answers to a call, after the calls made so far, and `none` is a transport failure. `calls` is the
-- trace of the calls, the only thing that the model adds to the router's fields.
pub mod Messages
pub mod Calls
use rust_yamp.Prelude.{
  ℕ, zero, suc, Bool, true, false, not, ◌&&◌, Option, none, some, List, [], ◌∷◌, ◌++◌, map, Text,
  ascii, text_eq, if◌then◌else◌, ◌>>=◌, unwrap_or,
}
use rust_yamp.Prelude.Sort.{sort, dedup}
use rust_yamp.Float.{Float}
use rust_yamp.Json.{
  Json, Map, null, number, string, array, object, neg_int, json_object, of_list, insert, modify,
  as_array, get_str,
}
use rust_yamp.Json
use rust_yamp.Namespace.{prefix, split}
use rust_yamp.Breaker.{CircuitBreaker, allow, record_success, record_failure}
use rust_yamp.Resilience.Messages.{
  invalid_params, internal_error, server_not_available, partial_meta, error, reply_with, same_ids,
  listed_tools, rename_tool, call_params, call_response,
}

pub record Call : Type 0 where
  pub backend : Text
  pub method : Text
  pub params : Json

pub record ManagedBackend (F64 : Type 0) : Type 0 where
  pub id : Text
  pub breaker : CircuitBreaker F64

pub record ResilientRouter (F64 : Type 0) : Type 0 where
  pub backends : List (ManagedBackend F64)
  pub last_available : List Text
  pub calls : List Call

-- The local variables of `tools_list`.
pub record Listing : Type 0 where
  pub tools : List Json
  pub unavailable : List Text
  pub calls : List Call

module _ (f : Float) (reply : List Call → Call → Option Json) where
  open f use {F64}

  abbrev pub list_call : Text → Call
  list_call id = record { backend = id; method = ascii "tools/list"; params = object Json.empty }

  -- The `match` on what `tools/list` answered.
  unfoldable pub listed :
      ManagedBackend F64 → F64 → Listing → Option Json → ManagedBackend F64 × Listing
  listed b now acc none = (
    record b { breaker = record_failure f b.breaker now },
    record acc { unavailable = acc.unavailable ++ b.id ∷ [] },
  )
  listed b now acc (some response) = (
    record b { breaker = record_success f b.breaker },
    record acc { tools = acc.tools ++ map (rename_tool b.id) (listed_tools response) },
  )

  -- One round of the loop of `tools_list`.
  unfoldable pub list_backend : ManagedBackend F64 → F64 → Listing → ManagedBackend F64 × Listing
  unfolding listed
  list_backend b now acc =
      let (breaker, allowed) = allow f b.breaker now in
      let b' = record b { breaker = breaker } in
      if allowed
      then listed b' now (record acc { calls = acc.calls ++ list_call b.id ∷ [] })
          (reply acc.calls (list_call b.id))
      else (b', record acc { unavailable = acc.unavailable ++ b.id ∷ [] })

  unfoldable pub list_backends :
      List (ManagedBackend F64) → F64 → Listing → List (ManagedBackend F64) × Listing
  unfolding list_backend
  list_backends [] now acc = ([], acc)
  list_backends (b ∷ bs) now acc =
      let (b', acc') = list_backend b now acc in
      let (bs', acc'') = list_backends bs now acc' in (b' ∷ bs', acc'')

  abbrev list_meta : List Text → Map → Map
  list_meta [] result = result
  list_meta (u ∷ us) result =
      insert result (ascii "_meta") (partial_meta (u ∷ us) (ascii "circuit_breaker_open"))

  unfoldable pub tools_list : ResilientRouter F64 → Json → F64 → ResilientRouter F64 × Json
  unfolding list_backends reply_with
  tools_list r id now =
      let (backends, acc) =
        list_backends r.backends now (record { tools = []; unavailable = []; calls = r.calls }) in
      let result = insert Json.empty (ascii "tools") (array (of_list acc.tools)) in
      (
        record r { backends = backends; calls = acc.calls },
        reply_with id (ascii "result") (object (list_meta acc.unavailable result)),
      )

  -- The `match` on what `tools/call` answered: the backend is not asked again.
  unfoldable pub called : ManagedBackend F64 → F64 → Json → Option Json → ManagedBackend F64 × Json
  unfolding error call_response
  called b now id none = (
    record b { breaker = record_failure f b.breaker now },
    error id server_not_available (ascii "backend " ++ (b.id ++ ascii " failed")),
  )
  called b now id (some response) =
      (record b { breaker = record_success f b.breaker }, call_response id response)

  -- `tools_call` at the backend that owns the tool.
  unfoldable pub call_backend :
      ManagedBackend F64
      → List Call
      → F64
      → Json
      → Json
      → Text
      → ManagedBackend F64 × List Call × Json
  unfolding called
  call_backend b calls now message id original =
      let (breaker, allowed) = allow f b.breaker now in
      let b' = record b { breaker = breaker } in
      let call : Call = record {
        backend = b.id;
        method = ascii "tools/call";
        params = call_params message original;
      } in
      let (b'', response) = called b' now id (reply calls call) in
      if allowed then (b'', calls ++ call ∷ [], response) else (
        b',
        calls,
        error id server_not_available (ascii "backend " ++ (b.id ++ ascii " unavailable")),
      )

  abbrev pub keep_first :
      ManagedBackend F64
      → Option (List (ManagedBackend F64) × List Call × Json)
      → Option (List (ManagedBackend F64) × List Call × Json)
  keep_first b none = none
  keep_first b (some (bs, calls, response)) = some (b ∷ bs, calls, response)

  -- `backends.iter().position(|b| b.channel.id() == bid)` and the call at that position.
  unfoldable pub call_first :
      List (ManagedBackend F64)
      → Text
      → List Call
      → F64
      → Json
      → Json
      → Text
      → Option (List (ManagedBackend F64) × List Call × Json)
  unfolding call_backend
  call_first [] bid calls now message id original = none
  call_first (b ∷ bs) bid calls now message id original =
      let (b', calls', response) = call_backend b calls now message id original in
      let later = keep_first b (call_first bs bid calls now message id original) in
      if text_eq b.id bid then some (b' ∷ bs, calls', response) else later

  abbrev pub tool_of : Json → Text
  tool_of message =
      unwrap_or (do p ← Json.get message (ascii "params"); get_str p (ascii "name")) []

  unfoldable pub finish_call :
      ResilientRouter F64
      → Json
      → Json
      → Option (List (ManagedBackend F64) × List Call × Json)
      → ResilientRouter F64 × Json
  unfolding error
  finish_call r message id none =
      (r, error id invalid_params (ascii "unknown tool: " ++ tool_of message))
  finish_call r message id (some (backends, calls, response)) =
      (record r { backends = backends; calls = calls }, response)

  unfoldable pub tools_call : ResilientRouter F64 → Json → Json → F64 → ResilientRouter F64 × Json
  unfolding call_first finish_call
  tools_call r message id now = finish_call r message id (do
    (bid, original) ← split (tool_of message)
    call_first r.backends bid r.calls now message id original)

  unfoldable pub available : List (ManagedBackend F64) → F64 → List (ManagedBackend F64) × List Text
  available [] now = ([], [])
  available (b ∷ bs) now =
      let (breaker, allowed) = allow f b.breaker now in
      let (bs', ids) = available bs now in
      (record b { breaker = breaker } ∷ bs', if allowed then b.id ∷ ids else ids)

  unfoldable pub available_ids : ResilientRouter F64 → F64 → ResilientRouter F64 × List Text
  unfolding available
  available_ids r now =
      let (backends, ids) = available r.backends now in (record r { backends = backends }, sort ids)

  -- `ResilientRouter::new`.
  unfoldable pub new : List (ManagedBackend F64) → F64 → ResilientRouter F64
  unfolding available_ids
  new backends now =
      let (r, ids) =
        available_ids (record { backends = backends; last_available = []; calls = [] }) now in
      record r { last_available = ids }

  unfoldable pub surface_changed : ResilientRouter F64 → F64 → ResilientRouter F64 × Bool
  unfolding available_ids same_ids
  surface_changed r now =
      let (r', current) = available_ids r now in
      (record r' { last_available = current }, not (same_ids current r'.last_available))
