-- ===== src/Router/Reader.antt =====
-- The demultiplexing reader of a backend in src/router.rs, and what comes back from the client: its
-- replies, notifications and cancellations. `id_key` prints an id with serde_json.
pub mod Correlation
use rust_yamp.Prelude.{
  ℕ, ◌+◌, ◌%◌, ◌^◌, Bool, true, false, not, ◌&&◌, ◌||◌, Option, none, some, List, [], ◌∷◌, ◌++◌,
  Text, Bytes, ascii, text_eq, Result, ok, err, if◌then◌else◌, ◌>>=◌, unwrap_or, is_some, any,
}
use rust_yamp.Prelude.Decimal.{decimal}
use rust_yamp.Json.{Json, null, string, insert, modify, modify_object, as_str, get_str}
use rust_yamp.Json
use rust_yamp.JsonRpc.{method_of}
use rust_yamp.Float.{Float}
use rust_yamp.Cache.{ListCache, invalidate_backend}
use rust_yamp.Tasks.{namespace_event}
use rust_yamp.Subscriptions.{namespace_updated, updated_method}
use rust_yamp.Pool.{InFlight, deadline, progress_token, is_method}
use rust_yamp.Pool
use rust_yamp.Dict.{Dict, text_key}
use rust_yamp.Dict
use rust_yamp.Router.{Backend, Sent, Router, put}

unfoldable pub list_changed_methods : List Text
list_changed_methods =
    ascii "notifications/tools/list_changed"
    ∷ ascii "notifications/prompts/list_changed"
    ∷ ascii "notifications/resources/list_changed"
    ∷ []

-- Where a message of a backend goes: to the request that waits for it, or to the client.
pub data Delivery : Type 0 where
  to_request : Text → Json → Delivery
  to_client : Json → Delivery

-- `message.get("id").and_then(Value::as_str)`, where it is pending.
unfoldable pub awaited : Dict Text (Unit {0}) → Option Text → Option Text
awaited pending none = none
awaited pending (some key) = if Dict.contains_key pending key then some key else none

unfoldable pub client_id : ℕ → Text
client_id n = ascii "srv-" ++ decimal n

-- A notification in the client's names. One that is neither goes on as it is.
unfoldable pub renamed_notification : Bool → Text → Json → Json
unfolding is_method method_of namespace_event namespace_updated
renamed_notification single id message =
    if is_method (method_of message) (ascii "notifications/tasks/event")
    then namespace_event message id
    else if not single && is_method (method_of message) updated_method
    then namespace_updated message id
    else message

module _ (f : Float) where
  open f use {F64}

  abbrev pub invalidated : Option (ListCache F64) → Text → Option (ListCache F64)
  invalidated none id = none
  invalidated (some cache) id = some (invalidate_backend f cache id)

  -- A backend's request: a client-facing id is minted and the backend's own remembered.
  unfoldable pub initiate : Router F64 → Text → Json → Router F64 × Delivery
  unfolding client_id
  initiate r id message =
      let n = (r.server_req_seq + 1) % 2 ^ 64 in
      (
        record r {
          server_req_seq = n;
          server_requests =
              Dict.insert r.server_requests (client_id n)
                (id, unwrap_or (Json.get message (ascii "id")) null);
        },
        to_client (put message (ascii "id") (string (client_id n))),
      )

  -- Every other message: a change of its lists invalidates what is cached of the backend.
  unfoldable pub relay : Router F64 → Text → Json → Router F64 × Delivery
  unfolding renamed_notification list_changed_methods is_method method_of
  relay r id message =
      let changed = any (λ m. is_method (method_of message) m) list_changed_methods in
      (
        (if changed then record r { cache = invalidated r.cache id } else r),
        to_client (renamed_notification r.single id message),
      )

  unfoldable pub undelivered : Router F64 → Text → Json → Router F64 × Delivery
  unfolding initiate relay method_of
  undelivered r id message =
      if is_some (Json.get message (ascii "id")) && is_some (method_of message)
      then initiate r id message
      else relay r id message

  -- The `match` on the responder that waits for the message.
  unfoldable pub deliver_to :
      Router F64
      → Text
      → Dict Text (Unit {0})
      → Json
      → Option Text
      → Router F64 × Dict Text (Unit {0}) × Delivery
  unfolding undelivered
  deliver_to r id pending message (some key) = (r, Dict.remove pending key, to_request key message)
  deliver_to r id pending message none =
      let (r', delivery) = undelivered r id message in (r', pending, delivery)

  -- One message of the backend, with what is pending there.
  unfoldable pub deliver :
      Router F64 → Text → Dict Text (Unit {0}) → Json → Router F64 × Dict Text (Unit {0}) × Delivery
  unfolding deliver_to awaited
  deliver r id pending message =
      deliver_to r id pending message (awaited pending (get_str message (ascii "id")))

  -- The reader's loop: what does not decode is skipped, and at the end nothing is pending any more.
  unfoldable pub read_loop :
      (Bytes → Result Json)
      → Router F64
      → Text
      → Dict Text (Unit {0})
      → List Bytes
      → Router F64 × Dict Text (Unit {0}) × List Delivery
  unfolding deliver
  read_loop decode r id pending [] = (r, [], [])
  read_loop decode r id pending (raw ∷ stream) = elim (decode raw) [
    | err e ↦ read_loop decode r id pending stream
    | ok message ↦
        (let (r', pending', delivery) = deliver r id pending message in
          let (r'', pending'', deliveries) = read_loop decode r' id pending' stream in
          (r'', pending'', delivery ∷ deliveries))
  ]

  -- A message that is written to a backend without waiting for an answer, if the backend exists.
  unfoldable pub send_message : Router F64 → Text → Json → Router F64
  send_message r bid message =
      if any (λ (b : Backend F64). text_eq b.id bid) r.backends
      then record r { sent = r.sent ++ record { backend = bid; message = message } ∷ [] }
      else r

  -- The client's reply under the backend's own id.
  abbrev pub restore : Router F64 → Text → Json → Option (Text × Json) → Router F64
  restore r key message none = r
  restore r key message (some (bid, original)) =
      send_message (record r { server_requests = Dict.remove r.server_requests key }) bid
        (put message (ascii "id") original)

  abbrev pub reply_under : Router F64 → Json → Option Text → Router F64
  reply_under r message none = r
  reply_under r message (some key) = restore r key message (Dict.get r.server_requests key)

  unfoldable pub route_client_reply : Router F64 → Json → Router F64
  unfolding send_message
  route_client_reply r message = reply_under r message (get_str message (ascii "id"))

  -- `params.requestId` is replaced by the backend's own id.
  abbrev pub cancel_at : Router F64 → Text → Json → Option (Text × Json) → Router F64
  cancel_at r key message none = r
  cancel_at r key message (some (bid, original)) =
      send_message (record r { server_requests = Dict.remove r.server_requests key }) bid
        (modify message λ m.
          modify_object m (ascii "params") λ params. insert params (ascii "requestId") original)

  abbrev pub cancel_under : Router F64 → Json → Option Text → Router F64
  cancel_under r message none = r
  cancel_under r message (some key) = cancel_at r key message (Dict.get r.server_requests key)

  module _ (id_key : Json → Text) where
    abbrev pub cancel_request : Router F64 → Json → Option Json → Router F64
    cancel_request r message none = r
    cancel_request r message (some request_id) =
        if Dict.contains_key r.pool_tasks (id_key request_id)
        then record r { pool_tasks = Dict.remove r.pool_tasks (id_key request_id) }
        else cancel_under r message (as_str request_id)

    unfoldable pub route_client_cancellation : Router F64 → Json → Router F64
    unfolding send_message
    route_client_cancellation r message =
        cancel_request r message
          (Json.get message (ascii "params") >>= λ p. Json.get p (ascii "requestId"))

    abbrev pub touch_call : Router F64 → ℕ → Option Json → Router F64
    touch_call r now_ms none = r
    touch_call r now_ms (some id) = record r {
      inflight = (Pool.touch id_key r.inflight id (deadline now_ms r.pool_idle_ms)).0;
    }

    abbrev pub touch_token : Router F64 → ℕ → Option Json → Router F64
    touch_token r now_ms none = r
    touch_token r now_ms (some token) = touch_call r now_ms (Dict.get r.pool_tokens (id_key token))

    unfoldable pub touch_progress : Router F64 → ℕ → Json → Router F64
    unfolding progress_token
    touch_progress r now_ms message = touch_token r now_ms (progress_token message)

    unfoldable pub broadcast : Router F64 → List (Backend F64) → Json → Router F64
    broadcast r [] message = r
    broadcast r (b ∷ bs) message =
        broadcast (record r { sent = r.sent ++ record { backend = b.id; message = message } ∷ [] })
          bs message

    unfoldable pub forward_client_notification : Router F64 → ℕ → Json → Router F64
    unfolding route_client_cancellation touch_progress broadcast is_method method_of
    forward_client_notification r now_ms message =
        if is_method (method_of message) (ascii "notifications/cancelled")
        then route_client_cancellation r message
        else broadcast (touch_progress r now_ms message) r.backends message
