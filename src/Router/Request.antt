-- ===== src/Router/Request.antt =====
-- `BackendHandle` of src/router.rs: availability, and one request to a backend.
pub mod Forwarded
pub mod Prompt
use rust_yamp.Prelude.{
  ℕ, ◌+◌, ◌%◌, ◌^◌, Bool, true, false, ◌||◌, Option, none, some, List, [], ◌∷◌, ◌++◌, Text, ascii,
  text_eq, ok, err, if◌then◌else◌, ◌>>=◌, unwrap_or, is_some,
}
use rust_yamp.Prelude.Decimal.{decimal}
use rust_yamp.Json.{
  Json, string, object, empty, json_object, insert, as_object, contains_key, modify,
}
use rust_yamp.Json
use rust_yamp.Auth.{authorization, forward_meta}
use rust_yamp.Float.{Float}
use rust_yamp.Breaker.{CircuitBreaker, allow, record_success, record_failure}
use rust_yamp.Dict.{Dict, text_key}
use rust_yamp.Dict
use rust_yamp.Router.{
  Backend, Sent, Reply, send_failed, answered, silent, disconnected, Awaited, io, never, Router,
  get_or_empty, put,
}

unfoldable pub has_client_cred : Json → Bool
has_client_cred params = elim (Json.get params (ascii "_meta") >>= as_object) [
  | some m ↦ contains_key m authorization
  | none ↦ false
]

-- The parameters as they are forwarded under the backend's token.
unfoldable pub forwarded_params : Option Text → Json → Json
unfolding has_client_cred forward_meta
forwarded_params token params =
    if is_some token || has_client_cred params
    then put params (ascii "_meta") (forward_meta (get_or_empty params (ascii "_meta")) token)
    else params

-- `format!("{}-{}", self.id, n)`
unfoldable pub request_id : Text → ℕ → Text
request_id id n = id ++ (b'-' ∷ decimal n)

unfoldable pub request_message : Text → Text → Json → Json
request_message mid method params = json_object (
    (ascii "jsonrpc", string (ascii "2.0"))
    ∷ (ascii "id", string mid)
    ∷ (ascii "method", string method)
    ∷ (ascii "params", params)
    ∷ [])

unfoldable pub closed : Text → Text
closed id = ascii "backend " ++ (id ++ ascii " closed")

module _ (f : Float) where
  open f use {F64}

  abbrev pub allowed : Option (CircuitBreaker F64) → F64 → Option (CircuitBreaker F64) × Bool
  allowed none now = (none, true)
  allowed (some cb) now = let (cb', a) = allow f cb now in (some cb', a)

  unfoldable pub available : Backend F64 → F64 → Backend F64 × Bool
  available b now = let (breaker, a) = allowed b.breaker now in (record b { breaker = breaker }, a)

  abbrev pub on_success : Option (CircuitBreaker F64) → Option (CircuitBreaker F64)
  on_success none = none
  on_success (some cb) = some (record_success f cb)

  abbrev pub on_failure : F64 → Option (CircuitBreaker F64) → Option (CircuitBreaker F64)
  on_failure now none = none
  on_failure now (some cb) = some (record_failure f cb now)

  -- Without an answer: the time-out, or an endless wait where there is none.
  unfoldable pub unanswered : Backend F64 → Text → F64 → Option ℕ → Backend F64 × Awaited Json
  unanswered b mid now none = (b, err never)
  unanswered b mid now (some duration) = (
    record b { pending = Dict.remove b.pending mid; breaker = on_failure now b.breaker },
    err (io (ascii "backend " ++ (b.id ++ ascii " timed out"))),
  )

  -- The handle and the outcome after the write, at the time `now`. A failed write returns at once,
  -- by the `?` on `send`; the end of the connection clears what is pending.
  unfoldable pub settle : Backend F64 → Text → F64 → Reply → Backend F64 × Awaited Json
  unfolding closed unanswered
  settle b mid now (send_failed e) = (b, err (io e))
  settle b mid now (answered message) =
      (record b { pending = Dict.remove b.pending mid; breaker = on_success b.breaker }, ok message)
  settle b mid now disconnected =
      (record b { pending = []; breaker = on_failure now b.breaker }, err (io (closed b.id)))
  settle b mid now silent = unanswered b mid now b.timeout

  module _ (wire : List Sent → Sent → Reply) (clock : List Sent → F64) where
    -- What is written for a request.
    unfoldable pub outgoing : Backend F64 → Text → Json → Sent
    unfolding forwarded_params request_message request_id
    outgoing b method params = record {
      backend = b.id;
      message =
          request_message (request_id b.id b.next_id) method (forwarded_params b.token params);
    }

    unfoldable pub request :
        Backend F64 → List Sent → Text → Json → Backend F64 × List Sent × Awaited Json
    unfolding settle outgoing
    request b sent method params =
        let mid = request_id b.id b.next_id in
        let message = outgoing b method params in
        let waiting = record b {
          next_id = (b.next_id + 1) % 2 ^ 64;
          pending = Dict.insert b.pending mid tt;
        } in
        let sent' = sent ++ message ∷ [] in
        let (b', outcome) = settle waiting mid (clock sent') (wire sent message) in
        (b', sent', outcome)

    -- `self.backends.iter().position(|b| b.id() == bid)`: the backend that is found.
    unfoldable pub find_backend : List (Backend F64) → Text → Option (Backend F64)
    find_backend [] bid = none
    find_backend (b ∷ bs) bid = if text_eq b.id bid then some b else find_backend bs bid

    unfoldable pub replace : List (Backend F64) → Backend F64 → List (Backend F64)
    replace [] b' = []
    replace (b ∷ bs) b' = if text_eq b.id b'.id then b' ∷ bs else b ∷ replace bs b'

    unfoldable pub replace_backend : Router F64 → Backend F64 → Router F64
    unfolding replace
    replace_backend r b = record r { backends = replace r.backends b }

    -- A request to a backend of the router.
    unfoldable pub request_of : Router F64 → Backend F64 → Text → Json → Router F64 × Awaited Json
    unfolding request replace_backend
    request_of r b method params =
        let (b', sent, outcome) = request b r.sent method params in
        (replace_backend (record r { sent = sent }) b', outcome)
