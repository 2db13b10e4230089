-- ===== src/Pool.antt =====
-- src/pool.rs: admission, idle deadlines, and the registry of the calls in flight. The clock is the
-- caller's; `u64` sums wrap.
pub mod Deadlines
pub mod Registry
use rust_yamp.Prelude.{
  ℕ, ◌+◌, ◌%◌, ◌^◌, Bool, true, false, not, ◌&&◌, ◌||◌, Option, none, some, List, [], ◌∷◌, Text,
  ascii, text_eq, ltb, leb, ◌==◌, if◌then◌else◌, ◌>>=◌, length,
}
use rust_yamp.Prelude.Sort.{sort}
use rust_yamp.Json.{Json}
use rust_yamp.Json
use rust_yamp.JsonRpc.{method_of}
use rust_yamp.Dict.{Dict, text_key}
use rust_yamp.Dict

unfoldable pub admit : ℕ → ℕ → Bool
admit in_flight cap = cap == 0 || ltb in_flight cap

unfoldable pub deadline : ℕ → ℕ → ℕ
deadline now_ms idle_ms = if idle_ms == 0 then 0 else (now_ms + idle_ms) % 2 ^ 64

unfoldable pub expired : ℕ → ℕ → Bool
expired deadline_ms now_ms = not (deadline_ms == 0) && leb deadline_ms now_ms

-- `jsonrpc::method_of(message) != Some(method)`
unfoldable pub is_method : Option Text → Text → Bool
is_method none method = false
is_method (some m) method = text_eq m method

unfoldable pub cancel_request_id : Json → Option Json
unfolding is_method method_of
cancel_request_id message =
    if is_method (method_of message) (ascii "notifications/cancelled")
    then (do p ← Json.get message (ascii "params"); Json.get p (ascii "requestId"))
    else none

unfoldable pub progress_token : Json → Option Json
unfolding is_method method_of
progress_token message =
    if is_method (method_of message) (ascii "notifications/progress")
    then (do p ← Json.get message (ascii "params"); Json.get p (ascii "progressToken"))
    else none

pub record InFlight : Type 0 where
  pub deadlines : Dict Text ℕ

unfoldable pub new : InFlight
new = record { deadlines = [] }

-- `deadlines.len() as u64`
unfoldable pub count : InFlight → ℕ
count s = length s.deadlines

unfoldable pub at_capacity : InFlight → ℕ → Bool
unfolding count admit
at_capacity s cap = not (admit (count s) cap)

-- `filter(expired).map(key).collect()` over the entries.
unfoldable pub expired_keys : Dict Text ℕ → ℕ → List Text
unfolding expired
expired_keys [] now_ms = []
expired_keys ((k, d) ∷ m) now_ms =
    if expired d now_ms then k ∷ expired_keys m now_ms else expired_keys m now_ms

unfoldable pub expired_ids : InFlight → ℕ → List Text
unfolding expired_keys
expired_ids s now_ms = sort (expired_keys s.deadlines now_ms)

-- `id_key` prints a request id with serde_json.
module _ (id_key : Json → Text) where
  unfoldable pub register : InFlight → Json → ℕ → InFlight
  register s id deadline_ms = record { deadlines = Dict.insert s.deadlines (id_key id) deadline_ms }

  unfoldable pub contains : InFlight → Json → Bool
  contains s id = Dict.contains_key s.deadlines (id_key id)

  unfoldable pub touch : InFlight → Json → ℕ → InFlight × Bool
  touch s id deadline_ms =
      if Dict.contains_key s.deadlines (id_key id)
      then (record { deadlines = Dict.insert s.deadlines (id_key id) deadline_ms }, true)
      else (s, false)

  unfoldable pub remove : InFlight → Json → InFlight × Bool
  remove s id = (
    record { deadlines = Dict.remove s.deadlines (id_key id) },
    Dict.contains_key s.deadlines (id_key id),
  )
