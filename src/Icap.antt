-- ===== src/Icap.antt =====
-- src/icap.rs: the scan of a message's content blocks through a callout, and the translation of ICAP
-- responses. `lossy` is `String::from_utf8_lossy`; `wire` is the service of Callout.
pub mod Blocked
use rust_yamp.Prelude.{
  ℕ, ◌+◌, ◌-◌, ◌*◌, Bool, true, false, not, ◌&&◌, ◌||◌, Option, none, some, List, [], ◌∷◌, ◌++◌,
  Text, Bytes, ascii, text_eq, if◌then◌else◌, ◌>>=◌, unwrap_or, is_some, map_or, ◌==◌,
}
use rust_yamp.Prelude.Hex.{to_digit}
use rust_yamp.Json.{
  Json, Map, null, bool, number, pos_int, string, object, empty, json_object, insert, extend,
  entries, lookup, get_str, as_array, as_object, is_null, is_object, modify,
}
use rust_yamp.Json
use rust_yamp.Dict.{Dict}
use rust_yamp.Filters.{deny, quarantine, deny_response, object_or_empty}
use rust_yamp.Filters.Interest.{message_context}
use rust_yamp.Content.{block_list, set_bytes, set_text}
use rust_yamp.Callout.{CalloutClient, Received, mutate}
use rust_yamp.Callout

unfoldable pub icap_mode : Text → Text
icap_mode direction = if text_eq direction (ascii "c2u") then ascii "REQMOD" else ascii "RESPMOD"

unfoldable pub should_deref : Text → Bool → Bool
should_deref kind enabled = text_eq kind (ascii "resource_link") && enabled

-- A verdict with a reason, as a callout response.
abbrev pub with_reason : Text → Text → Json
with_reason verdict reason =
    json_object ((ascii "verdict", string verdict) ∷ (ascii "reason", string reason) ∷ [])

abbrev pub allowed : Json
allowed = json_object ((ascii "verdict", string (ascii "allow")) ∷ [])

abbrev pub modified : Json → Option Text → Json
modified response none = allowed
modified response (some content) = json_object (
    (ascii "verdict", string mutate)
    ∷ (ascii "content", string content)
    ∷ (
      ascii "provenance",
      json_object (
          (ascii "icap", string (ascii "modified"))
          ∷ (ascii "istag", unwrap_or (Json.get response (ascii "istag")) null)
          ∷ []),
    )
    ∷ [])

-- `as_i64`, of a status that is no float and not negative.
abbrev pub status_of : Option Json → Option ℕ
status_of (some (number (pos_int n))) = some n
status_of _ = none

abbrev pub by_status : Json → Option ℕ → Json
by_status response none = with_reason deny (ascii "unexpected ICAP status")
by_status response (some status) =
    if status == 204
    then allowed
    else if status == 200
    then modified response (get_str response (ascii "modified"))
    else if status == 403
    then with_reason deny (ascii "ICAP policy blocked")
    else with_reason deny (ascii "unexpected ICAP status")

-- The threat, unless it is empty.
abbrev pub by_threat : Json → Option Text → Json
by_threat response none = by_status response (status_of (Json.get response (ascii "status")))
by_threat response (some []) = by_status response (status_of (Json.get response (ascii "status")))
by_threat response (some (c ∷ threat)) = with_reason quarantine (c ∷ threat)

unfoldable pub icap_to_callout : Json → Json
icap_to_callout response = by_threat response (get_str response (ascii "threat"))

-- `u8::from_str_radix(pair, 16).ok()`, which takes a leading `+`.
unfoldable pub byte_of : ℕ → ℕ → Option ℕ
unfolding to_digit
byte_of c d =
    let both = to_digit c >>= (λ hi. to_digit d >>= (λ lo. some (hi * 16 + lo))) in
    if c == b'+' then to_digit d else both

-- Pairs that are no byte, and a last half, are left out.
unfoldable pub from_hex : Text → Bytes
unfolding byte_of
from_hex [] = []
from_hex (c ∷ []) = []
from_hex (c ∷ d ∷ s) = map_or (byte_of c d) (from_hex s) λ b. b ∷ from_hex s

unfoldable pub block_payload : Json → Option Bytes
unfolding from_hex
block_payload block =
    map_or (get_str block (ascii "bytes")) (get_str block (ascii "text")) λ hex. some (from_hex hex)

-- `*holder = json!({})` unless it is an object, and its `_meta` with the provenance.
abbrev pub with_meta : Map → Map → Json
with_meta provenance holder = object (
    insert holder (ascii "_meta")
      (object (extend (object_or_empty (lookup holder (ascii "_meta"))) (entries provenance))))

unfoldable pub annotate : Json → Map → Json
annotate message provenance = modify message λ m.
    let in_result = map_or (lookup m (ascii "result")) false λ r. is_object r in
    let key = if in_result then ascii "result" else ascii "params" in
    insert m key (with_meta provenance (object_or_empty (lookup m key)))

abbrev no_entry : List (Text × Json) → Bool
no_entry [] = true
no_entry (entry ∷ more) = false

-- `Map::is_empty`
abbrev pub is_empty : Map → Bool
is_empty m = no_entry (entries m)

-- What the loop over the blocks has accumulated, and the client's cache and wire.
pub record Scanned : Type 0 where
  pub working : Json
  pub provenance : Map
  pub cache : Option (Dict Text Json)
  pub sent : List Json

module _ (lossy : Bytes → Text) where
  unfoldable pub apply_mutation : Json → Json → Text → Json
  unfolding from_hex
  apply_mutation message block new_hex =
      let path = unwrap_or (Json.get block (ascii "path") >>= as_array) [] in
      let inline = map_or (Json.get block (ascii "bytes")) false λ b. not (is_null b) in
      if inline
      then set_bytes message path (from_hex new_hex)
      else set_text message path (lossy (from_hex new_hex))

  -- The mutation and the provenance of a verdict that lets the block pass.
  unfoldable pub absorb : Json → Json → Scanned → Scanned
  unfolding apply_mutation
  absorb block verdict s =
      let kind = unwrap_or (get_str verdict (ascii "kind")) [] in
      let mutated =
        map_or (get_str verdict (ascii "bytes")) s.working (apply_mutation s.working block) in
      record s {
        working = if text_eq kind mutate then mutated else s.working;
        provenance =
            map_or (Json.get verdict (ascii "provenance") >>= as_object) s.provenance
              λ p. extend s.provenance (entries p);
      }

  abbrev pub blocked : Json → Json → Text → Json
  blocked message verdict kind = json_object (
      (ascii "action", string (ascii "block"))
      ∷ (
        ascii "response",
        deny_response (unwrap_or (Json.get message (ascii "id")) null)
            (unwrap_or (get_str verdict (ascii "reason")) []),
      )
      ∷ (ascii "quarantined", bool (text_eq kind quarantine))
      ∷ [])

  abbrev pub forwarded : Scanned → Json
  forwarded s = json_object (
      (ascii "action", string (ascii "forward"))
      ∷ (
        ascii "message",
        (if is_empty s.provenance then s.working else annotate s.working s.provenance),
      )
      ∷ [])

  module _ (wire : List Json → Json → Received) (client : CalloutClient) where
    -- The loop over the blocks. The outcome is `none` where a verdict never comes.
    unfoldable pub scan_blocks : Json → Json → List Json → Scanned → Scanned × Option Json
    unfolding block_payload absorb annotate
    scan_blocks message context [] s = (s, some (forwarded s))
    scan_blocks message context (block ∷ blocks) s = elim (block_payload block) [
      | none ↦ scan_blocks message context blocks s
      | some payload ↦
          (let (cache, sent, verdict) = Callout.scan wire client context payload s.cache s.sent in
            let s' = record s { cache = cache; sent = sent } in
            elim verdict as (λ o. Scanned × Option Json) [
              | none ↦ (s', none)
              | some v ↦
                  let kind = unwrap_or (get_str v (ascii "kind")) [] in
                  let rest = scan_blocks message context blocks (absorb block v s') in
                  if text_eq kind deny || text_eq kind quarantine
                  then (s', some (blocked message v kind))
                  else rest
            ])
    ]

    unfoldable pub scan : Json → Text → Option (Dict Text Json) → List Json → Scanned × Option Json
    unfolding scan_blocks
    scan message direction cache sent =
        scan_blocks message (message_context message direction) (block_list message)
          (record { working = message; provenance = empty; cache = cache; sent = sent })
