-- ===== src/Filters.antt =====
-- src/filters.rs: verdicts, interest, preview, and the chain. A filter is what the chain calls of
-- it: its policy for failures, its interest, and `evaluate`, which may fail.
pub mod Interest
pub mod Chain
pub mod Failing
pub mod Forwarded
use rust_yamp.Prelude.{
  ℕ, zero, suc, ◌+◌, ◌-◌, ◌*◌, ◌/◌, ◌%◌, ◌^◌, ◌≤◌, ◌<◌, ◌≡◌, refl, sym, ap, ◌∙◌, ◌≢◌, ◌↔◌, ◌⊎◌, inl,
  inr, Bool, true, false, not, ◌&&◌, ◌||◌, Option, none, some, List, [], ◌∷◌, ◌++◌, map, append-nil,
  append_assoc, arith, ltb, leb, ◌==◌, if◌then◌else◌, ==_iff, Bool-cases, Option-cases,
  some_injective, >>=-eq-some, ◌>>=◌, unwrap_or, is_some, length, take, drop, get_or, any, all,
  retain, length-append, All, All-append, Any, Any-imp, Bytes, Text, ascii, text_eq, text_lt,
  text_eq_refl, eq_of_text_eq, text_eq_iff, text_eq_of_ne, strip_prefix, starts_with, contains,
  split_once, text_eq_comm, Result, ok, err, and_then,
}
use rust_yamp.Prelude.Hex.{to_hex}
use rust_yamp.Prelude.Sort.{sort, dedup}
use rust_yamp.Json.{
  Json, Map, Number, empty, null, bool, number, string, array, object, neg_int, lookup, insert,
  extend, entries, of_list, index, as_object, as_array, as_str, get_str, json_object,
}
use rust_yamp.Json
use rust_yamp.Content.{block_list}
use rust_yamp.Filters.Interest.{interested, message_context}

-- -32001
abbrev pub policy_denied : Json
policy_denied = number (neg_int 32000)

abbrev pub deny : Text
deny = ascii "deny"

abbrev pub quarantine : Text
quarantine = ascii "quarantine"

unfoldable pub resolve_failure : Text → Text
resolve_failure policy = if text_eq policy (ascii "fail_closed") then deny else ascii "allow"

unfoldable pub deny_response : Json → Text → Json
deny_response id reason = json_object (
    (ascii "jsonrpc", string (ascii "2.0"))
    ∷ (ascii "id", id)
    ∷ (
      ascii "error",
      json_object ((ascii "code", policy_denied) ∷ (ascii "message", string reason) ∷ []),
    )
    ∷ [])

-- `verdict["kind"].as_str().unwrap_or("")`
unfoldable pub kind_of : Json → Text
unfolding index
kind_of verdict = unwrap_or (as_str (index verdict (ascii "kind"))) []

abbrev pub object_or_empty : Option Json → Map
object_or_empty v = unwrap_or (v >>= as_object) empty

-- `params._meta` with the verdict's provenance merged in.
unfoldable pub annotated : Json → Map → Map
annotated verdict params =
    extend (object_or_empty (lookup params (ascii "_meta")))
      (entries (object_or_empty (Json.get verdict (ascii "provenance"))))

unfoldable pub apply_params : Json → Map → Map
unfolding kind_of annotated
apply_params verdict params =
    if text_eq (kind_of verdict) (ascii "mutate")
    then insert params (ascii "arguments") (index verdict (ascii "arguments"))
    else if text_eq (kind_of verdict) (ascii "annotate")
    then insert params (ascii "_meta") (object (annotated verdict params))
    else params

unfoldable pub apply_one : Json → Json → Json
unfolding kind_of apply_params
apply_one verdict message =
    if text_eq (kind_of verdict) (ascii "allow")
    then message
    else object (
        insert (object_or_empty (some message)) (ascii "params")
          (object (apply_params verdict (object_or_empty (Json.get message (ascii "params"))))))

unfoldable pub is_terminal : Json → Bool
unfolding kind_of
is_terminal verdict = text_eq (kind_of verdict) deny || text_eq (kind_of verdict) quarantine

unfoldable pub blocked : Json → Json → Json
unfolding deny_response kind_of
blocked request verdict = json_object (
    (ascii "action", string (ascii "block"))
    ∷ (
      ascii "response",
      deny_response (unwrap_or (Json.get request (ascii "id")) null)
          (unwrap_or (get_str verdict (ascii "reason")) []),
    )
    ∷ (ascii "quarantined", bool (text_eq (kind_of verdict) quarantine))
    ∷ [])

unfoldable pub forwarded : Json → Json
forwarded message =
    json_object ((ascii "action", string (ascii "forward")) ∷ (ascii "message", message) ∷ [])

-- The loop of `chain_outcome`, from the message shaped so far.
unfoldable pub outcome_from : Json → Json → List Json → Json
unfolding is_terminal blocked forwarded apply_one
outcome_from request message [] = forwarded message
outcome_from request message (verdict ∷ verdicts) =
    if is_terminal verdict
    then blocked request verdict
    else outcome_from request (apply_one verdict message) verdicts

unfoldable pub chain_outcome : List Json → Json → Json
unfolding outcome_from
chain_outcome verdicts request = outcome_from request request verdicts

unfoldable pub preview : Bytes → ℕ → Json
unfolding to_hex
preview bytes n = json_object (
    (ascii "preview", string (to_hex (take n bytes)))
    ∷ (ascii "ieof", bool (leb (length bytes) n))
    ∷ [])

unfoldable pub preview_resolve : Text → Bool → Json
preview_resolve decision ieof =
    if text_eq decision (ascii "continue")
    then json_object
        ((ascii "action", string (if ieof then ascii "scan_full" else ascii "need_more")) ∷ [])
    else json_object
        ((ascii "action", string (ascii "verdict")) ∷ (ascii "kind", string decision) ∷ [])

pub record Filter : Type 0 where
  pub failure_policy : Text
  pub interest : Json
  pub evaluate : Text → Json → Result Json

-- The verdict of a filter that is asked: its own, or what its policy makes of its failure.
unfoldable pub resolved : Filter → Result Json → Json
unfolding resolve_failure
resolved f (ok verdict) = verdict
resolved f (err reason) =
    json_object ((ascii "kind", string (resolve_failure f.failure_policy)) ∷ [])

-- The loop of `run`: the verdicts up to the first terminal one.
unfoldable pub run_loop : List Filter → Text → Json → Json → List Json
unfolding interested resolved is_terminal apply_one
run_loop [] hook context message = []
run_loop (f ∷ fs) hook context message =
    let skipped = run_loop fs hook context message in
    let verdict = resolved f (f.evaluate hook message) in
    let later = run_loop fs hook context (apply_one verdict message) in
    if interested f.interest context
    then verdict ∷ (if is_terminal verdict then [] else later)
    else skipped

unfoldable pub run : List Filter → Text → Json → Json
unfolding message_context run_loop chain_outcome
run filters hook request =
    let context = message_context request (ascii "c2u") in
    chain_outcome (run_loop filters hook context request) request
