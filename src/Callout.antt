-- ===== src/Callout.antt =====
-- src/callout.rs: the callout to a scanning service. `wire` is the service with its transport: what a
-- request comes to after those that were sent before. A verdict that is `none` never comes: the
-- service is silent, the client has no deadline, and the code waits forever.
pub mod Verdicts
pub mod Cached
use rust_yamp.Prelude.{
  ℕ, ◌+◌, ◌-◌, Bool, true, false, not, ◌&&◌, ◌||◌, Option, none, some, List, [], ◌∷◌, ◌++◌, Text,
  Bytes, ascii, text_eq, if◌then◌else◌, ◌>>=◌, unwrap_or, length, ltb, leb, take, any, map_or,
}
use rust_yamp.Prelude.Hex.{to_hex}
use rust_yamp.Json.{Json, Map, null, bool, string, object, empty, json_object, insert, get_str}
use rust_yamp.Json
use rust_yamp.Base64
use rust_yamp.Dict.{Dict, text_key}
use rust_yamp.Dict
use rust_yamp.Filters.{deny, quarantine, resolve_failure}
use rust_yamp.Signing.Sha256.{sha256_hex}

abbrev pub mutate : Text
mutate = ascii "mutate"

abbrev pub annotate : Text
annotate = ascii "annotate"

abbrev pub continue : Text
continue = ascii "continue"

abbrev pub verdicts : List Text
verdicts = ascii "allow" ∷ deny ∷ mutate ∷ annotate ∷ quarantine ∷ []

unfoldable pub content_digest : Bytes → Text
content_digest content = sha256_hex content

unfoldable pub callout_request : Json → Text → Bytes → Bool → Json
callout_request context phase content ieof = json_object (
    (ascii "callout", string (ascii "1"))
    ∷ (ascii "phase", string phase)
    ∷ (ascii "context", context)
    ∷ (ascii "ieof", bool ieof)
    ∷ (ascii "content", string (Base64.encode content))
    ∷ [])

unfoldable pub exceeds_budget : ℕ → ℕ → Bool
exceeds_budget size max_bytes = ltb 0 max_bytes && ltb max_bytes size

unfoldable pub valid_verdict : Text → Bool
valid_verdict kind = any (λ v. text_eq v kind) verdicts || text_eq kind continue

-- The verdict that a failure comes to.
unfoldable pub failed : Text → Text → Json
unfolding resolve_failure
failed policy reason =
    json_object
      ((ascii "kind", string (resolve_failure policy)) ∷ (ascii "reason", string reason) ∷ [])

-- `if let Some(provenance) = … { verdict.insert("provenance", provenance.clone()); }`
abbrev pub with_provenance : Option Json → Map → Map
with_provenance none verdict = verdict
with_provenance (some provenance) verdict = insert verdict (ascii "provenance") provenance

abbrev pub with_reason : Json → Text → Map → Map
with_reason response kind verdict =
    if text_eq kind deny || text_eq kind quarantine
    then insert verdict (ascii "reason") (string (unwrap_or (get_str response (ascii "reason")) []))
    else verdict

abbrev pub with_bytes : Json → Text → Map → Map
with_bytes response kind verdict =
    let bytes =
      map_or (get_str response (ascii "content") >>= Base64.decode) null λ b. string (to_hex b) in
    if text_eq kind mutate
    then with_provenance (Json.get response (ascii "provenance"))
        (insert verdict (ascii "bytes") bytes)
    else verdict

abbrev pub with_annotation : Json → Text → Map → Map
with_annotation response kind verdict =
    if text_eq kind annotate
    then insert verdict (ascii "provenance")
        (unwrap_or (Json.get response (ascii "provenance")) (object empty))
    else verdict

-- The verdict of a response whose kind is valid.
unfoldable pub verdict_of : Json → Text → Json
verdict_of response kind =
    if text_eq kind continue
    then json_object ((ascii "kind", string continue) ∷ [])
    else object (
        with_annotation response kind (
          with_bytes response kind
            (with_reason response kind (insert empty (ascii "kind") (string kind)))))

abbrev pub parse_kind : Json → Text → Option Text → Json
parse_kind response policy none = failed policy (ascii "malformed callout response")
parse_kind response policy (some kind) =
    if valid_verdict kind
    then verdict_of response kind
    else failed policy (ascii "malformed callout response")

unfoldable pub parse_verdict : Json → Text → Json
unfolding verdict_of failed valid_verdict
parse_verdict response policy = parse_kind response policy (get_str response (ascii "verdict"))

-- `CalloutClient` without its transport.
pub record CalloutClient : Type 0 where
  pub failure_policy : Text
  pub max_bytes : ℕ
  pub preview_bytes : ℕ
  pub deadline : Option ℕ

unfoldable pub new : CalloutClient
new = record {
  failure_policy = ascii "fail_closed";
  max_bytes = 0;
  preview_bytes = 0;
  deadline = none;
}

unfoldable pub with_failure_policy : CalloutClient → Text → CalloutClient
with_failure_policy client policy = record client { failure_policy = policy }

unfoldable pub with_budget : CalloutClient → ℕ → CalloutClient
with_budget client max_bytes = record client { max_bytes = max_bytes }

unfoldable pub with_preview : CalloutClient → ℕ → CalloutClient
with_preview client preview_bytes = record client { preview_bytes = preview_bytes }

unfoldable pub with_deadline : CalloutClient → ℕ → CalloutClient
with_deadline client deadline = record client { deadline = some deadline }

-- What a call comes to: a failed write, silence for as long as the code waits, an end or an error of
-- the stream, bytes that are no JSON, or a response.
pub data Received : Type 0 where
  send_failed silent closed read_failed undecodable : Received
  received : Json → Received

-- Silence ends with the deadline, where there is one.
unfoldable pub expired : Text → Option ℕ → Option Json
unfolding failed
expired policy none = none
expired policy (some deadline) = some (failed policy (ascii "callout deadline exceeded"))

unfoldable pub settle : Text → Option ℕ → Received → Option Json
unfolding failed parse_verdict expired
settle policy deadline send_failed = some (failed policy (ascii "callout transport error"))
settle policy deadline silent = expired policy deadline
settle policy deadline closed = some (failed policy (ascii "callout closed"))
settle policy deadline read_failed = some (failed policy (ascii "callout transport error"))
settle policy deadline undecodable = some (failed policy (ascii "callout decode error"))
settle policy deadline (received response) = some (parse_verdict response policy)

-- `verdict.get("kind").and_then(Value::as_str) == Some(CONTINUE)`
abbrev pub is_continue : Json → Bool
is_continue verdict = map_or (get_str verdict (ascii "kind")) false λ kind. text_eq kind continue

-- `VerdictCache::get` and `put`, where there is a cache.
abbrev pub cached : Option (Dict Text Json) → Text → Option Json
cached cache digest = cache >>= λ c. Dict.get c digest

abbrev pub store : Option (Dict Text Json) → Text → Option Json → Option (Dict Text Json)
store none digest verdict = none
store (some c) digest none = some c
store (some c) digest (some verdict) =
    some (if is_continue verdict then c else Dict.insert c digest verdict)

module _ (wire : List Json → Json → Received) where
  unfoldable pub call :
      CalloutClient → Json → Text → Bytes → Bool → List Json → List Json × Option Json
  unfolding callout_request settle
  call client context phase content ieof sent =
      let request = callout_request context phase content ieof in
      (sent ++ request ∷ [], settle client.failure_policy client.deadline (wire sent request))

  -- The preview phase: `self.preview_bytes.min(content.len())` bytes of the content.
  unfoldable pub exchange : CalloutClient → Json → Bytes → List Json → List Json × Option Json
  unfolding call
  exchange client context content sent =
      let size = length content in
      let n =
        if ltb 0 client.preview_bytes && ltb client.preview_bytes size
        then client.preview_bytes
        else size in
      call client context (ascii "preview") (take n content) (leb size n) sent

  -- The phases of a scan that is not answered from the cache.
  unfoldable pub phases : CalloutClient → Json → Bytes → List Json → List Json × Option Json
  unfolding exchange call
  phases client context content sent =
      let (sent', verdict) = exchange client context content sent in
      let body = call client context (ascii "body") content true sent' in
      if map_or verdict false is_continue then body else (sent', verdict)

  unfoldable pub scan :
      CalloutClient
      → Json
      → Bytes
      → Option (Dict Text Json)
      → List Json
      → Option (Dict Text Json) × List Json × Option Json
  unfolding phases content_digest exceeds_budget failed
  scan client context content cache sent =
      let digest = content_digest content in
      let (sent', verdict) = phases client context content sent in
      let fresh : Option (Dict Text Json) × List Json × Option Json =
        (store cache digest verdict, sent', verdict) in
      if exceeds_budget (length content) client.max_bytes
      then (cache, sent, some (failed client.failure_policy (ascii "payload exceeds byte budget")))
      else map_or (cached cache digest) fresh λ hit. (cache, sent, some hit)
