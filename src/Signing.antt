-- ===== src/Signing.antt =====
-- src/signing.rs: signatures and the audit log, over SHA-256 in Sha256. `canonical` is serde_json's
-- printing of a record.
pub mod Sha256
pub mod Digests
pub mod Verified
pub mod Tamper
use Prim.Native.Nat.{bit_or, bit_xor}
use rust_yamp.Prelude.{
  ℕ, zero, suc, ◌-◌, Bool, true, false, not, ◌&&◌, Option, none, some, List, [], ◌∷◌, ◌++◌, map,
  Text, Bytes, ascii, ltb, ◌==◌, if◌then◌else◌, unwrap_or, length, text_eq, ◌>>=◌,
}
use rust_yamp.Json.{Json, null, bool, string, json_object, as_str, index, get_str}
use rust_yamp.Json
use rust_yamp.Signing.Sha256.{sha256, sha256_hex}

abbrev pub replicate : ℕ → ℕ → Bytes
replicate zero b = []
replicate (suc n) b = b ∷ replicate n b

-- 64 hex zeros.
abbrev pub genesis_link : Text
genesis_link = replicate 64 b'0'

abbrev pub hmac_key : Bytes → Bytes
hmac_key secret = if ltb 64 (length secret) then sha256 secret else secret

-- `hmac_sha256`: the key is resized to 64 bytes.
unfoldable pub hmac_sha256 : Bytes → Bytes → Text
hmac_sha256 secret input =
    let key = hmac_key secret ++ replicate (64 - length (hmac_key secret)) 0 in
    let inner = map (λ b. bit_xor b 0x36) key ++ input in
    let outer = map (λ b. bit_xor b 0x5c) key ++ sha256 inner in sha256_hex outer

-- The loop `diff |= x ^ y`.
unfoldable pub diff_loop : ℕ → Bytes → Bytes → ℕ
diff_loop diff (x ∷ a) (y ∷ b) = diff_loop (bit_or diff (bit_xor x y)) a b
diff_loop diff [] b = diff
diff_loop diff (x ∷ a) [] = diff

unfoldable pub constant_time_eq : Bytes → Bytes → Bool
unfolding diff_loop
constant_time_eq a b = if length a == length b then diff_loop 0 a b == 0 else false

abbrev pub text_or_null : Option Text → Json
text_or_null none = null
text_or_null (some s) = string s

unfoldable pub attestation_record : Text → Text → Option Text → Json
attestation_record principal method name = json_object (
    (ascii "type", string (ascii "attestation"))
    ∷ (ascii "principal", string principal)
    ∷ (ascii "method", string method)
    ∷ (ascii "name", text_or_null name)
    ∷ [])

unfoldable pub outcome_record : Text → Option Text → Bool → Json
outcome_record method name passed = json_object (
    (ascii "type", string (ascii "outcome"))
    ∷ (ascii "method", string method)
    ∷ (ascii "name", text_or_null name)
    ∷ (ascii "ok", bool passed)
    ∷ [])

pub record AuditLog : Type 0 where
  pub secret : Text
  pub genesis : Text
  pub head : Text
  pub records : List Json

unfoldable pub new : Text → AuditLog
new secret = record { secret = secret; genesis = genesis_link; head = genesis_link; records = [] }

module _ (canonical : Json → Bytes) where
  unfoldable pub sign : Text → Json → Text
  sign secret item = hmac_sha256 secret (canonical item)

  unfoldable pub verify : Text → Json → Text → Bool
  unfolding sign
  verify secret item signature = constant_time_eq (sign secret item) signature

  unfoldable pub chain : Text → Json → Text
  chain prev_hash item = sha256_hex (prev_hash ++ b'|' ∷ canonical item)

  unfoldable pub entry : Text → Text → Json → Json
  entry secret head item = json_object (
      (ascii "record", item)
      ∷ (ascii "prev", string head)
      ∷ (ascii "signature", string (sign secret item))
      ∷ (ascii "hash", string (chain head item))
      ∷ [])

  -- `entry["hash"].as_str().unwrap_or("")`
  unfoldable pub str_at : Json → Text → Text
  str_at e key = unwrap_or (as_str (index e key)) []

  unfoldable pub append : AuditLog → Json → AuditLog × Json
  unfolding str_at
  append log item =
      let e = entry log.secret log.head item in
      (record log { head = str_at e (ascii "hash"); records = log.records ++ e ∷ [] }, e)

  -- `entry["prev"].as_str() == Some(head)`
  abbrev pub names_head : Option Text → Text → Bool
  names_head none head = false
  names_head (some prev) head = text_eq prev head

  -- The three tests of `AuditLog::verify` on an entry after `head`.
  unfoldable pub intact : Text → Text → Json → Bool
  unfolding verify str_at
  intact secret head e =
      verify secret (index e (ascii "record")) (str_at e (ascii "signature"))
      && names_head (as_str (index e (ascii "prev"))) head
      && text_eq (chain head (index e (ascii "record"))) (str_at e (ascii "hash"))

  unfoldable pub verify_from : Text → Text → List Json → Bool
  unfolding intact
  verify_from secret head [] = true
  verify_from secret head (e ∷ es) =
      intact secret head e && verify_from secret (str_at e (ascii "hash")) es

  unfoldable pub verify_log : AuditLog → Bool
  unfolding verify_from
  verify_log log = verify_from log.secret log.genesis log.records
