-- ===== src/Tests/Signing.antt =====
-- src/signing.rs on a short log.
use rust_yamp.Prelude.{
  ◌≡◌, refl, ◌⊎◌, true, List, [], ◌∷◌, Bytes, ascii, unwrap_or, text_eq, text_lt,
}
use rust_yamp.Json.{Json, json_object, string, get_str, index, as_str, insert, extend, lookup}
use rust_yamp.Json
use rust_yamp.Signing.{AuditLog, new, append, entry, str_at, constant_time_eq, verify_log}
use rust_yamp.Signing.Verified.{append_all, verify_log-append_all, verify_log-truncated}
use rust_yamp.Signing.Tamper.{recorded, Collides, tamper_evident}

-- A printing that shows the type of a record.
abbrev canonical : Json → Bytes
canonical v = unwrap_or (get_str v (ascii "type")) []

abbrev records : List Json
records =
    json_object ((ascii "type", string (ascii "attestation")) ∷ [])
    ∷ json_object ((ascii "type", string (ascii "outcome")) ∷ [])
    ∷ []

abbrev log_under : Bytes → AuditLog
log_under secret = append_all canonical (new secret) records

verify_log-append_all_example : verify_log canonical (log_under (ascii "k")) ≡ true
verify_log-append_all_example = verify_log-append_all canonical (ascii "k") records

verify_log-truncated_example :
    verify_log canonical (record (log_under (ascii "k")) { records = [] }) ≡ true
verify_log-truncated_example =
    verify_log-truncated canonical (log_under (ascii "k")) [] (log_under (ascii "k")).records refl
      (verify_log-append_all canonical (ascii "k") records)

tamper_evident_example :
    (recorded canonical (log_under (ascii "k")).records
      ≡ recorded canonical (log_under (ascii "other")).records)
    ⊎ Collides canonical
        (log_under (ascii "k")).genesis
        (log_under (ascii "other")).genesis
        (log_under (ascii "k")).records
        (log_under (ascii "other")).records
unfolding new append entry str_at index Json.get insert extend lookup text_eq text_lt
    rust_yamp.Signing.sign rust_yamp.Signing.chain
tamper_evident_example =
    tamper_evident canonical (log_under (ascii "k")) (log_under (ascii "other")) refl refl
      (verify_log-append_all canonical (ascii "k") records)
      (verify_log-append_all canonical (ascii "other") records) refl
