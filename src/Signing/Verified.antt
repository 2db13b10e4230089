-- ===== src/Signing/Verified.antt =====
-- A log that was only appended to verifies, and says of what it verifies no more than its chain.
use rust_yamp.Prelude.{
  ◌≡◌, refl, true, ◌&&◌, List, [], ◌∷◌, ◌++◌, Text, Bytes, text_eq, text_eq_refl, arith, ascii,
}
use rust_yamp.Json.{Json, string, as_str, index, lookup, insert, extend}
use rust_yamp.Json
use rust_yamp.Signing.{
  AuditLog, new, sign, verify, chain, entry, append, str_at, intact, verify_from, verify_log,
}
use rust_yamp.Signing.Digests.{constant_time_eq_iff}
use rust_yamp.Prelude.{text_lt}

module _ (canonical : Json → Bytes) where
  -- `append` for each record in turn.
  abbrev pub append_all : AuditLog → List Json → AuditLog
  append_all log [] = log
  append_all log (r ∷ rs) = append_all (append canonical log r).0 rs

  -- The hash of the last entry, or the link before the first.
  abbrev pub last_hash : Text → List Json → Text
  last_hash head [] = head
  last_hash head (e ∷ es) = last_hash (str_at canonical e (ascii "hash")) es

  entry-record :
      (secret head : Text) (r : Json) → index (entry canonical secret head r) (ascii "record") ≡ r
  unfolding entry index Json.get lookup insert extend text_eq text_lt
  entry-record secret head r = refl

  entry-prev :
      (secret head : Text) (r : Json)
      → index (entry canonical secret head r) (ascii "prev") ≡ string head
  unfolding entry index Json.get lookup insert extend text_eq text_lt
  entry-prev secret head r = refl

  entry-signature :
      (secret head : Text) (r : Json)
      → str_at canonical (entry canonical secret head r) (ascii "signature")
        ≡ sign canonical secret r
  unfolding entry str_at index Json.get lookup insert extend text_eq text_lt
  entry-signature secret head r = refl

  entry-hash :
      (secret head : Text) (r : Json)
      → str_at canonical (entry canonical secret head r) (ascii "hash") ≡ chain canonical head r
  unfolding entry str_at index Json.get lookup insert extend text_eq text_lt
  entry-hash secret head r = refl

  entry-intact :
      (secret head : Text) (r : Json)
      → intact canonical secret head (entry canonical secret head r) ≡ true
  unfolding intact verify
  entry-intact secret head r = rw (
    entry-record secret head r,
    entry-prev secret head r,
    entry-signature secret head r,
    entry-hash secret head r,
    text_eq_refl head,
    text_eq_refl (chain canonical head r),
    (constant_time_eq_iff (sign canonical secret r) (sign canonical secret r)).1 refl,
  )

  verify_from-append :
      (secret head : Text) (es fs : List Json)
      → verify_from canonical secret head (es ++ fs) ≡ (
          verify_from canonical secret head es
          && verify_from canonical secret (last_hash head es) fs)
  unfolding verify_from
  verify_from-append secret head [] fs = refl
  verify_from-append secret head (e ∷ es) fs =
      ground (arith, verify_from-append secret (str_at canonical e (ascii "hash")) es fs)

  last_hash-append :
      (head : Text) (es : List Json) (e : Json)
      → last_hash head (es ++ e ∷ []) ≡ str_at canonical e (ascii "hash")
  last_hash-append head [] e = refl
  last_hash-append head (x ∷ es) e = last_hash-append (str_at canonical x (ascii "hash")) es e

  -- The log verifies, and its head is the link of its last entry.
  pub record IsIntact (log : AuditLog) : Type 0 where
    pub verified : verify_log canonical log ≡ true
    pub linked : last_hash log.genesis log.records ≡ log.head

  append-verified :
      (log : AuditLog) (r : Json)
      → IsIntact log
      → verify_log canonical (append canonical log r).0 ≡ true
  unfolding append verify_log verify_from
  append-verified log r h =
      rw
        (
          verify_from-append log.secret log.genesis log.records
              (entry canonical log.secret log.head r ∷ []),
          h.verified,
          h.linked,
        )
        (rw (entry-intact log.secret log.head r) refl)

  pub append-IsIntact :
      (log : AuditLog) (r : Json) → IsIntact log → IsIntact (append canonical log r).0
  unfolding append
  append-IsIntact log r h = record {
    verified = append-verified log r h;
    linked = last_hash-append log.genesis log.records (entry canonical log.secret log.head r);
  }

  append_all-IsIntact :
      (log : AuditLog) (rs : List Json) → IsIntact log → IsIntact (append_all log rs)
  append_all-IsIntact log [] h = h
  append_all-IsIntact log (r ∷ rs) h =
      append_all-IsIntact (append canonical log r).0 rs (append-IsIntact log r h)

  new-IsIntact : (secret : Text) → IsIntact (new secret)
  unfolding new verify_log verify_from
  new-IsIntact secret = record { verified = refl; linked = refl }

  -- A new log to which any records were appended verifies.
  pub verify_log-append_all :
      (secret : Text) (rs : List Json) → verify_log canonical (append_all (new secret) rs) ≡ true
  verify_log-append_all secret rs =
      (append_all-IsIntact (new secret) rs (new-IsIntact secret)).verified

  -- A log cut off after some of its entries still verifies.
  pub verify_log-truncated :
      (log : AuditLog) (es fs : List Json)
      → log.records ≡ es ++ fs
      → verify_log canonical log ≡ true
      → verify_log canonical (record log { records = es }) ≡ true
  unfolding verify_log
  verify_log-truncated log es fs whole h =
      ground (arith, verify_from-append log.secret log.genesis es fs)
