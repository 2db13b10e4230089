-- ===== src/Callout/Cached.antt =====
-- The cache of src/callout.rs keeps a verdict.
use rust_yamp.Prelude.{
  Bool, ◌≡◌, refl, inl, inr, true, false, Option, none, some, List, Text, Bytes, ascii,
  text_eq_refl, Bool-cases, Option-cases, length,
}
use rust_yamp.Json.{Json}
use rust_yamp.Dict.{Dict, text_key, get-insert}
use rust_yamp.Callout.{
  CalloutClient, Received, failed, is_continue, cached, store, phases, scan, content_digest,
  exceeds_budget,
}

module _ (wire : List Json → Json → Received) (client : CalloutClient) where
  scan-hit :
      (context : Json) (content : Bytes) (cache : Option (Dict Text Json)) (sent : List Json)
      (hit : Json)
      → exceeds_budget (length content) client.max_bytes ≡ false
      → cached cache (content_digest content) ≡ some hit
      → scan wire client context content cache sent ≡ (cache, sent, some hit)
  unfolding scan
  scan-hit context content cache sent hit x h = rw (x, h) refl

  stored :
      (c : Dict Text Json) (digest : Text) (v : Json)
      → is_continue v ≡ false
      → cached (store (some c) digest (some v)) digest ≡ some v
  stored c digest v h = rw (h, get-insert c digest digest v, text_eq_refl digest) refl

  scan-large :
      (context : Json) (content : Bytes) (cache : Option (Dict Text Json)) (sent : List Json)
      → exceeds_budget (length content) client.max_bytes ≡ true
      → scan wire client context content cache sent
        ≡ (cache, sent, some (failed client.failure_policy (ascii "payload exceeds byte budget")))
  unfolding scan
  scan-large context content cache sent x = rw x refl

  scan-miss :
      (context : Json) (content : Bytes) (cache : Option (Dict Text Json)) (sent : List Json)
      → exceeds_budget (length content) client.max_bytes ≡ false
      → cached cache (content_digest content) ≡ none
      → scan wire client context content cache sent ≡ (
          let (sent', verdict) = phases wire client context content sent in
          (store cache (content_digest content) verdict, sent', verdict))
  unfolding scan
  scan-miss context content cache sent x h = rw (x, h) refl

  -- No verdict, or one to continue.
  abbrev pub undecided : Option Json → Bool
  undecided none = true
  undecided (some verdict) = is_continue verdict

  scan-stored :
      (context : Json) (content : Bytes) (c : Dict Text Json) (sent : List Json)
      (verdict : Option Json)
      → exceeds_budget (length content) client.max_bytes ≡ false
      → undecided verdict ≡ false
      → scan wire client context content (store (some c) (content_digest content) verdict) sent
        ≡ (store (some c) (content_digest content) verdict, sent, verdict)
  scan-stored context content c sent none x h = absurd (cc)
  scan-stored context content c sent (some v) x h =
      scan-hit context content (store (some c) (content_digest content) (some v)) sent v x
        (stored c (content_digest content) v h)

  -- A content that was scanned with a cache, and whose verdict came and is not to continue, is not
  -- sent to the service again: a second scan of it, in any context, leaves cache and trace as they
  -- are and gives the same verdict.
  pub scan-scan :
      (context context' : Json) (content : Bytes) (c : Dict Text Json) (sent : List Json)
      → undecided (scan wire client context content (some c) sent).2 ≡ false
      → scan wire client context' content
          (scan wire client context content (some c) sent).0
          (scan wire client context content (some c) sent).1
        ≡ scan wire client context content (some c) sent
  scan-scan context context' content c sent h =
      elim (Bool-cases (exceeds_budget (length content) client.max_bytes)) [
        | inl x ↦
            rw (scan-large context content (some c) sent x)
              (scan-large context' content (some c) sent x)
        | inr x ↦ elim (Option-cases (cached (some c) (content_digest content))) [
          | inr (hit, e) ↦
              rw (scan-hit context content (some c) sent hit x e)
                (scan-hit context' content (some c) sent hit x e)
          | inl e ↦
              (let (sent', verdict) = phases wire client context content sent in
                let miss = scan-miss context content (some c) sent x e in
                rw miss (scan-stored context' content c sent' verdict x (rw miss at h)))
        ]
      ]
