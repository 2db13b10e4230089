-- ===== src/Icap/Blocked.antt =====
-- A message that cannot be scanned is not forwarded by a fail-closed scanner.
use rust_yamp.Prelude.{
  Option, ℕ, length, if_all, ◌>>=◌, ◌≡◌, ◌≢◌, refl, inl, inr, Bool, true, none, some, List, [], ◌∷◌,
  Text, Bytes, ascii, text_eq, text_lt, text_eq_refl, Option-cases, is_some, any,
}
use rust_yamp.Json.{Json, string, insert, extend, lookup, get_str}
use rust_yamp.Json
use rust_yamp.Filters.{deny}
use rust_yamp.Content.{block_list}
use rust_yamp.Dict.{Dict}
use rust_yamp.Callout.{
  send_failed, closed, read_failed, undecodable, settle, silent, expired, phases, exchange, call,
  exceeds_budget, CalloutClient, Received, received, content_digest, cached,
}
use rust_yamp.Callout
use rust_yamp.Callout.Verdicts.{kind, settle-Judged, preview_request, failed-denies, denies}
use rust_yamp.Icap.{Scanned, block_payload, scan_blocks, scan, blocked}

-- There is a block whose bytes or text are inline.
abbrev pub has_payload : Json → Bool
has_payload block = is_some (block_payload block)

-- What a scan comes to, if it ends, is an outcome with this action.
abbrev pub action : Option Json → Option Text
action outcome = do o ← outcome; get_str o (ascii "action")

module _ (wire : List Json → Json → Received) (client : CalloutClient)
    (strict : client.failure_policy ≡ ascii "fail_closed")
    (gone : (sent : List Json) (request response : Json) → wire sent request ≢ received response)
    (ends : (sent : List Json) (request : Json)
      → client.deadline ≡ none
      → wire sent request ≢ silent) where
  -- A verdict that is there, and denies.
  abbrev Denied : Option Json → Type 0
  Denied o = (verdict : Json) × (o ≡ some verdict) × (get_str verdict (ascii "kind") ≡ some deny)

  expired-Denied :
      (sent : List Json) (request : Json) (deadline : Option ℕ)
      → (deadline ≡ none → wire sent request ≢ silent)
      → wire sent request ≡ silent
      → (verdict : Json) × (expired client.failure_policy deadline ≡ some verdict)
  unfolding expired
  expired-Denied sent request none e w = absurd (e refl w)
  expired-Denied sent request (some d) e w = (_, refl)

  settle-comes :
      (sent : List Json) (request : Json) (answer : Received)
      → wire sent request ≡ answer
      → (verdict : Json) × (settle client.failure_policy client.deadline answer ≡ some verdict)
  unfolding settle
  settle-comes sent request send_failed w = (_, refl)
  settle-comes sent request silent w =
      expired-Denied sent request client.deadline (ends sent request) w
  settle-comes sent request closed w = (_, refl)
  settle-comes sent request read_failed w = (_, refl)
  settle-comes sent request undecodable w = (_, refl)
  settle-comes sent request (received response) w = (_, refl)

  -- The preview is denied, so that nothing more is sent.
  phases-Denied :
      (context : Json) (content : Bytes) (sent : List Json)
      → Denied (phases wire client context content sent).1
  unfolding phases exchange call
  phases-Denied context content sent =
      let preview = preview_request client context content in
      let (verdict, e) = settle-comes sent preview (wire sent preview) refl in
      let judged = settle-Judged wire client strict sent preview client.deadline _ refl in
      let denied : kind verdict ≡ some deny = elim (rw e at judged) [
        | inl d ↦ d
        | inr (response, w, h) ↦ absurd (gone sent preview response w)
      ] in
      rw (e, denies (kind verdict) denied) (verdict, refl, denied)

  denied :
      (context : Json) (content : Bytes) (sent : List Json)
      → Denied (Callout.scan wire client context content none sent).2
  unfolding Callout.scan
  denied context content sent =
      if_all (λ (x : Option (Dict Text Json) × List Json × Option Json). Denied x.2)
        (exceeds_budget (length content) client.max_bytes) _ _
        (_, refl, failed-denies wire client strict _) (phases-Denied context content sent)

module _ (lossy : Bytes → Text) (wire : List Json → Json → Received) (client : CalloutClient)
    (strict : client.failure_policy ≡ ascii "fail_closed")
    (gone : (sent : List Json) (request response : Json) → wire sent request ≢ received response)
    (ends : (sent : List Json) (request : Json)
      → client.deadline ≡ none
      → wire sent request ≢ silent) where
  blocked-action :
      (message verdict : Json) (kind : Text)
      → get_str (blocked lossy message verdict kind) (ascii "action") ≡ some (ascii "block")
  unfolding get_str Json.get insert extend lookup text_eq text_lt
  blocked-action message verdict kind = refl

  scan_blocks-blocked :
      (message context : Json) (blocks : List Json) (s : Scanned)
      → s.cache ≡ none
      → any has_payload blocks ≡ true
      → action (scan_blocks lossy wire client message context blocks s).1 ≡ some (ascii "block")
  unfolding scan_blocks
  scan_blocks-blocked message context [] s c h = absurd (cc)
  scan_blocks-blocked message context (block ∷ blocks) s c h =
      elim (Option-cases (block_payload block)) [
        | inl e ↦ rw (scan_blocks, e) (scan_blocks-blocked message context blocks s c (rw e at h))
        | inr (payload, e) ↦
            (let (verdict, comes, denies) =
                denied wire client strict gone ends context payload s.sent in
              rw (scan_blocks, e, c, comes, denies, text_eq_refl deny)
                (blocked-action message verdict deny))
      ]

module _ (lossy : Bytes → Text) (wire : List Json → Json → Received) where
  -- Under a fail-closed client without a cache, whose service never answers, and has a deadline or
  -- fails rather than being silent, the scan of a message with a block whose bytes or text are inline
  -- blocks the message.
  pub scan-blocked :
      (client : CalloutClient)
      → client.failure_policy ≡ ascii "fail_closed"
      → ((sent : List Json) (request response : Json) → wire sent request ≢ received response)
      → ((sent : List Json) (request : Json) → client.deadline ≡ none → wire sent request ≢ silent)
      → (message : Json) (direction : Text) (sent : List Json)
      → any has_payload (block_list message) ≡ true
      → action (scan lossy wire client message direction none sent).1 ≡ some (ascii "block")
  unfolding scan
  scan-blocked client strict gone ends message direction sent h =
      scan_blocks-blocked lossy wire client strict gone ends message _ (block_list message) _ refl h
