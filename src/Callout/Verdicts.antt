-- ===== src/Callout/Verdicts.antt =====
-- What a verdict of src/callout.rs rests on.
use rust_yamp.Prelude.{
  ℕ, ◌++◌, ◌&&◌, ltb, leb, take, map_or, if◌then◌else◌, ◌≡◌, refl, sym, ◌∙◌, ◌⊎◌, inl, inr, true,
  false, Option, none, some, List, [], ◌∷◌, Text, Bytes, ascii, text_eq, text_lt, eq_of_text_eq,
  if_all, Bool-cases, length,
}
use rust_yamp.Json.{
  Json, Map, string, object, empty, json_object, insert, extend, lookup, lookup-insert, get_str,
}
use rust_yamp.Json
use rust_yamp.Dict.{Dict, text_key}
use rust_yamp.Filters.{deny, resolve_failure}
use rust_yamp.Callout.{
  CalloutClient, Received, send_failed, silent, expired, callout_request, closed, read_failed,
  undecodable, received, failed, verdict_of, parse_kind, parse_verdict, valid_verdict, settle,
  is_continue, cached, content_digest, with_reason, with_bytes, with_annotation, with_provenance,
  continue,
}

abbrev pub kind : Json → Option Text
kind verdict = get_str verdict (ascii "kind")

failed-kind : (reason : Text) → kind (failed (ascii "fail_closed") reason) ≡ some deny
unfolding failed resolve_failure get_str Json.get lookup insert extend text_eq text_lt
failed-kind reason = refl

abbrev AtKind : Map → Text → Type 0
AtKind m k = lookup m (ascii "kind") ≡ some (string k)

insert-other :
    (m : Map) (key k : Text) (v : Json)
    → text_eq key (ascii "kind") ≡ false
    → AtKind m k
    → AtKind (insert m key v) k
insert-other m key k v e h = rw (lookup-insert m key (ascii "kind") v, e) h

provenance-kind :
    (p : Option Json) (m : Map) (k : Text) → AtKind m k → AtKind (with_provenance p m) k
unfolding text_eq
provenance-kind none m k h = h
provenance-kind (some v) m k h = insert-other m (ascii "provenance") k v refl h

kind-object : (m : Map) (k : Text) → AtKind m k → kind (object m) ≡ some k
unfolding get_str Json.get
kind-object m k h = rw h refl

inserted-kind :
    (response : Json) (k : Text) (m : Map)
    → AtKind m k
    → AtKind (with_annotation response k (with_bytes response k (with_reason response k m))) k
unfolding text_eq
inserted-kind response k m h =
    let P : Map → Type 0 = λ x. AtKind x k in
    let reasoned = if_all P _ _ _ (insert-other m (ascii "reason") k _ refl h) h in
    let m1 = with_reason response k m in
    let bytes =
      if_all P _ _ _
        (provenance-kind (Json.get response (ascii "provenance")) _ k
          (insert-other m1 (ascii "bytes") k _ refl reasoned))
        reasoned in
    if_all P _ _ _ (insert-other (with_bytes response k m1) (ascii "provenance") k _ refl bytes)
      bytes

continued-kind : kind (json_object ((ascii "kind", string continue) ∷ [])) ≡ some continue
unfolding get_str Json.get insert extend lookup text_eq text_lt
continued-kind = refl

kind-first : (k : Text) → AtKind (insert empty (ascii "kind") (string k)) k
unfolding insert lookup text_eq
kind-first k = refl

verdict_of-kind : (response : Json) (k : Text) → kind (verdict_of response k) ≡ some k
unfolding verdict_of
verdict_of-kind response k = elim (Bool-cases (text_eq k continue)) [
  | inl e ↦ rw e (rw (eq_of_text_eq k continue e) continued-kind)
  | inr e ↦ rw e (
      kind-object _ k
        (inserted-kind response k (insert empty (ascii "kind") (string k)) (kind-first k)))
]

-- The service answered this request, after those that were sent before, with this verdict.
abbrev pub Answered : (List Json → Json → Received) → List Json → Json → Option Text → Type 0
Answered wire sent request verdict =
    (response : Json) × (wire sent request ≡ received response)
    × (get_str response (ascii "verdict") ≡ verdict)

-- The two requests of a scan: the first bytes of the content, as many as the client previews, and
-- the whole content.
abbrev pub preview_request : CalloutClient → Json → Bytes → Json
preview_request client context content =
    let size = length content in
    let n =
      if ltb 0 client.preview_bytes && ltb client.preview_bytes size
      then client.preview_bytes
      else size in
    callout_request context (ascii "preview") (take n content) (leb size n)

abbrev pub body_request : Json → Bytes → Json
body_request context content = callout_request context (ascii "body") content true

-- Denied; or the service's answer to the preview, which is not to continue; or the service's answer
-- to the whole content, after its answer to the preview was to continue.
abbrev pub Vouched :
    (List Json → Json → Received) → CalloutClient → Json → Bytes → List Json → Json → Type 0
Vouched wire client context content sent verdict =
    let preview = preview_request client context content in
    (kind verdict ≡ some deny)
    ⊎ ((Answered wire sent preview (kind verdict) × (is_continue verdict ≡ false))
        ⊎ (Answered wire sent preview (some continue)
            × Answered wire (sent ++ preview ∷ []) (body_request context content) (kind verdict)))

-- What holds of a verdict that comes.
abbrev pub Comes : (Json → Type 0) → Option Json → Type 0
Comes P none = Unit {0}
Comes P (some verdict) = P verdict

pub denies : (o : Option Text) → o ≡ some deny → map_or o false (λ k. text_eq k continue) ≡ false
unfolding text_eq
denies o e = rw e refl

module _ (wire : List Json → Json → Received) (client : CalloutClient)
    (strict : client.failure_policy ≡ ascii "fail_closed") where
  -- The verdict of one call: denied, or answered.
  abbrev pub Judged : List Json → Json → Json → Type 0
  Judged sent request verdict =
      (kind verdict ≡ some deny) ⊎ Answered wire sent request (kind verdict)

  pub failed-denies : (reason : Text) → kind (failed client.failure_policy reason) ≡ some deny
  failed-denies reason = rw strict (failed-kind reason)

  parse_kind-Judged :
      (sent : List Json) (request response : Json) (k : Option Text)
      → wire sent request ≡ received response
      → get_str response (ascii "verdict") ≡ k
      → Judged sent request (parse_kind response client.failure_policy k)
  parse_kind-Judged sent request response none w h = inl (failed-denies _)
  parse_kind-Judged sent request response (some k) w h =
      if_all (Judged sent request) (valid_verdict k) _ _
        (inr (response, w, h ∙ sym (verdict_of-kind response k))) (inl (failed-denies _))

  expired-Judged :
      (sent : List Json) (request : Json) (deadline : Option ℕ)
      → Comes (Judged sent request) (expired client.failure_policy deadline)
  unfolding expired
  expired-Judged sent request none = tt
  expired-Judged sent request (some d) = inl (failed-denies _)

  pub settle-Judged :
      (sent : List Json) (request : Json) (deadline : Option ℕ) (answer : Received)
      → wire sent request ≡ answer
      → Comes (Judged sent request) (settle client.failure_policy deadline answer)
  unfolding settle parse_verdict
  settle-Judged sent request deadline send_failed w = inl (failed-denies _)
  settle-Judged sent request deadline silent w = expired-Judged sent request deadline
  settle-Judged sent request deadline closed w = inl (failed-denies _)
  settle-Judged sent request deadline read_failed w = inl (failed-denies _)
  settle-Judged sent request deadline undecodable w = inl (failed-denies _)
  settle-Judged sent request deadline (received response) w =
      parse_kind-Judged sent request response (get_str response (ascii "verdict")) w refl

  module _ (context : Json) (content : Bytes) (sent : List Json) where
    abbrev Scanned : List Json × Option Json → Type 0
    Scanned x = Comes (Vouched wire client context content sent) x.1

    abbrev Known : Option (Dict Text Json) → Json → Type 0
    Known cache verdict =
        (cached cache (content_digest content) ≡ some verdict)
        ⊎ Vouched wire client context content sent verdict
