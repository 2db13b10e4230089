-- ===== src/Filters/Failing.antt =====
-- Filters that fail, and the policies of src/filters.rs for them.
use rust_yamp.Prelude.{
  ◌≡◌, refl, sym, ap, ◌∙◌, inl, inr, true, false, some, List, [], ◌∷◌, ◌++◌, Bool-cases, Text,
  ascii, text_eq, text_lt, Result, ok, err,
}
use rust_yamp.Json.{
  Json, null, bool, number, string, array, object, index, get_str, as_str, json_object, extend,
  insert, lookup,
}
use rust_yamp.Json
use rust_yamp.Filters.{
  Filter, deny, resolve_failure, kind_of, is_terminal, blocked, apply_one, resolved, run,
}
use rust_yamp.Filters.Interest.{interested, message_context}
use rust_yamp.Filters.Chain.{filter_through, run-filter_through}

kind_of-kind : (kind : Text) → kind_of (json_object ((ascii "kind", string kind) ∷ [])) ≡ kind
unfolding kind_of index extend insert lookup Json.get text_eq
kind_of-kind kind = refl

action-blocked :
    (request verdict : Json)
    → get_str (blocked request verdict) (ascii "action") ≡ some (ascii "block")
unfolding blocked get_str Json.get extend insert lookup text_eq text_lt
action-blocked request verdict = refl

-- The verdict that a policy gives to a failure.
failed :
    (f : Filter) (r : Result Json) (reason : Text)
    → r ≡ err reason
    → kind_of (resolved f r) ≡ resolve_failure f.failure_policy
unfolding resolved
failed f (err e) reason h = kind_of-kind (resolve_failure f.failure_policy)
failed f (ok v) reason h = absurd (cc)

filter_through-terminal :
    (fs gs : List Filter) (f : Filter) (hook : Text) (context request message : Json)
    → interested f.interest context ≡ true
    → ((m : Json) → is_terminal (resolved f (f.evaluate hook m)) ≡ true)
    → get_str (filter_through (fs ++ f ∷ gs) hook context request message) (ascii "action")
      ≡ some (ascii "block")
unfolding filter_through
filter_through-terminal [] gs f hook context request message i t =
    rw (i, t message) (action-blocked request (resolved f (f.evaluate hook message)))
filter_through-terminal (g ∷ fs) gs f hook context request message i t =
    let verdict = resolved g (g.evaluate hook message) in
    elim (Bool-cases (interested g.interest context)) [
      | inl e ↦ elim (Bool-cases (is_terminal verdict)) [
        | inl stop ↦ rw (e, stop) (action-blocked request verdict)
        | inr more ↦
            rw (e, more)
              (filter_through-terminal fs gs f hook context request (apply_one verdict message) i t)
      ]
      | inr e ↦ rw e (filter_through-terminal fs gs f hook context request message i t)
    ]

-- A filter that fails on every message.
abbrev pub Fails : Filter → Text → Type 0
Fails f hook = (m : Json) → (reason : Text) × (f.evaluate hook m ≡ err reason)

deny_terminal : (v : Json) → kind_of v ≡ deny → is_terminal v ≡ true
unfolding is_terminal text_eq
deny_terminal v h = rw h refl

-- A fail-closed filter that always fails blocks every request that interests it, wherever it stands
-- in the chain and whatever the other filters do.
pub run-fail_closed :
    (fs gs : List Filter) (f : Filter) (hook : Text) (request : Json)
    → f.failure_policy ≡ ascii "fail_closed"
    → interested f.interest (message_context request (ascii "c2u")) ≡ true
    → Fails f hook
    → get_str (run (fs ++ f ∷ gs) hook request) (ascii "action") ≡ some (ascii "block")
run-fail_closed fs gs f hook request policy i fails =
    ap (λ o. get_str o (ascii "action")) (run-filter_through (fs ++ f ∷ gs) hook request)
    ∙ filter_through-terminal fs gs f hook (message_context request (ascii "c2u")) request request i
        λ m.
          let (reason, e) = fails m in
          deny_terminal (resolved f (f.evaluate hook m))
            (failed f (f.evaluate hook m) reason e ∙ ap resolve_failure policy ∙ closed)
  where
    closed : resolve_failure (ascii "fail_closed") ≡ deny
    closed = unfold resolve_failure text_eq in refl

allowed :
    (v : Json)
    → kind_of v ≡ ascii "allow"
    → (is_terminal v ≡ false) × ((m : Json) → apply_one v m ≡ m)
unfolding is_terminal apply_one text_eq
allowed v h = (rw h refl, λ m. rw h refl)

filter_through-allow :
    (fs gs : List Filter) (f : Filter) (hook : Text) (context request message : Json)
    → ((m : Json) → kind_of (resolved f (f.evaluate hook m)) ≡ ascii "allow")
    → filter_through (fs ++ f ∷ gs) hook context request message
      ≡ filter_through (fs ++ gs) hook context request message
unfolding filter_through
filter_through-allow [] gs f hook context request message a =
    let (go, same) = allowed (resolved f (f.evaluate hook message)) (a message) in
    elim (Bool-cases (interested f.interest context)) [
      | inl e ↦ rw (e, go, same message)
      | inr e ↦ rw e refl
    ]
filter_through-allow (g ∷ fs) gs f hook context request message a =
    let verdict = resolved g (g.evaluate hook message) in
    rw (
      filter_through-allow fs gs f hook context request (apply_one verdict message) a,
      filter_through-allow fs gs f hook context request message a,
    )

-- A fail-open filter that always fails changes no outcome.
run-fail_open :
    (fs gs : List Filter) (f : Filter) (hook : Text) (request : Json)
    → f.failure_policy ≡ ascii "fail_open"
    → Fails f hook
    → run (fs ++ f ∷ gs) hook request ≡ run (fs ++ gs) hook request
run-fail_open fs gs f hook request policy fails =
    let context = message_context request (ascii "c2u") in
    run-filter_through (fs ++ f ∷ gs) hook request
    ∙ filter_through-allow fs gs f hook context request request (λ m.
      let (reason, e) = fails m in
      failed f (f.evaluate hook m) reason e ∙ ap resolve_failure policy ∙ open_)
    ∙ sym (run-filter_through (fs ++ gs) hook request)
  where
    open_ : resolve_failure (ascii "fail_open") ≡ ascii "allow"
    open_ = unfold resolve_failure text_eq in refl
