-- ===== src/Router/Call/Local.antt =====
-- A call of a local handler does the same in the worker pool as on the serial path.
use rust_yamp.Prelude.{
  ◌≡◌, ◌≢◌, refl, sym, ap, ◌∙◌, ◌⊎◌, inl, inr, Bool, true, false, ◌&&◌, Option, none, some, List,
  [], ◌∷◌, Text, Bytes, ascii, text_eq, text_lt, text_eq_of_ne, text_eq_refl, ok, ◌>>=◌, unwrap_or,
  is_some, if◌then◌else◌, Bool-cases,
}
use rust_yamp.Json.{
  Json, Map, null, bool, number, string, array, object, empty, insert, lookup, extend, index,
  as_str, as_object, lookup-insert, lookup-insert_ne,
}
use rust_yamp.Json
use rust_yamp.Float.{Float}
use rust_yamp.Namespace.{split}
use rust_yamp.Prelude.{split_once, strip_prefix}
use rust_yamp.Handler.{handler_for}
use rust_yamp.Filters.{
  Filter, object_or_empty, kind_of, is_terminal, blocked, forwarded, apply_one, apply_params,
  annotated, resolved, run,
}
use rust_yamp.Filters.Interest.{interested, message_context}
use rust_yamp.Filters.Chain.{filter_through, run-filter_through}
use rust_yamp.Tasks.{is_text}
use rust_yamp.Router.{Awaited, Sent, Reply, Router, tools, resolve}
use rust_yamp.Router.Local.{
  param, arguments_of, is_block, dispatch_local, dispatch_named, run_pooled,
}
use rust_yamp.Router.Local.{DispatchOpts}
use rust_yamp.Router.Local.{named, dispatch_split}
use rust_yamp.Router.Collect.{collect}
use rust_yamp.Router.Call.{
  searched, plain_query, proxy_search_tool, is_tools_call, opts_of, route_filtered, route_call,
  filtered, local_target, local_or_remote,
}

-- The parameters that decide where a call goes are those of the request.
abbrev pub KeepsParams : Json → Json → Type 0
KeepsParams request m =
    (key : Text) → key ≢ ascii "arguments" → key ≢ ascii "_meta" → param m key ≡ param request key

apply_params-lookup :
    (verdict : Json) (params : Map) (key : Text)
    → key ≢ ascii "arguments"
    → key ≢ ascii "_meta"
    → lookup (apply_params verdict params) key ≡ lookup params key
unfolding apply_params
apply_params-lookup verdict params key a m =
    elim (Bool-cases (text_eq (kind_of verdict) (ascii "mutate"))) [
      | inl e ↦ rw e (
          lookup-insert_ne params (ascii "arguments") key (index verdict (ascii "arguments"))
            (text_eq_of_ne (ascii "arguments") key (λ p. a (sym p))))
      | inr e ↦ elim (Bool-cases (text_eq (kind_of verdict) (ascii "annotate"))) [
        | inl e' ↦
            rw (e, e')
              (lookup-insert_ne params (ascii "_meta") key (object (annotated verdict params))
                (text_eq_of_ne (ascii "_meta") key (λ p. m (sym p))))
        | inr e' ↦ rw (e, e') refl
      ]
    ]

-- A parameter of a message, read through the empty object.
param-lookup :
    (o : Option Json) (key : Text) → (o >>= λ p. Json.get p key) ≡ lookup (object_or_empty o) key
unfolding Json.get lookup
param-lookup none key = refl
param-lookup (some (object m)) key = refl
param-lookup (some null) key = refl
param-lookup (some (bool b)) key = refl
param-lookup (some (number n)) key = refl
param-lookup (some (string s)) key = refl
param-lookup (some (array vs)) key = refl

shaped :
    (m ps : Map) (key : Text)
    → param (object (insert m (ascii "params") (object ps))) key ≡ lookup ps key
unfolding Json.get
shaped m ps key =
    rw
      (lookup-insert m (ascii "params") (ascii "params") (object ps), text_eq_refl (ascii "params"))
      refl

apply_one-KeepsParams : (verdict message : Json) → KeepsParams message (apply_one verdict message)
unfolding apply_one
apply_one-KeepsParams verdict message key a m =
    let params = object_or_empty (Json.get message (ascii "params")) in
    elim (Bool-cases (text_eq (kind_of verdict) (ascii "allow"))) [
      | inl e ↦ rw e refl
      | inr e ↦ rw e (
          shaped (object_or_empty (some message)) (apply_params verdict params) key
          ∙ apply_params-lookup verdict params key a m
          ∙ sym (param-lookup (Json.get message (ascii "params")) key))
    ]

-- What comes out of the chain.
abbrev pub Out : Json → Json → Type 0
Out request outcome =
    ((verdict : Json) × (outcome ≡ blocked request verdict))
    ⊎ ((m : Json) × (outcome ≡ forwarded m) × KeepsParams request m)

filter_through-Out :
    (fs : List Filter) (hook : Text) (context request m : Json)
    → KeepsParams request m
    → Out request (filter_through fs hook context request m)
unfolding filter_through
filter_through-Out [] hook context request m h = inr (m, refl, h)
filter_through-Out (f ∷ fs) hook context request m h =
    let verdict = resolved f (f.evaluate hook m) in
    let h' : KeepsParams request (apply_one verdict m) =
      λ key a p. apply_one-KeepsParams verdict m key a p ∙ h key a p in
    elim (Bool-cases (interested f.interest context)) [
      | inl e ↦ elim (Bool-cases (is_terminal verdict)) [
        | inl t ↦ rw (e, t) (inl (verdict, refl))
        | inr t ↦ rw (e, t) (filter_through-Out fs hook context request (apply_one verdict m) h')
      ]
      | inr e ↦ rw e (filter_through-Out fs hook context request m h)
    ]

pub run-Out : (fs : List Filter) (hook : Text) (request : Json) → Out request (run fs hook request)
run-Out fs hook request = rw (run-filter_through fs hook request) (
    filter_through-Out fs hook (message_context request (ascii "c2u")) request request
      λ key a p. refl)

pub index-forwarded : (m : Json) → index (forwarded m) (ascii "message") ≡ m
unfolding forwarded index Json.get lookup insert extend text_eq text_lt
index-forwarded m = refl

pub get-forwarded : (m : Json) → Json.get (forwarded m) (ascii "message") ≡ some m
unfolding forwarded Json.get lookup insert extend text_eq text_lt
get-forwarded m = refl

pub is_block-forwarded : (m : Json) → is_block (forwarded m) ≡ false
unfolding forwarded index Json.get lookup insert extend text_eq text_lt is_text
is_block-forwarded m = refl

pub is_block-blocked : (request verdict : Json) → is_block (blocked request verdict) ≡ true
unfolding blocked index Json.get lookup insert extend text_eq text_lt is_text
is_block-blocked request verdict = refl

split-nothing : (bid original : Text) → split [] ≡ some (bid, original) → ⊥
unfolding split split_once strip_prefix
split-nothing bid original h = cc

-- A name that splits is there.
named-there :
    (message : Json) (bid original : Text)
    → split (named message (ascii "name")) ≡ some (bid, original)
    → (param message (ascii "name") >>= as_str) ≡ some (named message (ascii "name"))
unfolding named
named-there message bid original h = there (param message (ascii "name") >>= as_str) h
  where
    there :
        (o : Option Text)
        → split (unwrap_or o []) ≡ some (bid, original)
        → o ≡ some (unwrap_or o [])
    there none h = absurd (split-nothing bid original h)
    there (some s) h = refl

same_name :
    (m message : Json)
    → KeepsParams message m
    → named m (ascii "name") ≡ named message (ascii "name")
unfolding named
same_name m message keeps =
    ap (λ o. unwrap_or (o >>= as_str) []) (keeps (ascii "name") (λ e. cc) (λ e. cc))

if_and-false :
    {A : Type 0} (b c e : Bool) (x y : A) → b ≡ false → (if b && c && e then x else y) ≡ y
if_and-false true c e x y h = absurd (cc)
if_and-false false c e x y h = refl

module _ (f : Float) (wire : List Sent → Sent → Reply) (clock : List Sent → f.F64)
    (encode : Json → Bytes) (decode : Bytes → Option Json) (validates : Json → Json → Option Bool)
    (render : List Text → Text) (lower : Text → Text) where
  open f use {F64}

  module _ (r : Router F64) (id : Json) (bid original : Text) where
    abbrev opts : DispatchOpts
    opts = opts_of f wire clock encode decode validates render lower r

    target-local :
        (value : Text)
        → split value ≡ some (bid, original)
        → is_some (handler_for r.registry bid) ≡ true
        → (if is_tools_call tools
            then local_target f wire clock encode decode validates render lower r.registry
                (resolve tools.kind value)
            else none)
          ≡ some (bid, original)
    unfolding tools resolve text_eq
    target-local value s h = rw (s, h) refl

    dispatch_named-local :
        (message : Json)
        → split (named message (ascii "name")) ≡ some (bid, original)
        → dispatch_named encode validates r.registry opts message id
          ≡ dispatch_local encode validates r.registry opts bid original (arguments_of message) id
    unfolding dispatch_named
    dispatch_named-local message s =
        ap
          (dispatch_split encode validates r.registry opts message id
            (named message (ascii "name")))
          s

    route_filtered-local :
        (message : Json)
        → split (named message (ascii "name")) ≡ some (bid, original)
        → is_some (handler_for r.registry bid) ≡ true
        → r.disclose ≡ false
        → route_filtered f wire clock encode decode validates render lower r message id tools
          ≡ (r, ok (dispatch_named encode validates r.registry opts message id))
    unfolding route_filtered tools
    route_filtered-local message s h d =
        let value = named message (ascii "name") in
        let go =
          local_or_remote f wire clock encode decode validates render lower r message id tools
            value in
        if_and-false r.disclose (is_tools_call tools) (text_eq value proxy_search_tool)
          (searched f wire clock encode decode validates render lower message id
            (collect f wire clock encode decode r tools plain_query))
          (go (
            if is_tools_call tools
            then local_target f wire clock encode decode validates render lower r.registry
                (resolve tools.kind value)
            else none))
          d
        ∙ ap go (target-local value s h)
        ∙ ap (λ x. (r, ok x)) (sym (dispatch_named-local message s))

    -- The call as the pool runs it, in the router's state.
    abbrev pooled : Json → Router F64 × Awaited Json
    pooled message =
        let (audit, response) =
          run_pooled encode validates r.registry r.filter_chain r.audit opts message id in
        (record r { audit = audit }, ok response)

    filtered-local :
        (message : Json) (chain : Option (List Filter))
        → split (named message (ascii "name")) ≡ some (bid, original)
        → is_some (handler_for r.registry bid) ≡ true
        → r.disclose ≡ false
        → filtered f wire clock encode decode validates render lower r message id tools chain ≡ (
            let (audit, response) =
              run_pooled encode validates r.registry chain r.audit opts message id in
            (record r { audit = audit }, ok response))
    unfolding run_pooled tools
    filtered-local message none s h d = route_filtered-local message s h d
    filtered-local message (some chain) s h d = elim (run-Out chain (ascii "request") message) [
      | inl (verdict, e) ↦
          rw (e, is_block-blocked message verdict) (rw (named-there message bid original s) refl)
      | inr (m, e, keeps) ↦
          rw (e, is_block-forwarded m, get-forwarded m, index-forwarded m)
            (route_filtered-local m (ap split (same_name m message keeps) ∙ s) h d)
    ]

    -- A call that resolves to a local handler, with the search tool off, has the same answer and the
    -- same audit records in the worker pool as on the serial path, whatever the filters do to it.
    pub run_pooled-route_call :
        (message : Json)
        → split (named message (ascii "name")) ≡ some (bid, original)
        → is_some (handler_for r.registry bid) ≡ true
        → r.disclose ≡ false
        → route_call f wire clock encode decode validates render lower r message id tools
          ≡ pooled message
    unfolding route_call
    run_pooled-route_call message s h d = filtered-local message r.filter_chain s h d
