-- ===== src/Router/Call/Reached.antt =====
-- Whom the router writes to for a call: the owner of the name, once, or nobody.
use rust_yamp.Prelude.{
  ◌≡◌, ◌≢◌, refl, ◌∙◌, inl, inr, Bool, false, ◌&&◌, Option, none, some, List, Text, Bytes, ascii,
  text_eq, ok, err, unwrap_or, if◌then◌else◌, if_all,
}
use rust_yamp.Json.{Json}
use rust_yamp.Float.{Float}
use rust_yamp.Filters.{Filter}
use rust_yamp.Signing.{attestation_record}
use rust_yamp.Router.{Awaited, io, never, Backend, Sent, Reply, Router, Capability, resolve}
use rust_yamp.Router.Request.{request_of}
use rust_yamp.Router.Local.{named}
use rust_yamp.Router.Call.{
  audited, call_outcome, call_at, call_target, route_remote, local_or_remote, local_target,
  route_filtered, filtered, route_call, is_tools_call, proxy_search_tool,
}
use rust_yamp.Router.Route.{admitted, traced_params, owner}
use rust_yamp.Router.Call.Local.{run-Out, is_block-forwarded, is_block-blocked, get-forwarded}
use rust_yamp.Router.Route.Reached.{
  Writes, WritesOwner, admitted-quiet, owner-cases, same_field, false_and, else_all, unwritten,
  traced-quiet, and_false, requested-Writes,
}

module _ (f : Float) (wire : List Sent → Sent → Reply) (clock : List Sent → f.F64) where
  open f use {F64}

  module _ (encode : Json → Bytes) (decode : Bytes → Option Json)
      (validates : Json → Json → Option Bool) (render : List Text → Text)
      (lower : Text → Text) where
    call_outcome-quiet :
        (id : Json) (c : Capability) (name bid : Text) (x : Router F64 × Awaited Json)
        → (call_outcome f wire clock encode decode validates render lower id c name bid x).0.sent
          ≡ x.0.sent
    unfolding call_outcome
    call_outcome-quiet id c name bid (r, ok v) = refl
    call_outcome-quiet id c name bid (r, err never) = refl
    call_outcome-quiet id c name bid (r, err (io e)) =
        if_all (λ (x : Router F64 × Awaited Json). x.0.sent ≡ r.sent) r.resilient _ _ refl refl

    call_at-Writes :
        (r : Router F64) (message id : Json) (c : Capability) (value : Text) (b : Backend F64)
        (original : Text)
        → Writes r.sent
            (call_at f wire clock encode decode validates render lower r message id c value
              (b, original)).0.sent
            b.id
    unfolding call_at
    call_at-Writes r message id c value b original =
        let (r1, b1, allowed) = admitted f wire clock r b in
        let (r2, params) = traced_params f wire clock r1 message c.field original in
        let r3 =
          audited f wire clock encode decode validates render lower r2
            (attestation_record (unwrap_or r.principal (ascii "anonymous")) c.call (some value)) in
        let quiet = (admitted-quiet f wire clock r b).0 in
        if_all (λ (x : Router F64 × Awaited Json). Writes r.sent x.0.sent b.id) allowed
          (call_outcome f wire clock encode decode validates render lower id c value b1.id
            (request_of f wire clock r3 b1 c.call params))
          _
          (rw (call_outcome-quiet id c value b1.id (request_of f wire clock r3 b1 c.call params)) (
            requested-Writes f wire clock r b r3 c.call params
              (traced-quiet f wire clock r1 message c.field original ∙ quiet)))
          (inl quiet)

    call_target-WritesOwner :
        (r : Router F64) (message id : Json) (c : Capability) (value : Text)
        (resolved : Option (Text × Text))
        → WritesOwner r.sent
            (call_target f wire clock encode decode validates render lower r message id c value
              (owner f wire clock r resolved)).0.sent
            resolved
    call_target-WritesOwner r message id c value resolved =
        elim (owner-cases f wire clock r resolved) [
          | inl e ↦ rw e (unwritten r.sent r.sent resolved refl)
          | inr (b, original, e, q) ↦ rw (e, q) (call_at-Writes r message id c value b original)
        ]

    -- The names of the backends stand under their prefixes: neither the one backend of a
    -- passthrough, nor a strategy that renames, nor the search tool.
    pub record IsPrefixed (r : Router F64) : Type 0 where
      pub several : r.single ≡ false
      pub undisclosed : r.disclose ≡ false
      pub unrenamed : text_eq r.namespacing.strategy (ascii "manual") ≡ false
      pub prefixed : text_eq r.namespacing.strategy (ascii "passthrough") ≡ false

    route_remote-WritesOwner :
        (r : Router F64) (message id : Json) (c : Capability) (value : Text)
        → IsPrefixed r
        → WritesOwner r.sent
            (route_remote f wire clock encode decode validates render lower r message id c
              value).0.sent
            (resolve c.kind value)
    unfolding route_remote
    route_remote-WritesOwner r message id c value h =
        let P : Router F64 × Awaited Json → Type 0 =
          λ x. WritesOwner r.sent x.0.sent (resolve c.kind value) in
        else_all P r.single _ _ h.several (
          else_all P (is_tools_call c && text_eq r.namespacing.strategy (ascii "manual")) _ _
            (and_false (is_tools_call c) _ h.unrenamed)
            (else_all P (is_tools_call c && text_eq r.namespacing.strategy (ascii "passthrough")) _
              _ (and_false (is_tools_call c) _ h.prefixed)
              (call_target-WritesOwner r message id c value (resolve c.kind value))))

    local_or_remote-WritesOwner :
        (r : Router F64) (message id : Json) (c : Capability) (value : Text)
        (target : Option (Text × Text))
        → IsPrefixed r
        → WritesOwner r.sent
            (local_or_remote f wire clock encode decode validates render lower r message id c value
              target).0.sent
            (resolve c.kind value)
    local_or_remote-WritesOwner r message id c value none h =
        route_remote-WritesOwner r message id c value h
    local_or_remote-WritesOwner r message id c value (some (bid, original)) h =
        unwritten r.sent r.sent (resolve c.kind value) refl

    route_filtered-WritesOwner :
        (r : Router F64) (message id : Json) (c : Capability)
        → IsPrefixed r
        → WritesOwner r.sent
            (route_filtered f wire clock encode decode validates render lower r message id c).0.sent
            (resolve c.kind (named message c.field))
    unfolding route_filtered
    route_filtered-WritesOwner r message id c h =
        let value = named message c.field in
        else_all
          (λ (x : Router F64 × Awaited Json). WritesOwner r.sent x.0.sent (resolve c.kind value))
          (r.disclose && is_tools_call c && text_eq value proxy_search_tool) _ _
          (false_and r.disclose (is_tools_call c) (text_eq value proxy_search_tool) h.undisclosed)
          (local_or_remote-WritesOwner r message id c value
            (if is_tools_call c
              then local_target f wire clock encode decode validates render lower r.registry
                  (resolve c.kind value)
              else none)
            h)

    filtered-WritesOwner :
        (r : Router F64) (message id : Json) (c : Capability) (chain : Option (List Filter))
        → IsPrefixed r
        → c.field ≢ ascii "arguments"
        → c.field ≢ ascii "_meta"
        → WritesOwner r.sent
            (filtered f wire clock encode decode validates render lower r message id c chain).0.sent
            (resolve c.kind (named message c.field))
    filtered-WritesOwner r message id c none h a m = route_filtered-WritesOwner r message id c h
    filtered-WritesOwner r message id c (some chain) h a m =
        elim (run-Out chain (ascii "request") message) [
          | inl (verdict, e) ↦
              rw (e, is_block-blocked message verdict) (unwritten r.sent r.sent _ refl)
          | inr (m', e, keeps) ↦
              rw
                (
                  e,
                  is_block-forwarded m',
                  get-forwarded m',
                  ← same_field m' message c.field (keeps c.field a m),
                )
                (route_filtered-WritesOwner r m' id c h)
        ]

    -- Where the names of several backends stand under their prefixes, and tools are not disclosed by
    -- the search tool, a call, of a capability whose field is neither `arguments` nor `_meta`, is at
    -- most one message, and it is for the backend that the called name resolves to, whatever the
    -- filters do to it; where the name resolves to no backend, nothing is written.
    pub route_call-WritesOwner :
        (r : Router F64) (message id : Json) (c : Capability)
        → IsPrefixed r
        → c.field ≢ ascii "arguments"
        → c.field ≢ ascii "_meta"
        → WritesOwner r.sent
            (route_call f wire clock encode decode validates render lower r message id c).0.sent
            (resolve c.kind (named message c.field))
    unfolding route_call
    route_call-WritesOwner r message id c h a m =
        filtered-WritesOwner r message id c r.filter_chain h a m
