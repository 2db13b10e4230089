-- ===== src/Router/Call/Answered.antt =====
-- Whatever a call comes to, an answer carries the request's id.
use rust_yamp.Prelude.{
  All, ◌≡◌, refl, ◌∙◌, sym, inl, inr, Bool, ◌&&◌, Option, none, some, List, Text, Bytes, ascii,
  text_eq, text_lt, ok, err, ◌>>=◌, unwrap_or, if◌then◌else◌, map_or_all, if_all,
}
use rust_yamp.Json.{
  Json, Map, object, string, array, insert, lookup, extend, index, as_str, get_str, of_list,
  json_object,
}
use rust_yamp.Json
use rust_yamp.Float.{Float}
use rust_yamp.Handler.{Handler, Registry, handler_for}
use rust_yamp.Filters.{Filter, blocked, deny_response}
use rust_yamp.Signing.{attestation_record}
use rust_yamp.Schema.{validate_call_args, validate_call_result}
use rust_yamp.Server.{exceeds_output_cap}
use rust_yamp.Dict.{Dict, text_key}
use rust_yamp.Dict
use rust_yamp.Router.{Awaited, io, never, Backend, Sent, Reply, Router, Capability, tools}
use rust_yamp.Router.Local.{
  DispatchOpts, named, arguments_of, emit, check_result, check_args, dispatch_to, dispatch_local,
  find_tool,
}
use rust_yamp.Router.Collect.{collect}
use rust_yamp.Router.Listing.{Collected}
use rust_yamp.Router.Request.Prompt.{
  Ends, Prompt, Asked, request_of-Ends, admitted-Prompt, owner-Asked, first-Asked,
}
use rust_yamp.Router.Collect.Survives.{Survives, unless_resilient, collect-Survives}
use rust_yamp.Router.Call.{
  warmed, audited, call_outcome, call_at, call_target, passthrough_at, route_remote, searched,
  local_or_remote, route_filtered, filtered, route_call, opts_of, adapt_call, plain_query,
  proxy_search_tool, is_tools_call,
}
use rust_yamp.Router.Route.{admitted, traced_params, owner}
use rust_yamp.Router.Request.{request_of, replace_backend}
use rust_yamp.Router.Call.Local.{run-Out, is_block-forwarded, is_block-blocked, get-forwarded}
use rust_yamp.Router.Route.Answered.{
  Carries, Answers, result_response-Carries, error_response-Carries, answer-Carries,
  admitted-resilient,
}

pub blocked-Carries :
    (request verdict id : Json)
    → Carries id request
    → Carries id (index (blocked request verdict) (ascii "response"))
unfolding blocked index deny_response Json.get lookup insert extend text_eq text_lt
blocked-Carries request verdict id h = rw h refl

module _ (encode : Json → Bytes) (validates : Json → Json → Option Bool) where
  emit-Carries : (opts : DispatchOpts) (id v : Json) → Carries id (emit encode validates opts id v)
  unfolding emit
  emit-Carries opts id v =
      if_all (Carries id) (exceeds_output_cap encode v opts.output_limit) _ _
        (error_response-Carries id _) (result_response-Carries id _)

  check_result-Carries :
      (opts : DispatchOpts) (tool : Option Json) (id v : Json)
      → Carries id (check_result encode validates opts tool id v)
  unfolding check_result
  check_result-Carries opts tool id v =
      map_or_all (Carries id)
        (tool >>= λ t. validate_call_result validates (Json.get t (ascii "outputSchema")) v) _ _
        (emit-Carries opts id v) (λ error. error_response-Carries id error)

  check_args-Carries :
      (opts : DispatchOpts) (tool : Option Json) (h : Handler) (original : Text)
      (arguments id : Json)
      → Carries id (check_args encode validates opts tool h original arguments id)
  unfolding check_args
  check_args-Carries opts tool h original arguments id =
      map_or_all (Carries id)
        (tool >>= λ t. validate_call_args validates (Json.get t (ascii "inputSchema")) arguments) _
        _ (check_result-Carries opts tool id (h.call_tool original arguments))
        (λ error. error_response-Carries id error)

  dispatch_to-Carries :
      (h : Option Handler) (opts : DispatchOpts) (handler_id original : Text) (arguments id : Json)
      → Carries id (dispatch_to encode validates h opts handler_id original arguments id)
  unfolding dispatch_to
  dispatch_to-Carries none opts handler_id original arguments id = error_response-Carries id _
  dispatch_to-Carries (some h) opts handler_id original arguments id =
      check_args-Carries opts (if opts.validate then find_tool h.list_tools original else none) h
        original arguments id

  pub dispatch_local-Carries :
      (registry : Registry) (opts : DispatchOpts) (handler_id original : Text) (arguments id : Json)
      → Carries id (dispatch_local encode validates registry opts handler_id original arguments id)
  unfolding dispatch_local
  dispatch_local-Carries registry opts handler_id original arguments id =
      dispatch_to-Carries (handler_for registry handler_id) opts handler_id original arguments id

module _ (f : Float) (wire : List Sent → Sent → Reply) (clock : List Sent → f.F64) where
  open f use {F64}

  module _ (encode : Json → Bytes) (decode : Bytes → Option Json)
      (validates : Json → Json → Option Bool) (render : List Text → Text)
      (lower : Text → Text) where
    call_outcome-Answers :
        (flag : Bool) (id : Json) (c : Capability) (name bid : Text) (x : Router F64 × Awaited Json)
        → x.0.resilient ≡ flag
        → Ends x.1
        → Answers flag id
            (call_outcome f wire clock encode decode validates render lower id c name bid x)
    unfolding call_outcome
    call_outcome-Answers flag id c name bid (r, err never) h e = e
    call_outcome-Answers flag id c name bid (r, ok v) h u =
        answer-Carries r.trace id v (adapt_call c bid)
    call_outcome-Answers flag id c name bid (r, err (io e)) h u =
        unless_resilient (Answers flag id) r.resilient _ _ (error_response-Carries id _)
          (λ off. sym h ∙ off)

    call_target-Answers :
        (flag : Bool) (r : Router F64) (message id : Json) (c : Capability) (value : Text)
        (target : Option (Backend F64 × Text))
        → r.resilient ≡ flag
        → Asked f wire clock target
        → Answers flag id (
            call_target f wire clock encode decode validates render lower r message id c value
              target)
    unfolding call_at request_of replace_backend traced_params
    call_target-Answers flag r message id c value none h p = error_response-Carries id _
    call_target-Answers flag r message id c value (some (b, original)) h p =
        let (r1, b1, allowed) = admitted f wire clock r b in
        let (r2, params) = traced_params f wire clock r1 message c.field original in
        let r3 =
          audited f wire clock encode decode validates render lower r2
            (attestation_record (unwrap_or r.principal (ascii "anonymous")) c.call (some value)) in
        if_all (Answers flag id) allowed _ _
          (call_outcome-Answers flag id c value b1.id (request_of f wire clock r3 b1 c.call params)
            (admitted-resilient f wire clock r b ∙ h)
            (request_of-Ends f wire clock r3 b1 c.call params (admitted-Prompt f wire clock r b p)))
          (error_response-Carries id _)

    passthrough_at-Answers :
        (flag : Bool) (message id : Json) (c : Capability) (value : Text)
        (x : Router F64 × Awaited (Unit {0}))
        → Survives f wire clock flag x
        → Answers flag id
            (passthrough_at f wire clock encode decode validates render lower message id c value x)
    passthrough_at-Answers flag message id c value (r, err (io e)) (h, off) = off
    passthrough_at-Answers flag message id c value (r, err never) (h, off) = off
    passthrough_at-Answers flag message id c value (r, ok warm) ((h, ps), u) =
        call_target-Answers flag r message id c value
          (owner f wire clock r (Dict.get r.reverse value)) h (owner-Asked f wire clock r _ ps)

    warm-Survives :
        (flag : Bool) (x : Router F64 × Awaited Collected)
        → Survives f wire clock flag x
        → Survives f wire clock flag
            (x.0, elim x.1 as (λ y. Awaited (Unit {0})) [ ok l ↦ ok tt | err e ↦ err e ])
    warm-Survives flag (r, ok l) h = h
    warm-Survives flag (r, err (io e)) h = h
    warm-Survives flag (r, err never) h = h

    warmed-Survives :
        (r : Router F64) (value : Text)
        → All (Prompt f wire clock) r.backends
        → Survives f wire clock r.resilient
            (warmed f wire clock encode decode validates render lower r value)
    unfolding warmed
    warmed-Survives r value ps =
        if_all (Survives f wire clock r.resilient) (Dict.contains_key r.reverse value) _ _
          ((refl, ps), tt)
          (warm-Survives r.resilient (collect f wire clock encode decode r tools plain_query)
            (collect-Survives f wire clock encode decode r tools plain_query ps))

    route_remote-Answers :
        (r : Router F64) (message id : Json) (c : Capability) (value : Text)
        → All (Prompt f wire clock) r.backends
        → Answers r.resilient id
            (route_remote f wire clock encode decode validates render lower r message id c value)
    unfolding route_remote
    route_remote-Answers r message id c value ps =
        if_all (Answers r.resilient id) r.single _ _
          (call_target-Answers r.resilient r message id c value _ refl
            (first-Asked f wire clock r.backends value ps))
          (if_all (Answers r.resilient id)
            (is_tools_call c && text_eq r.namespacing.strategy (ascii "manual")) _ _
            (call_target-Answers r.resilient r message id c value _ refl
              (owner-Asked f wire clock r _ ps))
            (if_all (Answers r.resilient id)
              (is_tools_call c && text_eq r.namespacing.strategy (ascii "passthrough")) _ _
              (passthrough_at-Answers r.resilient message id c value _ (warmed-Survives r value ps))
              (call_target-Answers r.resilient r message id c value _ refl
                (owner-Asked f wire clock r _ ps))))

    searched-Answers :
        (flag : Bool) (message id : Json) (x : Router F64 × Awaited Collected)
        → Survives f wire clock flag x
        → Answers flag id (searched f wire clock encode decode validates render lower message id x)
    searched-Answers flag message id (r, err (io e)) (h, off) = off
    searched-Answers flag message id (r, err never) (h, off) = off
    searched-Answers flag message id (r, ok found) h = result_response-Carries id _

    local_or_remote-Answers :
        (r : Router F64) (message id : Json) (c : Capability) (value : Text)
        (target : Option (Text × Text))
        → All (Prompt f wire clock) r.backends
        → Answers r.resilient id (
            local_or_remote f wire clock encode decode validates render lower r message id c value
              target)
    local_or_remote-Answers r message id c value none ps =
        route_remote-Answers r message id c value ps
    local_or_remote-Answers r message id c value (some (bid, original)) ps =
        dispatch_local-Carries encode validates r.registry
          (opts_of f wire clock encode decode validates render lower r) bid original
          (arguments_of message) id

    route_filtered-Answers :
        (r : Router F64) (message id : Json) (c : Capability)
        → All (Prompt f wire clock) r.backends
        → Answers r.resilient id
            (route_filtered f wire clock encode decode validates render lower r message id c)
    unfolding route_filtered
    route_filtered-Answers r message id c ps =
        let value = named message c.field in
        if_all (Answers r.resilient id)
          (r.disclose && is_tools_call c && text_eq value proxy_search_tool) _ _
          (searched-Answers r.resilient message id
            (collect f wire clock encode decode r tools plain_query)
            (collect-Survives f wire clock encode decode r tools plain_query ps))
          (local_or_remote-Answers r message id c value _ ps)

    filtered-Answers :
        (r : Router F64) (message id : Json) (c : Capability) (chain : Option (List Filter))
        → Carries id message
        → All (Prompt f wire clock) r.backends
        → Answers r.resilient id
            (filtered f wire clock encode decode validates render lower r message id c chain)
    filtered-Answers r message id c none h ps = route_filtered-Answers r message id c ps
    filtered-Answers r message id c (some chain) h ps =
        elim (run-Out chain (ascii "request") message) [
          | inl (verdict, e) ↦
              rw (e, is_block-blocked message verdict) (blocked-Carries message verdict id h)
          | inr (m, e, keeps) ↦
              rw (e, is_block-forwarded m, get-forwarded m) (route_filtered-Answers r m id c ps)
        ]

    pub route_call-Answers :
        (r : Router F64) (message id : Json) (c : Capability)
        → Carries id message
        → All (Prompt f wire clock) r.backends
        → Answers r.resilient id
            (route_call f wire clock encode decode validates render lower r message id c)
    unfolding route_call
    route_call-Answers r message id c h ps = filtered-Answers r message id c r.filter_chain h ps
