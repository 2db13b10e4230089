-- ===== src/Router/Handshake/Admission.antt =====
-- Whom the handshake lets in, and that it does not fail in resilient mode.
use rust_yamp.Prelude.{
  All, ◌≡◌, refl, inl, inr, Bool, true, false, not, ◌&&◌, ◌||◌, Option, none, some, List, [], ◌∷◌,
  ascii, Text, ok, err, is_some, Bool-cases, ◌∙◌, sym,
}
use rust_yamp.Json.{Json}
use rust_yamp.JsonRpc.{method_of}
use rust_yamp.Float.{Float}
use rust_yamp.Pool.{is_method}
use rust_yamp.Auth.{claims_valid}
use rust_yamp.Router.{Awaited, io, never, Backend, Sent, Reply, Router}
use rust_yamp.Router.Request.{request_of, replace_backend}
use rust_yamp.Router.Collect.Survives.{Fails, unless_resilient}
use rust_yamp.Router.Request.Prompt.{Prompt, Ends, request_of-Ends}
use rust_yamp.Router.Handshake.{
  Greeting, welcomed, refused, broken, endless, welcome, handshake, introduced, introduce_all,
  add_caps, claims_of, initialize_params,
}

claims_valid-unchecked :
    (claims : Json) (issuer audience : Option Text)
    → (is_some issuer || is_some audience) ≡ false
    → claims_valid claims issuer audience ≡ true
unfolding claims_valid
claims_valid-unchecked claims none none h = refl
claims_valid-unchecked claims none (some a) h = absurd (cc)
claims_valid-unchecked claims (some i) audience h = absurd (cc)

module _ (f : Float) (wire : List Sent → Sent → Reply) (clock : List Sent → f.F64) where
  open f use {F64}

  -- The mode is kept, and a failure comes only without it.
  abbrev Goes {ℓ} : {A : Type ℓ} → Bool → Router F64 × Awaited A → Type 0
  Goes resilient (r, result) = (r.resilient ≡ resilient) × Fails resilient result

  introduced-Goes :
      (flag : Bool) (b : Backend F64) (x : Router F64 × Awaited Json)
      → x.0.resilient ≡ flag
      → Ends x.1
      → Goes flag (introduced f wire clock b x)
  unfolding replace_backend
  introduced-Goes flag b (r, ok init) h u = (h, tt)
  introduced-Goes flag b (r, err never) h e = (h, e)
  introduced-Goes flag b (r, err (io e)) h u =
      unless_resilient (Goes flag) r.resilient _ _ (h, tt) (λ off. (h, sym h ∙ off))

  next-Goes :
      (flag : Bool) (bs : List (Backend F64)) (caps : List Json)
      (x : Router F64 × Awaited (Option Json))
      → Goes flag x
      → ((r : Router F64) (caps : List Json)
          → r.resilient ≡ flag
          → Goes flag (introduce_all f wire clock r bs caps))
      → Goes flag (elim x.1 as (λ y. Router F64 × Awaited (List Json)) [
        | err e ↦ (x.0, err e)
        | ok found ↦ introduce_all f wire clock x.0 bs (add_caps f wire clock caps found)
      ])
  next-Goes flag bs caps (r, err e) h k = h
  next-Goes flag bs caps (r, ok found) (h, u) k = k r (add_caps f wire clock caps found) h

  introduce_all-Goes :
      (flag : Bool) (bs : List (Backend F64)) (r : Router F64) (caps : List Json)
      → r.resilient ≡ flag
      → All (Prompt f wire clock) bs
      → Goes flag (introduce_all f wire clock r bs caps)
  unfolding introduce_all request_of replace_backend
  introduce_all-Goes flag [] r caps h ps = (h, tt)
  introduce_all-Goes flag (b ∷ bs) r caps h (p, ps) =
      next-Goes flag bs caps _
        (introduced-Goes flag b (request_of f wire clock r b (ascii "initialize") initialize_params)
          h (request_of-Ends f wire clock r b (ascii "initialize") initialize_params p))
        λ r caps h. introduce_all-Goes flag bs r caps h ps

  -- The client sent `initialize`, with claims that pass.
  abbrev pub trusted : Router F64 → Json → Bool
  trusted r init =
      is_method (method_of init) (ascii "initialize")
      && claims_valid (claims_of init) r.issuer r.audience

  abbrev pub Admits : Router F64 → Json → Router F64 × Greeting → Type 0
  Admits r init (r', refused v e) = (r' ≡ r) × (trusted r init ≡ false)
  Admits r init (r', welcomed v) = trusted r init ≡ true
  Admits r init (r', endless) = ⊥
  Admits r init (r', broken e) = (trusted r init ≡ true) × (r.resilient ≡ false)

  welcome-Admits :
      (r : Router F64) (init : Json) (x : Router F64 × Awaited (List Json))
      → trusted r init ≡ true
      → Goes r.resilient x
      → Admits r init (welcome f wire clock init x)
  welcome-Admits r init (r', ok caps) t h = t
  welcome-Admits r init (r', err (io e)) t (h, off) = (t, off)
  welcome-Admits r init (r', err never) t (h, off) = off

  accepted :
      (r : Router F64) (claims : Json)
      → ((is_some r.issuer || is_some r.audience) && not (claims_valid claims r.issuer r.audience))
        ≡ false
      → claims_valid claims r.issuer r.audience ≡ true
  accepted r claims h = elim (Bool-cases (is_some r.issuer || is_some r.audience)) [
    | inl e ↦ elim (Bool-cases (claims_valid claims r.issuer r.audience)) [
      | inl v ↦ v
      | inr v ↦ absurd (cc)
    ]
    | inr e ↦ claims_valid-unchecked claims r.issuer r.audience e
  ]

  failing :
      (r : Router F64) (claims : Json)
      → ((is_some r.issuer || is_some r.audience) && not (claims_valid claims r.issuer r.audience))
        ≡ true
      → claims_valid claims r.issuer r.audience ≡ false
  failing r claims h = elim (Bool-cases (claims_valid claims r.issuer r.audience)) [
    | inl v ↦ elim (Bool-cases (is_some r.issuer || is_some r.audience)) [
      | inl e ↦ absurd (cc)
      | inr e ↦ absurd (cc)
    ]
    | inr v ↦ v
  ]

  -- Where each backend has a time-out or, without one, is not silent, a client is refused exactly
  -- where it does not begin with `initialize`, or its claims do not name the issuer and the audience
  -- that are expected, and then the router, with what it wrote to the backends, is as before; any
  -- other client is let in, or the handshake breaks off with an error, and that only where the router
  -- is not resilient.
  pub handshake-Admits :
      (r : Router F64) (init : Json)
      → All (Prompt f wire clock) r.backends
      → Admits r init (handshake f wire clock r init)
  unfolding handshake
  handshake-Admits r init ps = elim (Bool-cases (is_method (method_of init) (ascii "initialize"))) [
    | inr n ↦ rw n (refl, rw n refl)
    | inl m ↦
        (let checked = is_some r.issuer || is_some r.audience in
          let valid = claims_valid (claims_of init) r.issuer r.audience in
          elim (Bool-cases (checked && not valid)) [
            | inl bad ↦ rw (m, bad) (refl, rw m (failing r (claims_of init) bad))
            | inr good ↦
                rw (m, good)
                  (welcome-Admits r init (introduce_all f wire clock r r.backends [])
                    (rw m (accepted r (claims_of init) good))
                    (introduce_all-Goes r.resilient r.backends r [] refl ps))
          ])
  ]
