-- ===== src/Policy/Headers.antt =====
-- The headers that src/policy.rs sends to a backend.
use rust_yamp.Prelude.{
  ◌≡◌, refl, ◌∙◌, ◌⊎◌, inl, inr, true, false, Option, none, some, List, [], ◌∷◌, ◌++◌, Bool-cases,
  ◌>>=◌, unwrap_or, All, Any, Text, ascii, text_eq, eq_of_text_eq,
}
use rust_yamp.Dict.{Dict, text_key, get, insert, get-insert}
use rust_yamp.Policy.{
  ForwardRule, PolicyLayer, authorization, target, injected, apply_rule, forward, backend_headers,
}

-- No rule of the list writes the header.
abbrev pub Silent : Text → List ForwardRule → Type 0
Silent h rules = All (λ (r : ForwardRule). text_eq (target r) h ≡ false) rules

forward-Silent :
    (rules : List ForwardRule) (client headers : Dict Text Text) (h : Text)
    → Silent h rules
    → get (forward rules client headers) h ≡ get headers h
unfolding forward
forward-Silent [] client headers h silent = refl
forward-Silent (r ∷ rules) client headers h silent =
    forward-Silent rules client (apply_rule (get client r.name) (target r) headers) h silent.1
    ∙ rule (get client r.name)
  where
    rule : (o : Option Text) → get (apply_rule o (target r) headers) h ≡ get headers h
    rule none = refl
    rule (some value) = rw (get-insert headers (target r) h value, silent.0) refl

-- Where no rule of the backend writes `Authorization`, the backend gets there the proxy's token for
-- it, or nothing: never what the client sent.
pub backend_headers-authorization :
    (layer : PolicyLayer) (backend_id : Text) (client : Dict Text Text)
    → Silent authorization (unwrap_or (get layer.forward_headers backend_id) [])
    → get (backend_headers layer backend_id client) authorization
      ≡ (get layer.backend_tokens backend_id >>= λ token. some (ascii "Bearer " ++ token))
unfolding backend_headers
backend_headers-authorization layer backend_id client silent =
    forward-Silent (unwrap_or (get layer.forward_headers backend_id) []) client
      (injected (get layer.backend_tokens backend_id)) authorization silent
    ∙ own (get layer.backend_tokens backend_id)
  where
    own :
        (o : Option Text)
        → get (injected o) authorization ≡ (o >>= λ token. some (ascii "Bearer " ++ token))
    own none = unfold get in refl
    own (some token) = unfold get text_eq in refl

-- The rule forwards the client's header as `h`, with the value `v`.
abbrev pub Forwards : Dict Text Text → Text → Text → ForwardRule → Type 0
Forwards client h v r = (target r ≡ h) × (get client r.name ≡ some v)

apply_rule-provenance :
    (r : ForwardRule) (client headers : Dict Text Text) (h v : Text) (o : Option Text)
    → get client r.name ≡ o
    → get (apply_rule o (target r) headers) h ≡ some v
    → (get headers h ≡ some v) ⊎ Forwards client h v r
apply_rule-provenance r client headers h v none e g = inl g
apply_rule-provenance r client headers h v (some w) e g = elim (Bool-cases (text_eq (target r) h)) [
  | inl t ↦
      let same : some w ≡ some v = cc (get-insert headers (target r) h w, g, t, wrote t) in
      inr (eq_of_text_eq (target r) h t, e ∙ same)
  | inr t ↦ inl (kept t ∙ g)
]
  where
    wrote : text_eq (target r) h ≡ true → get (insert headers (target r) w) h ≡ some w
    wrote t = rw (get-insert headers (target r) h w, t) refl

    kept : text_eq (target r) h ≡ false → get headers h ≡ get (insert headers (target r) w) h
    kept t = rw (get-insert headers (target r) h w, t) refl

forward-provenance :
    (rules : List ForwardRule) (client headers : Dict Text Text) (h v : Text)
    → get (forward rules client headers) h ≡ some v
    → (get headers h ≡ some v) ⊎ Any (Forwards client h v) rules
unfolding forward
forward-provenance [] client headers h v g = inl g
forward-provenance (r ∷ rules) client headers h v g =
    let headers' = apply_rule (get client r.name) (target r) headers in
    elim (forward-provenance rules client headers' h v g) [
      | inl earlier ↦
          elim (apply_rule-provenance r client headers h v (get client r.name) refl earlier) [
            | inl before ↦ inl before
            | inr this ↦ inr (inl this)
          ]
      | inr later ↦ inr (inr later)
    ]

-- Each header that a backend gets is its injected `Authorization`, or the value of a client header
-- that one of the backend's own rules forwards under that name. Nothing else of the client's
-- headers reaches it.
pub backend_headers-provenance :
    (layer : PolicyLayer) (backend_id : Text) (client : Dict Text Text) (h v : Text)
    → get (backend_headers layer backend_id client) h ≡ some v
    → (get (injected (get layer.backend_tokens backend_id)) h ≡ some v)
      ⊎ Any (Forwards client h v) (unwrap_or (get layer.forward_headers backend_id) [])
unfolding backend_headers
backend_headers-provenance layer backend_id client h v g =
    forward-provenance (unwrap_or (get layer.forward_headers backend_id) []) client
      (injected (get layer.backend_tokens backend_id)) h v g
