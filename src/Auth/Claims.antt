-- ===== src/Auth/Claims.antt =====
-- What `claims_valid` of src/auth.rs accepts.
use rust_yamp.Prelude.{
  ◌≡◌, refl, ap, ◌↔◌, ◌⊎◌, inl, inr, Bool, true, false, ◌&&◌, Option, none, some, List, [], ◌∷◌,
  arith, Bool-cases, some_injective, any, Any, Text, ascii, text_eq, text_eq_refl, eq_of_text_eq,
}
use rust_yamp.Json.{
  Json, Items, null, bool, number, string, array, object, to_list, get_str, as_str,
}
use rust_yamp.Json
use rust_yamp.Auth.{is_text, audience_matches, issuer_valid, audience_valid, claims_valid}

-- The token was minted by the configured issuer, if there is one.
abbrev pub IssuedBy : Json → Option Text → Type 0
IssuedBy claims none = Unit
IssuedBy claims (some issuer) = get_str claims (ascii "iss") ≡ some issuer

-- The `aud` claim names the audience.
abbrev pub NamedIn : Option Json → Text → Type 0
NamedIn o audience =
    (o ≡ some (string audience))
    ⊎ ((list : Items) × (o ≡ some (array list)) × Any (λ a. a ≡ string audience) (to_list list))

-- The token was minted for the configured audience, if there is one: the `aud` claim is that text or
-- a list with that text in it.
abbrev pub MintedFor : Json → Option Text → Type 0
MintedFor claims none = Unit
MintedFor claims (some audience) = NamedIn (Json.get claims (ascii "aud")) audience

is_text_iff : (v : Json) (t : Text) → (is_text v t ≡ true) ↔ (v ≡ string t)
is_text_iff (string s) t =
    (λ h. ap string (eq_of_text_eq s t h), λ e. cc (e, text_eq_refl t, injective e))
  where
    injective : string s ≡ string t → s ≡ t
    injective e = cc
is_text_iff null t = (λ h. cc, λ e. cc)
is_text_iff (bool b) t = (λ h. cc, λ e. cc)
is_text_iff (number n) t = (λ h. cc, λ e. cc)
is_text_iff (array vs) t = (λ h. cc, λ e. cc)
is_text_iff (object m) t = (λ h. cc, λ e. cc)

any_iff :
    (t : Text) (vs : List Json) → (any (λ a. is_text a t) vs ≡ true) ↔ Any (λ a. a ≡ string t) vs
any_iff t [] = (λ h. absurd (cc), λ e. absurd e)
any_iff t (v ∷ vs) = elim (Bool-cases (is_text v t)) [
  | inl e ↦ (λ h. inl ((is_text_iff v t).0 e), λ h. rw e refl)
  | inr e ↦ (
    λ h. inr ((any_iff t vs).0 (rw e at h)),
    λ h. rw e (elim h [
      | inl same ↦ cc (e, (is_text_iff v t).1 same)
      | inr later ↦ (any_iff t vs).1 later
    ]),
  )
]

audience_matches_iff :
    (o : Option Json) (audience : Text) → (audience_matches o audience ≡ true) ↔ NamedIn o audience
unfolding audience_matches
audience_matches_iff none a = (λ h. cc, λ n. elim n [ inl e ↦ cc | inr (l, e, m) ↦ cc ])
audience_matches_iff (some (string s)) a = (
  λ h. inl (ap (λ t. some (string t)) (eq_of_text_eq s a h)),
  λ n. elim n [ inl e ↦ cc (text_of e, text_eq_refl a) | inr (l, e, m) ↦ cc ],
)
  where
    text_of : some (string s) ≡ some (string a) → s ≡ a
    text_of e = cc
audience_matches_iff (some (array list)) a = (
  λ h. inr (list, refl, (any_iff a (to_list list)).0 h),
  λ n. elim n [ inl e ↦ cc | inr (l, e, m) ↦ (any_iff a (to_list list)).1 (rw (items_of l e) m) ],
)
  where
    items_of : (l : Items) → some (array list) ≡ some (array l) → list ≡ l
    items_of l e = cc
audience_matches_iff (some null) a = (λ h. cc, λ n. elim n [ inl e ↦ cc | inr (l, e, m) ↦ cc ])
audience_matches_iff (some (bool b)) a = (λ h. cc, λ n. elim n [ inl e ↦ cc | inr (l, e, m) ↦ cc ])
audience_matches_iff (some (number x)) a =
    (λ h. cc, λ n. elim n [ inl e ↦ cc | inr (l, e, m) ↦ cc ])
audience_matches_iff (some (object x)) a =
    (λ h. cc, λ n. elim n [ inl e ↦ cc | inr (l, e, m) ↦ cc ])

audience_valid_iff :
    (claims : Json) (audience : Option Text)
    → (audience_valid claims audience ≡ true) ↔ MintedFor claims audience
audience_valid_iff claims none = (λ h. tt, λ h. refl)
audience_valid_iff claims (some audience) =
    audience_matches_iff (Json.get claims (ascii "aud")) audience

both_iff : (a b : Bool) → ((a && b) ≡ true) ↔ ((a ≡ true) × (b ≡ true))
both_iff a b = ground arith

issuer_valid_iff :
    (claims : Json) (issuer : Option Text)
    → (issuer_valid claims issuer ≡ true) ↔ IssuedBy claims issuer
issuer_valid_iff claims none = (λ h. tt, λ h. refl)
issuer_valid_iff claims (some issuer) = value (get_str claims (ascii "iss"))
  where
    value :
        (o : Option Text)
        → ((elim o [ some iss ↦ text_eq iss issuer | none ↦ false ]) ≡ true) ↔ (o ≡ some issuer)
    value none = (λ h. cc, λ h. cc)
    value (some iss) =
        (λ h. ap some (eq_of_text_eq iss issuer h), λ h. cc (some_injective h, text_eq_refl issuer))

-- A token passes exactly when its claims name the configured issuer and the configured audience.
pub claims_valid_iff :
    (claims : Json) (issuer audience : Option Text)
    → (claims_valid claims issuer audience ≡ true)
      ↔ (IssuedBy claims issuer × MintedFor claims audience)
unfolding claims_valid
claims_valid_iff claims issuer audience =
    let both = both_iff (issuer_valid claims issuer) (audience_valid claims audience) in
    let i = issuer_valid_iff claims issuer in
    let a = audience_valid_iff claims audience in
    (λ h. let (hi, ha) = both.0 h in (i.0 hi, a.0 ha), λ h. both.1 (i.1 h.0, a.1 h.1))
