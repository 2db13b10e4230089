-- ===== src/Policy.antt =====
-- src/policy.rs: client authentication and the headers for a backend. An authenticator other than
-- the bearer one is a function of the client's headers.
pub mod Headers
use rust_yamp.Prelude.{
  ℕ, zero, suc, ◌+◌, ◌-◌, ◌*◌, ◌/◌, ◌%◌, ◌^◌, ◌≤◌, ◌<◌, ◌≡◌, refl, sym, ap, ◌∙◌, ◌≢◌, ◌↔◌, ◌⊎◌, inl,
  inr, Bool, true, false, not, ◌&&◌, ◌||◌, Option, none, some, List, [], ◌∷◌, ◌++◌, map, append-nil,
  append_assoc, arith, ltb, leb, ◌==◌, if◌then◌else◌, ==_iff, Bool-cases, Option-cases,
  some_injective, >>=-eq-some, ◌>>=◌, unwrap_or, is_some, length, take, drop, get_or, any, all,
  retain, length-append, All, All-append, Any, Any-imp, Bytes, Text, ascii, text_eq, text_lt,
  text_eq_refl, eq_of_text_eq, text_eq_iff, text_eq_of_ne, strip_prefix, starts_with, contains,
  split_once, text_eq_comm, Result, ok, err, and_then,
}
use rust_yamp.Dict.{Dict, text_key, get, insert}

abbrev pub authorization : Text
authorization = ascii "Authorization"

-- `BearerAuthenticator`: a `HashSet` of tokens.
unfoldable pub authenticate : List Text → Dict Text Text → Bool
authenticate valid headers =
    elim (do h ← get headers authorization; strip_prefix h (ascii "Bearer ")) [
      | some token ↦ any (λ t. text_eq t token) valid
      | none ↦ false
    ]

pub record ForwardRule : Type 0 where
  pub name : Text
  pub backend_header : Option Text

pub record PolicyLayer : Type 0 where
  pub backend_tokens : Dict Text Text
  pub forward_headers : Dict Text (List ForwardRule)
  pub authenticator : Option (Dict Text Text → Bool)

unfoldable pub authorize_client : PolicyLayer → Dict Text Text → Bool
authorize_client layer client_headers = elim layer.authenticator [
  | none ↦ true
  | some a ↦ a client_headers
]

abbrev pub target : ForwardRule → Text
target rule = unwrap_or rule.backend_header rule.name

abbrev pub injected : Option Text → Dict Text Text
injected none = []
injected (some token) = (authorization, ascii "Bearer " ++ token) ∷ []

-- One pass of the loop over the rules.
abbrev pub apply_rule : Option Text → Text → Dict Text Text → Dict Text Text
apply_rule none to headers = headers
apply_rule (some value) to headers = insert headers to value

unfoldable pub forward : List ForwardRule → Dict Text Text → Dict Text Text → Dict Text Text
forward [] client_headers headers = headers
forward (rule ∷ rules) client_headers headers =
    forward rules client_headers (apply_rule (get client_headers rule.name) (target rule) headers)

unfoldable pub backend_headers : PolicyLayer → Text → Dict Text Text → Dict Text Text
unfolding forward
backend_headers layer backend_id client_headers =
    forward (unwrap_or (get layer.forward_headers backend_id) []) client_headers
      (injected (get layer.backend_tokens backend_id))
