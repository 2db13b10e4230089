-- ===== src/Auth.antt =====
-- src/auth.rs: what is forwarded of a credential, the check of a token's claims, and the requests to
-- an authorization server.
pub mod Credentials
pub mod Claims
use rust_yamp.Prelude.{
  ℕ, zero, suc, ◌+◌, ◌-◌, ◌*◌, ◌/◌, ◌%◌, ◌^◌, ◌≤◌, ◌<◌, ◌≡◌, refl, sym, ap, ◌∙◌, ◌≢◌, ◌↔◌, ◌⊎◌, inl,
  inr, Bool, true, false, not, ◌&&◌, ◌||◌, Option, none, some, List, [], ◌∷◌, ◌++◌, map, append-nil,
  append_assoc, arith, ltb, leb, ◌==◌, if◌then◌else◌, ==_iff, Bool-cases, Option-cases,
  some_injective, >>=-eq-some, ◌>>=◌, unwrap_or, is_some, length, take, drop, get_or, any, all,
  retain, length-append, All, All-append, Any, Any-imp, Bytes, Text, ascii, text_eq, text_lt,
  text_eq_refl, eq_of_text_eq, text_eq_iff, text_eq_of_ne, strip_prefix, starts_with, contains,
  split_once, text_eq_comm, Result, ok, err, and_then,
}
use rust_yamp.Json.{
  Json, Map, Number, empty, null, bool, number, string, array, object, lookup, insert, remove,
  to_list, as_object, as_str, get_str, json_object,
}
use rust_yamp.Json
use rust_yamp.Base64.{encode_url_nopad}
use rust_yamp.Signing.Sha256.{sha256}

abbrev pub authorization : Text
authorization = ascii "authorization"

abbrev pub bearer : Text → Json
bearer token = string (ascii "Bearer " ++ token)

abbrev pub inject : Option Text → Map → Map
inject none meta = meta
inject (some token) meta = insert meta authorization (bearer token)

unfoldable pub forward_meta : Json → Option Text → Json
forward_meta meta backend_token =
    object (inject backend_token (remove (unwrap_or (as_object meta) empty) authorization))

abbrev pub is_text : Json → Text → Bool
is_text v t = elim (as_str v) [ some s ↦ text_eq s t | none ↦ false ]

unfoldable pub audience_matches : Option Json → Text → Bool
unfolding to_list
audience_matches none audience = false
audience_matches (some (string s)) audience = text_eq s audience
audience_matches (some (array list)) audience = any (λ a. is_text a audience) (to_list list)
audience_matches (some null) audience = false
audience_matches (some (bool b)) audience = false
audience_matches (some (number n)) audience = false
audience_matches (some (object m)) audience = false

abbrev pub issuer_valid : Json → Option Text → Bool
issuer_valid claims none = true
issuer_valid claims (some issuer) = elim (get_str claims (ascii "iss")) [
  | some iss ↦ text_eq iss issuer
  | none ↦ false
]

abbrev pub audience_valid : Json → Option Text → Bool
audience_valid claims none = true
audience_valid claims (some audience) = audience_matches (Json.get claims (ascii "aud")) audience

unfoldable pub claims_valid : Json → Option Text → Option Text → Bool
unfolding audience_matches
claims_valid claims issuer audience = issuer_valid claims issuer && audience_valid claims audience

-- `if let Some(value) = … { params.insert(key, json!(value)); }`
abbrev pub insert_some : Map → Text → Option Text → Map
insert_some params key none = params
insert_some params key (some value) = insert params key (string value)

unfoldable pub token_exchange_request : Text → Option Text → Option Text → Text → Option Text → Json
token_exchange_request subject_token audience scope subject_token_type requested_token_type =
    let grant_type = ascii "urn:ietf:params:oauth:grant-type:token-exchange" in
    let p0 = insert empty (ascii "grant_type") (string grant_type) in
    let p1 = insert p0 (ascii "subject_token") (string subject_token) in
    let p2 = insert p1 (ascii "subject_token_type") (string subject_token_type) in
    let p3 = insert_some p2 (ascii "audience") audience in
    let p4 = insert_some p3 (ascii "scope") scope in
    object (insert_some p4 (ascii "requested_token_type") requested_token_type)

unfoldable pub parse_token_exchange_response : Json → Option Text
parse_token_exchange_response body = get_str body (ascii "access_token")

unfoldable pub code_challenge : Text → Text
code_challenge verifier = encode_url_nopad (sha256 verifier)

unfoldable pub authorization_request : Text → Text → Text → Option Text → Option Text → Json
authorization_request client_id redirect_uri challenge scope state =
    let p0 = insert empty (ascii "response_type") (string (ascii "code")) in
    let p1 = insert p0 (ascii "client_id") (string client_id) in
    let p2 = insert p1 (ascii "redirect_uri") (string redirect_uri) in
    let p3 = insert p2 (ascii "code_challenge") (string challenge) in
    let p4 = insert p3 (ascii "code_challenge_method") (string (ascii "S256")) in
    object (insert_some (insert_some p4 (ascii "scope") scope) (ascii "state") state)

unfoldable pub token_request : Text → Text → Text → Text → Json
token_request client_id code redirect_uri code_verifier = json_object (
    (ascii "grant_type", string (ascii "authorization_code"))
    ∷ (ascii "client_id", string client_id)
    ∷ (ascii "code", string code)
    ∷ (ascii "redirect_uri", string redirect_uri)
    ∷ (ascii "code_verifier", string code_verifier)
    ∷ [])
