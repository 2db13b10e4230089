-- ===== src/Security.antt =====
-- src/security.rs: which binds are safe. `normal` is the standard library's `trim` and `to_lowercase`
-- of a host.
use rust_yamp.Prelude.{
  ℕ, ◌≡◌, refl, inl, inr, Bool, true, false, ◌||◌, Option, none, some, List, [], ◌∷◌, ◌++◌, ◌==◌,
  if◌then◌else◌, Bool-cases, unwrap_or, Text, ascii, text_eq, text_lt, starts_with,
}
use rust_yamp.Json.{Json, string, json_object, get_str, index, as_str, extend, insert, lookup}
use rust_yamp.Json

-- `s.rsplit_once(':')`: what stands before the last colon, if there is one.
abbrev pub cons_some : ℕ → Option Text → Option Text
cons_some c none = none
cons_some c (some s) = some (c ∷ s)

unfoldable pub before_last : ℕ → Text → Option Text
before_last d [] = none
before_last d (c ∷ s) = elim (before_last d s) [
  | some before ↦ some (c ∷ before)
  | none ↦ if c == d then some [] else none
]

module _ (normal : Text → Text) where
  unfoldable pub is_loopback : Text → Bool
  is_loopback host =
      let h = normal host in
      ((text_eq h (ascii "localhost") || text_eq h (ascii "::1")) || text_eq h (ascii "[::1]"))
      || starts_with h (ascii "127.")

  abbrev pub bind_message : Text → Text
  bind_message host =
      ascii "refusing to bind non-loopback address "
      ++ (host
          ++ ascii
              " without client authentication; bind 127.0.0.1, set auth.clientTokens, or pass --insecure")

  abbrev pub bind_finding : Text → Json
  bind_finding host = json_object (
      (ascii "level", string (ascii "error"))
      ∷ (ascii "code", string (ascii "insecure-bind"))
      ∷ (ascii "message", string (bind_message host))
      ∷ [])

  unfoldable pub check_bind : Text → Bool → List Json
  unfolding is_loopback
  check_bind host has_client_auth =
      if is_loopback host || has_client_auth then [] else bind_finding host ∷ []

  abbrev pub refusal : List Json → Bool → Option Text
  refusal [] insecure = none
  refusal (finding ∷ findings) insecure =
      if insecure then none else as_str (index finding (ascii "message"))

  abbrev pub host_of : Text → Text
  host_of listen = unwrap_or (before_last b':' listen) listen

  unfoldable pub guard_bind : Text → Bool → Bool → Option Text
  unfolding check_bind before_last index
  guard_bind listen has_client_auth insecure =
      refusal (check_bind (host_of listen) has_client_auth) insecure

  message_of :
      (host : Text)
      → as_str (index (bind_finding host) (ascii "message")) ≡ some (bind_message host)
  unfolding index extend insert lookup Json.get text_eq text_lt
  message_of host = refl

  refusal_lem :
      (host : Text) (auth insecure : Bool)
      → refusal (if auth then [] else bind_finding host ∷ []) insecure
        ≡ (if auth || insecure then none else some (bind_message host))
  refusal_lem host true insecure = refl
  refusal_lem host false true = refl
  refusal_lem host false false = message_of host

  -- A server binds exactly where the host is loopback, clients authenticate, or the operator insists;
  -- everywhere else the refusal names the host.
  pub guard_bind_lem :
      (listen : Text) (auth insecure : Bool)
      → guard_bind listen auth insecure ≡ (
          if is_loopback (host_of listen) || (auth || insecure)
          then none
          else some (bind_message (host_of listen)))
  unfolding guard_bind check_bind
  guard_bind_lem listen auth insecure = elim (Bool-cases (is_loopback (host_of listen))) [
    | inl e ↦ rw e refl
    | inr e ↦ rw e (refusal_lem (host_of listen) auth insecure)
  ]
