-- ===== src/Tests/Auth.antt =====
-- src/auth.rs and src/policy.rs on concrete credentials.
use rust_yamp.Prelude.{◌≡◌, refl, ◌↔◌, ◌⊎◌, true, none, some, [], ◌∷◌, Any, ascii, text_eq}
use rust_yamp.Dict.{text_key}
use rust_yamp.Dict
use rust_yamp.Json.{
  Json, Map, empty, entry, string, object, array, of_list, json_object, extend, insert, lookup,
  get_str, to_list,
}
use rust_yamp.Json
use rust_yamp.Auth.{forward_meta, claims_valid}
use rust_yamp.Auth.Credentials.{lookup-forward_meta}
use rust_yamp.Auth.Claims.{IssuedBy, MintedFor, claims_valid_iff}
use rust_yamp.Policy.{ForwardRule, PolicyLayer, backend_headers, forward}
use rust_yamp.Policy
use rust_yamp.Policy.Headers.{Forwards, backend_headers-provenance}

-- What a client sends, its own credential with it.
abbrev client_meta : Map
client_meta =
    entry (ascii "authorization") (string (ascii "Bearer client"))
      (entry (ascii "trace") (string (ascii "t1")) empty)

lookup-forward_meta_example :
    Json.get (forward_meta (object client_meta) (some (ascii "backend"))) (ascii "authorization")
    ≡ some (string (ascii "Bearer backend"))
unfolding text_eq
lookup-forward_meta_example =
    lookup-forward_meta client_meta (some (ascii "backend")) (ascii "authorization")

abbrev claims : Json
claims = object (
    entry (ascii "aud") (array (of_list (string (ascii "yamp") ∷ [])))
      (entry (ascii "iss") (string (ascii "https://idp")) empty))

claims_valid_iff_example :
    (claims_valid claims (some (ascii "https://idp")) (some (ascii "yamp")) ≡ true)
    ↔ (IssuedBy claims (some (ascii "https://idp")) × MintedFor claims (some (ascii "yamp")))
claims_valid_iff_example =
    claims_valid_iff claims (some (ascii "https://idp")) (some (ascii "yamp"))

abbrev layer : PolicyLayer
layer = record {
  backend_tokens = (ascii "docs", ascii "secret") ∷ [];
  forward_headers =
      (
        ascii "docs",
        record { name = ascii "X-User"; backend_header = some (ascii "X-Client") } ∷ [],
      )
      ∷ [];
  authenticator = none;
}

backend_headers-provenance_example :
    (Dict.get (Policy.injected (some (ascii "secret"))) (ascii "X-Client") ≡ some (ascii "ann"))
    ⊎ Any
        (Forwards ((ascii "X-User", ascii "ann") ∷ []) (ascii "X-Client") (ascii "ann"))
        (record { name = ascii "X-User"; backend_header = some (ascii "X-Client") } ∷ [])
unfolding backend_headers forward Dict.get Dict.insert text_eq
backend_headers-provenance_example =
    backend_headers-provenance layer (ascii "docs") ((ascii "X-User", ascii "ann") ∷ [])
      (ascii "X-Client") (ascii "ann") refl
