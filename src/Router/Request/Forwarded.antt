-- ===== src/Router/Request/Forwarded.antt =====
-- What a request carries to its backend, and what its outcome does to the handle.
use rust_yamp.Prelude.{
  ◌≡◌, refl, Bool, true, false, Option, none, some, List, [], ◌∷◌, ◌++◌, Text, ascii, text_eq,
  text_lt, text_eq_refl, err, ◌>>=◌, unwrap_or, is_some, inl, inr, Bool-cases,
}
use rust_yamp.Json.{
  Json, Map, null, bool, number, string, array, object, empty, as_object, lookup, insert, extend,
  remove, contains_key, lookup-insert, lookup-remove,
}
use rust_yamp.Json
use rust_yamp.Auth.{authorization, bearer, forward_meta}
use rust_yamp.Float.{Float}
use rust_yamp.Dict.{Dict, text_key, get-insert}
use rust_yamp.Dict
use rust_yamp.Router.{io, Backend, Sent, Reply, send_failed, get_or_empty}
use rust_yamp.Router.Request.{
  has_client_cred, forwarded_params, outgoing, request, settle, request_id, request_message,
}

-- The credential in the `_meta` of parameters.
abbrev pub credential : Json → Option Json
credential params = do
  meta ← Json.get params (ascii "_meta")
  m ← as_object meta
  lookup m authorization

abbrev pub own_credential : Option Text → Option Json
own_credential none = none
own_credential (some token) = some (bearer token)

forward_meta-credential :
    (meta : Json) (token : Option Text)
    → (as_object (forward_meta meta token) >>= λ m. lookup m authorization) ≡ own_credential token
unfolding forward_meta
forward_meta-credential meta none =
    rw
      (
        lookup-remove (unwrap_or (as_object meta) empty) authorization authorization,
        text_eq_refl authorization,
      )
      refl
forward_meta-credential meta (some token) =
    rw
      (
        lookup-insert (remove (unwrap_or (as_object meta) empty) authorization) authorization
            authorization (bearer token),
        text_eq_refl authorization,
      )
      refl

absent : (o : Option Json) → is_some o ≡ false → o ≡ none
absent none h = refl
absent (some v) h = cc

-- The test for a client's credential, on what stands under `_meta`.
no_credential :
    (meta : Option Json)
    → (elim (meta >>= as_object) as (λ o. Bool) [
      | some m ↦ contains_key m authorization
      | none ↦ false
    ])
      ≡ false
    → (meta >>= λ v. as_object v >>= λ m. lookup m authorization) ≡ none
no_credential none h = refl
no_credential (some (object m)) h = absent (lookup m authorization) h
no_credential (some null) h = refl
no_credential (some (bool b)) h = refl
no_credential (some (number n)) h = refl
no_credential (some (string s)) h = refl
no_credential (some (array vs)) h = refl

credential-none : (m : Map) → has_client_cred (object m) ≡ false → credential (object m) ≡ none
unfolding has_client_cred
credential-none m h = no_credential (Json.get (object m) (ascii "_meta")) h

credential_after :
    (token : Option Text) (m : Map) (meta : Json)
    → credential (object (insert m (ascii "_meta") (forward_meta meta token)))
      ≡ own_credential token
unfolding Json.get
credential_after token m meta =
    rw
      (
        lookup-insert m (ascii "_meta") (ascii "_meta") (forward_meta meta token),
        text_eq_refl (ascii "_meta"),
      )
      (forward_meta-credential meta token)

forwarded_params-credential :
    (token : Option Text) (m : Map)
    → credential (forwarded_params token (object m)) ≡ own_credential token
unfolding forwarded_params
forwarded_params-credential (some token) m =
    credential_after (some token) m (get_or_empty (object m) (ascii "_meta"))
forwarded_params-credential none m = elim (Bool-cases (has_client_cred (object m))) [
  | inl e ↦ rw e (credential_after none m (get_or_empty (object m) (ascii "_meta")))
  | inr e ↦ rw e (credential-none m e)
]

module _ (f : Float) (wire : List Sent → Sent → Reply) (clock : List Sent → f.F64) where
  open f use {F64}

  -- A request is one message to its backend, and the credential that the message carries is the one
  -- that the router holds for that backend, or none: never the client's, whatever `_meta` its
  -- parameters, an object, have.
  pub request-credential :
      (b : Backend F64) (sent : List Sent) (method : Text) (params : Map)
      → ((request f wire clock b sent method (object params)).1
          ≡ sent ++ outgoing f wire clock b method (object params) ∷ [])
        × ((outgoing f wire clock b method (object params)).backend ≡ b.id)
        × ((Json.get (outgoing f wire clock b method (object params)).message (ascii "params")
              >>= credential)
            ≡ own_credential b.token)
  unfolding request outgoing request_message Json.get lookup insert extend text_eq text_lt
  request-credential b sent method params = (refl, refl, forwarded_params-credential b.token params)

  -- A request whose write fails fails, and it leaves its id pending and the breaker as it was.
  request-send_failed :
      (b : Backend F64) (sent : List Sent) (method : Text) (params : Json) (e : Text)
      → wire sent (outgoing f wire clock b method params) ≡ send_failed e
      → ((request f wire clock b sent method params).0.breaker ≡ b.breaker)
        × (Dict.contains_key
              (request f wire clock b sent method params).0.pending
              (request_id b.id b.next_id)
            ≡ true)
        × ((request f wire clock b sent method params).2 ≡ err (io e))
  unfolding request settle
  request-send_failed b sent method params e w =
      rw
        (
          w,
          get-insert b.pending (request_id b.id b.next_id) (request_id b.id b.next_id) tt,
          text_eq_refl (request_id b.id b.next_id),
        )
        (refl, refl, refl)
