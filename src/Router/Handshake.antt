-- ===== src/Router/Handshake.antt =====
-- `handshake` of src/router.rs: the dual handshake with the backends and the composed answer to the
-- client. A write of a notification to a backend is taken to succeed.
pub mod Admission
use rust_yamp.Prelude.{
  Bool, true, false, not, ◌&&◌, ◌||◌, Option, none, some, List, [], ◌∷◌, ◌++◌, Text, ascii, Result,
  ok, err, if◌then◌else◌, ◌>>=◌, unwrap_or, is_some,
}
use rust_yamp.Json.{
  Json, Map, null, string, array, object, empty, of_list, get_str, json_object, modify,
  modify_object, insert, remove, lookup, contains_key, as_object,
}
use rust_yamp.Json
use rust_yamp.JsonRpc.{method_of}
use rust_yamp.Float.{Float}
use rust_yamp.Pool.{is_method}
use rust_yamp.Auth.{claims_valid}
use rust_yamp.Capability.{compose_capabilities}
use rust_yamp.Variants.{compose_variants, extension_id, variant_ids}
use rust_yamp.Handler.{Registry, ids}
use rust_yamp.Forward.{proxy_protocol_version, proxy_server_info}
use rust_yamp.Forward.Session.{id_of, initialize_response, expected_initialize}
use rust_yamp.Router.{Awaited, Failure, io, never, Backend, Sent, Reply, Router, fail_with}
use rust_yamp.Router.Request.{request_of, replace_backend, on_failure}
use rust_yamp.Router.Surface.{reset}

unfoldable pub initialize_params : Json
initialize_params = json_object (
    (ascii "protocolVersion", string proxy_protocol_version)
    ∷ (ascii "capabilities", object empty)
    ∷ (ascii "clientInfo", proxy_server_info)
    ∷ [])

unfoldable pub initialized : Json
initialized = json_object (
    (ascii "jsonrpc", string (ascii "2.0"))
    ∷ (ascii "method", string (ascii "notifications/initialized"))
    ∷ [])

abbrev pub claims_meta_key : Text
claims_meta_key = ascii "claims"

-- The claims in the `_meta` of `initialize`.
unfoldable pub claims_of : Json → Json
claims_of init =
    unwrap_or
      (do
        p ← Json.get init (ascii "params")
        m ← Json.get p (ascii "_meta")
        Json.get m claims_meta_key)
      (object empty)

abbrev pub is_empty_map : Map → Bool
is_empty_map Json.empty = true
is_empty_map (Json.entry k v m) = false

-- The variants in the composed capabilities: without any, the extension is removed, and
-- `extensions` where nothing is left in it.
abbrev pub drop_extension : Map → Option Map → Map
drop_extension m none = m
drop_extension m (some extensions) =
    let rest = remove extensions extension_id in
    if is_empty_map rest
    then remove m (ascii "extensions")
    else insert m (ascii "extensions") (object rest)

unfoldable pub with_variants : List Json → Map → Map
with_variants [] m = drop_extension m (lookup m (ascii "extensions") >>= as_object)
with_variants (v ∷ vs) m = insert m (ascii "extensions") (
    object (
      insert (unwrap_or (lookup m (ascii "extensions") >>= as_object) empty) extension_id
        (json_object ((ascii "availableVariants", array (of_list (v ∷ vs))) ∷ []))))

-- `entry("tools").or_insert_with(|| json!({}))`, with local handlers.
abbrev pub with_tools : List Text → Map → Map
with_tools [] m = m
with_tools (i ∷ is) m =
    if contains_key m (ascii "tools") then m else insert m (ascii "tools") (object empty)

unfoldable pub composed_capabilities : Registry → List Json → Option Json → Json
unfolding with_variants
composed_capabilities registry backend_caps client_caps =
    modify (compose_capabilities backend_caps client_caps)
      λ m. with_variants (compose_variants backend_caps) (with_tools (ids registry) m)

-- What the handshake comes to: an answer to the client and then the session, or an answer and an
-- error, or an error alone, or no end.
pub data Greeting : Type 0 where
  welcomed : Json → Greeting
  refused : Json → Text → Greeting
  broken : Text → Greeting
  endless : Greeting

module _ (f : Float) (wire : List Sent → Sent → Reply) (clock : List Sent → f.F64) where
  open f use {F64}

  -- What `initialize` tells of a backend.
  abbrev pub learned : Backend F64 → Option Json → Backend F64
  learned b none = b
  learned b (some result) = record b {
    capabilities = unwrap_or (Json.get result (ascii "capabilities")) (object empty);
    server_info = Json.get result (ascii "serverInfo");
  }

  abbrev pub current : Router F64 → Backend F64 → Backend F64
  current r b = unwrap_or (rust_yamp.Router.Request.find_backend f wire clock r.backends b.id) b

  -- The handshake with one backend: its capabilities, if it is up.
  abbrev pub introduced :
      Backend F64 → Router F64 × Awaited Json → Router F64 × Awaited (Option Json)
  introduced b (r, ok init) =
      let b' = learned (current r b) (Json.get init (ascii "result")) in
      let r' = replace_backend f wire clock r b' in
      (
        record r' { sent = r'.sent ++ record { backend = b.id; message = initialized } ∷ [] },
        ok (some b'.capabilities),
      )
  introduced b (r, err never) = (r, err never)
  introduced b (r, err (io e)) =
      let b' = current r b in
      if r.resilient
      then (
        replace_backend f wire clock r
            (record b' { breaker = on_failure f (clock r.sent) b'.breaker }),
        ok none,
      )
      else (r, err (io e))

  abbrev pub add_caps : List Json → Option Json → List Json
  add_caps caps none = caps
  add_caps caps (some c) = caps ++ c ∷ []

  unfoldable pub introduce_all :
      Router F64 → List (Backend F64) → List Json → Router F64 × Awaited (List Json)
  unfolding initialize_params request_of
  introduce_all r [] caps = (r, ok caps)
  introduce_all r (b ∷ bs) caps =
      let (r', met) =
        introduced b (request_of f wire clock r b (ascii "initialize") initialize_params) in
      elim met [ err e ↦ (r', err e) | ok found ↦ introduce_all r' bs (add_caps caps found) ]

  abbrev pub welcome : Json → Router F64 × Awaited (List Json) → Router F64 × Greeting
  welcome init (r, err (io e)) = (r, broken e)
  welcome init (r, err never) = (r, endless)
  welcome init (r, ok caps) =
      let (r', surface) = reset f r (clock r.sent) in
      (
        record r' { variants = variant_ids (compose_variants caps) },
        welcomed (
            initialize_response (id_of init) (
              composed_capabilities r.registry caps
                (Json.get init (ascii "params") >>= λ p. Json.get p (ascii "capabilities")))),
      )

  unfoldable pub handshake : Router F64 → Json → Router F64 × Greeting
  unfolding introduce_all claims_of is_method method_of
  handshake r init =
      let checked = is_some r.issuer || is_some r.audience in
      let accepted = claims_valid (claims_of init) r.issuer r.audience in
      let met = welcome init (introduce_all r r.backends []) in
      if is_method (method_of init) (ascii "initialize")
      then if checked && not accepted
        then (
          r,
          refused (fail_with (id_of init) 32002 (ascii "invalid token claims"))
              (ascii "client token claims failed iss/aud validation"),
        )
        else met
      else (
        r,
        refused (expected_initialize (id_of init))
            (ascii "first client message was not initialize"),
      )
