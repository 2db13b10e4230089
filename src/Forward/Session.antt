-- ===== src/Forward/Session.antt =====
-- `ForwardProxy::serve` of src/forward.rs. A reader is the messages that it will give, `none` at its
-- end; what is written is recorded for each side. `encode` and `decode` are serde_json's.
use rust_yamp.Prelude.{
  ◌≡◌, refl, Option, List, [], ◌∷◌, Text, Bytes, ascii, Result, ok, err, ◌>>=◌, unwrap_or,
  Bool-cases, inl, inr, if◌then◌else◌,
}
use rust_yamp.Json.{Json, null, number, string, object, empty, pos_int, neg_int, json_object}
use rust_yamp.Json
use rust_yamp.JsonRpc.{method_of}
use rust_yamp.Pool.{is_method}
use rust_yamp.Forward.{proxy_protocol_version, proxy_server_info}

abbrev pub initialize : Json
initialize = json_object (
    (ascii "jsonrpc", string (ascii "2.0"))
    ∷ (ascii "id", number (pos_int 1))
    ∷ (ascii "method", string (ascii "initialize"))
    ∷ (
      ascii "params",
      json_object (
          (ascii "protocolVersion", string proxy_protocol_version)
          ∷ (ascii "capabilities", object empty)
          ∷ (ascii "clientInfo", proxy_server_info)
          ∷ []),
    )
    ∷ [])

abbrev pub initialized : Json
initialized = json_object (
    (ascii "jsonrpc", string (ascii "2.0"))
    ∷ (ascii "method", string (ascii "notifications/initialized"))
    ∷ [])

abbrev pub id_of : Json → Json
id_of message = unwrap_or (Json.get message (ascii "id")) null

unfoldable pub expected_initialize : Json → Json
expected_initialize id = json_object (
    (ascii "jsonrpc", string (ascii "2.0"))
    ∷ (ascii "id", id)
    ∷ (
      ascii "error",
      json_object (
          (ascii "code", number (neg_int 32599))
          ∷ (ascii "message", string (ascii "expected initialize"))
          ∷ []),
    )
    ∷ [])

unfoldable pub initialize_response : Json → Json → Json
initialize_response id capabilities = json_object (
    (ascii "jsonrpc", string (ascii "2.0"))
    ∷ (ascii "id", id)
    ∷ (
      ascii "result",
      json_object (
          (ascii "protocolVersion", string proxy_protocol_version)
          ∷ (ascii "capabilities", capabilities)
          ∷ (ascii "serverInfo", proxy_server_info)
          ∷ []),
    )
    ∷ [])

unfoldable pub capabilities_of : Json → Json
capabilities_of init =
    unwrap_or (do r ← Json.get init (ascii "result"); Json.get r (ascii "capabilities"))
      (object empty)

unfoldable pub server_info_of : Json → Option Json
server_info_of init = do r ← Json.get init (ascii "result"); Json.get r (ascii "serverInfo")

-- How the session goes on: the client closed first, an error, or the relay of what both sides have
-- still to say, after which the backend's `serverInfo` is returned.
pub data Outcome : Type 0 where
  client_closed : Outcome
  failed : Text → Outcome
  relay : Option Json → List Bytes → List Bytes → Outcome

pub record Session : Type 0 where
  pub to_client : List Bytes
  pub to_backend : List Bytes
  pub outcome : Outcome

abbrev pub tail : List Bytes → List Bytes
tail [] = []
tail (m ∷ ms) = ms

module _ (encode : Json → Bytes) (decode : Bytes → Result Json) where
  -- After `backend_handshake`: the response, and the client's `notifications/initialized`.
  unfoldable pub respond : Json → List Bytes → List Bytes → Result Json → Session
  respond id client backend (err e) = record {
    to_client = [];
    to_backend = encode initialize ∷ [];
    outcome = failed e;
  }
  respond id client backend (ok init) = record {
    to_client = encode (initialize_response id (capabilities_of init)) ∷ [];
    to_backend = encode initialize ∷ encode initialized ∷ [];
    outcome = relay (server_info_of init) (tail client) backend;
  }

  unfoldable pub backend_handshake : Json → List Bytes → List Bytes → Session
  unfolding respond
  backend_handshake id client [] = record {
    to_client = [];
    to_backend = encode initialize ∷ [];
    outcome = failed (ascii "backend closed during initialize");
  }
  backend_handshake id client (raw ∷ backend) = respond id client backend (decode raw)

  unfoldable pub greet : List Bytes → List Bytes → Result Json → Session
  unfolding backend_handshake is_method method_of
  greet client backend (err e) = record { to_client = []; to_backend = []; outcome = failed e }
  greet client backend (ok init) =
      if is_method (method_of init) (ascii "initialize")
      then backend_handshake (id_of init) client backend
      else record {
        to_client = encode (expected_initialize (id_of init)) ∷ [];
        to_backend = [];
        outcome = failed (ascii "first client message was not initialize");
      }

  unfoldable pub serve : List Bytes → List Bytes → Session
  unfolding greet
  serve [] backend = record { to_client = []; to_backend = []; outcome = client_closed }
  serve (raw ∷ client) backend = greet client backend (decode raw)

  module _ (raw raw' : Bytes) (rest rest' : List Bytes) (a b : Json) where
    backend_handshake-hides :
        (id : Json) (client : List Bytes)
        → decode raw ≡ ok a
        → decode raw' ≡ ok b
        → capabilities_of a ≡ capabilities_of b
        → (backend_handshake id client (raw ∷ rest)).to_client
          ≡ (backend_handshake id client (raw' ∷ rest')).to_client
    unfolding backend_handshake
    backend_handshake-hides id client p q h = rw (p, q) (cc)

    greet-hides :
        (client : List Bytes) (first : Result Json)
        → decode raw ≡ ok a
        → decode raw' ≡ ok b
        → capabilities_of a ≡ capabilities_of b
        → (greet client (raw ∷ rest) first).to_client
          ≡ (greet client (raw' ∷ rest') first).to_client
    unfolding greet
    greet-hides client (err e) p q h = refl
    greet-hides client (ok init) p q h =
        let first = is_method (method_of init) (ascii "initialize") in
        elim (Bool-cases first) [
          | inl e ↦ rw e (backend_handshake-hides (id_of init) client p q h)
          | inr e ↦ rw e
        ]

    -- Of what a backend answers to the handshake, the client is told the capabilities and nothing
    -- else: two backends whose first messages decode to the same capabilities, whatever else they
    -- say, give the client the same messages, in every session.
    pub serve-hides_backend :
        (client : List Bytes)
        → decode raw ≡ ok a
        → decode raw' ≡ ok b
        → capabilities_of a ≡ capabilities_of b
        → (serve client (raw ∷ rest)).to_client ≡ (serve client (raw' ∷ rest')).to_client
    unfolding serve
    serve-hides_backend [] p q h = refl
    serve-hides_backend (c ∷ client) p q h = greet-hides client (decode c) p q h
