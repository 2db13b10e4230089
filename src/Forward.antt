-- ===== src/Forward.antt =====
-- src/forward.rs: the proxy's identity, and in Session the dual handshake of `ForwardProxy`.
pub mod Session
use rust_yamp.Prelude.{[], ◌∷◌, Text, ascii}
use rust_yamp.Json.{Json, string, json_object}

abbrev pub proxy_name : Text
proxy_name = ascii "yamp"

abbrev pub proxy_version : Text
proxy_version = ascii "0.0.0"

-- `PROXY_PROTOCOL_VERSION`: `STATEFUL_PROTOCOL_VERSION` of src/version.rs.
abbrev pub proxy_protocol_version : Text
proxy_protocol_version = ascii "2025-06-18"

unfoldable pub proxy_server_info : Json
proxy_server_info =
    json_object ((ascii "name", string proxy_name) ∷ (ascii "version", string proxy_version) ∷ [])
