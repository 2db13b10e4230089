-- ===== src/Stateless/Messages.antt =====
-- The messages of src/stateless.rs and their encoding.
use rust_yamp.Prelude.{
  Option, none, some, [], ◌∷◌, ◌++◌, Text, Bytes, ascii, Result, ok, err, and_then, if◌then◌else◌,
  unwrap_or,
}
use rust_yamp.Json.{
  Json, Map, Number, null, number, string, array, object, empty, json_object, insert, index, as_str,
  as_array, as_object, get_str, of_list, modify,
}
use rust_yamp.Json
use rust_yamp.Namespace.{valid_backend_id}
use rust_yamp.Forward.{proxy_server_info}

abbrev pub client_info_meta_key : Text
client_info_meta_key = ascii "io.modelcontextprotocol/clientInfo"

abbrev pub protocol_version_meta_key : Text
protocol_version_meta_key = ascii "io.modelcontextprotocol/protocolVersion"

unfoldable pub proxy_meta : Json
proxy_meta = object (insert empty client_info_meta_key proxy_server_info)

unfoldable pub error_value : Number → Text → Json
error_value code message = json_object (
    (
      ascii "error",
      json_object ((ascii "code", number code) ∷ (ascii "message", string message) ∷ []),
    )
    ∷ [])

unfoldable pub error_value_with_data : Number → Text → Json → Json
error_value_with_data code message extra = json_object (
    (
      ascii "error",
      json_object (
          (ascii "code", number code)
          ∷ (ascii "message", string message)
          ∷ (ascii "data", extra)
          ∷ []),
    )
    ∷ [])

pub record StatelessRequest : Type 0 where
  pub method : Text
  pub name : Option Text
  pub meta : Json
  pub body : Text

pub record StatelessResponse : Type 0 where
  pub meta : Json
  pub body : Text

-- `StatelessBackend::new`.
unfoldable pub backend_id : Text → Result Text
backend_id id = if valid_backend_id id then ok id else err (ascii "invalid backend id: " ++ id)

abbrev pub text_or_null : Option Text → Json
text_or_null none = null
text_or_null (some s) = string s

unfoldable pub request_value : StatelessRequest → Json
request_value r = json_object (
    (ascii "method", string r.method)
    ∷ (ascii "name", text_or_null r.name)
    ∷ (ascii "meta", r.meta)
    ∷ (ascii "body", string r.body)
    ∷ [])

unfoldable pub read_request : Json → StatelessRequest
read_request v = record {
  method = unwrap_or (as_str (index v (ascii "method"))) [];
  name = get_str v (ascii "name");
  meta = unwrap_or (Json.get v (ascii "meta")) (object empty);
  body = unwrap_or (get_str v (ascii "body")) [];
}

unfoldable pub response_value : StatelessResponse → Json
response_value r = json_object ((ascii "meta", r.meta) ∷ (ascii "body", string r.body) ∷ [])

unfoldable pub read_response : Json → StatelessResponse
read_response v = record {
  meta = unwrap_or (Json.get v (ascii "meta")) (object empty);
  body = unwrap_or (get_str v (ascii "body")) [];
}

module _ (encode : Json → Bytes) (decode : Bytes → Result Json) where
  unfoldable pub encode_request : StatelessRequest → Bytes
  encode_request r = encode (request_value r)

  unfoldable pub decode_request : Bytes → Result StatelessRequest
  decode_request raw = and_then (decode raw) λ v. ok (read_request v)

  unfoldable pub encode_response : StatelessResponse → Bytes
  encode_response r = encode (response_value r)

  unfoldable pub decode_response : Bytes → Result StatelessResponse
  decode_response raw = and_then (decode raw) λ v. ok (read_response v)
