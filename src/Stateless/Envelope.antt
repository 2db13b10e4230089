-- ===== src/Stateless/Envelope.antt =====
-- The envelopes of src/stateless.rs: what is encoded is decoded, and what a backend sees of `_meta`.
use rust_yamp.Prelude.{
  ◌≡◌, refl, Option, none, some, Text, Bytes, text_eq, text_lt, Result, ok, if◌then◌else◌, arith,
  unwrap_or,
}
use rust_yamp.Json.{
  Json, string, as_object, index, get_str, lookup, insert, extend, lookup-insert, empty,
}
use rust_yamp.Json
use rust_yamp.Forward.{proxy_server_info}
use rust_yamp.Stateless.{forwarded_meta}
use rust_yamp.Stateless.Messages.{
  StatelessRequest, StatelessResponse, request_value, read_request, response_value, read_response,
  encode_request, decode_request, encode_response, decode_response, client_info_meta_key,
  protocol_version_meta_key,
}

read_request-request_value : (r : StatelessRequest) → read_request (request_value r) ≡ r
unfolding request_value read_request index get_str Json.get lookup insert extend text_eq text_lt
read_request-request_value r = read_back r.name
  where
    read_back :
        (name : Option Text)
        → read_request (request_value (record r { name = name })) ≡ record r { name = name }
    read_back none = refl
    read_back (some n) = refl

module _ (encode : Json → Bytes) (decode : Bytes → Result Json) where
  -- A request that was encoded is decoded to the same method, name, `_meta` and body, if serde_json
  -- reads back what it printed for it.
  decode_request-encode_request :
      (r : StatelessRequest)
      → decode (encode (request_value r)) ≡ ok (request_value r)
      → decode_request encode decode (encode_request encode decode r) ≡ ok r
  unfolding decode_request encode_request
  decode_request-encode_request r h = ground (arith, read_request-request_value r)

  -- A response that was encoded is decoded to the same `_meta` and body, if serde_json reads back
  -- what it printed for it.
  decode_response-encode_response :
      (r : StatelessResponse)
      → decode (encode (response_value r)) ≡ ok (response_value r)
      → decode_response encode decode (encode_response encode decode r) ≡ ok r
  unfolding decode_response encode_response response_value read_response get_str Json.get lookup
      insert extend text_eq text_lt
  decode_response-encode_response r h = rw h

-- Of a stateless call's `_meta` the backend sees the proxy's identity, the negotiated version, and
-- under every other key, that of a credential included, what the client sent.
pub get-forwarded_meta :
    (meta : Json) (version key : Text)
    → Json.get (forwarded_meta meta version) key ≡ (
        if text_eq protocol_version_meta_key key
        then some (string version)
        else if text_eq client_info_meta_key key
        then some proxy_server_info
        else lookup (unwrap_or (as_object meta) empty) key)
unfolding forwarded_meta Json.get
get-forwarded_meta meta version key =
    let m = unwrap_or (as_object meta) empty in
    ground (
      arith,
      lookup-insert (insert m client_info_meta_key proxy_server_info) protocol_version_meta_key key
          (string version),
      lookup-insert m client_info_meta_key key proxy_server_info,
    )
