-- ===== src/Stateless.antt =====
-- src/stateless.rs: the forwarder of the stateless mode. `encode` and `decode` are serde_json's, and
-- so are `render` (`Value::to_string`) and `parse` (`from_str`). What a backend's reader gives after
-- a request was sent is `wire`, of what was sent to the backends before; `sent` is that trace, and
-- the only thing that the model adds.
pub mod Envelope
pub mod Exchanges
pub mod Messages
use rust_yamp.Prelude.{
  Bool, true, false, Option, none, some, List, [], ◌∷◌, ◌++◌, map, Text, Bytes, ascii, text_eq,
  Result, ok, err, and_then, if◌then◌else◌, ◌>>=◌, unwrap_or,
}
use rust_yamp.Json.{
  Json, Map, Number, null, number, string, array, object, empty, json_object, insert, index, as_str,
  as_array, as_object, get_str, of_list, modify,
}
use rust_yamp.Json
use rust_yamp.Namespace.{prefix, split, valid_backend_id}
use rust_yamp.Errors.{minus}
use rust_yamp.Version.{negotiate, unsupported_error_data}
use rust_yamp.Forward.{proxy_server_info}
use rust_yamp.Stateless.Messages.{
  client_info_meta_key, protocol_version_meta_key, proxy_meta, error_value, error_value_with_data,
  StatelessRequest, StatelessResponse, backend_id, text_or_null, request_value, read_request,
  response_value, read_response, encode_request, decode_request, encode_response, decode_response,
}

-- A tool of `discover` under its namespaced name.
abbrev pub renamed : Text → Json → Option Text → Json
renamed id tool none = tool
renamed id tool (some name) = modify tool λ m. insert m (ascii "name") (string (prefix id name))

unfoldable pub discovered : Text → Json → List Json
discovered id parsed =
    map (λ tool. renamed id tool (get_str tool (ascii "name")))
      (unwrap_or (Json.get parsed (ascii "tools") >>= as_array) [])

-- `_meta` of a forwarded call.
unfoldable pub forwarded_meta : Json → Text → Json
forwarded_meta meta negotiated = object (
    insert (insert (unwrap_or (as_object meta) empty) client_info_meta_key proxy_server_info)
      protocol_version_meta_key (string negotiated))

-- `self.backends.iter().position(|b| b.id == bid)`: the backend that is found.
unfoldable pub find_backend : List Text → Text → Option Text
find_backend [] bid = none
find_backend (id ∷ ids) bid = if text_eq id bid then some id else find_backend ids bid

abbrev pub Sent : Type 0
Sent = Text × Bytes

module _ (encode : Json → Bytes) (decode : Bytes → Result Json) where
  module _ (render : Json → Text) (parse : Text → Result Json)
      (wire : List Sent → Sent → Result (Option Bytes)) where
    abbrev pub received : Text → Option Bytes → Result StatelessResponse
    received id none = err (ascii "backend " ++ (id ++ ascii " closed"))
    received id (some raw) = decode_response encode decode raw

    unfoldable pub exchange :
        List Sent → Text → StatelessRequest → List Sent × Result StatelessResponse
    unfolding encode_request decode_response
    exchange sent id request =
        let message : Sent = (id, encode_request encode decode request) in
        (sent ++ message ∷ [], and_then (wire sent message) (received id))

    abbrev pub discover_request : StatelessRequest
    discover_request = record {
      method = ascii "server/discover";
      name = none;
      meta = proxy_meta;
      body = [];
    }

    -- One round of `discover`: what it adds to the tools.
    unfoldable pub discover_backend : List Sent → Text → List Sent × Result (List Json)
    unfolding exchange discovered
    discover_backend sent id =
        let (sent', response) = exchange sent id discover_request in
        (sent', and_then response λ r. and_then (parse r.body) λ parsed. ok (discovered id parsed))

    unfoldable pub discover_all : List Text → List Sent → List Json → List Sent × Result (List Json)
    unfolding discover_backend
    discover_all [] sent tools = (sent, ok tools)
    discover_all (id ∷ ids) sent tools =
        let (sent', found) = discover_backend sent id in
        elim found [ err e ↦ (sent', err e) | ok more ↦ discover_all ids sent' (tools ++ more) ]

    unfoldable pub discover : List Text → List Sent → List Sent × Result StatelessResponse
    unfolding discover_all
    discover ids sent =
        let (sent', tools) = discover_all ids sent [] in
        (
          sent',
          and_then tools λ ts. ok (record {
            meta = proxy_meta;
            body = render (json_object ((ascii "tools", array (of_list ts)) ∷ []));
          }),
        )

    abbrev pub unknown_tool : Text → StatelessResponse
    unknown_tool name = record {
      meta = proxy_meta;
      body = render (error_value (minus 32602) (ascii "unknown tool: " ++ name));
    }

    unfoldable pub forwarded : StatelessRequest → Text → Text → StatelessRequest
    unfolding forwarded_meta
    forwarded request original negotiated = record {
      method = ascii "tools/call";
      name = some original;
      meta = forwarded_meta request.meta negotiated;
      body = request.body;
    }

    -- `call` once the name is resolved: the backend found and the tool's own name.
    unfoldable pub call_resolved :
        List Sent
        → StatelessRequest
        → Text
        → Option (Text × Text)
        → List Sent × Result StatelessResponse
    unfolding exchange forwarded
    call_resolved sent request negotiated none =
        (sent, ok (unknown_tool (unwrap_or request.name [])))
    call_resolved sent request negotiated (some (id, original)) =
        exchange sent id (forwarded request original negotiated)

    unfoldable pub resolve_call : List Text → StatelessRequest → Option (Text × Text)
    unfolding find_backend split
    resolve_call ids request = do
      (bid, original) ← split (unwrap_or request.name [])
      id ← find_backend ids bid
      some (id, original)

    unfoldable pub call :
        List Text → List Sent → StatelessRequest → Text → List Sent × Result StatelessResponse
    unfolding call_resolved resolve_call
    call ids sent request negotiated =
        call_resolved sent request negotiated (resolve_call ids request)

    abbrev pub unsupported : Option Text → StatelessResponse
    unsupported requested = record {
      meta = proxy_meta;
      body = render (
          error_value_with_data (minus 32004)
            (ascii "unsupported protocol version: " ++ unwrap_or requested [])
            (unsupported_error_data requested));
    }

    abbrev pub not_routable : Text → StatelessResponse
    not_routable method = record {
      meta = proxy_meta;
      body = render (error_value (minus 32601) (ascii "method not routable: " ++ method));
    }

    unfoldable pub handle_negotiated :
        List Text
        → List Sent
        → StatelessRequest
        → Option Text
        → Option Text
        → List Sent × Result StatelessResponse
    unfolding discover call
    handle_negotiated ids sent request requested none = (sent, ok (unsupported requested))
    handle_negotiated ids sent request requested (some negotiated) =
        if text_eq request.method (ascii "server/discover")
        then discover ids sent
        else if text_eq request.method (ascii "tools/call")
        then call ids sent request negotiated
        else (sent, ok (not_routable request.method))

    unfoldable pub handle :
        List Text → List Sent → StatelessRequest → List Sent × Result StatelessResponse
    unfolding handle_negotiated negotiate
    handle ids sent request =
        let requested = get_str request.meta protocol_version_meta_key in
        handle_negotiated ids sent request requested (negotiate requested (ascii "2026-07-28"))

    -- The loop of `serve` over what the client will say: what it is answered, up to an error.
    unfoldable pub serve : List Text → List Sent → List Bytes → List Sent × List Bytes × Option Text
    unfolding handle decode_request encode_response
    serve ids sent [] = (sent, [], none)
    serve ids sent (raw ∷ client) = elim (decode_request encode decode raw) [
      | err e ↦ (sent, [], some e)
      | ok request ↦
          (let (sent', answer) = handle ids sent request in
            elim answer [
              | err e ↦ (sent', [], some e)
              | ok response ↦
                  (let (sent'', answers, ending) = serve ids sent' client in
                    (sent'', encode_response encode decode response ∷ answers, ending))
            ])
    ]
