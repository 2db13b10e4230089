-- ===== src/Tests/Stateless.antt =====
-- src/stateless.rs and src/forward.rs on concrete messages.
use rust_yamp.Prelude.{
  ◌≡◌, refl, Option, some, List, [], ◌∷◌, Text, Bytes, ascii, Result, ok, err, unwrap_or, text_eq,
  text_lt, if◌then◌else◌,
}
use rust_yamp.Json.{
  Json, Map, empty, entry, string, object, json_object, as_object, get_str, index, insert, extend,
  lookup,
}
use rust_yamp.Json
use rust_yamp.Namespace.{prefix}
use rust_yamp.Forward.Session.{serve, capabilities_of, serve-hides_backend}
use rust_yamp.Stateless.{Sent, forwarded_meta}
use rust_yamp.Stateless.Messages.{StatelessRequest, request_value}
use rust_yamp.Stateless.Envelope.{get-forwarded_meta}

-- What a client sends, its own credential with it.
abbrev client_meta : Json
client_meta = object (entry (ascii "authorization") (string (ascii "Bearer client")) empty)

abbrev calls : Text → StatelessRequest
calls body = record {
  method = ascii "tools/call";
  name = some (prefix (ascii "up") (ascii "echo"));
  meta = client_meta;
  body = body;
}

-- A printing of the body, read back for calls.
abbrev encode : Json → Bytes
encode v = unwrap_or (get_str v (ascii "body")) []

abbrev decode : Bytes → Result Json
decode raw = ok (request_value (calls raw))

get-forwarded_meta_example :
    Json.get (forwarded_meta client_meta (ascii "2026-07-28")) (ascii "authorization")
    ≡ some (string (ascii "Bearer client"))
unfolding text_eq lookup
get-forwarded_meta_example =
    get-forwarded_meta client_meta (ascii "2026-07-28") (ascii "authorization")

abbrev render : Json → Text
render v = []

abbrev parse : Text → Result Json
parse t = err t

-- A backend that echoes.
abbrev wire : List Sent → Sent → Result (Option Bytes)
wire sent (id, message) = ok (some message)

-- A backend's answer to `initialize`, with its name.
abbrev hello : Text → Json
hello name = json_object (
    (
      ascii "result",
      json_object ((ascii "capabilities", object empty) ∷ (ascii "serverInfo", string name) ∷ []),
    )
    ∷ [])

abbrev read : Bytes → Result Json
read raw =
    if text_eq raw (ascii "init")
    then ok (json_object ((ascii "method", string (ascii "initialize")) ∷ []))
    else ok (hello raw)

serve-hides_backend_example :
    (serve encode read (ascii "init" ∷ []) (ascii "one" ∷ [])).to_client
    ≡ (serve encode read (ascii "init" ∷ []) (ascii "two" ∷ [])).to_client
unfolding capabilities_of Json.get index insert extend lookup text_eq text_lt
serve-hides_backend_example =
    serve-hides_backend encode read (ascii "one") (ascii "two") [] [] (hello (ascii "one"))
      (hello (ascii "two")) (ascii "init" ∷ []) refl refl refl
