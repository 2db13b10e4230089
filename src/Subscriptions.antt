-- ===== src/Subscriptions.antt =====
-- src/subscriptions.rs: the registry of subscribed URIs, and the namespacing of updates.
pub mod Laws
use rust_yamp.Prelude.{ℕ, Bool, ◌||◌, List, [], ◌∷◌, Text, ascii, text_eq, length}
use rust_yamp.Json.{Json, string, json_object, modify, modify_object, modify_string}
use rust_yamp.Namespace.{prefix_uri}
use rust_yamp.Dict.{Dict, text_key}
use rust_yamp.Dict

abbrev pub updated_method : Text
updated_method = ascii "notifications/resources/updated"

unfoldable pub is_subscribe_method : Text → Bool
is_subscribe_method method =
    text_eq method (ascii "resources/subscribe") || text_eq method (ascii "resources/unsubscribe")

unfoldable pub updated_notification : Text → Json
updated_notification uri = json_object (
    (ascii "jsonrpc", string (ascii "2.0"))
    ∷ (ascii "method", string updated_method)
    ∷ (ascii "params", json_object ((ascii "uri", string uri) ∷ []))
    ∷ [])

unfoldable pub namespace_updated : Json → Text → Json
namespace_updated message backend_id = modify message λ m.
    modify_object m (ascii "params")
      λ params. modify_string params (ascii "uri") (prefix_uri backend_id)

-- `HashSet<String>`: a map to the unit type.
pub record Subscriptions : Type 0 where
  pub uris : Dict Text (Unit {0})

unfoldable pub new : Subscriptions
new = record { uris = [] }

unfoldable pub subscribe : Subscriptions → Text → Subscriptions
subscribe s uri = record { uris = Dict.insert s.uris uri tt }

unfoldable pub unsubscribe : Subscriptions → Text → Subscriptions × Bool
unsubscribe s uri = (record { uris = Dict.remove s.uris uri }, Dict.contains_key s.uris uri)

unfoldable pub contains : Subscriptions → Text → Bool
contains s uri = Dict.contains_key s.uris uri

unfoldable pub count : Subscriptions → ℕ
count s = length s.uris
