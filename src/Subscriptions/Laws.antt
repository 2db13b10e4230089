-- ===== src/Subscriptions/Laws.antt =====
-- The registry of src/subscriptions.rs as a set of URIs, and the way back of an update.
use rust_yamp.Prelude.{
  ◌+◌, ◌≡◌, true, not, ◌&&◌, ◌||◌, some, Text, ascii, text_eq, split_once, if◌then◌else◌, ◌>>=◌,
  arith,
}
use rust_yamp.Json.{
  Map, object, string, lookup, get, get_str, lookup-modify_string_self, lookup-modify_object_self,
  modify_string,
}
use rust_yamp.Namespace.{valid_backend_id, prefix_uri, split_uri, scheme_mark}
use rust_yamp.Namespace.Uri.{split_uri-prefix_uri}
use rust_yamp.Dict.{get-insert, get-remove, length-insert, length-remove, IsUnique, text_key}
use rust_yamp.Subscriptions.{
  Subscriptions, subscribe, unsubscribe, contains, count, namespace_updated,
}

-- `subscribe` adds one URI, once however often it is called; `unsubscribe` takes it away and says
-- whether it was there; no other URI is touched, and the count follows, if no URI stands twice before.
set_laws :
    (s : Subscriptions) (u v : Text)
    → IsUnique s.uris
    → (contains (subscribe s u) v ≡ (text_eq u v || contains s v))
      × (contains (unsubscribe s u).0 v ≡ (not (text_eq u v) && contains s v))
      × ((unsubscribe s u).1 ≡ contains s u)
      × (count (subscribe s u) ≡ (if contains s u then count s else count s + 1))
      × (count (unsubscribe s u).0 + (if contains s u then 1 else 0) ≡ count s)
unfolding contains subscribe unsubscribe count
set_laws s u v h = ground (
  arith,
  get-insert s.uris u v tt,
  get-remove s.uris u v,
  length-insert s.uris u tt,
  length-remove s.uris u h,
)

-- The URI of an update that is passed on resolves to the backend that sent it and to its own URI, if
-- the backend's id is valid and the URI has a scheme.
namespace_updated-split_uri :
    (m params : Map) (backend uri scheme rest : Text)
    → valid_backend_id backend ≡ true
    → split_once uri scheme_mark ≡ some (scheme, rest)
    → lookup m (ascii "params") ≡ some (object params)
    → lookup params (ascii "uri") ≡ some (string uri)
    → (do
      p ← get (namespace_updated (object m) backend) (ascii "params")
      u ← get_str p (ascii "uri")
      split_uri u)
      ≡ some (backend, uri)
unfolding namespace_updated get get_str
namespace_updated-split_uri m params backend uri scheme rest v s h k =
    let g = λ (t : Map). modify_string t (ascii "uri") (prefix_uri backend) in
    rw (lookup-modify_object_self m (ascii "params") g params h) (
      rw (lookup-modify_string_self params (ascii "uri") (prefix_uri backend) uri k)
        (split_uri-prefix_uri backend uri scheme rest v s))
