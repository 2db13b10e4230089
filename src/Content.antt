-- ===== src/Content.antt =====
-- src/content.rs: the content blocks of a message, and the writes at their paths.
pub mod Paths
use rust_yamp.Prelude.{
  ℕ, zero, suc, ◌+◌, ◌-◌, ◌*◌, ◌/◌, ◌%◌, ◌^◌, ◌≤◌, ◌<◌, ◌≡◌, refl, sym, ap, ◌∙◌, ◌≢◌, ◌↔◌, ◌⊎◌, inl,
  inr, Bool, true, false, not, ◌&&◌, ◌||◌, Option, none, some, List, [], ◌∷◌, ◌++◌, map, append-nil,
  append_assoc, arith, ltb, leb, ◌==◌, if◌then◌else◌, ==_iff, Bool-cases, Option-cases,
  some_injective, ◌>>=◌, unwrap_or, is_some, length, take, drop, get_or, any, all, retain,
  length-append, All, All-append, Any, Any-imp, Bytes, Text, ascii, text_eq, text_lt, text_eq_refl,
  eq_of_text_eq, text_eq_iff, text_eq_of_ne, strip_prefix, starts_with, contains, split_once,
  text_eq_comm, Result, ok, err, and_then,
}
use rust_yamp.Prelude.Hex.{to_hex}
use rust_yamp.Base64.{decode, encode}
use rust_yamp.Json.{
  Json, Items, Map, Number, nil, cons, empty, entry, null, bool, number, string, array, object,
  pos_int, lookup, insert, of_list, as_object, as_items, as_array, as_str, number_as_u64, get_str,
  json_object,
}
use rust_yamp.Json

-- `.cloned().unwrap_or(Value::Null)`
abbrev pub or_null : Option Json → Json
or_null v = unwrap_or v null

unfoldable pub bytes_field : Option Json → Json
unfolding decode to_hex
bytes_field value = elim (do v ← value; s ← as_str v; decode s) [
  | some bytes ↦ string (to_hex bytes)
  | none ↦ null
]

unfoldable pub descriptor : Text → List Json → Json → Json → Json → Json → Json
descriptor kind path mime uri text bytes = json_object (
    (ascii "kind", string kind)
    ∷ (ascii "path", array (of_list path))
    ∷ (ascii "mime", mime)
    ∷ (ascii "uri", uri)
    ∷ (ascii "text", text)
    ∷ (ascii "bytes", bytes)
    ∷ [])

abbrev pub segments : List Text → List Json
segments ss = map string ss

unfoldable pub path_of : List Text → ℕ → List Text → List Json
path_of base index tail = segments base ++ number (pos_int index) ∷ segments tail

-- The two arms that a `resource` block and an item of `contents` share: text, or else a blob.
unfoldable pub resource_payload :
    (List Text → List Json) → Json → Json → Option Json → Option Json → List Json
unfolding bytes_field descriptor
resource_payload path mime uri (some text) blob =
    descriptor (ascii "resource") (path (ascii "text" ∷ [])) mime uri text null ∷ []
resource_payload path mime uri none (some blob) =
    descriptor (ascii "resource") (path (ascii "blob" ∷ [])) mime uri null (bytes_field (some blob))
    ∷ []
resource_payload path mime uri none none = []

-- What `contents` holds at `index`.
unfoldable pub contents_block : ℕ → Json → List Json
unfolding path_of resource_payload
contents_block index item =
    resource_payload (path_of (ascii "result" ∷ ascii "contents" ∷ []) index)
      (or_null (Json.get item (ascii "mimeType"))) (or_null (Json.get item (ascii "uri")))
      (Json.get item (ascii "text")) (Json.get item (ascii "blob"))

-- The arms of the `match` on the block's type.
unfoldable pub block_of : ℕ → Json → Text → List Json
unfolding path_of resource_payload bytes_field descriptor
block_of index item kind =
    let path = path_of (ascii "result" ∷ ascii "content" ∷ []) index in
    let mime = or_null (Json.get item (ascii "mimeType")) in
    let resource = Json.get item (ascii "resource") in
    if text_eq kind (ascii "text")
    then descriptor (ascii "text") (path (ascii "text" ∷ [])) null null
        (or_null (Json.get item (ascii "text"))) null
      ∷ []
    else if text_eq kind (ascii "image") || text_eq kind (ascii "audio")
    then descriptor kind (path (ascii "data" ∷ [])) mime null null
        (bytes_field (Json.get item (ascii "data")))
      ∷ []
    else if text_eq kind (ascii "resource_link")
    then descriptor (ascii "resource_link") (path (ascii "uri" ∷ [])) mime
        (or_null (Json.get item (ascii "uri"))) null null
      ∷ []
    else if text_eq kind (ascii "resource")
    then resource_payload (λ tail. path (ascii "resource" ∷ tail))
        (or_null (do r ← resource; Json.get r (ascii "mimeType")))
        (or_null (do r ← resource; Json.get r (ascii "uri")))
        (do r ← resource; Json.get r (ascii "text")) (do r ← resource; Json.get r (ascii "blob"))
    else descriptor (ascii "unknown") (path []) null null null null ∷ []

-- A block without a type, or with one that is no string, is unknown too.
unfoldable pub content_block : ℕ → Json → List Json
unfolding block_of
content_block index item = block_of index item (unwrap_or (get_str item (ascii "type")) [])

-- `for (index, item) in items.iter().enumerate()`
abbrev pub enumerate : ℕ → List Json → (ℕ → Json → List Json) → List Json
enumerate index [] f = []
enumerate index (item ∷ items) f = f index item ++ enumerate (suc index) items f

-- `message.pointer("/result/…").and_then(Value::as_array)`
abbrev pub result_items : Json → Text → List Json
result_items message key =
    unwrap_or (do r ← Json.get message (ascii "result"); v ← Json.get r key; as_array v) []

unfoldable pub block_list : Json → List Json
unfolding content_block contents_block
block_list message =
    enumerate 0 (result_items message (ascii "content")) content_block
    ++ enumerate 0 (result_items message (ascii "contents")) contents_block

unfoldable pub blocks : Json → Json
unfolding block_list
blocks message = array (of_list (block_list message))

-- `slice.get_mut(i)`: the element, and the slice with another one in its place.
unfoldable pub item_at : Items → ℕ → Option Json
item_at nil i = none
item_at (cons v vs) zero = some v
item_at (cons v vs) (suc i) = item_at vs i

unfoldable pub set_item : Items → ℕ → Json → Items
set_item nil i w = nil
set_item (cons v vs) zero w = cons w vs
set_item (cons v vs) (suc i) w = cons v (set_item vs i w)

-- `navigate_mut`, and the assignment to the slot that it finds.
unfoldable pub navigate_mut : Json → List Json → Json → Option Json
unfolding item_at set_item
navigate_mut v [] payload = some payload
navigate_mut v (string key ∷ path) payload = do
  m ← as_object v
  inner ← lookup m key
  inner' ← navigate_mut inner path payload
  some (object (insert m key inner'))
navigate_mut v (number index ∷ path) payload = do
  vs ← as_items v
  i ← number_as_u64 index
  inner ← item_at vs i
  inner' ← navigate_mut inner path payload
  some (array (set_item vs i inner'))
navigate_mut v (null ∷ path) payload = none
navigate_mut v (bool b ∷ path) payload = none
navigate_mut v (array vs ∷ path) payload = none
navigate_mut v (object m ∷ path) payload = none

unfoldable pub set_text : Json → List Json → Text → Json
unfolding navigate_mut
set_text message path text = unwrap_or (navigate_mut message path (string text)) message

unfoldable pub set_bytes : Json → List Json → Bytes → Json
unfolding navigate_mut encode
set_bytes message path bytes = unwrap_or (navigate_mut message path (string (encode bytes))) message
