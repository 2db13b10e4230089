-- ===== src/Variants.antt =====
-- src/variants.rs: the composition of server variants and the cursors bound to them. `to_vec` and
-- `from_slice` are serde_json's; a `BTreeMap` of cursors is the list of its pairs in key order.
pub mod Cursors
use rust_yamp.Prelude.{
  ℕ, zero, suc, ◌+◌, ◌-◌, ◌*◌, ◌/◌, ◌%◌, ◌^◌, ◌≤◌, ◌<◌, ◌≡◌, refl, sym, ap, ◌∙◌, ◌≢◌, ◌↔◌, ◌⊎◌, inl,
  inr, Bool, true, false, not, ◌&&◌, ◌||◌, Option, none, some, List, [], ◌∷◌, ◌++◌, map, append-nil,
  append_assoc, arith, ltb, leb, ◌==◌, if◌then◌else◌, ==_iff, Bool-cases, Option-cases,
  some_injective, >>=-eq-some, ◌>>=◌, unwrap_or, is_some, length, take, drop, get_or, any, all,
  retain, length-append, All, All-append, Any, Any-imp, Bytes, Text, ascii, text_eq, text_lt,
  text_eq_refl, eq_of_text_eq, text_eq_iff, text_eq_of_ne, strip_prefix, starts_with, contains,
  split_once, text_eq_comm, Result, ok, err, and_then,
}
use rust_yamp.Prelude.Hex.{to_hex, from_hex}
use rust_yamp.Prelude.Sort.{elem}
use rust_yamp.Json.{
  Json, Map, null, string, object, empty, entry, entries, as_array, as_object, as_str, get_str,
  json_object,
}
use rust_yamp.Json

abbrev pub extension_id : Text
extension_id = ascii "io.modelcontextprotocol/server-variants"

abbrev pub server_variant_meta_key : Text
server_variant_meta_key = ascii "io.modelcontextprotocol/server-variant"

unfoldable pub cursor_prefix : Text
cursor_prefix = ascii "yv1:"

unfoldable pub selected_variant : Json → Option Text
selected_variant params = do m ← Json.get params (ascii "_meta"); get_str m server_variant_meta_key

unfoldable pub payload : Json → Option (List Json)
payload capabilities = do
  e ← Json.get capabilities (ascii "extensions")
  x ← Json.get e extension_id
  v ← Json.get x (ascii "availableVariants")
  as_array v

-- `filter_map(|v| v.get("id").and_then(Value::as_str))`
unfoldable pub variant_ids : List Json → List Text
variant_ids [] = []
variant_ids (v ∷ vs) = elim (get_str v (ascii "id")) [
  | some id ↦ id ∷ variant_ids vs
  | none ↦ variant_ids vs
]

unfoldable pub available_variants : Json → List Text
unfolding payload variant_ids
available_variants capabilities = variant_ids (unwrap_or (payload capabilities) [])

-- `filter_map(payload).filter(|v| !v.is_empty())`
abbrev pub with_variants : Option (List Json) → List (List Json) → List (List Json)
with_variants none rest = rest
with_variants (some []) rest = rest
with_variants (some (v ∷ vs)) rest = (v ∷ vs) ∷ rest

unfoldable pub supporting : List Json → List (List Json)
unfolding payload
supporting [] = []
supporting (caps ∷ rest) = with_variants (payload caps) (supporting rest)

-- The intersection of the id sets, from the first one.
unfoldable pub common : List Text → List (List Json) → List Text
unfolding variant_ids elem
common ids [] = ids
common ids (vs ∷ rest) = common (retain (λ id. elem id (variant_ids vs)) ids) rest

abbrev pub id_in : List Text → Option Text → Bool
id_in ids none = false
id_in ids (some id) = elem id ids

unfoldable pub compose_supporting : List (List Json) → List Json
unfolding variant_ids common
compose_supporting [] = []
compose_supporting (vs ∷ rest) =
    retain (λ v. id_in (common (variant_ids vs) rest) (get_str v (ascii "id"))) vs

unfoldable pub compose_variants : List Json → List Json
unfolding supporting compose_supporting
compose_variants backend_caps = compose_supporting (supporting backend_caps)

abbrev pub text_or_null : Option Text → Json
text_or_null none = null
text_or_null (some s) = string s

abbrev pub cursor_map : List (Text × Text) → Map
cursor_map [] = empty
cursor_map ((k, c) ∷ cursors) = entry k (string c) (cursor_map cursors)

abbrev pub text_entries : List (Text × Json) → List (Text × Text)
text_entries [] = []
text_entries ((k, v) ∷ es) = elim (as_str v) [
  | some s ↦ (k, s) ∷ text_entries es
  | none ↦ text_entries es
]

unfoldable pub cursor_body : Option Text → List (Text × Text) → Json
cursor_body variant cursors =
    json_object ((ascii "v", text_or_null variant) ∷ (ascii "c", object (cursor_map cursors)) ∷ [])

-- What a decoded body says.
unfoldable pub read_body : Json → Option (Option Text × List (Text × Text))
read_body body = do
  c ← Json.get body (ascii "c")
  m ← as_object c
  some (get_str body (ascii "v"), text_entries (entries m))

module _ (to_vec : Json → Bytes) (from_slice : Bytes → Option Json) where
  unfoldable pub bind_cursor : Option Text → List (Text × Text) → Text
  unfolding cursor_prefix cursor_body to_hex
  bind_cursor variant cursors = cursor_prefix ++ to_hex (to_vec (cursor_body variant cursors))

  -- The loop reads two digits at a time, and an odd number of them is refused before it.
  unfoldable pub resolve_cursor : Json → Option (Option Text × List (Text × Text))
  unfolding cursor_prefix from_hex read_body
  resolve_cursor cursor = do
    text ← as_str cursor
    hex ← strip_prefix text cursor_prefix
    bytes ← from_hex hex
    body ← from_slice bytes
    read_body body

unfoldable pub mismatch_data : Option Text → Option Text → Json
mismatch_data cursor_variant requested_variant = json_object (
    (ascii "cursorVariant", text_or_null cursor_variant)
    ∷ (ascii "requestedVariant", text_or_null requested_variant)
    ∷ [])
