-- ===== src/Filters/Interest.antt =====
-- The interest declarations of src/filters.rs and the context of a message.
use rust_yamp.Prelude.{
  Bool, true, false, ◌&&◌, ◌||◌, Option, none, some, List, [], ◌∷◌, map, if◌then◌else◌, ◌>>=◌,
  unwrap_or, any, Text, ascii, text_eq, starts_with,
}
use rust_yamp.Prelude.Sort.{sort, dedup}
use rust_yamp.Json.{
  Json, Map, Number, empty, null, bool, number, string, array, object, neg_int, lookup, insert,
  extend, entries, of_list, index, as_object, as_array, as_str, get_str, json_object,
}
use rust_yamp.Json
use rust_yamp.Content.{block_list}

-- `v.as_str() == Some(text)`
abbrev pub is_text : Option Text → Text → Bool
is_text none text = false
is_text (some s) text = text_eq s text

abbrev pub is_wildcard : Json → Bool
is_wildcard v = is_text (as_str v) (ascii "*")

-- The declared list, where it is a list that is not empty.
unfoldable pub declared_list : Option Json → Option (List Json)
declared_list declared = do
  list ← declared >>= as_array
  elim list [ [] ↦ none | ◌∷◌ v vs ↦ some (v ∷ vs) ]

unfoldable pub matches_value : List Json → Option Text → Bool
matches_value list none = false
matches_value list (some value) = any (λ d. is_text (as_str d) value) list

unfoldable pub matches : Option Json → Option Text → Bool
unfolding declared_list matches_value
matches declared value = elim (declared_list declared) [
  | none ↦ true
  | some list ↦ any is_wildcard list || matches_value list value
]

-- `s.ends_with(t)`, and `s` without its last byte.
abbrev pub ends_with : Text → Text → Bool
ends_with [] t = text_eq [] t
ends_with (c ∷ s) t = text_eq (c ∷ s) t || ends_with s t

abbrev pub init : Text → Text
init [] = []
init (c ∷ []) = []
init (c ∷ d ∷ s) = c ∷ init (d ∷ s)

unfoldable pub mime_match : Text → Text → Bool
mime_match pattern mime =
    (text_eq pattern mime || text_eq pattern (ascii "*"))
    || (ends_with pattern (ascii "/*") && starts_with mime (init pattern))

-- `filter_map(Value::as_str)`
abbrev pub texts : List Json → List Text
texts [] = []
texts (v ∷ vs) = elim (as_str v) [ some s ↦ s ∷ texts vs | none ↦ texts vs ]

unfoldable pub matches_content : Option Json → List Text → Bool
unfolding declared_list mime_match
matches_content declared present = elim (declared_list declared) [
  | none ↦ true
  | some list ↦
      any is_wildcard list || any (λ pattern. any (mime_match pattern) present) (texts list)
]

unfoldable pub interested : Json → Json → Bool
unfolding matches matches_content
interested interest context =
    matches (Json.get interest (ascii "methods")) (get_str context (ascii "method"))
    && (matches (Json.get interest (ascii "directions")) (get_str context (ascii "direction"))
        && (matches (Json.get interest (ascii "tools")) (get_str context (ascii "tool"))
            && matches_content (Json.get interest (ascii "content_types"))
                (texts (unwrap_or (Json.get context (ascii "content_types") >>= as_array) []))))

-- `Option<&str>` in `json!`.
abbrev pub text_or_null : Option Text → Json
text_or_null none = null
text_or_null (some s) = string s

abbrev pub mimes : List Json → List Text
mimes [] = []
mimes (b ∷ bs) = elim (get_str b (ascii "mime")) [ some s ↦ s ∷ mimes bs | none ↦ mimes bs ]

unfoldable pub message_context : Json → Text → Json
unfolding block_list
message_context message direction =
    let method = get_str message (ascii "method") in
    let called = Json.get message (ascii "params") >>= λ p. get_str p (ascii "name") in
    let tool = if is_text method (ascii "tools/call") then called else none in
    json_object (
      (ascii "method", text_or_null method)
      ∷ (ascii "tool", text_or_null tool)
      ∷ (ascii "direction", string direction)
      ∷ (
        ascii "content_types",
        array (of_list (map string (dedup (sort (mimes (block_list message)))))),
      )
      ∷ [])
