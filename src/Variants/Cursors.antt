-- ===== src/Variants/Cursors.antt =====
-- A cursor of src/variants.rs is read back as it was bound.
use rust_yamp.Prelude.{
  ◌<◌, ◌≡◌, refl, ap, Option, none, some, List, [], ◌∷◌, All, Bytes, Text, text_eq, text_lt,
}
use rust_yamp.Prelude.Hex.{to_hex, from_hex-to_hex}
use rust_yamp.Prelude.Split.{strip_prefix-append}
use rust_yamp.Json.{
  Json, Map, null, string, object, extend, insert, entries, lookup, get_str, as_str,
}
use rust_yamp.Json
use rust_yamp.Variants.{
  cursor_prefix, cursor_map, text_entries, cursor_body, read_body, bind_cursor, resolve_cursor,
}

text_entries-cursor_map :
    (cursors : List (Text × Text)) → text_entries (entries (cursor_map cursors)) ≡ cursors
unfolding entries
text_entries-cursor_map [] = refl
text_entries-cursor_map ((k, c) ∷ cursors) = ap (λ l. (k, c) ∷ l) (text_entries-cursor_map cursors)

read_body-cursor_body :
    (variant : Option Text) (cursors : List (Text × Text))
    → read_body (cursor_body variant cursors) ≡ some (variant, cursors)
unfolding read_body cursor_body extend insert lookup get_str Json.get text_eq text_lt
read_body-cursor_body none cursors = rw (text_entries-cursor_map cursors) refl
read_body-cursor_body (some v) cursors = rw (text_entries-cursor_map cursors) refl

-- A client that hands back a cursor gets exactly the variant and the backends' cursors that it was
-- minted for, if serde_json reads back the bytes that it printed.
pub resolve_cursor-bind_cursor :
    (to_vec : Json → Bytes) (from_slice : Bytes → Option Json) (variant : Option Text)
    (cursors : List (Text × Text))
    → from_slice (to_vec (cursor_body variant cursors)) ≡ some (cursor_body variant cursors)
    → All (λ b. b < 256) (to_vec (cursor_body variant cursors))
    → resolve_cursor to_vec from_slice (string (bind_cursor to_vec from_slice variant cursors))
      ≡ some (variant, cursors)
unfolding resolve_cursor bind_cursor
resolve_cursor-bind_cursor to_vec from_slice variant cursors read_back small =
    let body = cursor_body variant cursors in
    rw
      (
        strip_prefix-append cursor_prefix (to_hex (to_vec body)),
        from_hex-to_hex (to_vec body) small,
        read_back,
      )
      (read_body-cursor_body variant cursors)
