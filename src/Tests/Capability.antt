-- ===== src/Tests/Capability.antt =====
-- src/capability.rs and src/variants.rs on concrete inputs.
use rust_yamp.Prelude.{
  ◌<◌, ◌≡◌, refl, Option, none, some, List, [], ◌∷◌, arith, if◌then◌else◌, All, Bytes, Text, ascii,
  text_eq,
}
use rust_yamp.Json.{Json, string}
use rust_yamp.Variants.{cursor_body, bind_cursor, resolve_cursor}
use rust_yamp.Variants.Cursors.{resolve_cursor-bind_cursor}

abbrev cursors : List (Text × Text)
cursors = (ascii "docs", ascii "7") ∷ []

-- A codec for the one body of this run.
abbrev printed : Bytes
printed = ascii "{c:docs,v:compact}"

abbrev print : Json → Bytes
print v = printed

abbrev parse : Bytes → Option Json
parse bytes =
    if text_eq bytes printed then some (cursor_body (some (ascii "compact")) cursors) else none

printed_small : All (λ b. b < 256) printed
printed_small = ground arith

resolve_cursor-bind_cursor_example :
    resolve_cursor print parse (string (bind_cursor print parse (some (ascii "compact")) cursors))
    ≡ some (some (ascii "compact"), cursors)
unfolding text_eq
resolve_cursor-bind_cursor_example =
    resolve_cursor-bind_cursor print parse (some (ascii "compact")) cursors refl printed_small
