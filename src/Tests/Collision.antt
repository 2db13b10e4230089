-- ===== src/Tests/Collision.antt =====
-- src/collision.rs on concrete tools.
use rust_yamp.Prelude.{List, [], ◌∷◌, Text, ascii}
use rust_yamp.Dict.{text_key}
use rust_yamp.Json.{Json, empty, entry, string, object}

abbrev tool : Text → Json
tool name = object (entry (ascii "name") (string name) empty)

-- The same tool of two backends, and one of its own.
abbrev offered : List Json
offered = tool (ascii "a__read") ∷ tool (ascii "b__read") ∷ tool (ascii "b__write") ∷ []

abbrev by_priority : List Text
by_priority = ascii "b" ∷ ascii "a" ∷ []
