-- ===== src/Collision/Totals.antt =====
-- `apply_priority` of src/collision.rs never panics, and loses no tool.
use rust_yamp.Prelude.{ℕ, ◌+◌, ◌≡◌, false, Option, some, List, [], ◌∷◌, length, All, Text, text_eq}
use rust_yamp.Dict.{Dict, text_key, get}
use rust_yamp.Json.{Json}
use rust_yamp.Collision.{Selection}

-- No name stands twice.
abbrev Distinct : List Text → Type 0
Distinct [] = Unit {0}
Distinct (o ∷ order) = All (λ x. text_eq o x ≡ false) order × Distinct order

module _ (split : Text → Option (Text × Text)) (priority : List Text) (field : Text) where
  -- A tool is kept for each name in the order.
  abbrev Held : Dict Text Json → Text → Type 0
  Held kept o = (t : Json) × (get kept o ≡ some t)

  -- Every name in the order is held and stands there once, and the sizes add up.
  abbrev Sized : Selection → ℕ → Type 0
  Sized s n =
      All (Held s.kept) s.order × Distinct s.order × (length s.order + length s.discarded ≡ n)
