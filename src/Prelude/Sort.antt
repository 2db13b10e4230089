-- ===== src/Prelude/Sort.antt =====
-- `Vec<String>::sort` and `dedup`.
use mathlib.Core.Path.{◌≡◌, refl}
use mathlib.Core.Bool.{Bool, true, false, ◌||◌}
use mathlib.Core.List.{List, [], ◌∷◌}
use native.Mathlib.Omega.{arith}
use rust_yamp.Prelude.Tests.{if◌then◌else◌}
use rust_yamp.Prelude.Strings.{Text, text_eq, text_lt}

-- `slice.contains(&x)`.
unfoldable pub elem : Text → List Text → Bool
elem x [] = false
elem x (y ∷ ys) = text_eq y x || elem x ys

unfoldable pub insert_sorted : Text → List Text → List Text
insert_sorted x [] = x ∷ []
insert_sorted x (y ∷ ys) = if text_lt y x then y ∷ insert_sorted x ys else x ∷ y ∷ ys

unfoldable pub sort : List Text → List Text
unfolding insert_sorted
sort [] = []
sort (x ∷ xs) = insert_sorted x (sort xs)

-- Equal neighbours become one.
unfoldable pub dedup : List Text → List Text
dedup [] = []
dedup (x ∷ []) = x ∷ []
dedup (x ∷ y ∷ ys) = if text_eq x y then dedup (y ∷ ys) else x ∷ dedup (y ∷ ys)

-- No element is below the one before it.
abbrev pub IsSorted : List Text → Type 0
IsSorted [] = Unit {0}
IsSorted (x ∷ []) = Unit {0}
IsSorted (x ∷ y ∷ ys) = (text_lt y x ≡ false) × IsSorted (y ∷ ys)

text_lt_asymm : (a b : Text) → text_lt a b ≡ true → text_lt b a ≡ false
unfolding text_lt
text_lt_asymm a [] h = absurd (stuck a h)
  where
    stuck : (a : Text) → text_lt a [] ≡ true → ⊥
    stuck [] h = cc
    stuck (x ∷ a) h = cc
text_lt_asymm [] (y ∷ b) h = refl
text_lt_asymm (x ∷ a) (y ∷ b) h = ground (arith, text_lt_asymm a b)

insert_sorted-IsSorted : (x : Text) (ys : List Text) → IsSorted ys → IsSorted (insert_sorted x ys)
unfolding insert_sorted
insert_sorted-IsSorted x [] h = tt
insert_sorted-IsSorted x (y ∷ []) h = ground (arith, text_lt_asymm y x)
insert_sorted-IsSorted x (y ∷ z ∷ ys) h =
    ground (arith, text_lt_asymm y x, insert_sorted-IsSorted x (z ∷ ys))

pub sort-IsSorted : (xs : List Text) → IsSorted (sort xs)
unfolding sort
sort-IsSorted [] = tt
sort-IsSorted (x ∷ xs) = insert_sorted-IsSorted x (sort xs) (sort-IsSorted xs)

elem-insert_sorted :
    (k x : Text) (ys : List Text) → elem k (insert_sorted x ys) ≡ (text_eq x k || elem k ys)
unfolding elem insert_sorted
elem-insert_sorted k x [] = refl
elem-insert_sorted k x (y ∷ ys) = ground (arith, elem-insert_sorted k x ys)

pub elem-sort : (k : Text) (xs : List Text) → elem k (sort xs) ≡ elem k xs
unfolding sort elem
elem-sort k [] = refl
elem-sort k (x ∷ xs) = ground (arith, elem-insert_sorted k x (sort xs), elem-sort k xs)
