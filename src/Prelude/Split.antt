-- ===== src/Prelude/Split.antt =====
-- `split_once` finds the first occurrence, and finds it again whatever follows.
use Prim.Native.Nat.{ℕ, ◌≤◌}
use mathlib.Core.Path.{◌≡◌, refl, ap}
use mathlib.Core.Logic.{◌⊎◌, inl, inr}
use mathlib.Core.List.{[], ◌∷◌, ◌++◌, append_assoc}
use mathlib.Core.Option.{Option, none, some}
use native.Mathlib.Omega.{arith}
use rust_yamp.Prelude.Lists.{length, length-append}
use rust_yamp.Prelude.Strings.{Text, strip_prefix, split_once, split_here}

pub strip_prefix-append : (d s : Text) → strip_prefix (d ++ s) d ≡ some s
unfolding strip_prefix
strip_prefix-append [] s = ground arith
strip_prefix-append (x ∷ d) s = ground (arith, strip_prefix-append d s)

-- What `strip_prefix` leaves, with the prefix put back.
pub append-strip_prefix : (s d r : Text) → strip_prefix s d ≡ some r → s ≡ d ++ r
unfolding strip_prefix
append-strip_prefix s [] r h = ground arith
append-strip_prefix [] (y ∷ ys) r h = cc
append-strip_prefix (x ∷ xs) (y ∷ ys) r h = ground (arith, append-strip_prefix xs ys r)

-- Only the first bytes count.
strip_prefix_local :
    (u v w d : Text)
    → length d ≤ length u
    → strip_prefix (u ++ v) d ≡ none
    → strip_prefix (u ++ w) d ≡ none
unfolding strip_prefix
strip_prefix_local u v w [] h e = ground arith
strip_prefix_local [] v w (y ∷ d) h e = absurd (omega arith)
strip_prefix_local (x ∷ u) v w (y ∷ d) h e = ground (arith, strip_prefix_local u v w d)

-- At each place the delimiter either starts here or is looked for later.
split_here_cases :
    (x : ℕ) (here : Option Text) (later : Option (Text × Text)) (a b : Text)
    → split_here x here later ≡ some (a, b)
    → ((a ≡ []) × (here ≡ some b))
      ⊎ ((a' : Text) × (a ≡ x ∷ a') × (here ≡ none) × (later ≡ some (a', b)))
split_here_cases x (some rest) later a b h = inl (cc, cc)
split_here_cases x none none a b h = absurd (cc)
split_here_cases x none (some (a', b')) a b h = inr (a', cc, refl, cc)

split_once_step :
    (x : ℕ) (xs d a b : Text)
    → split_once (x ∷ xs) d ≡ some (a, b)
    → ((a ≡ []) × (strip_prefix (x ∷ xs) d ≡ some b))
      ⊎ ((a' : Text) × (a ≡ x ∷ a')
          × (strip_prefix (x ∷ xs) d ≡ none)
          × (split_once xs d ≡ some (a', b)))
unfolding split_once
split_once_step x xs d a b = split_here_cases x (strip_prefix (x ∷ xs) d) (split_once xs d) a b

strip_prefix_again :
    (x : ℕ) (a b c d : Text)
    → strip_prefix (x ∷ (a ++ (d ++ b))) d ≡ none
    → strip_prefix (x ∷ (a ++ (d ++ c))) d ≡ none
strip_prefix_again x a b c d h = rw (← append_assoc a d c) (
    strip_prefix_local (x ∷ (a ++ d)) b c d (omega (arith, length-append {0} a d))
      (rw (← append_assoc a d b) at h))

split_once_nil : (d a b : Text) → split_once [] d ≡ some (a, b) → [] ≡ a ++ (d ++ b)
unfolding split_once strip_prefix
split_once_nil [] a b h = ground arith
split_once_nil (x ∷ d) a b h = cc

pub append-split_once : (s d a b : Text) → split_once s d ≡ some (a, b) → s ≡ a ++ (d ++ b)
append-split_once [] d a b h = split_once_nil d a b h
append-split_once (x ∷ xs) d a b h = elim (split_once_step x xs d a b h) [
  | inl (e, p) ↦ rw e (append-strip_prefix (x ∷ xs) d b p)
  | inr (a', e, p, r) ↦ rw e (ap (λ t. x ∷ t) (append-split_once xs d a' b r))
]

split_once_here :
    (x : ℕ) (xs d b : Text)
    → strip_prefix (x ∷ xs) d ≡ some b
    → split_once (x ∷ xs) d ≡ some ([], b)
unfolding split_once
split_once_here x xs d b h = rw (h, split_here)

split_once_later :
    (x : ℕ) (xs d a b : Text)
    → strip_prefix (x ∷ xs) d ≡ none
    → split_once xs d ≡ some (a, b)
    → split_once (x ∷ xs) d ≡ some (x ∷ a, b)
unfolding split_once
split_once_later x xs d a b h r = rw (h, r)

-- Text with the delimiter at its first place splits there again, whatever follows.
pub split_once_again :
    (s a b c : Text) (y : ℕ) (d : Text)
    → split_once s (y ∷ d) ≡ some (a, b)
    → split_once (a ++ (y ∷ d ++ c)) (y ∷ d) ≡ some (a, c)
split_once_again [] a b c y d h = absurd (unfold split_once strip_prefix in cc)
split_once_again (x ∷ xs) a b c y d h = elim (split_once_step x xs (y ∷ d) a b h) [
  | inl (e, p) ↦ rw e (split_once_here y (d ++ c) (y ∷ d) c (strip_prefix-append (y ∷ d) c))
  | inr (a', e, p, r) ↦ rw e (
      split_once_later x (a' ++ (y ∷ d ++ c)) (y ∷ d) a' c
        (strip_prefix_again x a' b c (y ∷ d) (rw (append-split_once xs (y ∷ d) a' b r) at p))
        (split_once_again xs a' b c y d r))
]

-- A byte that a text lacks splits it where it is put.
pub split_once_fresh :
    (s t : Text) (y : ℕ)
    → split_once s (y ∷ []) ≡ none
    → split_once (s ++ (y ∷ t)) (y ∷ []) ≡ some (s, t)
unfolding split_once strip_prefix
split_once_fresh [] t y h = ground arith
split_once_fresh (x ∷ s) t y h = ground (arith, split_once_fresh s t y)
