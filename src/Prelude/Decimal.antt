-- ===== src/Prelude/Decimal.antt =====
-- `{n}` in a format string, and `str::parse` of an unsigned integer.
use Prim.Native.Nat.{ℕ, zero, suc, ◌+◌, ◌-◌, ◌*◌, ◌/◌, ◌%◌, ◌<◌}
use mathlib.Core.Path.{◌≡◌, refl, ap, ◌∙◌}
use mathlib.Core.Bool.{Bool, true, ◌&&◌}
use mathlib.Core.List.{[], ◌∷◌, ◌++◌}
use mathlib.Core.Option.{Option, none, some}
use mathlib.Core.Logic.{inl, inr}
use native.Mathlib.Omega.{arith}
use rust_yamp.Prelude.Tests.{ltb, leb, if◌then◌else◌, Bool-cases, some_injective}
use rust_yamp.Prelude.Strings.{Text}
use rust_yamp.Prelude.Lists.{All}

-- The digits from the last to the first; the number itself is fuel enough.
unfoldable pub digits : ℕ → ℕ → Text
digits zero n = []
digits (suc fuel) n =
    let more = digits fuel (n / 10) ++ (b'0' + n % 10) ∷ [] in
    if ltb n 10 then (b'0' + n) ∷ [] else more

unfoldable pub decimal : ℕ → Text
unfolding digits
decimal n = digits (n + 1) n

abbrev pub is_digit : ℕ → Bool
is_digit c = leb b'0' c && leb c b'9'

unfoldable pub parse_digits : ℕ → Text → Option ℕ
parse_digits acc [] = some acc
parse_digits acc (c ∷ s) =
    let rest = parse_digits (acc * 10 + (c - b'0')) s in if is_digit c then rest else none

parse_digits-snoc :
    (s : Text) (acc n c : ℕ)
    → parse_digits acc s ≡ some n
    → is_digit c ≡ true
    → parse_digits acc (s ++ c ∷ []) ≡ some (n * 10 + (c - b'0'))
unfolding parse_digits
parse_digits-snoc [] acc n c h d = ground arith
parse_digits-snoc (x ∷ s) acc n c h d =
    ground (arith, parse_digits-snoc s (acc * 10 + (x - b'0')) n c)

digit_of : (d : ℕ) → d < 10 → is_digit (b'0' + d) ≡ true
digit_of d h = ground arith

parse_digits-digits : (fuel n : ℕ) → n < fuel → parse_digits 0 (digits fuel n) ≡ some n
unfolding digits
parse_digits-digits zero n h = elim h [ ]
parse_digits-digits (suc fuel) n h = elim (Bool-cases (ltb n 10)) [
  | inl small ↦ rw small (unfold parse_digits in ground arith)
  | inr large ↦ rw large (
      parse_digits-snoc (digits fuel (n / 10)) 0 (n / 10) (b'0' + n % 10)
        (parse_digits-digits fuel (n / 10) (ground arith)) (digit_of (n % 10) (omega arith))
      ∙ ap some (omega arith))
]

-- A printed number is read back.
pub parse_digits-decimal : (n : ℕ) → parse_digits 0 (decimal n) ≡ some n
unfolding decimal
parse_digits-decimal n = parse_digits-digits (n + 1) n (omega arith)

pub decimal_injective : (n m : ℕ) → decimal n ≡ decimal m → n ≡ m
decimal_injective n m e = some_injective (cc (e, parse_digits-decimal n, parse_digits-decimal m))

-- Text that parses is digits only.
pub parse_digits-All :
    (s : Text) (acc n : ℕ) → parse_digits acc s ≡ some n → All (λ c. is_digit c ≡ true) s
unfolding parse_digits
parse_digits-All [] acc n h = tt
parse_digits-All (c ∷ s) acc n h = elim (Bool-cases (is_digit c)) [
  | inl e ↦ (e, parse_digits-All s (acc * 10 + (c - b'0')) n (rw e at h))
  | inr e ↦ absurd (some≢none (rw e at h))
]
  where
    some≢none : {n : ℕ} → none ≡ some n → ⊥
    some≢none h = cc

abbrev Nonempty : Text → Type 0
Nonempty s = (c : ℕ) × (t : Text) × (s ≡ c ∷ t)

snoc-Nonempty : (s : Text) (x : ℕ) → Nonempty (s ++ x ∷ [])
snoc-Nonempty [] x = (x, [], refl)
snoc-Nonempty (c ∷ s) x = (c, s ++ x ∷ [], refl)

digits-Nonempty : (fuel n : ℕ) → 0 < fuel → Nonempty (digits fuel n)
unfolding digits
digits-Nonempty zero n h = absurd (omega arith)
digits-Nonempty (suc fuel) n h = elim (Bool-cases (ltb n 10)) [
  | inl e ↦ rw e (b'0' + n, [], refl)
  | inr e ↦ rw e (snoc-Nonempty (digits fuel (n / 10)) (b'0' + n % 10))
]

pub decimal-Nonempty : (n : ℕ) → (c : ℕ) × (s : Text) × (decimal n ≡ c ∷ s)
unfolding decimal
decimal-Nonempty n = digits-Nonempty (n + 1) n (omega arith)
