-- ===== src/Prelude/Bits.antt =====
-- `(a << k) | b` is a sum where `b` has at most `k` bits; when `|` and `^` are zero.
use Prim.Native.Nat.{
  ℕ, zero, suc, ◌+◌, ◌*◌, ◌/◌, ◌%◌, ◌^◌, ◌≤◌, ◌<◌, max, bit_or, bit_xor, digits, differ,
  bit_or-bitwise, bit_xor-bitwise,
}
use mathlib.Core.Path.{◌≡◌, refl, sym, ap, ◌∙◌}
use native.Mathlib.Nat.{pow-suc}
use native.Mathlib.Omega.{arith}

-- Digit by digit, with fuel for the left operand `x`, which is `a << k`.
shifted_digits :
    (fuel k a x b : ℕ) → b < 2 ^ k → x ≡ a * 2 ^ k → x ≤ fuel → digits (λ d. d) max fuel x b ≡ x + b
shifted_digits zero k a zero b small is_shifted enough = omega arith
shifted_digits zero k a (suc x) b small is_shifted enough = absurd (omega arith)
shifted_digits (suc fuel) k a zero b small is_shifted enough = omega arith
shifted_digits (suc fuel) zero a (suc x) b small is_shifted enough =
    let h =
      shifted_digits fuel zero (suc x / 2) (suc x / 2) (b / 2) (omega arith) (omega arith)
        (omega arith) in
    omega (arith, h)
shifted_digits (suc fuel) (suc k) a (suc x) b small is_shifted enough =
    let doubled = ap (λ (p : ℕ). a * p) (pow-suc 2 k) in
    let half : suc x / 2 ≡ a * 2 ^ k = omega (arith, is_shifted, doubled) in
    let h =
      shifted_digits fuel k a (suc x / 2) (b / 2) (omega (arith, small, pow-suc 2 k)) half
        (omega arith) in
    omega (arith, h, half, is_shifted, doubled)

pub bit_or_disjoint : (k a b : ℕ) → b < 2 ^ k → bit_or (a * 2 ^ k) b ≡ a * 2 ^ k + b
bit_or_disjoint k a b small =
    bit_or-bitwise (a * 2 ^ k) b
    ∙ shifted_digits (a * 2 ^ k) k a (a * 2 ^ k) b small refl (omega arith)

or_digits-zero : (fuel a b : ℕ) → a ≤ fuel → digits (λ d. d) max fuel a b ≡ 0 → (a ≡ 0) × (b ≡ 0)
or_digits-zero zero zero b enough h = (refl, h)
or_digits-zero zero (suc a) b enough h = absurd (omega arith)
or_digits-zero (suc fuel) zero b enough h = (refl, h)
or_digits-zero (suc fuel) (suc a) b enough h =
    let (p, q) = or_digits-zero fuel (suc a / 2) (b / 2) (omega arith) (omega (arith, h)) in
    (omega (arith, h), omega (arith, h))

pub bit_or-eq_zero : (a b : ℕ) → bit_or a b ≡ 0 → (a ≡ 0) × (b ≡ 0)
bit_or-eq_zero a b h = or_digits-zero a a b (omega arith) (sym (bit_or-bitwise a b) ∙ h)

differ-zero : (x y : ℕ) → differ x y ≡ 0 → x ≡ y
differ-zero zero y h = sym h
differ-zero (suc x) zero h = h
differ-zero (suc x) (suc y) h = ap suc (differ-zero x y h)

differ_self : (x : ℕ) → differ x x ≡ 0
differ_self zero = refl
differ_self (suc x) = differ_self x

xor_digits-zero : (fuel a b : ℕ) → a ≤ fuel → digits (λ d. d) differ fuel a b ≡ 0 → a ≡ b
xor_digits-zero zero zero b enough h = sym h
xor_digits-zero zero (suc a) b enough h = absurd (omega arith)
xor_digits-zero (suc fuel) zero b enough h = sym h
xor_digits-zero (suc fuel) (suc a) b enough h =
    let p = xor_digits-zero fuel (suc a / 2) (b / 2) (omega arith) (omega (arith, h)) in
    let q = differ-zero (suc a % 2) (b % 2) (omega (arith, h)) in omega arith

pub bit_xor-eq_zero : (a b : ℕ) → bit_xor a b ≡ 0 → a ≡ b
bit_xor-eq_zero a b h = xor_digits-zero a a b (omega arith) (sym (bit_xor-bitwise a b) ∙ h)

xor_digits_self : (fuel a : ℕ) → a ≤ fuel → digits (λ d. d) differ fuel a a ≡ 0
xor_digits_self zero zero enough = refl
xor_digits_self zero (suc a) enough = absurd (omega arith)
xor_digits_self (suc fuel) zero enough = refl
xor_digits_self (suc fuel) (suc a) enough =
    omega (arith, xor_digits_self fuel (suc a / 2) (omega arith), differ_self (suc a % 2))

pub bit_xor_self : (a : ℕ) → bit_xor a a ≡ 0
bit_xor_self a = bit_xor-bitwise a a ∙ xor_digits_self a a (omega arith)
