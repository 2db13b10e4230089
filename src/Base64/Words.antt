-- ===== src/Base64/Words.antt =====
-- The bit arithmetic of src/base64.rs: four sextets of a three-byte word give its bytes back.
use Prim.Native.Nat.{bit_or}
use rust_yamp.Prelude.{ℕ, ◌+◌, ◌*◌, ◌/◌, ◌%◌, ◌^◌, ◌<◌, ◌≡◌, arith}
use rust_yamp.Prelude.Bits.{bit_or_disjoint}
use rust_yamp.Base64.{word, first_byte, second_byte, third_byte}

pub word_lem : (b0 b1 b2 : ℕ) → b1 < 256 → b2 < 256 → word b0 b1 b2 ≡ b0 * 65536 + b1 * 256 + b2
unfolding word
word_lem b0 b1 b2 h1 h2 =
    let high : bit_or (b0 * 2 ^ 16) (b1 * 2 ^ 8) ≡ (b0 * 256 + b1) * 2 ^ 8 =
      omega (arith, bit_or_disjoint 16 b0 (b1 * 2 ^ 8) (omega arith)) in
    rw high (omega (arith, bit_or_disjoint 8 (b0 * 256 + b1) b2 (omega arith)))

pub first_byte_lem : (c0 c1 : ℕ) → c1 < 64 → first_byte c0 c1 ≡ (c0 * 4 + c1 / 16) % 256
unfolding first_byte
first_byte_lem c0 c1 h = omega (arith, bit_or_disjoint 2 c0 (c1 / 2 ^ 4) (omega arith))

pub second_byte_lem : (c1 c2 : ℕ) → c2 < 64 → second_byte c1 c2 ≡ (c1 * 16 + c2 / 4) % 256
unfolding second_byte
second_byte_lem c1 c2 h = omega (arith, bit_or_disjoint 4 c1 (c2 / 2 ^ 2) (omega arith))

pub third_byte_lem : (c2 c3 : ℕ) → c3 < 64 → third_byte c2 c3 ≡ (c2 * 64 + c3) % 256
unfolding third_byte
third_byte_lem c2 c3 h = omega (arith, bit_or_disjoint 6 c2 c3 h)

module _ (b0 b1 b2 : ℕ) (h0 : b0 < 256) (h1 : b1 < 256) (h2 : b2 < 256) where
  pub first_byte-word : first_byte (word b0 b1 b2 / 2 ^ 18 % 64) (word b0 b1 b2 / 2 ^ 12 % 64) ≡ b0
  first_byte-word = omega (
    arith,
    word_lem b0 b1 b2 h1 h2,
    first_byte_lem (word b0 b1 b2 / 2 ^ 18 % 64) (word b0 b1 b2 / 2 ^ 12 % 64) (omega arith),
  )

  pub second_byte-word : second_byte (word b0 b1 b2 / 2 ^ 12 % 64) (word b0 b1 b2 / 2 ^ 6 % 64) ≡ b1
  second_byte-word = omega (
    arith,
    word_lem b0 b1 b2 h1 h2,
    second_byte_lem (word b0 b1 b2 / 2 ^ 12 % 64) (word b0 b1 b2 / 2 ^ 6 % 64) (omega arith),
  )

  pub third_byte-word : third_byte (word b0 b1 b2 / 2 ^ 6 % 64) (word b0 b1 b2 / 2 ^ 0 % 64) ≡ b2
  third_byte-word = omega (
    arith,
    word_lem b0 b1 b2 h1 h2,
    third_byte_lem (word b0 b1 b2 / 2 ^ 6 % 64) (word b0 b1 b2 / 2 ^ 0 % 64) (omega arith),
  )
