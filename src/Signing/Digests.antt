-- ===== src/Signing/Digests.antt =====
-- The padding of SHA-256 ends and fills whole blocks; a digest has 64 hex digits; the constant-time
-- comparison is equality.
use Prim.Native.Nat.{bit_or, bit_xor}
use rust_yamp.Prelude.{
  ℕ, zero, suc, ◌+◌, ◌-◌, ◌*◌, ◌%◌, ◌^◌, ◌≤◌, ◌<◌, ◌≡◌, refl, ◌↔◌, true, [], ◌∷◌, ◌++◌, arith,
  Bytes, length, length-append,
}
use rust_yamp.Prelude.Bits.{bit_or-eq_zero, bit_xor-eq_zero, bit_xor_self}
use rust_yamp.Prelude.Hex.{to_hex}
use rust_yamp.Signing.Sha256.{
  push_zeros, pad, digest, sha256, sha256_hex, u64_to_be_bytes, u32_to_be_bytes,
}
use rust_yamp.Signing.{diff_loop, constant_time_eq}

-- The zeros that are still to come, where the length is `n`.
push_zeros-length :
    (fuel k : ℕ) (message : Bytes)
    → k < fuel
    → (length message + k) % 64 ≡ 56
    → k < 64
    → length (push_zeros fuel message) ≡ length message + k
unfolding push_zeros
push_zeros-length zero k message enough whole small = absurd (omega arith)
push_zeros-length (suc fuel) zero message enough whole small = ground arith
push_zeros-length (suc fuel) (suc k) message enough whole small =
    ground (arith, length-append message (0 ∷ []), push_zeros-length fuel k (message ++ 0 ∷ []))

padded-length :
    (input : Bytes) → length (pad input) ≡ length (push_zeros 64 (input ++ 0x80 ∷ [])) + 8
unfolding pad u64_to_be_bytes u32_to_be_bytes
padded-length input =
    length-append (push_zeros 64 (input ++ 0x80 ∷ []))
      (u64_to_be_bytes (length input % 2 ^ 64 * 8 % 2 ^ 64))

-- The padding loop ends within 64 pushes: the padded message is whole blocks of 64 bytes, and it is
-- at most 72 bytes longer than the input.
pad-length :
    (input : Bytes)
    → (length (pad input) % 64 ≡ 0)
      × (length input + 9 ≤ length (pad input))
      × (length (pad input) ≤ length input + 72)
pad-length input =
    let n = length (input ++ 0x80 ∷ []) in
    let k = (120 - n % 64) % 64 in
    omega (
      arith,
      push_zeros-length 64 k (input ++ 0x80 ∷ []) (omega arith) (omega arith) (omega arith),
      length-append input (0x80 ∷ []),
      padded-length input,
    )

to_hex-length : (s : Bytes) → length (to_hex s) ≡ 2 * length s
unfolding to_hex
to_hex-length [] = refl
to_hex-length (b ∷ s) = omega (arith, to_hex-length s)

pub sha256_hex-length : (input : Bytes) → length (sha256_hex input) ≡ 64
unfolding sha256_hex sha256 digest u32_to_be_bytes
sha256_hex-length input = to_hex-length (sha256 input)

diff_loop-zero :
    (d : ℕ) (a b : Bytes) → length a ≡ length b → diff_loop d a b ≡ 0 → (d ≡ 0) × (a ≡ b)
unfolding diff_loop
diff_loop-zero d [] [] l h = (h, refl)
diff_loop-zero d [] (y ∷ b) l h = absurd (omega (arith, l))
diff_loop-zero d (x ∷ a) [] l h = absurd (omega (arith, l))
diff_loop-zero d (x ∷ a) (y ∷ b) l h =
    let (p, q) = diff_loop-zero (bit_or d (bit_xor x y)) a b (omega (arith, l)) h in
    let (r, s) = bit_or-eq_zero d (bit_xor x y) p in (r, ground (arith, bit_xor-eq_zero x y s))

diff_loop_self : (a : Bytes) → diff_loop 0 a a ≡ 0
unfolding diff_loop
diff_loop_self [] = refl
diff_loop_self (x ∷ a) = rw (bit_xor_self x) (diff_loop_self a)

equal_of_test : (a b : Bytes) → constant_time_eq a b ≡ true → a ≡ b
unfolding constant_time_eq
equal_of_test a b h = ground (arith, diff_loop-zero 0 a b)

test_of_equal : (a b : Bytes) → a ≡ b → constant_time_eq a b ≡ true
unfolding constant_time_eq
test_of_equal a b e = rw (← e) (ground (arith, diff_loop_self a))

-- Two byte strings pass the constant-time comparison exactly when they are equal.
pub constant_time_eq_iff : (a b : Bytes) → (constant_time_eq a b ≡ true) ↔ (a ≡ b)
constant_time_eq_iff a b = (equal_of_test a b, λ e. test_of_equal a b e)
