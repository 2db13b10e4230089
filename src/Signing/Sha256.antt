-- ===== src/Signing/Sha256.antt =====
-- `sha256` and what is made of it in src/signing.rs. A byte is a number below 256, a `u32` wraps at
-- 2 ^ 32.
use Prim.Native.Nat.{bit_and, bit_or, bit_xor}
use rust_yamp.Prelude.{
  ℕ, zero, suc, ◌+◌, ◌-◌, ◌*◌, ◌/◌, ◌%◌, ◌^◌, ltb, ◌==◌, if◌then◌else◌, List, [], ◌∷◌, ◌++◌, Bytes,
  Text, length, take, drop, get_or,
}
use rust_yamp.Prelude.Hex.{to_hex}

unfoldable pub sha256_k : List ℕ
sha256_k =
    0x428a2f98 ∷ 0x71374491 ∷ 0xb5c0fbcf ∷ 0xe9b5dba5 ∷ 0x3956c25b ∷ 0x59f111f1 ∷ 0x923f82a4
    ∷ 0xab1c5ed5 ∷ 0xd807aa98 ∷ 0x12835b01 ∷ 0x243185be ∷ 0x550c7dc3 ∷ 0x72be5d74 ∷ 0x80deb1fe
    ∷ 0x9bdc06a7 ∷ 0xc19bf174 ∷ 0xe49b69c1 ∷ 0xefbe4786 ∷ 0x0fc19dc6 ∷ 0x240ca1cc ∷ 0x2de92c6f
    ∷ 0x4a7484aa ∷ 0x5cb0a9dc ∷ 0x76f988da ∷ 0x983e5152 ∷ 0xa831c66d ∷ 0xb00327c8 ∷ 0xbf597fc7
    ∷ 0xc6e00bf3 ∷ 0xd5a79147 ∷ 0x06ca6351 ∷ 0x14292967 ∷ 0x27b70a85 ∷ 0x2e1b2138 ∷ 0x4d2c6dfc
    ∷ 0x53380d13 ∷ 0x650a7354 ∷ 0x766a0abb ∷ 0x81c2c92e ∷ 0x92722c85 ∷ 0xa2bfe8a1 ∷ 0xa81a664b
    ∷ 0xc24b8b70 ∷ 0xc76c51a3 ∷ 0xd192e819 ∷ 0xd6990624 ∷ 0xf40e3585 ∷ 0x106aa070 ∷ 0x19a4c116
    ∷ 0x1e376c08 ∷ 0x2748774c ∷ 0x34b0bcb5 ∷ 0x391c0cb3 ∷ 0x4ed8aa4a ∷ 0x5b9cca4f ∷ 0x682e6ff3
    ∷ 0x748f82ee ∷ 0x78a5636f ∷ 0x84c87814 ∷ 0x8cc70208 ∷ 0x90befffa ∷ 0xa4506ceb ∷ 0xbef9a3f7
    ∷ 0xc67178f2 ∷ []

-- The words `h[0]` to `h[7]`, and `a` to `hh` of a round.
pub record Words : Type 0 where
  pub a : ℕ
  pub b : ℕ
  pub c : ℕ
  pub d : ℕ
  pub e : ℕ
  pub f : ℕ
  pub g : ℕ
  pub h : ℕ

unfoldable pub initial : Words
initial = record {
  a = 0x6a09e667;
  b = 0xbb67ae85;
  c = 0x3c6ef372;
  d = 0xa54ff53a;
  e = 0x510e527f;
  f = 0x9b05688c;
  g = 0x1f83d9ab;
  h = 0x5be0cd19;
}

unfoldable pub wrapping_add : ℕ → ℕ → ℕ
wrapping_add x y = (x + y) % 2 ^ 32

-- `x.rotate_right(k)`, 0 < k < 32.
unfoldable pub rotate_right : ℕ → ℕ → ℕ
rotate_right x k = bit_or (x / 2 ^ k) (x * 2 ^ (32 - k) % 2 ^ 32)

unfoldable pub u32_to_be_bytes : ℕ → Bytes
u32_to_be_bytes x = x / 2 ^ 24 % 256 ∷ x / 2 ^ 16 % 256 ∷ x / 2 ^ 8 % 256 ∷ x % 256 ∷ []

unfoldable pub u64_to_be_bytes : ℕ → Bytes
unfolding u32_to_be_bytes
u64_to_be_bytes x = u32_to_be_bytes (x / 2 ^ 32) ++ u32_to_be_bytes (x % 2 ^ 32)

-- `while message.len() % 64 != 56 { message.push(0); }`, at most 64 pushes.
unfoldable pub push_zeros : ℕ → Bytes → Bytes
push_zeros zero message = message
push_zeros (suc fuel) message =
    let more = push_zeros fuel (message ++ 0 ∷ []) in
    if length message % 64 == 56 then message else more

unfoldable pub pad : Bytes → Bytes
unfolding push_zeros u64_to_be_bytes
pad input =
    push_zeros 64 (input ++ 0x80 ∷ []) ++ u64_to_be_bytes (length input % 2 ^ 64 * 8 % 2 ^ 64)

-- `chunks_exact(64)`, one chunk for each of at most so many rounds.
unfoldable pub chunks_exact : ℕ → Bytes → List Bytes
chunks_exact zero s = []
chunks_exact (suc fuel) s =
    let more = take 64 s ∷ chunks_exact fuel (drop 64 s) in if ltb (length s) 64 then [] else more

-- The first sixteen words of the schedule, big-endian.
unfoldable pub block_words : Bytes → List ℕ
block_words (w ∷ x ∷ y ∷ z ∷ s) = (w * 2 ^ 24 + x * 2 ^ 16 + y * 2 ^ 8 + z) ∷ block_words s
block_words _ = []

unfoldable pub next_word : List ℕ → ℕ → ℕ
unfolding rotate_right wrapping_add
next_word w i =
    let x = get_or w (i - 15) 0 in
    let y = get_or w (i - 2) 0 in
    let s0 = bit_xor (bit_xor (rotate_right x 7) (rotate_right x 18)) (x / 2 ^ 3) in
    let s1 = bit_xor (bit_xor (rotate_right y 17) (rotate_right y 19)) (y / 2 ^ 10) in
    wrapping_add (wrapping_add (wrapping_add (get_or w (i - 16) 0) s0) (get_or w (i - 7) 0)) s1

-- `for i in 16..64`, with the rounds that are left.
unfoldable pub expand : ℕ → ℕ → List ℕ → List ℕ
unfolding next_word
expand zero i w = w
expand (suc rounds) i w = expand rounds (i + 1) (w ++ next_word w i ∷ [])

-- One round of the compression, with its constant and its word.
unfoldable pub round : Words → ℕ → ℕ → Words
unfolding rotate_right wrapping_add
round s k w =
    let s1 = bit_xor (bit_xor (rotate_right s.e 6) (rotate_right s.e 11)) (rotate_right s.e 25) in
    let ch = bit_xor (bit_and s.e s.f) (bit_and (2 ^ 32 - 1 - s.e) s.g) in
    let t1 = wrapping_add (wrapping_add (wrapping_add (wrapping_add s.h s1) ch) k) w in
    let s0 = bit_xor (bit_xor (rotate_right s.a 2) (rotate_right s.a 13)) (rotate_right s.a 22) in
    let maj = bit_xor (bit_xor (bit_and s.a s.b) (bit_and s.a s.c)) (bit_and s.b s.c) in
    let t2 = wrapping_add s0 maj in
    record {
      a = wrapping_add t1 t2;
      b = s.a;
      c = s.b;
      d = s.c;
      e = wrapping_add s.d t1;
      f = s.e;
      g = s.f;
      h = s.g;
    }

unfoldable pub rounds : List ℕ → List ℕ → Words → Words
unfolding round
rounds [] ws s = s
rounds (k ∷ ks) [] s = s
rounds (k ∷ ks) (w ∷ ws) s = rounds ks ws (round s k w)

unfoldable pub add_words : Words → Words → Words
unfolding wrapping_add
add_words s t = record {
  a = wrapping_add s.a t.a;
  b = wrapping_add s.b t.b;
  c = wrapping_add s.c t.c;
  d = wrapping_add s.d t.d;
  e = wrapping_add s.e t.e;
  f = wrapping_add s.f t.f;
  g = wrapping_add s.g t.g;
  h = wrapping_add s.h t.h;
}

unfoldable pub blocks : List Bytes → Words → Words
unfolding block_words expand rounds add_words sha256_k
blocks [] s = s
blocks (block ∷ more) s =
    blocks more (add_words s (rounds sha256_k (expand 48 16 (block_words block)) s))

unfoldable pub digest : Words → Bytes
unfolding u32_to_be_bytes
digest s =
    u32_to_be_bytes s.a
    ++ (u32_to_be_bytes s.b
        ++ (u32_to_be_bytes s.c
            ++ (u32_to_be_bytes s.d
                ++ (u32_to_be_bytes s.e
                    ++ (u32_to_be_bytes s.f ++ (u32_to_be_bytes s.g ++ u32_to_be_bytes s.h))))))

unfoldable pub sha256 : Bytes → Bytes
unfolding pad chunks_exact blocks digest initial
sha256 input =
    let message = pad input in digest (blocks (chunks_exact (length message) message) initial)

unfoldable pub sha256_hex : Bytes → Text
unfolding sha256 to_hex
sha256_hex input = to_hex (sha256 input)
