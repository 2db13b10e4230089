-- ===== src/Base64.antt =====
-- src/base64.rs: RFC 4648, the standard alphabet with padding and the URL alphabet without.
mod Words
pub mod RoundTrip
pub mod Rejects
use Prim.Native.Nat.{bit_or}
use rust_yamp.Prelude.{
  ℕ, zero, suc, ◌+◌, ◌-◌, ◌*◌, ◌/◌, ◌%◌, ◌^◌, Bool, true, false, Option, none, some, List, [], ◌∷◌,
  ◌++◌, ◌&&◌, ◌||◌, Text, Bytes, ascii, leb, ◌==◌, if◌then◌else◌, ◌>>=◌, get_or,
}

abbrev pub standard : Text
standard = ascii "ABCDEFGHIJKLMNOPQRSTUVWXYZabcdefghijklmnopqrstuvwxyz0123456789+/"

abbrev pub url : Text
url = ascii "ABCDEFGHIJKLMNOPQRSTUVWXYZabcdefghijklmnopqrstuvwxyz0123456789-_"

-- (b0 << 16) | (b1 << 8) | b2, a `u32` of three bytes.
unfoldable pub word : ℕ → ℕ → ℕ → ℕ
word b0 b1 b2 = bit_or (bit_or (b0 * 2 ^ 16) (b1 * 2 ^ 8)) b2

-- alphabet[(n >> k & 0x3f) as usize]
unfoldable pub symbol : Text → ℕ → ℕ → ℕ
symbol alphabet n k = get_or alphabet (n / 2 ^ k % 64) 0

abbrev pub padding : Bool → Text
padding true = ascii "="
padding false = []

-- The loop over `data.chunks(3)`: the last chunk may have one or two bytes, and a missing byte
-- counts as 0.
unfoldable pub encode_with : Text → Bytes → Bool → Text
unfolding word symbol
encode_with alphabet [] pad = []
encode_with alphabet (b0 ∷ []) pad =
    let n = word b0 0 0 in
    symbol alphabet n 18 ∷ symbol alphabet n 12 ∷ (padding pad ++ padding pad)
encode_with alphabet (b0 ∷ b1 ∷ []) pad =
    let n = word b0 b1 0 in
    symbol alphabet n 18 ∷ symbol alphabet n 12 ∷ symbol alphabet n 6 ∷ padding pad
encode_with alphabet (b0 ∷ b1 ∷ b2 ∷ rest) pad =
    let n = word b0 b1 b2 in
    symbol alphabet n 18
    ∷ symbol alphabet n 12
    ∷ symbol alphabet n 6
    ∷ symbol alphabet n 0
    ∷ encode_with alphabet rest pad

unfoldable pub encode : Bytes → Text
unfolding encode_with
encode bytes = encode_with standard bytes true

unfoldable pub encode_url_nopad : Bytes → Text
unfolding encode_with
encode_url_nopad bytes = encode_with url bytes false

-- The arms of the `match` in order; the subtractions do not go below 0 in their ranges.
unfoldable pub sextet : ℕ → Option ℕ
sextet c =
    if leb b'A' c && leb c b'Z'
    then some (c - b'A')
    else if leb b'a' c && leb c b'z'
    then some (c - b'a' + 26)
    else if leb b'0' c && leb c b'9'
    then some (c - b'0' + 52)
    else if c == b'+' || c == b'-'
    then some 62
    else if c == b'/' || c == b'_'
    then some 63
    else none

-- The local variables of `decode`.
pub record Decoder : Type 0 where
  pub chunk : List ℕ
  pub out : Bytes

-- (c0 << 2 | c1 >> 4) as u8, and the two like it.
unfoldable pub first_byte : ℕ → ℕ → ℕ
first_byte c0 c1 = bit_or (c0 * 2 ^ 2) (c1 / 2 ^ 4) % 256

unfoldable pub second_byte : ℕ → ℕ → ℕ
second_byte c1 c2 = bit_or (c1 * 2 ^ 4) (c2 / 2 ^ 2) % 256

unfoldable pub third_byte : ℕ → ℕ → ℕ
third_byte c2 c3 = bit_or (c2 * 2 ^ 6) c3 % 256

-- `if chunk.len() == 4`: the chunk becomes three bytes.
unfoldable pub flush : List ℕ → Bytes → Decoder
unfolding first_byte second_byte third_byte
flush (c0 ∷ c1 ∷ c2 ∷ c3 ∷ []) out = record {
  chunk = [];
  out = ((out ++ first_byte c0 c1 ∷ []) ++ second_byte c1 c2 ∷ []) ++ third_byte c2 c3 ∷ [];
}
flush chunk out = record { chunk = chunk; out = out }

-- The loop over the bytes of the text.
unfoldable pub decode_loop : Text → Decoder → Option Decoder
unfolding sextet flush
decode_loop [] d = some d
decode_loop (c ∷ text) d =
    let skipped = decode_loop text d in
    let pushed = sextet c >>= λ s. decode_loop text (flush (d.chunk ++ s ∷ []) d.out) in
    if c == b'=' then skipped else pushed

-- The `match chunk.len()` after the loop.
unfoldable pub finish : List ℕ → Bytes → Option Bytes
unfolding first_byte second_byte
finish [] out = some out
finish (c0 ∷ []) out = none
finish (c0 ∷ c1 ∷ []) out = some (out ++ first_byte c0 c1 ∷ [])
finish (c0 ∷ c1 ∷ c2 ∷ more) out = some ((out ++ first_byte c0 c1 ∷ []) ++ second_byte c1 c2 ∷ [])

unfoldable pub decode : Text → Option Bytes
unfolding decode_loop finish
decode text = do d ← decode_loop text (record { chunk = []; out = [] }); finish d.chunk d.out
