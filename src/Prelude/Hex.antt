-- ===== src/Prelude/Hex.antt =====
-- `format!("{byte:02x}")`, and `char::to_digit(16)`.
use Prim.Native.Nat.{ℕ, ◌+◌, ◌-◌, ◌*◌, ◌/◌, ◌%◌, ◌<◌}
use mathlib.Core.Path.{◌≡◌, refl, ap}
use mathlib.Core.Bool.{◌&&◌}
use mathlib.Core.Option.{Option, none, some}
use mathlib.Core.List.{[], ◌∷◌}
use native.Mathlib.Omega.{arith}
use rust_yamp.Prelude.Tests.{ltb, leb, if◌then◌else◌, ◌>>=◌}
use rust_yamp.Prelude.Lists.{All}
use rust_yamp.Prelude.Strings.{Text, Bytes}

abbrev pub hex_digit : ℕ → ℕ
hex_digit d = if ltb d 10 then b'0' + d else b'a' + (d - 10)

-- The loop that pushes each byte's two digits.
unfoldable pub to_hex : Bytes → Text
to_hex [] = []
to_hex (b ∷ bytes) = hex_digit (b / 16) ∷ hex_digit (b % 16) ∷ to_hex bytes

unfoldable pub to_digit : ℕ → Option ℕ
to_digit c =
    if leb b'0' c && leb c b'9'
    then some (c - b'0')
    else if leb b'a' c && leb c b'f'
    then some (c - b'a' + 10)
    else if leb b'A' c && leb c b'F'
    then some (c - b'A' + 10)
    else none

-- The loop that reads two digits at a time.
unfoldable pub from_hex : Text → Option Bytes
unfolding to_digit
from_hex [] = some []
from_hex (c ∷ []) = none
from_hex (c ∷ d ∷ s) = do
  hi ← to_digit c
  lo ← to_digit d
  bytes ← from_hex s
  some ((hi * 16 + lo) % 256 ∷ bytes)

to_digit-hex_digit : (d : ℕ) → d < 16 → to_digit (hex_digit d) ≡ some d
unfolding to_digit
to_digit-hex_digit d h = ground arith

-- Bytes that were written in hex are read back.
pub from_hex-to_hex :
    (bytes : Bytes) → All (λ b. b < 256) bytes → from_hex (to_hex bytes) ≡ some bytes
unfolding from_hex to_hex
from_hex-to_hex [] h = refl
from_hex-to_hex (b ∷ bytes) h =
    rw
      (
        to_digit-hex_digit (b / 16) (omega (arith, h.0)),
        to_digit-hex_digit (b % 16) (omega arith),
        from_hex-to_hex bytes h.1,
      )
      (ap (λ (n : ℕ). some (n ∷ bytes)) (omega (arith, h.0)))
