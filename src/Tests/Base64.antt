-- ===== src/Tests/Base64.antt =====
-- src/base64.rs on concrete bytes.
use rust_yamp.Prelude.{◌≡◌, some, [], ◌∷◌, arith, Bytes}
use rust_yamp.Base64.{encode, decode}
use rust_yamp.Base64.RoundTrip.{decode-encode}

abbrev sure : Bytes
sure = 115 ∷ 117 ∷ 114 ∷ 101 ∷ []

decode-encode_example : decode (encode sure) ≡ some sure
decode-encode_example =
    decode-encode sure (omega arith, (omega arith, (omega arith, (omega arith, tt))))
