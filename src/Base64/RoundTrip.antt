-- ===== src/Base64/RoundTrip.antt =====
-- What `encode` and `encode_url_nopad` of src/base64.rs write, `decode` reads back.
use rust_yamp.Prelude.{
  ℕ, zero, suc, ◌/◌, ◌%◌, ◌^◌, ◌<◌, ◌≡◌, refl, ◌∙◌, Bool, true, false, ◌&&◌, Option, none, some,
  List, [], ◌∷◌, ◌++◌, append-nil, append_assoc, arith, ◌==◌, if◌then◌else◌, ◌>>=◌, get_or, all,
  All, Bytes, Text,
}
use rust_yamp.Base64.{
  standard, url, word, symbol, padding, encode_with, encode, encode_url_nopad, sextet, Decoder,
  flush, decode_loop, finish, decode,
}
use rust_yamp.Base64.Words.{first_byte-word, second_byte-word, third_byte-word}

-- The indices of an alphabet of that size, the last one first.
indices : ℕ → List ℕ
indices zero = []
indices (suc size) = size ∷ indices size

at_index :
    (test : ℕ → Bool) (size i : ℕ) → i < size → all test (indices size) ≡ true → test i ≡ true
unfolding indices
at_index test zero i below h = absurd (omega arith)
at_index test (suc size) i below h = ground (arith, at_index test size i)

-- Whether symbol `i` of an alphabet is read back as the sextet `i`, and is no padding.
abbrev is_sextet : ℕ → Option ℕ → Bool
is_sextet i none = false
is_sextet i (some s) = s == i

abbrev reads_symbol : Text → ℕ → Bool
reads_symbol alphabet i =
    is_sextet i (sextet (get_or alphabet i 0))
    && (if get_or alphabet i 0 == b'=' then false else true)

abbrev IsReadable : Text → Type 0
IsReadable alphabet = all (reads_symbol alphabet) (indices 64) ≡ true

standard-IsReadable : IsReadable standard
unfolding indices sextet
standard-IsReadable = refl

url-IsReadable : IsReadable url
unfolding indices sextet
url-IsReadable = refl

symbol_facts :
    (i c : ℕ) (o : Option ℕ)
    → (is_sextet i o && (if c == b'=' then false else true)) ≡ true
    → (o ≡ some i) × ((c == b'=') ≡ false)
symbol_facts i c none h = absurd (cc)
symbol_facts i c (some s) h = ground arith

module _ (alphabet : Text) (readable : IsReadable alphabet) where
  -- One symbol is one pushed sextet.
  loop-symbol :
      (i : ℕ) (text : Text) (d : Decoder)
      → i < 64
      → decode_loop (get_or alphabet i 0 ∷ text) d
        ≡ decode_loop text (flush (d.chunk ++ i ∷ []) d.out)
  unfolding decode_loop
  loop-symbol i text d h =
      let (s, p) =
        symbol_facts i (get_or alphabet i 0) (sextet (get_or alphabet i 0))
          (at_index (reads_symbol alphabet) 64 i h readable) in
      rw p (rw s)

  abbrev sym_at : ℕ → ℕ → ℕ
  sym_at n k = get_or alphabet (n / 2 ^ k % 64) 0

  loop-chunk :
      (b0 b1 b2 : ℕ) (text : Text) (out : Bytes)
      → b0 < 256
      → b1 < 256
      → b2 < 256
      → let n = word b0 b1 b2 in
        decode_loop
          (sym_at n 18 ∷ sym_at n 12 ∷ sym_at n 6 ∷ sym_at n 0 ∷ text)
          (record { chunk = []; out = out })
        ≡ decode_loop text (record { chunk = []; out = ((out ++ b0 ∷ []) ++ b1 ∷ []) ++ b2 ∷ [] })
  unfolding flush
  loop-chunk b0 b1 b2 text out h0 h1 h2 =
      let n = word b0 b1 b2 in
      let c0 = n / 2 ^ 18 % 64 in
      let c1 = n / 2 ^ 12 % 64 in
      let c2 = n / 2 ^ 6 % 64 in
      let c3 = n / 2 ^ 0 % 64 in
      loop-symbol c0 _ (record { chunk = []; out = out }) (omega arith)
      ∙ loop-symbol c1 _ (record { chunk = c0 ∷ []; out = out }) (omega arith)
      ∙ loop-symbol c2 _ (record { chunk = c0 ∷ c1 ∷ []; out = out }) (omega arith)
      ∙ loop-symbol c3 _ (record { chunk = c0 ∷ c1 ∷ c2 ∷ []; out = out }) (omega arith)
      ∙ rw (first_byte-word b0 b1 b2 h0 h1 h2)
          (rw (second_byte-word b0 b1 b2 h0 h1 h2) (rw (third_byte-word b0 b1 b2 h0 h1 h2)))

  loop-pair :
      (n : ℕ) (text : Text) (out : Bytes)
      → decode_loop (sym_at n 18 ∷ sym_at n 12 ∷ text) (record { chunk = []; out = out })
        ≡ decode_loop text (record { chunk = n / 2 ^ 18 % 64 ∷ n / 2 ^ 12 % 64 ∷ []; out = out })
  unfolding flush
  loop-pair n text out =
      loop-symbol (n / 2 ^ 18 % 64) _ (record { chunk = []; out = out }) (omega arith)
      ∙ loop-symbol (n / 2 ^ 12 % 64) _ (record { chunk = n / 2 ^ 18 % 64 ∷ []; out = out })
          (omega arith)

  abbrev finished : Option Decoder → Option Bytes
  finished o = o >>= λ d. finish d.chunk d.out

  loop-padding :
      (pad : Bool) (d : Decoder)
      → (decode_loop (padding pad) d ≡ some d)
        × (decode_loop (padding pad ++ padding pad) d ≡ some d)
  unfolding decode_loop
  loop-padding true d = (refl, refl)
  loop-padding false d = (refl, refl)

  loop_nil :
      (out : Bytes)
      → finished (decode_loop [] (record { chunk = []; out = out })) ≡ some (out ++ [])
  unfolding decode_loop finish
  loop_nil out = rw append-nil

  decode_from :
      (pad : Bool) (bytes out : Bytes)
      → All (λ b. b < 256) bytes
      → finished (decode_loop (encode_with alphabet bytes pad) (record { chunk = []; out = out }))
        ≡ some (out ++ bytes)
  unfolding encode_with symbol flush finish
  decode_from pad [] out h = loop_nil out
  decode_from pad (b0 ∷ []) out h =
      let n = word b0 0 0 in
      let d : Decoder = record { chunk = n / 2 ^ 18 % 64 ∷ n / 2 ^ 12 % 64 ∷ []; out = out } in
      rw (loop-pair n (padding pad ++ padding pad) out)
        (rw (loop-padding pad d).1 (rw (first_byte-word b0 0 0 h.0 (omega arith) (omega arith))))
  decode_from pad (b0 ∷ b1 ∷ []) out h =
      let n = word b0 b1 0 in
      let d : Decoder = record {
        chunk = n / 2 ^ 18 % 64 ∷ n / 2 ^ 12 % 64 ∷ n / 2 ^ 6 % 64 ∷ [];
        out = out;
      } in
      rw (loop-pair n (sym_at n 6 ∷ padding pad) out) (
        rw
          (loop-symbol (n / 2 ^ 6 % 64) (padding pad)
            (record { chunk = n / 2 ^ 18 % 64 ∷ n / 2 ^ 12 % 64 ∷ []; out = out }) (omega arith))
          (rw (loop-padding pad d).0 (
            rw (first_byte-word b0 b1 0 h.0 h.1.0 (omega arith))
              (rw (second_byte-word b0 b1 0 h.0 h.1.0 (omega arith)) (simp append_assoc)))))
  decode_from pad (b0 ∷ b1 ∷ b2 ∷ rest) out h =
      rw (loop-chunk b0 b1 b2 (encode_with alphabet rest pad) out h.0 h.1.0 h.1.1.0) (
        decode_from pad rest (((out ++ b0 ∷ []) ++ b1 ∷ []) ++ b2 ∷ []) h.1.1.1 ∙ simp append_assoc)

-- Every sequence of bytes comes back from its standard encoding, whatever its length modulo 3.
pub decode-encode : (bytes : Bytes) → All (λ b. b < 256) bytes → decode (encode bytes) ≡ some bytes
unfolding decode encode
decode-encode bytes h = decode_from standard standard-IsReadable true bytes [] h

-- The same decoder reads the unpadded URL alphabet.
pub decode-encode_url_nopad :
    (bytes : Bytes) → All (λ b. b < 256) bytes → decode (encode_url_nopad bytes) ≡ some bytes
unfolding decode encode_url_nopad
decode-encode_url_nopad bytes h = decode_from url url-IsReadable false bytes [] h
