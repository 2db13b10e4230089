-- ===== src/Base64/Rejects.antt =====
-- What `decode` of src/base64.rs accepts, and what it can produce.
use rust_yamp.Prelude.{
  ℕ, ◌<◌, ◌≡◌, none, some, List, [], ◌∷◌, ◌++◌, ◌⊎◌, inl, inr, Text, Bytes, arith, All, All-append,
  ◌==◌, ==_iff, Bool-cases, Option-cases, some_injective, >>=-eq-some,
}
use rust_yamp.Base64.{
  sextet, Decoder, flush, decode_loop, finish, decode, first_byte, second_byte, third_byte,
}

-- Padding, or a symbol of one of the two alphabets.
abbrev pub IsSymbol : ℕ → Type 0
IsSymbol c = (c ≡ b'=') ⊎ ((s : ℕ) × (sextet c ≡ some s))

abbrev pub IsByte : ℕ → Type 0
IsByte b = b < 256

push-IsByte : (out : Bytes) (b : ℕ) → All IsByte out → IsByte b → All IsByte (out ++ b ∷ [])
push-IsByte out b h k = All-append IsByte out (b ∷ []) h (k, tt)

flush-IsByte : (chunk : List ℕ) (out : Bytes) → All IsByte out → All IsByte (flush chunk out).out
unfolding flush first_byte second_byte third_byte
flush-IsByte (c0 ∷ c1 ∷ c2 ∷ c3 ∷ []) out h =
    push-IsByte _ _ (push-IsByte _ _ (push-IsByte out _ h (omega arith)) (omega arith))
      (omega arith)
flush-IsByte [] out h = h
flush-IsByte _ out h = h

-- What the loop's run says of the text and of the output.
loop_sound :
    (text : Text) (d e : Decoder)
    → decode_loop text d ≡ some e
    → All IsByte d.out
    → All IsSymbol text × All IsByte e.out
unfolding decode_loop
loop_sound [] d e h k = (tt, rw (← some_injective h) k)
loop_sound (c ∷ text) d e h k = elim (Bool-cases (c == b'=')) [
  | inl p ↦
      let (symbols, bytes) = loop_sound text d e (rw p at h) k in
      ((inl ((==_iff c b'=').0 p), symbols), bytes)
  | inr p ↦ elim (Option-cases (sextet c)) [
    | inl q ↦ absurd (let stuck : none ≡ some e = rw (p, q) at h in cc)
    | inr (s, q) ↦
        let (symbols, bytes) =
          loop_sound text (flush (d.chunk ++ s ∷ []) d.out) e (rw (p, q) at h)
            (flush-IsByte _ d.out k) in
        ((inr (s, q), symbols), bytes)
  ]
]

finish-IsByte :
    (chunk : List ℕ) (out bytes : Bytes)
    → finish chunk out ≡ some bytes
    → All IsByte out
    → All IsByte bytes
unfolding finish first_byte second_byte
finish-IsByte [] out bytes h k = rw (← some_injective h) k
finish-IsByte (c0 ∷ []) out bytes h k = absurd (cc)
finish-IsByte (c0 ∷ c1 ∷ []) out bytes h k =
    rw (← some_injective h) (push-IsByte out _ k (omega arith))
finish-IsByte (c0 ∷ c1 ∷ c2 ∷ more) out bytes h k =
    rw (← some_injective h) (push-IsByte _ _ (push-IsByte out _ k (omega arith)) (omega arith))

-- A text that decodes holds only symbols and padding, so any other character rejects the whole
-- text; and what is decoded is bytes.
decode_sound :
    (text : Text) (bytes : Bytes) → decode text ≡ some bytes → All IsSymbol text × All IsByte bytes
unfolding decode
decode_sound text bytes h =
    let start : Decoder = record { chunk = []; out = [] } in
    let (d, e, f) = >>=-eq-some (decode_loop text start) (λ d. finish d.chunk d.out) h in
    let (symbols, bounded) = loop_sound text start d e tt in
    (symbols, finish-IsByte d.chunk d.out bytes f bounded)
