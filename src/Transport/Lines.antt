-- ===== src/Transport/Lines.antt =====
-- Lines of a byte stream: what `read_until` and `split` make of text that was written line by line.
use rust_yamp.Prelude.{
  ℕ, ◌≡◌, refl, ap, inl, inr, Bool, true, false, ◌||◌, List, [], ◌∷◌, ◌++◌, arith, ◌==◌, Bool-cases,
  any, All, Bytes,
}
use rust_yamp.Transport.{read_until, split_on, cons_head, strip_last}

-- A line ends at the first newline.
pub read_until-append :
    (p rest : Bytes)
    → any (λ c. c == b'\n') p ≡ false
    → read_until (p ++ b'\n' ∷ rest) ≡ (p ++ b'\n' ∷ [], rest)
unfolding read_until
read_until-append [] rest h = refl
read_until-append (c ∷ p) rest h = ground (arith, read_until-append p rest)

pub strip_last-append : (c : ℕ) (p : Bytes) → strip_last c (p ++ c ∷ []) ≡ p
unfolding strip_last
strip_last-append c [] = ground arith
strip_last-append c (x ∷ []) = ground arith
strip_last-append c (x ∷ y ∷ p) = ap (λ l. x ∷ l) (strip_last-append c (y ∷ p))

-- A byte that a line lacks is not its last one.
pub strip_last-absent : (c : ℕ) (p : Bytes) → any (λ x. x == c) p ≡ false → strip_last c p ≡ p
unfolding strip_last
strip_last-absent c [] h = refl
strip_last-absent c (x ∷ []) h = ground arith
strip_last-absent c (x ∷ y ∷ p) h = ap (λ l. x ∷ l) (strip_last-absent c (y ∷ p) (ground arith))

pub or_false : (a b : Bool) → (a || b) ≡ false → (a ≡ false) × (b ≡ false)
or_false false b h = (refl, h)
or_false true b h = cc

pub cons_head-All :
    (c d : ℕ) (parts : List Bytes)
    → (c == d) ≡ false
    → All (λ p. any (λ c. c == d) p ≡ false) parts
    → All (λ p. any (λ c. c == d) p ≡ false) (cons_head c parts)
cons_head-All c d [] e h = (rw e refl, tt)
cons_head-All c d (part ∷ parts) e h = (rw e h.0, h.1)

-- Every part that `split` makes lacks the byte.
pub split_on-All : (d : ℕ) (s : Bytes) → All (λ p. any (λ c. c == d) p ≡ false) (split_on d s)
unfolding split_on
split_on-All d [] = (refl, tt)
split_on-All d (c ∷ s) = elim (Bool-cases (c == d)) [
  | inl e ↦ rw e (refl, split_on-All d s)
  | inr e ↦ rw e (cons_head-All c d (split_on d s) e (split_on-All d s))
]

-- Text with one occurrence of the byte, at its end, has two parts.
pub split_on-append :
    (d : ℕ) (p : Bytes) → any (λ c. c == d) p ≡ false → split_on d (p ++ d ∷ []) ≡ p ∷ [] ∷ []
unfolding split_on
split_on-append d [] h = ground arith
split_on-append d (c ∷ p) h =
    let (head_, tail_) = or_false (c == d) (any (λ x. x == d) p) h in
    rw (head_, split_on-append d p tail_)
