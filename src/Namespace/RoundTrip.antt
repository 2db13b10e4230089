-- ===== src/Namespace/RoundTrip.antt =====
-- `prefix` and `split` of src/namespace.rs undo one another.
use rust_yamp.Prelude.{
  ℕ, ◌≡◌, ◌≢◌, refl, sym, Bool, true, false, Option, none, some, [], ◌∷◌, ◌++◌, Text, arith, ◌==◌,
  contains, starts_with, strip_prefix, split_once, ◌>>=◌, append_assoc,
}
use rust_yamp.Prelude.Split.{append-split_once, split_once_again}
use rust_yamp.Namespace.{delimiter, valid_backend_id, prefix, split, non_empty_pair}

-- `ends_in b s`: the last byte of `s` is `b`.
abbrev pub ends_in : ℕ → Text → Bool
ends_in b [] = false
ends_in b (x ∷ []) = x == b
ends_in b (x ∷ y ∷ s) = ends_in b (y ∷ s)

-- An id without the delimiter that does not end in `_` is where the first delimiter stands.
split_once-delimiter :
    (id : Text)
    → contains id delimiter ≡ false
    → ends_in b'_' id ≡ false
    → split_once (id ++ delimiter) delimiter ≡ some (id, [])
unfolding split_once strip_prefix contains starts_with
split_once-delimiter [] c e = refl
split_once-delimiter (x ∷ []) c e = ground arith
split_once-delimiter (x ∷ y ∷ s) c e = ground (arith, split_once-delimiter (y ∷ s))

valid_facts : (id : Text) → valid_backend_id id ≡ true → (id ≢ []) × (contains id delimiter ≡ false)
unfolding valid_backend_id
valid_facts [] h = absurd (cc)
valid_facts (x ∷ id) h = (λ e. cc, ground arith)

split_of_once :
    (name a b : Text)
    → split_once name delimiter ≡ some (a, b)
    → a ≢ []
    → b ≢ []
    → split name ≡ some (a, b)
unfolding split
split_of_once name [] b h p q = absurd (p refl)
split_of_once name (x ∷ a) [] h p q = absurd (q refl)
split_of_once name (x ∷ a) (y ∷ b) h p q = rw h

-- Whatever non-empty name a backend serves, with `__` inside or not: under a valid id that does not
-- end in `_` its namespaced name splits back into the id and the name.
pub split-prefix :
    (id name : Text)
    → valid_backend_id id ≡ true
    → ends_in b'_' id ≡ false
    → name ≢ []
    → split (prefix id name) ≡ some (id, name)
unfolding prefix
split-prefix id name v e n =
    split_of_once (id ++ (delimiter ++ name)) id name
      (split_once_again (id ++ delimiter) id [] name b'_' (b'_' ∷ [])
        (split_once-delimiter id (valid_facts id v).1 e))
      (valid_facts id v).0 n

split_cases :
    (parts : Option (Text × Text)) (a b : Text)
    → (parts >>= non_empty_pair) ≡ some (a, b)
    → (parts ≡ some (a, b)) × (a ≢ []) × (b ≢ [])
split_cases none a b h = absurd (cc)
split_cases (some ([], d)) a b h = absurd (cc)
split_cases (some (x ∷ c, [])) a b h = absurd (cc)
split_cases (some (x ∷ c, y ∷ d)) a b h = (h, λ e. cc, λ e. cc)

split-parts :
    (name a b : Text)
    → split name ≡ some (a, b)
    → (split_once name delimiter ≡ some (a, b)) × (a ≢ []) × (b ≢ [])
unfolding split
split-parts name a b = split_cases (split_once name delimiter) a b

-- A name that splits is the namespaced name of its two parts, and neither part is empty.
prefix-split :
    (name id original : Text)
    → split name ≡ some (id, original)
    → (prefix id original ≡ name) × (id ≢ []) × (original ≢ [])
unfolding prefix
prefix-split name a b h =
    let (once, p, q) = split-parts name a b h in
    (sym (append-split_once name delimiter a b once), p, q)

trailing_facts :
    (id : Text)
    → contains (id ++ b'_' ∷ []) delimiter ≡ false
    → (contains id delimiter ≡ false) × (ends_in b'_' id ≡ false)
unfolding contains starts_with
trailing_facts [] c = (refl, refl)
trailing_facts (x ∷ []) c = ground arith
trailing_facts (x ∷ y ∷ s) c = ground (arith, trailing_facts (y ∷ s))

-- A valid id that ends in `_` never gets its names back: the first delimiter is found one byte
-- early, so that the name is routed to another id under another name.
pub split-prefix_trailing :
    (id name : Text)
    → valid_backend_id (id ++ b'_' ∷ []) ≡ true
    → id ≢ []
    → split (prefix (id ++ b'_' ∷ []) name) ≡ some (id, b'_' ∷ name)
unfolding prefix
split-prefix_trailing id name v n =
    let (c, e) = trailing_facts id (valid_facts (id ++ b'_' ∷ []) v).1 in
    rw (append_assoc id (b'_' ∷ []) (delimiter ++ name)) (
      split_of_once (id ++ (delimiter ++ b'_' ∷ name)) id (b'_' ∷ name)
        (split_once_again (id ++ delimiter) id [] (b'_' ∷ name) b'_' (b'_' ∷ [])
          (split_once-delimiter id c e))
        n (λ p. cc))
