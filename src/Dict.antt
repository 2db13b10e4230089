-- ===== src/Dict.antt =====
-- `HashMap` and `HashSet`: an association list by the key's equality. The sources never rely on
-- the iteration order of a hash map.
use rust_yamp.Prelude.{
  ℕ, ◌+◌, ◌≡◌, refl, ◌↔◌, Bool, true, ◌&&◌, Option, none, some, List, [], ◌∷◌, Text, text_eq,
  text_eq_iff, if◌then◌else◌, arith, is_some, length,
}

pub record Eq {ℓ} (A : Type ℓ) : Type ℓ where
  pub beq : A → A → Bool
  pub beq_iff : (a b : A) → (beq a b ≡ true) ↔ (a ≡ b)

instance abbrev pub text_key : Eq Text
text_key = record { beq = text_eq; beq_iff = text_eq_iff }

pub pair_beq_iff : (a b : Text × Text) → ((text_eq a.0 b.0 && text_eq a.1 b.1) ≡ true) ↔ (a ≡ b)
pair_beq_iff a b = ground (arith, text_eq_iff a.0 b.0, text_eq_iff a.1 b.1)

instance abbrev pub pair_key : Eq (Text × Text)
pair_key = record { beq = λ a b. text_eq a.0 b.0 && text_eq a.1 b.1; beq_iff = pair_beq_iff }

pub beq_refl {ℓ} : {A : Type ℓ} ⦃e : Eq A⦄ (k : A) → e.beq k k ≡ true
beq_refl ⦃e⦄ k = (e.beq_iff k k).1 refl

abbrev pub present {μ} : {A : Type μ} → Option A → ℕ
present none = 0
present (some _) = 1

abbrev pub Dict {ℓ κ} : Type ℓ → Type κ → Type (ℓ ⊔ κ)
Dict K V = List (K × V)

module _ {ℓ κ} {K : Type ℓ} {V : Type κ} ⦃e : Eq K⦄ where
  unfoldable pub get : Dict K V → K → Option V
  get [] k = none
  get ((j, v) ∷ m) k = if e.beq j k then some v else get m k

  abbrev pub contains_key : Dict K V → K → Bool
  contains_key m k = is_some (get m k)

  unfoldable pub insert : Dict K V → K → V → Dict K V
  insert [] k v = (k, v) ∷ []
  insert ((j, w) ∷ m) k v = if e.beq j k then (k, v) ∷ m else (j, w) ∷ insert m k v

  unfoldable pub remove : Dict K V → K → Dict K V
  remove [] k = []
  remove ((j, w) ∷ m) k = if e.beq j k then remove m k else (j, w) ∷ remove m k

  pub get-insert :
      (m : Dict K V) (k j : K) (v : V)
      → get (insert m k v) j ≡ (if e.beq k j then some v else get m j)
  unfolding get insert
  get-insert [] k j v = refl
  get-insert ((i, w) ∷ m) k j v =
      ground (arith, e.beq_iff i k, e.beq_iff i j, e.beq_iff k j, get-insert m k j v)

  pub get-remove :
      (m : Dict K V) (k j : K) → get (remove m k) j ≡ (if e.beq k j then none else get m j)
  unfolding get remove
  get-remove [] k j = ground arith
  get-remove ((i, w) ∷ m) k j =
      ground (arith, e.beq_iff i k, e.beq_iff i j, e.beq_iff k j, get-remove m k j)

  -- `retain` by a test of the key.
  unfoldable pub retain_keys : (K → Bool) → Dict K V → Dict K V
  retain_keys p [] = []
  retain_keys p ((j, w) ∷ m) = if p j then (j, w) ∷ retain_keys p m else retain_keys p m

  pub get-retain_keys :
      (p : K → Bool) (m : Dict K V) (k : K)
      → get (retain_keys p m) k ≡ (if p k then get m k else none)
  unfolding get retain_keys
  get-retain_keys p [] k = ground arith
  get-retain_keys p ((j, w) ∷ m) k = ground (arith, e.beq_iff j k, get-retain_keys p m k)

  -- No key stands twice, as in every map that `insert` and `remove` build.
  abbrev pub IsUnique : Dict K V → Type κ
  IsUnique [] = Unit
  IsUnique ((j, w) ∷ m) = (get m j ≡ none) × IsUnique m

  pub insert-IsUnique : (m : Dict K V) (k : K) (v : V) → IsUnique m → IsUnique (insert m k v)
  unfolding insert get
  insert-IsUnique [] k v h = (refl, tt)
  insert-IsUnique ((j, w) ∷ m) k v h =
      ground (arith, insert-IsUnique m k v, get-insert m k j v, e.beq_iff j k, e.beq_iff k j)

  pub remove-IsUnique : (m : Dict K V) (k : K) → IsUnique m → IsUnique (remove m k)
  unfolding remove
  remove-IsUnique [] k h = tt
  remove-IsUnique ((j, w) ∷ m) k h = ground (arith, remove-IsUnique m k, get-remove m k j)

  pub length-insert :
      (m : Dict K V) (k : K) (v : V) → length (insert m k v) + present (get m k) ≡ length m + 1
  unfolding insert get
  length-insert [] k v = refl
  length-insert ((j, w) ∷ m) k v = ground (arith, length-insert m k v)

  remove-absent : (m : Dict K V) (k : K) → get m k ≡ none → remove m k ≡ m
  unfolding remove get
  remove-absent [] k h = refl
  remove-absent ((j, w) ∷ m) k h = ground (arith, remove-absent m k)

  pub length-remove :
      (m : Dict K V) (k : K) → IsUnique m → length (remove m k) + present (get m k) ≡ length m
  unfolding remove get
  length-remove [] k h = refl
  length-remove ((j, w) ∷ m) k h =
      ground (arith, length-remove m k, remove-absent m k, e.beq_iff j k)

pub ruleset dict_laws = (get-insert, get-remove, get-retain_keys)
