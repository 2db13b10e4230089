-- ===== src/Collision/Manual.antt =====
-- What `resolve_manual` of src/collision.rs accepts.
use rust_yamp.Prelude.{
  ◌≡◌, refl, sym, ap, ◌∙◌, ◌↔◌, inl, inr, true, false, Option, none, some, List, [], ◌∷◌,
  Bool-cases, some_injective, All, Text, text_eq, text_eq_refl, eq_of_text_eq, ok, err,
}
use rust_yamp.Dict.{Dict, text_key, get, insert, get-insert}
use rust_yamp.Collision.{target, clash, resolve_loop, resolve_manual}

module _ (debug : Text → Text) (overrides : Dict Text Text) where
  -- Two different names never have the same target.
  abbrev pub Unambiguous : List Text → Type 0
  Unambiguous [] = Unit
  Unambiguous (n ∷ ns) =
      All (λ m. target debug overrides n ≡ target debug overrides m → n ≡ m) ns × Unambiguous ns

  -- Each name keeps the claim that an earlier one made on its target, which is its own.
  abbrev Agrees : Dict Text Text → Text → Type 0
  Agrees seen n = (o : Text) → get seen (target debug overrides n) ≡ some o → o ≡ n

  no_clash :
      (o : Option Text) (name other : Text)
      → clash debug overrides o name ≡ false
      → o ≡ some other
      → other ≡ name
  no_clash none name other h e = absurd (cc)
  no_clash (some x) name other h e =
      let same : x ≡ other = some_injective e in
      elim (Bool-cases (text_eq x name)) [
        | inl t ↦ sym same ∙ eq_of_text_eq x name t
        | inr t ↦ absurd (stuck (rw t at h))
      ]
    where
      stuck : true ≡ false → ⊥
      stuck h = cc

  claim_of :
      (seen : Dict Text Text) (n m : Text)
      → target debug overrides n ≡ target debug overrides m
      → get (insert seen (target debug overrides n) n) (target debug overrides m) ≡ some n
  claim_of seen n m e =
      rw (get-insert seen (target debug overrides n) (target debug overrides m) n, ← e)
        (rw (text_eq_refl (target debug overrides n)) refl)

  tail-Agrees :
      (seen : Dict Text Text) (n m : Text)
      → Agrees seen n
      → Agrees (insert seen (target debug overrides n) n) m
      → Agrees seen m
  tail-Agrees seen n m hn hm o g =
      elim (Bool-cases (text_eq (target debug overrides n) (target debug overrides m))) [
        | inl t ↦
            let e = eq_of_text_eq (target debug overrides n) (target debug overrides m) t in
            hn o (ap (get seen) e ∙ g) ∙ hm n (claim_of seen n m e)
        | inr t ↦
            hm o (get-insert seen (target debug overrides n) (target debug overrides m) n ∙ rw t g)
      ]

  module _ (P Q : Text → Type 0) where
    All-map : ((n : Text) → P n → Q n) → (ns : List Text) → All P ns → All Q ns
    All-map f [] h = tt
    All-map f (n ∷ ns) h = (f n h.0, All-map f ns h.1)

  resolve_loop-Agrees :
      (names : List Text) (seen exposed e : Dict Text Text)
      → resolve_loop debug overrides names seen exposed ≡ ok e
      → All (Agrees seen) names × Unambiguous names
  unfolding resolve_loop
  resolve_loop-Agrees [] seen exposed e h = (tt, tt)
  resolve_loop-Agrees (n ∷ ns) seen exposed e h =
      let to = target debug overrides n in
      elim (Bool-cases (clash debug overrides (get seen to) n)) [
        | inl c ↦ absurd (stuck (rw c at h))
        | inr c ↦
            let (later, unambiguous) =
              resolve_loop-Agrees ns (insert seen to n) (insert exposed n to) e (rw c at h) in
            let own : Agrees seen n = λ o g. no_clash (get seen to) n o c g in
            (
              (
                own,
                All-map (Agrees (insert seen to n)) (Agrees seen)
                    (λ m a. tail-Agrees seen n m own a) ns later,
              ),
              (
                All-map (Agrees (insert seen to n)) (λ m. to ≡ target debug overrides m → n ≡ m)
                    (λ m a same. a n (claim_of seen n m same)) ns later,
                unambiguous,
              ),
            )
      ]
    where
      stuck : {m : Text} → err m ≡ ok e → ⊥
      stuck h = cc

  clash-Agrees :
      (o : Option Text) (name : Text)
      → ((other : Text) → o ≡ some other → other ≡ name)
      → clash debug overrides o name ≡ false
  clash-Agrees none name h = refl
  clash-Agrees (some x) name h = rw (h x refl, text_eq_refl name) refl

  insert-Agrees :
      (seen : Dict Text Text) (n m : Text)
      → (target debug overrides n ≡ target debug overrides m → n ≡ m)
      → Agrees seen m
      → Agrees (insert seen (target debug overrides n) n) m
  insert-Agrees seen n m u a o g =
      elim (Bool-cases (text_eq (target debug overrides n) (target debug overrides m))) [
        | inl t ↦
            let e = eq_of_text_eq (target debug overrides n) (target debug overrides m) t in
            some_injective (sym g ∙ claim_of seen n m e) ∙ u e
        | inr t ↦ a o (sym (kept t) ∙ g)
      ]
    where
      kept :
          text_eq (target debug overrides n) (target debug overrides m) ≡ false
          → get (insert seen (target debug overrides n) n) (target debug overrides m)
            ≡ get seen (target debug overrides m)
      kept t = get-insert seen (target debug overrides n) (target debug overrides m) n ∙ rw t refl

  insert-All :
      (ns : List Text) (seen : Dict Text Text) (n : Text)
      → All (λ m. target debug overrides n ≡ target debug overrides m → n ≡ m) ns
      → All (Agrees seen) ns
      → All (Agrees (insert seen (target debug overrides n) n)) ns
  insert-All [] seen n u a = tt
  insert-All (m ∷ ns) seen n u a = (insert-Agrees seen n m u.0 a.0, insert-All ns seen n u.1 a.1)

  resolve_loop_complete :
      (names : List Text) (seen exposed : Dict Text Text)
      → All (Agrees seen) names
      → Unambiguous names
      → (e : Dict Text Text) × (resolve_loop debug overrides names seen exposed ≡ ok e)
  unfolding resolve_loop
  resolve_loop_complete [] seen exposed a u = (exposed, refl)
  resolve_loop_complete (n ∷ ns) seen exposed a u =
      let to = target debug overrides n in
      rw (clash-Agrees (get seen to) n a.0) (
        resolve_loop_complete ns (insert seen to n) (insert exposed n to)
          (insert-All ns seen n u.0 a.1) u.1)

  none-All : (names : List Text) → All (Agrees []) names
  unfolding get
  none-All [] = tt
  none-All (n ∷ ns) = (λ o g. cc, none-All ns)

  -- A startup is accepted exactly when no two different names are exposed under the same name.
  pub resolve_manual_iff :
      (names : List Text)
      → ((e : Dict Text Text) × (resolve_manual debug overrides names ≡ ok e)) ↔ Unambiguous names
  unfolding resolve_manual
  resolve_manual_iff names = (
    λ (e, h). (resolve_loop-Agrees names [] [] e h).1,
    λ u. resolve_loop_complete names [] [] (none-All names) u,
  )
