-- ===== src/Signing/Tamper.antt =====
-- Two logs that verify and end in the same link hold the same records, or two of their links collide.
use rust_yamp.Prelude.{
  ◌≡◌, refl, ap, ◌≢◌, ◌⊎◌, inl, inr, true, List, [], ◌∷◌, ◌++◌, map, arith, length, Text, Bytes,
  text_eq, eq_of_text_eq, text_eq_iff, Bool-cases, ascii,
}
use rust_yamp.Json.{Json, index}
use rust_yamp.Signing.{chain, str_at, intact, verify_from, verify_log, AuditLog}
use rust_yamp.Signing.Sha256.{sha256_hex}
use rust_yamp.Signing.Digests.{sha256_hex-length}
use rust_yamp.Signing.Verified.{last_hash}

append-injective :
    {A : Type 0} (a b c d : List A) → length a ≡ length b → a ++ c ≡ b ++ d → (a ≡ b) × (c ≡ d)
append-injective [] [] c d l h = (refl, h)
append-injective [] (y ∷ b) c d l h = absurd (omega (arith, l))
append-injective (x ∷ a) [] c d l h = absurd (omega (arith, l))
append-injective (x ∷ a) (y ∷ b) c d l h = ground (arith, append-injective a b c d)

module _ (canonical : Json → Bytes) where
  -- What each entry records, as the bytes that are signed.
  abbrev pub recorded : List Json → List Bytes
  recorded es = map (λ (e : Json). canonical (index e (ascii "record"))) es

  -- What is hashed to the link of an entry.
  abbrev pub link : Text → Json → Bytes
  link head e = head ++ b'|' ∷ canonical (index e (ascii "record"))

  -- Two different inputs with one digest.
  abbrev pub Collide : Bytes → Bytes → Type 0
  Collide a b = (a ≢ b) × (sha256_hex a ≡ sha256_hex b)

  -- At some position the inputs of the two logs' links collide.
  abbrev pub Collides : Text → Text → List Json → List Json → Type 0
  Collides head head' [] es' = ⊥
  Collides head head' (e ∷ es) [] = ⊥
  Collides head head' (e ∷ es) (e' ∷ es') =
      Collide (link head e) (link head' e')
      ⊎ Collides (str_at canonical e (ascii "hash")) (str_at canonical e' (ascii "hash")) es es'

  intact-hash :
      (secret head : Text) (e : Json)
      → intact canonical secret head e ≡ true
      → str_at canonical e (ascii "hash") ≡ chain canonical head (index e (ascii "record"))
  unfolding intact
  intact-hash secret head e h = ground (
    arith,
    text_eq_iff (chain canonical head (index e (ascii "record")))
        (str_at canonical e (ascii "hash")),
  )

  -- Equal links have equal parts, or collide.
  chain-parts :
      (h h' : Text) (e e' : Json)
      → length h ≡ length h'
      → chain canonical h (index e (ascii "record"))
        ≡ chain canonical h' (index e' (ascii "record"))
      → ((h ≡ h') × (canonical (index e (ascii "record")) ≡ canonical (index e' (ascii "record"))))
        ⊎ Collide (link h e) (link h' e')
  unfolding chain
  chain-parts h h' e e' l q =
      let a = link h e in
      let b = link h' e' in
      elim (Bool-cases (text_eq a b)) [
        | inl same ↦
            let (p, r) =
              append-injective h h' (b'|' ∷ canonical (index e (ascii "record")))
                (b'|' ∷ canonical (index e' (ascii "record"))) l (eq_of_text_eq a b same) in
            inl (p, cc r)
        | inr other ↦ inr ((λ same. cc (other, (text_eq_iff a b).1 same)), q)
      ]

  chain-length : (h : Text) (r : Json) → length (chain canonical h r) ≡ 64
  unfolding chain
  chain-length h r = sha256_hex-length (h ++ b'|' ∷ canonical r)

  verified_tail :
      (secret head : Text) (e : Json) (es : List Json)
      → verify_from canonical secret head (e ∷ es) ≡ true
      → (str_at canonical e (ascii "hash") ≡ chain canonical head (index e (ascii "record")))
        × (verify_from canonical secret (str_at canonical e (ascii "hash")) es ≡ true)
  unfolding verify_from
  verified_tail secret head e es h = ground (arith, intact-hash secret head e)

  same_chain :
      (secret secret' h h' : Text) (es es' : List Json)
      → length h ≡ length h'
      → length es ≡ length es'
      → verify_from canonical secret h es ≡ true
      → verify_from canonical secret' h' es' ≡ true
      → last_hash canonical h es ≡ last_hash canonical h' es'
      → ((h ≡ h') × (recorded es ≡ recorded es')) ⊎ Collides h h' es es'
  same_chain secret secret' h h' [] [] l n v v' e = inl (e, refl)
  same_chain secret secret' h h' [] (x ∷ es') l n v v' e = absurd (omega (arith, n))
  same_chain secret secret' h h' (x ∷ es) [] l n v v' e = absurd (omega (arith, n))
  same_chain secret secret' h h' (x ∷ es) (x' ∷ es') l n v v' e =
      let (p, t) = verified_tail secret h x es v in
      let (p', t') = verified_tail secret' h' x' es' v' in
      let k = str_at canonical x (ascii "hash") in
      let k' = str_at canonical x' (ascii "hash") in
      let r = index x (ascii "record") in
      let r' = index x' (ascii "record") in
      let len : length k ≡ length k' =
        omega (arith, ap length p, ap length p', chain-length h r, chain-length h' r') in
      elim (same_chain secret secret' k k' es es' len (omega (arith, n)) t t' e) [
        | inr later ↦ inr (inr later)
        | inl (same, rest) ↦ elim (chain-parts h h' x x' l (cc (p, p', same))) [
          | inr here ↦ inr (inl here)
          | inl (heads, canon) ↦ inl (heads, cc (canon, rest))
        ]
      ]

  -- Two logs of the same length that verify, under whatever secrets, and whose last links are equal
  -- hold records with the same canonical bytes, or at some position the inputs of their links are
  -- two that SHA-256 maps to one digest: without a collision no record can be changed, swapped or
  -- replaced unless the last link changes too.
  pub tamper_evident :
      (log log' : AuditLog)
      → length log.genesis ≡ length log'.genesis
      → length log.records ≡ length log'.records
      → verify_log canonical log ≡ true
      → verify_log canonical log' ≡ true
      → last_hash canonical log.genesis log.records ≡ last_hash canonical log'.genesis log'.records
      → (recorded log.records ≡ recorded log'.records)
        ⊎ Collides log.genesis log'.genesis log.records log'.records
  unfolding verify_log
  tamper_evident log log' g n v v' e =
      elim (same_chain log.secret log'.secret log.genesis log'.genesis log.records log'.records g n
        v v' e) [ inl (heads, same) ↦ inl same | inr collision ↦ inr collision ]
