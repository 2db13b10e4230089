-- ===== src/Capability/Intersection.antt =====
-- The intersection of tool lists in src/capability.rs.
use rust_yamp.Prelude.{
  ◌≡◌, refl, inl, inr, Bool, false, not, ◌&&◌, ◌||◌, List, [], ◌∷◌, ◌++◌, arith, Bool-cases, all,
  retain, Text, text_eq_refl, text_eq_iff,
}
use rust_yamp.Prelude.Sort.{elem}
use rust_yamp.Json.{Json}
use rust_yamp.Capability.{tool_name, names, flatten, common_from, common, pick, intersection}

elem-retain :
    (k : Text) (ns ms : List Text) → elem k (retain (λ n. elem n ms) ns) ≡ (elem k ns && elem k ms)
unfolding elem
elem-retain k [] ms = refl
elem-retain k (n ∷ ns) ms = ground (arith, elem-retain k ns ms, text_eq_iff n k)

-- A name is offered by every backend.
abbrev pub everywhere : Text → List (List Json) → Bool
everywhere k bs = all (λ b. elem k (names b)) bs

elem-common_from :
    (k : Text) (existing : List Text) (bs : List (List Json))
    → elem k (common_from existing bs) ≡ (elem k existing && everywhere k bs)
unfolding common_from
elem-common_from k existing [] = ground arith
elem-common_from k existing (b ∷ bs) = ground (
  arith,
  elem-common_from k (retain (λ n. elem n (names b)) existing) bs,
  elem-retain k existing (names b),
)

elem-pick :
    (k : Text) (shared seen : List Text) (tools : List Json)
    → elem k (names (pick shared seen tools))
      ≡ (elem k shared && (not (elem k seen) && elem k (names tools)))
unfolding pick elem
elem-pick k shared seen [] = ground arith
elem-pick k shared seen (t ∷ ts) = ground (
  arith,
  elem-pick k shared (tool_name t ∷ seen) ts,
  elem-pick k shared seen ts,
  text_eq_iff (tool_name t) k,
)

elem-append :
    (k : Text) (xs ys : List Json)
    → elem k (names (xs ++ ys)) ≡ (elem k (names xs) || elem k (names ys))
unfolding elem
elem-append k [] ys = refl
elem-append k (x ∷ xs) ys = ground (arith, elem-append k xs ys)

-- No two tools have the same name.
abbrev pub DistinctNames : List Json → Type 0
DistinctNames [] = Unit
DistinctNames (t ∷ ts) = (elem (tool_name t) (names ts) ≡ false) × DistinctNames ts

pick_once :
    (k : Text) (shared seen : List Text) (tools : List Json)
    → elem k (names (pick shared (k ∷ seen) tools)) ≡ false
unfolding elem
pick_once k shared seen tools = ground (arith, elem-pick k shared (k ∷ seen) tools, text_eq_refl k)

pick-DistinctNames :
    (shared seen : List Text) (tools : List Json) → DistinctNames (pick shared seen tools)
unfolding pick
pick-DistinctNames shared seen [] = tt
pick-DistinctNames shared seen (t ∷ ts) =
    elim (Bool-cases (elem (tool_name t) shared && not (elem (tool_name t) seen))) [
      | inl e ↦ rw e (
        pick_once (tool_name t) shared seen ts,
        pick-DistinctNames shared (tool_name t ∷ seen) ts,
      )
      | inr e ↦ rw e (pick-DistinctNames shared seen ts)
    ]

none_seen : (k : Text) → elem k [] ≡ false
unfolding elem
none_seen k = refl

-- An intersection offers exactly the names that every backend offers, each once.
intersection-names :
    (b : List Json) (bs : List (List Json))
    → ((k : Text) → elem k (names (intersection (b ∷ bs))) ≡ everywhere k (b ∷ bs))
      × DistinctNames (intersection (b ∷ bs))
unfolding intersection common
intersection-names b bs = (
  λ k. ground (
    arith,
    elem-pick k (common_from (names b) bs) [] (flatten (b ∷ bs)),
    elem-common_from k (names b) bs,
    elem-append k b (flatten bs),
    none_seen k,
  ),
  pick-DistinctNames (common (b ∷ bs)) [] (flatten (b ∷ bs)),
)
