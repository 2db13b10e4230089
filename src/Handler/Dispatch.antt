-- ===== src/Handler/Dispatch.antt =====
-- Which handler of src/handler.rs serves a name.
use rust_yamp.Prelude.{
  ◌≡◌, refl, ap, ◌↔◌, inl, inr, true, false, Option, none, some, List, [], ◌∷◌, arith, Bool-cases,
  All, Text, text_eq, text_eq_refl, Result, ok, err,
}
use rust_yamp.Prelude.Sort.{elem}
use rust_yamp.Namespace.{valid_backend_id}
use rust_yamp.Handler.{Handler, Registry, check_ids, registered, new, find_handler, handler_for}

-- No handler has one of the ids.
abbrev Fresh : List Text → Handler → Type 0
Fresh seen h = elem h.id seen ≡ false

-- Every id is valid, and no two are the same.
abbrev pub WellNamed : List Handler → Type 0
WellNamed [] = Unit
WellNamed (h ∷ hs) =
    (valid_backend_id h.id ≡ true)
    × All (λ (g : Handler). text_eq h.id g.id ≡ false) hs
    × WellNamed hs

split_seen :
    (hs : List Handler) (id : Text) (seen : List Text)
    → All (Fresh (id ∷ seen)) hs
    → All (λ (g : Handler). text_eq id g.id ≡ false) hs × All (Fresh seen) hs
unfolding elem
split_seen [] id seen h = (tt, tt)
split_seen (g ∷ hs) id seen h =
    let (rest, older) = split_seen hs id seen h.1 in
    ((ground (arith, h.0), rest), (ground (arith, h.0), older))

join_seen :
    (hs : List Handler) (id : Text) (seen : List Text)
    → All (λ (g : Handler). text_eq id g.id ≡ false) hs
    → All (Fresh seen) hs
    → All (Fresh (id ∷ seen)) hs
unfolding elem
join_seen [] id seen h o = tt
join_seen (g ∷ hs) id seen h o = (ground (arith, h.0, o.0), join_seen hs id seen h.1 o.1)

check_ids-WellNamed :
    (hs : List Handler) (seen : List Text)
    → check_ids hs seen ≡ none
    → All (Fresh seen) hs × WellNamed hs
unfolding check_ids
check_ids-WellNamed [] seen h = (tt, tt)
check_ids-WellNamed (g ∷ hs) seen h = elim (Bool-cases (valid_backend_id g.id)) [
  | inl v ↦ elim (Bool-cases (elem g.id seen)) [
    | inl d ↦ absurd (stuck (rw (v, d) at h))
    | inr d ↦
        let (fresh, well) = check_ids-WellNamed hs (g.id ∷ seen) (rw (v, d) at h) in
        let (apart, older) = split_seen hs g.id seen fresh in ((d, older), (v, apart, well))
  ]
  | inr v ↦ absurd (stuck (rw v at h))
]
  where
    stuck : {m : Text} → some m ≡ none → ⊥
    stuck h = cc

check_ids-none :
    (hs : List Handler) (seen : List Text)
    → All (Fresh seen) hs
    → WellNamed hs
    → check_ids hs seen ≡ none
unfolding check_ids
check_ids-none [] seen f w = refl
check_ids-none (g ∷ hs) seen f (v, apart, well) =
    rw (v, f.0) (check_ids-none hs (g.id ∷ seen) (join_seen hs g.id seen apart f.1) well)

none-Fresh : (hs : List Handler) → All (Fresh []) hs
unfolding elem
none-Fresh [] = tt
none-Fresh (g ∷ hs) = (refl, none-Fresh hs)

accepted :
    (hs : List Handler) (r : Registry) (o : Option Text)
    → registered hs o ≡ ok r
    → (o ≡ none) × (hs ≡ r.handlers)
accepted hs r none h = (refl, of_ok (ap handlers_of h))
  where
    handlers_of : Result Registry → Option (List Handler)
    handlers_of (err e) = none
    handlers_of (ok s) = some s.handlers

    of_ok : some hs ≡ some r.handlers → hs ≡ r.handlers
    of_ok e = cc
accepted hs r (some m) h = absurd (cc)

-- A registry is built exactly when every handler id is a valid backend id and no two are the same.
new_iff : (hs : List Handler) → ((r : Registry) × (new hs ≡ ok r)) ↔ WellNamed hs
unfolding new
new_iff hs = (
  λ (r, h). (check_ids-WellNamed hs [] (accepted hs r (check_ids hs []) h).0).1,
  λ w. (record { handlers = hs }, ap (registered hs) (check_ids-none hs [] (none-Fresh hs) w)),
)

find_later :
    (h : Handler) (hs gs : List Handler)
    → All (λ (g : Handler). text_eq h.id g.id ≡ false) gs
    → All (λ (g : Handler). find_handler hs g.id ≡ some g) gs
    → All (λ (g : Handler). find_handler (h ∷ hs) g.id ≡ some g) gs
unfolding find_handler
find_later h hs [] a f = tt
find_later h hs (g ∷ gs) a f = (rw a.0 f.0, find_later h hs gs a.1 f.1)

find_handler-own :
    (hs : List Handler) → WellNamed hs → All (λ (h : Handler). find_handler hs h.id ≡ some h) hs
find_handler-own [] w = tt
find_handler-own (h ∷ hs) (v, apart, well) = (
  unfold find_handler in rw (text_eq_refl h.id) refl,
  find_later h hs hs apart (find_handler-own hs well),
)

-- In a registry that was built, each handler is the one that its id finds, so a tool listed under a
-- handler's id is served by that handler.
handler_for-own :
    (hs : List Handler) (r : Registry)
    → new hs ≡ ok r
    → All (λ (h : Handler). handler_for r h.id ≡ some h) hs
unfolding handler_for new
handler_for-own hs r h =
    let (none_, same) = accepted hs r (check_ids hs []) h in
    rw (← same) (find_handler-own hs (check_ids-WellNamed hs [] none_).1)
