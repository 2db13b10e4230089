-- ===== src/Collision/Priority.antt =====
-- What `apply_priority` of src/collision.rs keeps.
use rust_yamp.Prelude.{
  ℕ, ◌≤◌, ◌≡◌, refl, sym, ap, ◌∙◌, ◌⊎◌, inl, inr, Option, none, some, List, [], ◌∷◌, arith, ltb,
  Bool-cases, some_injective, ◌>>=◌, All, Text, text_eq, text_eq_refl, eq_of_text_eq,
}
use rust_yamp.Dict.{Dict, text_key, get, insert, get-insert}
use rust_yamp.Json.{Json}
use rust_yamp.Collision.{Selection, original, rank_of, place, select, start}

module _ (split : Text → Option (Text × Text)) (priority : List Text) (field : Text) where
  abbrev pub name_of : Json → Text
  name_of t = original split priority field t

  abbrev pub rank : Json → ℕ
  rank t = rank_of split priority field t

  -- A tool of the same original name is kept, whose backend ranks no lower.
  abbrev pub Serves : Dict Text Json → Json → Type 0
  Serves kept t =
      (k : Json) × (get kept (name_of t) ≡ some k) × (name_of k ≡ name_of t) × (rank k ≤ rank t)

  -- The best rank of a name is that of the tool that is kept for it, which has that name.
  abbrev pub Consistent : Dict Text ℕ → Dict Text Json → Type 0
  Consistent best kept =
      (o : Text)
      → (get best o ≡ (get kept o >>= λ k. some (rank k)))
        × ((k : Json) → get kept o ≡ some k → name_of k ≡ o)

  pub insert-Consistent :
      (best : Dict Text ℕ) (kept : Dict Text Json) (t : Json)
      → Consistent best kept
      → Consistent (insert best (name_of t) (rank t)) (insert kept (name_of t) t)
  insert-Consistent best kept t c o =
      rw (get-insert best (name_of t) o (rank t), get-insert kept (name_of t) o t)
        (elim (Bool-cases (text_eq (name_of t) o)) [
          | inl e ↦ rw e (refl, λ k h. rw (← some_injective h) (eq_of_text_eq (name_of t) o e))
          | inr e ↦ rw e (c o)
        ])

  insert-Serves_self : (kept : Dict Text Json) (t : Json) → Serves (insert kept (name_of t) t) t
  insert-Serves_self kept t = (
    t,
    get-insert kept (name_of t) (name_of t) t ∙ rw (text_eq_refl (name_of t)) refl,
    refl,
    omega arith,
  )

  insert-Serves :
      (kept : Dict Text Json) (t other : Json)
      → ((k : Json) → get kept (name_of t) ≡ some k → rank t ≤ rank k)
      → Serves kept other
      → Serves (insert kept (name_of t) t) other
  insert-Serves kept t other better (k, at_name, named, r) =
      elim (Bool-cases (text_eq (name_of t) (name_of other))) [
        | inl e ↦
            let same = eq_of_text_eq (name_of t) (name_of other) e in
            let first = better k (ap (get kept) same ∙ at_name) in
            (
              t,
              get-insert kept (name_of t) (name_of other) t ∙ rw e refl,
              same,
              omega (arith, first, r),
            )
        | inr e ↦ (k, get-insert kept (name_of t) (name_of other) t ∙ rw e at_name, named, r)
      ]

  -- What one more tool does to the two maps: it is put there as the best so far, or they stay, and
  -- serve it already.
  abbrev pub Placed : Selection → Json → Selection → Type 0
  Placed s t s' =
      ((s'.best ≡ insert s.best (name_of t) (rank t))
        × (s'.kept ≡ insert s.kept (name_of t) t)
        × ((k : Json) → get s.kept (name_of t) ≡ some k → rank t ≤ rank k))
      ⊎ ((s'.best ≡ s.best) × (s'.kept ≡ s.kept) × Serves s.kept t)

  pub kept_of :
      (o : Option Json) (current : ℕ)
      → (o >>= λ k. some (rank k)) ≡ some current
      → (k : Json) × (o ≡ some k) × (rank k ≡ current)
  kept_of none current h = absurd (cc)
  kept_of (some k) current h = (k, refl, some_injective h)

  no_best : (o : Option Json) (k : Json) → (o >>= λ k. some (rank k)) ≡ none → o ≡ some k → ⊥
  no_best none k h e = cc
  no_best (some x) k h e = cc

  pub place-Placed :
      (s : Selection) (t : Json) (o : Option ℕ)
      → Consistent s.best s.kept
      → get s.best (name_of t) ≡ o
      → Placed s t (place split priority field s t o)
  unfolding place
  place-Placed s t none c h =
      inl (
        refl,
        refl,
        λ k e. absurd (no_best (get s.kept (name_of t)) k (sym (c (name_of t)).0 ∙ h) e),
      )
  place-Placed s t (some current) c h =
      let (k, at_name, is_current) =
        kept_of (get s.kept (name_of t)) current (sym (c (name_of t)).0 ∙ h) in
      elim (Bool-cases (ltb (rank t) current)) [
        | inl l ↦ rw l (
            inl (
              refl,
              refl,
              λ k' e.
                  let same : rank k ≡ rank k' = ap rank (some_injective (sym at_name ∙ e)) in
                  ground (arith, l, is_current, same),
            ))
        | inr l ↦ rw l (
            inr (
              refl,
              refl,
              (k, at_name, (c (name_of t)).1 k at_name, ground (arith, l, is_current)),
            ))
      ]

  -- One pass keeps what is known, and serves its tool too.
  pub place-Serves :
      (s s' : Selection) (t : Json)
      → Consistent s.best s.kept
      → Placed s t s'
      → Consistent s'.best s'.kept
        × Serves s'.kept t
        × ((other : Json) → Serves s.kept other → Serves s'.kept other)
  place-Serves s s' t c (inl (b, k, better)) =
      rw (b, k)
        (
          insert-Consistent s.best s.kept t c,
          insert-Serves_self s.kept t,
          λ other h. insert-Serves s.kept t other better h,
        )
  place-Serves s s' t c (inr (b, k, served)) = rw (b, k) (c, served, λ other h. h)

  select-Serves :
      (tools : List Json) (s : Selection)
      → Consistent s.best s.kept
      → All (Serves (select split priority field s tools).kept) tools
        × ((other : Json)
            → Serves s.kept other
            → Serves (select split priority field s tools).kept other)
  unfolding select
  select-Serves [] s c = (tt, λ other h. h)
  select-Serves (t ∷ tools) s c =
      let s' = place split priority field s t (get s.best (name_of t)) in
      let (c', own, older) =
        place-Serves s s' t c (place-Placed s t (get s.best (name_of t)) c refl) in
      let (rest, kept) = select-Serves tools s' c' in
      ((kept t own, rest), λ other h. kept other (older other h))

  pub start-Consistent : Consistent [] []
  unfolding get
  start-Consistent o = (refl, λ k h. cc)

  -- For each tool offered, the tool that is kept under its original name has that name and comes from
  -- a backend whose priority is at least as high.
  select-best :
      (tools : List Json)
      → All (Serves (select split priority field (start split priority field) tools).kept) tools
  select-best tools = (select-Serves tools (start split priority field) start-Consistent).0
