-- ===== src/Cache/History.antt =====
-- What a cache can serve after any sequence of the operations of src/cache.rs.
use rust_yamp.Prelude.{
  true, not, ◌&&◌, ◌≡◌, refl, sym, ◌∙◌, inl, inr, Option, none, some, List, [], ◌∷◌, Text, text_eq,
  text_eq_iff, text_eq_refl, eq_of_text_eq, if◌then◌else◌, arith, Bool-cases, Any, Any-imp,
  some_injective,
}
use rust_yamp.Float.{Float}
use rust_yamp.Json.{Json}
use rust_yamp.Dict.{Dict, pair_key, get-retain_keys, get-remove}
use rust_yamp.Dict
use rust_yamp.Cache.{
  Entry, ListCache, private, principal_eq, scope_of, new, get, put, serve, ttl_of,
  invalidate_backend,
}
use rust_yamp.Cache.Laws.{answer, get-answer, entry-put}

pub eq_of_principal_eq : (a b : Option Text) → principal_eq a b ≡ true → a ≡ b
unfolding principal_eq
eq_of_principal_eq none none h = refl
eq_of_principal_eq none (some b) h = cc
eq_of_principal_eq (some a) none h = cc
eq_of_principal_eq (some a) (some b) h = cc (eq_of_text_eq a b h)

pub data Op (F64 : Type 0) : Type 0 where
  store : Text → Text → Option Text → Json → F64 → Op F64
  fetch : Text → Text → Option Text → F64 → Op F64
  invalidate : Text → Op F64

module _ (f : Float) where
  open f use {F64, from_u64, add, div, le}

  unfoldable pub step : ListCache F64 → Op F64 → ListCache F64
  step c (store b m p result now) = put f c b m p result now
  step c (fetch b m p now) = (get f c b m p now).1
  step c (invalidate b) = invalidate_backend f c b

  -- The operations of a history, the latest first.
  unfoldable pub run : ListCache F64 → List (Op F64) → ListCache F64
  unfolding step
  run c [] = c
  run c (op ∷ earlier) = step (run c earlier) op

  abbrev StoredBy : Text × Text → Entry F64 → Op F64 → Type 0
  StoredBy key e (store b m p result now) =
      (b ≡ key.0)
      × (m ≡ key.1)
      × (e.result ≡ result)
      × (e.scope ≡ scope_of result)
      × (e.principal ≡ (if text_eq (scope_of result) private then p else none))
  StoredBy key e _ = ⊥

  -- The operation put this result there, for this principal if the result is private.
  abbrev pub Supplied : Text → Text → Option Text → Json → Op F64 → Type 0
  Supplied backend method asking result (store b m p r now) =
      (b ≡ backend) × (m ≡ method) × (r ≡ result) × (scope_of result ≡ private → p ≡ asking)
  Supplied backend method asking result _ = ⊥

  IsTraced : ListCache F64 → List (Op F64) → Type 0
  IsTraced c ops =
      (key : Text × Text) (e : Entry F64)
      → Dict.get c.entries key ≡ some e
      → Any (StoredBy key e) ops

  put-IsTraced :
      (c : ListCache F64) (ops : List (Op F64)) (b m : Text) (p : Option Text) (result : Json)
      (now : F64)
      → IsTraced c ops
      → IsTraced (put f c b m p result now) (store b m p result now ∷ ops)
  unfolding IsTraced
  put-IsTraced c ops b m p result now h key e g =
      let g' = rw (entry-put f c b m p result now key) at g in
      elim (Bool-cases (text_eq b key.0 && text_eq m key.1)) [
        | inl q ↦ elim (Bool-cases (le (ttl_of f c result) (from_u64 0))) [
          | inl stale ↦ absurd (let no_entry : none ≡ some e = rw (q, stale) at g' in cc)
          | inr fresh ↦
              let e' = some_injective (rw (q, fresh) at g') in
              inl (ground (arith, q, e', eq_of_text_eq b key.0, eq_of_text_eq m key.1))
        ]
        | inr q ↦ inr (h key e (rw q at g'))
      ]

  -- A `get` at most removes an entry.
  serve-keeps :
      (c : ListCache F64) (at key : Text × Text) (p : Option Text) (now : F64)
      (o : Option (Entry F64)) (e : Entry F64)
      → Dict.get (serve f c at p now o).1.entries key ≡ some e
      → Dict.get c.entries key ≡ some e
  unfolding serve
  serve-keeps c at key p now none e g = g
  serve-keeps c at key p now (some found) e g = ground (arith, get-remove c.entries at key)

  fetch-IsTraced :
      (c : ListCache F64) (ops : List (Op F64)) (b m : Text) (p : Option Text) (now : F64)
      → IsTraced c ops
      → IsTraced (get f c b m p now).1 (fetch b m p now ∷ ops)
  unfolding IsTraced get
  fetch-IsTraced c ops b m p now h key e g =
      inr (h key e (serve-keeps c (b, m) key p now (Dict.get c.entries (b, m)) e g))

  invalidate-IsTraced :
      (c : ListCache F64) (ops : List (Op F64)) (b : Text)
      → IsTraced c ops
      → IsTraced (invalidate_backend f c b) (invalidate b ∷ ops)
  unfolding IsTraced invalidate_backend
  invalidate-IsTraced c ops b h key e g = inr (
      h key e
        (ground (arith, get-retain_keys (λ (k : Text × Text). not (text_eq k.0 b)) c.entries key)))

  new-IsTraced : (default_ttl : F64) → IsTraced (new f default_ttl) []
  unfolding IsTraced new
  new-IsTraced d key e g = unfold Dict.get in cc

  run-IsTraced :
      (default_ttl : F64) (ops : List (Op F64)) → IsTraced (run (new f default_ttl) ops) ops
  unfolding run
  run-IsTraced d [] = new-IsTraced d
  run-IsTraced d (store b m p result now ∷ ops) =
      put-IsTraced _ ops b m p result now (run-IsTraced d ops)
  run-IsTraced d (fetch b m p now ∷ ops) = fetch-IsTraced _ ops b m p now (run-IsTraced d ops)
  run-IsTraced d (invalidate b ∷ ops) = invalidate-IsTraced _ ops b (run-IsTraced d ops)

  -- An entry that is shown to this principal.
  abbrev Shows : Option Text → Json → Entry F64 → Type 0
  Shows asking result e = (e.result ≡ result) × (e.scope ≡ private → e.principal ≡ asking)

  answer-some :
      (asking : Option Text) (now : F64) (o : Option (Entry F64)) (result : Json)
      → answer f asking now o ≡ some result
      → (e : Entry F64) × (o ≡ some e) × Shows asking result e
  answer-some asking now none result h = absurd (cc)
  answer-some asking now (some e) result h =
      (e, refl, ground (arith, text_eq_iff e.scope private, eq_of_principal_eq e.principal asking))

  Supplied-of_stored :
      (b m : Text) (asking : Option Text) (result : Json) (e : Entry F64)
      → Shows asking result e
      → (op : Op F64) → StoredBy (b, m) e op
      → Supplied b m asking result op
  Supplied-of_stored b m asking result e s (store b' m' p r now) (p0, p1, p2, p3, p4) =
      let same : r ≡ result = sym p2 ∙ s.0 in
      (
        p0,
        p1,
        same,
        λ q.
            let q' : scope_of r ≡ private = rw same q in
            let owner : e.principal ≡ p = rw (q', text_eq_refl private) at p4 in
            sym owner ∙ s.1 (p3 ∙ q'),
      )
  Supplied-of_stored b m asking result e s (fetch b' m' p now) x = x
  Supplied-of_stored b m asking result e s (invalidate b') x = x

  -- Whatever operations ran on a new cache, a result that it serves was stored under that very
  -- backend and method, and if it is private, by the principal that now asks.
  pub served_was_stored :
      (default_ttl : F64) (ops : List (Op F64)) (b m : Text) (asking : Option Text) (now : F64)
      (result : Json)
      → (get f (run (new f default_ttl) ops) b m asking now).0 ≡ some result
      → Any (Supplied b m asking result) ops
  served_was_stored d ops b m asking now result h =
      let c = run (new f d) ops in
      let (e, found, shows) =
        answer-some asking now (Dict.get c.entries (b, m)) result
          (rw (get-answer f c b m asking now) at h) in
      Any-imp (Supplied-of_stored b m asking result e shows) ops
        (unfold IsTraced in run-IsTraced d ops (b, m) e found)
