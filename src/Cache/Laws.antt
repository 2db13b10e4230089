-- ===== src/Cache/Laws.antt =====
-- What `get` of src/cache.rs answers after each of the other operations.
use rust_yamp.Prelude.{
  not, ◌&&◌, ◌||◌, ◌≡◌, refl, Option, none, some, Text, text_eq, text_eq_comm, if◌then◌else◌, arith,
  Bool-cases, inl, inr,
}
use rust_yamp.Float.{Float}
use rust_yamp.Json.{Json}
use rust_yamp.Dict.{Dict, pair_key, get-insert, get-remove, get-retain_keys}
use rust_yamp.Dict
use rust_yamp.Cache.{
  Entry, ListCache, private, principal_eq, scope_of, get, put, serve, ttl_of, invalidate_backend,
}

module _ (f : Float) where
  open f use {F64, from_u64, add, div, le}

  -- An answer that a fresh result gives to a principal.
  abbrev pub shown : Option Text → Option Text → Json → Option Json
  shown owner asking result =
      if text_eq (scope_of result) private && not (principal_eq owner asking)
      then none
      else some result

  -- The answer alone, without the removal of an expired entry.
  abbrev pub answer : Option Text → F64 → Option (Entry F64) → Option Json
  answer asking now none = none
  answer asking now (some entry) =
      if le entry.expires_at now
      then none
      else if text_eq entry.scope private && not (principal_eq entry.principal asking)
      then none
      else some entry.result

  serve-answer :
      (c : ListCache F64) (key : Text × Text) (p : Option Text) (now : F64) (o : Option (Entry F64))
      → (serve f c key p now o).0 ≡ answer p now o
  unfolding serve
  serve-answer c key p now none = refl
  serve-answer c key p now (some entry) = ground arith

  pub get-answer :
      (c : ListCache F64) (b m : Text) (p : Option Text) (now : F64)
      → (get f c b m p now).0 ≡ answer p now (Dict.get c.entries (b, m))
  unfolding get
  get-answer c b m p now = serve-answer c (b, m) p now (Dict.get c.entries (b, m))

  -- What `put` stores, if the time to live is positive.
  abbrev stored : ListCache F64 → Option Text → Json → F64 → Entry F64
  stored c p result now = record {
    result = result;
    expires_at = add now (div (ttl_of f c result) (from_u64 1000));
    scope = scope_of result;
    principal = if text_eq (scope_of result) private then p else none;
  }

  pub entry-put :
      (c : ListCache F64) (b m : Text) (p : Option Text) (result : Json) (now : F64)
      (key : Text × Text)
      → Dict.get (put f c b m p result now).entries key ≡ (
          if text_eq b key.0 && text_eq m key.1
          then (if le (ttl_of f c result) (from_u64 0) then none else some (stored c p result now))
          else Dict.get c.entries key)
  unfolding put
  entry-put c b m p result now key = elim (Bool-cases (le (ttl_of f c result) (from_u64 0))) [
    | inl e ↦ rw e (get-remove c.entries (b, m) key)
    | inr e ↦ rw e (get-insert c.entries (b, m) key (stored c p result now))
  ]

  answer-stored :
      (c : ListCache F64) (p p' : Option Text) (result : Json) (now later : F64)
      → answer p' later
          (if le (ttl_of f c result) (from_u64 0) then none else some (stored c p result now))
        ≡ (if le (ttl_of f c result) (from_u64 0)
              || le (add now (div (ttl_of f c result) (from_u64 1000))) later
            then none
            else shown p p' result)
  answer-stored c p p' result now later = elim (Bool-cases (le (ttl_of f c result) (from_u64 0))) [
    | inl e ↦ rw e
    | inr e ↦
        rw e (elim (Bool-cases (text_eq (scope_of result) private)) [ inl q ↦ rw q | inr q ↦ rw q ])
  ]

  -- The whole behaviour of a `get` behind a `put`: the same key shows the result exactly while it is
  -- fresh, to every principal if it is public and to its owner if it is private, and a result
  -- whose time to live is not positive leaves nothing; another key answers as before.
  pub get-put :
      (c : ListCache F64) (b m b' m' : Text) (p p' : Option Text) (result : Json) (now later : F64)
      → (get f (put f c b m p result now) b' m' p' later).0 ≡ (
          if text_eq b b' && text_eq m m'
          then (if le (ttl_of f c result) (from_u64 0)
                || le (add now (div (ttl_of f c result) (from_u64 1000))) later
              then none
              else shown p p' result)
          else (get f c b' m' p' later).0)
  get-put c b m b' m' p p' result now later = rw get-answer (
      rw (get-answer c b' m' p' later) (
        rw entry-put (elim (Bool-cases (text_eq b b' && text_eq m m')) [
          | inl e ↦ rw e (answer-stored c p p' result now later)
          | inr e ↦ rw e
        ])))

  -- After an invalidation nothing of that backend is served, and every other answer is as before.
  pub get-invalidate_backend :
      (c : ListCache F64) (b b' m' : Text) (p' : Option Text) (later : F64)
      → (get f (invalidate_backend f c b) b' m' p' later).0
        ≡ (if text_eq b b' then none else (get f c b' m' p' later).0)
  unfolding invalidate_backend
  get-invalidate_backend c b b' m' p' later = rw get-answer (
      rw (get-answer c b' m' p' later) (
        rw (get-retain_keys, text_eq_comm b' b)
          (elim (Bool-cases (text_eq b b')) [ inl e ↦ rw e | inr e ↦ rw e ])))
