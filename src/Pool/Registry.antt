-- ===== src/Pool/Registry.antt =====
-- The registry of src/pool.rs: its answers, its size and the order of a reap.
use rust_yamp.Prelude.{
  ℕ, ◌≤◌, ◌<◌, ◌≡◌, refl, Bool, false, ◌&&◌, Option, none, some, List, [], ◌∷◌, Text, text_eq,
  text_eq_iff, if◌then◌else◌, arith,
}
use rust_yamp.Prelude.Sort.{elem, elem-sort, sort-IsSorted, IsSorted}
use rust_yamp.Json.{Json}
use rust_yamp.Dict.{
  Dict, text_key, get-insert, get-remove, IsUnique, insert-IsUnique, remove-IsUnique, length-insert,
  length-remove, present,
}
use rust_yamp.Dict
use rust_yamp.Pool.{
  InFlight, admit, count, at_capacity, expired, expired_keys, expired_ids, register, contains,
  touch, remove,
}

-- Whether the deadline under a key, if there is one, has passed.
abbrev pub overdue : Option ℕ → ℕ → Bool
overdue none now = false
overdue (some d) now = expired d now

elem-expired_keys :
    (k : Text) (m : Dict Text ℕ) (now : ℕ)
    → IsUnique m
    → elem k (expired_keys m now) ≡ overdue (Dict.get m k) now
unfolding elem expired_keys Dict.get
elem-expired_keys k [] now h = refl
elem-expired_keys k ((j, d) ∷ m) now h = ground (arith, elem-expired_keys k m now, text_eq_iff j k)

-- From a registry in which no id stands twice, a reap takes exactly the calls whose deadline has
-- passed, in sorted order.
expired_ids_lem :
    (s : InFlight) (now : ℕ)
    → IsUnique s.deadlines
    → ((k : Text) → elem k (expired_ids s now) ≡ overdue (Dict.get s.deadlines k) now)
      × IsSorted (expired_ids s now)
unfolding expired_ids
expired_ids_lem s now h = (
  λ k. rw elem-sort (elem-expired_keys k s.deadlines now h),
  sort-IsSorted (expired_keys s.deadlines now),
)

module _ (id_key : Json → Text) where
  -- What happens to the registry where calls are registered only if `at_capacity` allows it.
  pub data Op : Type 0 where
    start : Json → ℕ → Op
    progress : Json → ℕ → Op
    finish : Json → Op

  unfoldable pub step : ℕ → InFlight → Op → InFlight
  step cap s (start id d) = if at_capacity s cap then s else register id_key s id d
  step cap s (progress id d) = (touch id_key s id d).0
  step cap s (finish id) = (remove id_key s id).0

  unfoldable pub run : ℕ → InFlight → List Op → InFlight
  unfolding step
  run cap s [] = s
  run cap s (op ∷ ops) = run cap (step cap s op) ops

  pub record IsBounded (cap : ℕ) (s : InFlight) : Type 0 where
    pub unique : IsUnique s.deadlines
    pub capped : 0 < cap → count s ≤ cap

  step-IsBounded :
      (cap : ℕ) (s : InFlight) (op : Op) → IsBounded cap s → IsBounded cap (step cap s op)
  unfolding step register touch remove count at_capacity admit
  step-IsBounded cap s (start id d) h =
      ground
        (arith, insert-IsUnique s.deadlines (id_key id) d, length-insert s.deadlines (id_key id) d)
  step-IsBounded cap s (progress id d) h =
      ground
        (arith, insert-IsUnique s.deadlines (id_key id) d, length-insert s.deadlines (id_key id) d)
  step-IsBounded cap s (finish id) h =
      ground (arith, remove-IsUnique s.deadlines (id_key id), length-remove s.deadlines (id_key id))

  -- From a registry that is within a positive cap, no sequence of starts, progress and ends lets more calls be in flight than
  -- the cap.
  pub run-IsBounded :
      (cap : ℕ) (ops : List Op) (s : InFlight) → IsBounded cap s → IsBounded cap (run cap s ops)
  unfolding run
  run-IsBounded cap [] s h = h
  run-IsBounded cap (op ∷ ops) s h =
      run-IsBounded cap ops (step cap s op) (step-IsBounded cap s op h)

  -- `touch` moves the deadline of a call that is in flight, says whether there is one, and changes
  -- nothing else; `remove` drops one call and says whether it was there.
  pub touch-remove_lem :
      (s : InFlight) (id : Json) (d : ℕ) (k : Text)
      → ((touch id_key s id d).1 ≡ contains id_key s id)
        × (Dict.get (touch id_key s id d).0.deadlines k ≡ (
            if text_eq (id_key id) k && contains id_key s id
            then some d
            else Dict.get s.deadlines k))
        × ((remove id_key s id).1 ≡ contains id_key s id)
        × (Dict.get (remove id_key s id).0.deadlines k
            ≡ (if text_eq (id_key id) k then none else Dict.get s.deadlines k))
  unfolding touch remove contains
  touch-remove_lem s id d k = ground (
    arith,
    get-insert s.deadlines (id_key id) k d,
    get-remove s.deadlines (id_key id) k,
    text_eq_iff (id_key id) k,
  )
