-- ===== src/Tasks/Settle.antt =====
-- One step of the task store of src/tasks.rs: the three ways to settle a task are one write.
use rust_yamp.Prelude.{
  ℕ, ◌<◌, ◌≡◌, refl, inl, inr, Bool-cases, true, false, Option, none, some, List, [], ◌∷◌, Text,
  ascii, text_eq_iff, text_eq_refl, if◌then◌else◌, is_some, arith,
}
use rust_yamp.Prelude.Decimal.{decimal_injective}
use rust_yamp.Json.{Json, string, json_object}
use rust_yamp.Dict.{Dict, text_key, get-insert}
use rust_yamp.Dict
use rust_yamp.Tasks.{
  ServerTasks, new_task_id, new, create, contains, get, is_working, status_is_working, complete,
  fail, cancel, status_completed, status_failed, status_cancelled,
}

pub new_task_id_injective : (i j : ℕ) → new_task_id i ≡ new_task_id j → i ≡ j
unfolding new_task_id
new_task_id_injective i j e = decimal_injective i j (cc)

pub data Op : Type 0 where
  begin : Op
  succeed break : Text → Json → Op
  abort : Text → Op

unfoldable pub step : ServerTasks → Op → ServerTasks
step s begin = (create s).0
step s (succeed id result) = complete s id result
step s (break id error) = fail s id error
step s (abort id) = (cancel s id).0

unfoldable pub run : ServerTasks → List Op → ServerTasks
unfolding step
run s [] = s
run s (op ∷ ops) = run (step s op) ops

-- No id that is still to come is in use.
pub record IsFresh (s : ServerTasks) : Type 0 where
  pub unused : (k : ℕ) → s.seq < k → Dict.get s.tasks (new_task_id k) ≡ none

pub new-IsFresh : IsFresh new
unfolding new Dict.get
new-IsFresh = record { unused = λ k h. refl }

-- The states of a task that are written.
abbrev pub completed : Json → Json
completed result =
    json_object ((ascii "status", string status_completed) ∷ (ascii "result", result) ∷ [])

abbrev pub failed : Json → Json
failed error = json_object ((ascii "status", string status_failed) ∷ (ascii "error", error) ∷ [])

abbrev pub cancelled : Json
cancelled = json_object ((ascii "status", string status_cancelled) ∷ [])

working_present : (o : Option Json) → status_is_working o ≡ true → is_some o ≡ true
unfolding status_is_working
working_present none h = cc
working_present (some r) h = refl

pub contains_of_get :
    (s s' : ServerTasks) (id : Text)
    → get s' id ≡ get s id
    → contains s id ≡ true
    → contains s' id ≡ true
unfolding get contains
contains_of_get s s' id e c = rw e c

pub contains_of_some :
    (s : ServerTasks) (id : Text) (v : Json) → get s id ≡ some v → contains s id ≡ true
unfolding get contains
contains_of_some s id v e = rw e

pub working_of_get :
    (s s' : ServerTasks) (id : Text)
    → get s' id ≡ get s id
    → is_working s id ≡ false
    → is_working s' id ≡ false
unfolding get is_working
working_of_get s s' id e w = rw e w

-- The three ways to settle a task, in one form.
abbrev pub settle : ServerTasks → Text → Json → ServerTasks
settle s id v = if is_working s id then record s { tasks = Dict.insert s.tasks id v } else s

pub cancel-settle : (s : ServerTasks) (id : Text) → (cancel s id).0 ≡ settle s id cancelled
unfolding cancel
cancel-settle s id = ground arith

pub settle-IsFresh : (s : ServerTasks) (id : Text) (v : Json) → IsFresh s → IsFresh (settle s id v)
settle-IsFresh s id v h = elim (Bool-cases (is_working s id)) [
  | inl w ↦ rw w (record {
    unused = λ k p. ground (
      arith,
      get-insert s.tasks id (new_task_id k) v,
      h.unused k p,
      text_eq_iff id (new_task_id k),
      working_present (Dict.get s.tasks id) (unfold is_working in w),
    );
  })
  | inr w ↦ rw w h
]

pub settle-seq : (s : ServerTasks) (id : Text) (v : Json) → (settle s id v).seq ≡ s.seq
settle-seq s id v = elim (Bool-cases (is_working s id)) [ inl w ↦ rw w | inr w ↦ rw w ]

-- A task that is there and not working is left as it is.
pub settle-keeps :
    (s : ServerTasks) (id at : Text) (v : Json)
    → is_working s at ≡ false
    → get (settle s id v) at ≡ get s at
unfolding get is_working
settle-keeps s id at v h = ground (arith, get-insert s.tasks id at v, text_eq_iff id at)

-- A working task takes the state that is written.
pub settle-takes :
    (s : ServerTasks) (id : Text) (v : Json)
    → is_working s id ≡ true
    → get (settle s id v) id ≡ some v
unfolding get
settle-takes s id v h = rw h (rw get-insert (rw (text_eq_refl id)))
