-- ===== src/Tasks/Store.antt =====
-- The task store of src/tasks.rs: ids are fresh, and a terminal state is final.
use rust_yamp.Prelude.{
  ◌+◌, ◌^◌, ◌≤◌, ◌<◌, ◌≡◌, refl, ap, ◌∙◌, true, false, some, List, [], ◌∷◌, Text, ascii, text_eq,
  text_lt, text_eq_of_ne, text_eq_refl, if◌then◌else◌, arith, length,
}
use rust_yamp.Json.{Json, string, json_object, get_str, extend, insert, lookup}
use rust_yamp.Json
use rust_yamp.Dict.{Dict, text_key, get-insert}
use rust_yamp.Dict
use rust_yamp.Tasks.{
  ServerTasks, new_task_id, new, create, contains, get, is_working, status_is_working, complete,
  fail, cancel, status_working,
}
use rust_yamp.Tasks.Settle.{
  Op, begin, succeed, break, abort, step, run, IsFresh, new-IsFresh, completed, failed, cancelled,
  new_task_id_injective, contains_of_get, contains_of_some, working_of_get, settle, cancel-settle,
  settle-IsFresh, settle-seq, settle-keeps, settle-takes,
}

create-seq : (s : ServerTasks) → s.seq + 1 < 2 ^ 64 → (create s).0.seq ≡ s.seq + 1
unfolding create
create-seq s h = omega arith

next_id : (s : ServerTasks) → s.seq + 1 < 2 ^ 64 → (create s).1 ≡ new_task_id (s.seq + 1)
unfolding create
next_id s h = ap new_task_id (omega arith)

get-create :
    (s : ServerTasks) (id : Text)
    → Dict.get (create s).0.tasks id ≡ (
        if text_eq (create s).1 id
        then some (json_object ((ascii "status", string status_working) ∷ []))
        else Dict.get s.tasks id)
unfolding create
get-create s id = get-insert s.tasks _ id _

create-IsFresh : (s : ServerTasks) → s.seq + 1 < 2 ^ 64 → IsFresh s → IsFresh (create s).0
create-IsFresh s b h = record {
  unused = λ k p.
      let q : s.seq + 1 < k = omega (arith, create-seq s b) in
      rw get-create (
        rw (next_id s b) (
          rw
            (text_eq_of_ne (new_task_id (s.seq + 1)) (new_task_id k)
              (λ e. absurd (omega (arith, new_task_id_injective (s.seq + 1) k e))))
            (h.unused k (omega arith))));
}

create-absent : (s : ServerTasks) → s.seq + 1 < 2 ^ 64 → IsFresh s → contains s (create s).1 ≡ false
unfolding contains
create-absent s b h = rw (next_id s b) (rw (h.unused (s.seq + 1) (omega arith)))

create-working : (s : ServerTasks) → is_working (create s).0 (create s).1 ≡ true
unfolding is_working status_is_working
create-working s = rw get-create (
    rw (text_eq_refl (create s).1)
      (unfold get_str Json.get lookup extend insert text_eq text_lt in refl))

-- An id that is in use stays as it is when a task is created.
create-keeps :
    (s : ServerTasks) (at : Text)
    → s.seq + 1 < 2 ^ 64
    → IsFresh s
    → contains s at ≡ true
    → get (create s).0 at ≡ get s at
unfolding get
create-keeps s at b h c =
    rw get-create
      (rw (text_eq_of_ne (create s).1 at (λ e. absurd (cc (e, create-absent s b h, c)))))

step-IsFresh : (s : ServerTasks) (op : Op) → s.seq + 1 < 2 ^ 64 → IsFresh s → IsFresh (step s op)
unfolding step complete fail
step-IsFresh s begin b h = create-IsFresh s b h
step-IsFresh s (succeed id result) b h = settle-IsFresh s id (completed result) h
step-IsFresh s (break id error) b h = settle-IsFresh s id (failed error) h
step-IsFresh s (abort id) b h = rw cancel-settle (settle-IsFresh s id cancelled h)

step-seq : (s : ServerTasks) (op : Op) → s.seq + 1 < 2 ^ 64 → (step s op).seq ≤ s.seq + 1
unfolding step complete fail
step-seq s begin b = omega (arith, create-seq s b)
step-seq s (succeed id result) b = omega (arith, settle-seq s id (completed result))
step-seq s (break id error) b = omega (arith, settle-seq s id (failed error))
step-seq s (abort id) b = rw cancel-settle (omega (arith, settle-seq s id cancelled))

step-keeps :
    (s : ServerTasks) (op : Op) (at : Text)
    → s.seq + 1 < 2 ^ 64
    → IsFresh s
    → contains s at ≡ true
    → is_working s at ≡ false
    → get (step s op) at ≡ get s at
unfolding step complete fail
step-keeps s begin at b h c w = create-keeps s at b h c
step-keeps s (succeed id result) at b h c w = settle-keeps s id at (completed result) w
step-keeps s (break id error) at b h c w = settle-keeps s id at (failed error) w
step-keeps s (abort id) at b h c w = rw cancel-settle (settle-keeps s id at cancelled w)

pub run-IsFresh :
    (ops : List Op) (s : ServerTasks)
    → s.seq + length ops < 2 ^ 64
    → IsFresh s
    → IsFresh (run s ops) × ((run s ops).seq ≤ s.seq + length ops)
unfolding run
run-IsFresh [] s b h = (h, omega arith)
run-IsFresh (op ∷ ops) s b h =
    let grown = step-seq s op (omega arith) in
    let (fresh, bound) =
      run-IsFresh ops (step s op) (omega arith) (step-IsFresh s op (omega arith) h) in
    (fresh, omega arith)

-- A created task is working under an id that no task had before, after any operations on a new
-- store that are fewer than the 2^64 values of the counter.
create_fresh :
    (ops : List Op)
    → length ops + 1 < 2 ^ 64
    → let s = run new ops in
      (contains s (create s).1 ≡ false) × (is_working (create s).0 (create s).1 ≡ true)
create_fresh ops b =
    let (fresh, bound) = run-IsFresh ops new (unfold new in omega arith) new-IsFresh in
    (create-absent (run new ops) (unfold new in omega arith) fresh, create-working (run new ops))

-- Completed, failed and cancelled are final: whatever operations follow, on this task or on others,
-- its record stays, as long as the counter of ids does not wrap and no id to come is in use.
pub terminal_final :
    (ops : List Op) (s : ServerTasks) (id : Text)
    → s.seq + length ops < 2 ^ 64
    → IsFresh s
    → contains s id ≡ true
    → is_working s id ≡ false
    → get (run s ops) id ≡ get s id
unfolding run
terminal_final [] s id b h c w = refl
terminal_final (op ∷ ops) s id b h c w =
    let kept = step-keeps s op id (omega arith) h c w in
    terminal_final ops (step s op) id (omega (arith, step-seq s op (omega arith)))
      (step-IsFresh s op (omega arith) h) (contains_of_get s (step s op) id kept c)
      (working_of_get s (step s op) id kept w)
    ∙ kept

idle_of_some :
    (s : ServerTasks) (id : Text) (v : Json)
    → get s id ≡ some v
    → status_is_working (some v) ≡ false
    → is_working s id ≡ false
unfolding get is_working
idle_of_some s id v e idle = rw e idle

settled_idle :
    (s : ServerTasks) (id : Text) (v : Json)
    → is_working s id ≡ true
    → status_is_working (some v) ≡ false
    → is_working (settle s id v) id ≡ false
settled_idle s id v w idle = idle_of_some (settle s id v) id v (settle-takes s id v w) idle

settled_stays :
    (ops : List Op) (s : ServerTasks) (id : Text) (v : Json)
    → s.seq + length ops < 2 ^ 64
    → IsFresh s
    → is_working s id ≡ true
    → status_is_working (some v) ≡ false
    → get (run (settle s id v) ops) id ≡ some v
settled_stays ops s id v b h w idle =
    let taken = settle-takes s id v w in
    terminal_final ops (settle s id v) id (omega (arith, settle-seq s id v))
      (settle-IsFresh s id v h) (contains_of_some (settle s id v) id v taken)
      (settled_idle s id v w idle)
    ∙ taken

-- Of an outcome and a cancellation that race for a working task the first to be written wins: it
-- is reported as a transition, and no later operation changes it, as long as the counter of ids does
-- not wrap and no id to come is in use.
first_outcome_stays :
    (ops : List Op) (s : ServerTasks) (id : Text) (result : Json)
    → s.seq + length ops < 2 ^ 64
    → IsFresh s
    → is_working s id ≡ true
    → (get (run (complete s id result) ops) id ≡ some (completed result))
      × ((cancel s id).1 ≡ true)
      × (get (run (cancel s id).0 ops) id ≡ some cancelled)
      × ((cancel (complete s id result) id).1 ≡ false)
unfolding complete
first_outcome_stays ops s id result b h w = (
  settled_stays ops s id (completed result) b h w
      (unfold status_is_working get_str Json.get lookup extend insert text_eq text_lt in refl),
  (unfold cancel in rw w),
  rw cancel-settle (
      settled_stays ops s id cancelled b h w
        (unfold status_is_working get_str Json.get lookup extend insert text_eq text_lt in refl)),
  (unfold cancel in
      rw (
        settled_idle s id (completed result) w (
          unfold status_is_working get_str Json.get lookup extend insert text_eq text_lt in refl))),
)
