-- ===== src/Tests/Tasks.antt =====
-- src/tasks.rs on concrete tasks.
use rust_yamp.Prelude.{◌≡◌, refl, [], ◌∷◌, arith, ascii, text_eq}
use rust_yamp.Prelude.Decimal.{decimal, digits}
use rust_yamp.Dict.{text_key}
use rust_yamp.Dict
use rust_yamp.Json.{
  Json, Map, null, empty, entry, string, object, lookup, get_str, json_object, extend, insert,
}
use rust_yamp.Json
use rust_yamp.Tasks.{
  task_id_key, ServerTasks, new, create, new_task_id, get, is_working, status_is_working, is_text,
  complete, cancel, namespace_task_id, resolve_task,
}
use rust_yamp.Tasks
use rust_yamp.Tasks.Settle.{begin, succeed, abort, run, step, IsFresh, new-IsFresh}
use rust_yamp.Tasks.Store.{run-IsFresh, terminal_final}

-- One task that is cancelled, and one that works.
abbrev ended : ServerTasks
ended = run new (begin ∷ abort (ascii "task-1") ∷ [])

abbrev working : ServerTasks
working = run new (begin ∷ [])

ended-IsFresh : IsFresh ended
ended-IsFresh =
    (run-IsFresh (begin ∷ abort (ascii "task-1") ∷ []) new (unfold new in omega arith)
      new-IsFresh).0

working-IsFresh : IsFresh working
working-IsFresh = (run-IsFresh (begin ∷ []) new (unfold new in omega arith) new-IsFresh).0

terminal_final_example :
    get (run ended (succeed (ascii "task-1") null ∷ begin ∷ [])) (ascii "task-1")
    ≡ get ended (ascii "task-1")
unfolding run step new create cancel new_task_id decimal digits is_working status_is_working is_text
    Tasks.contains Dict.get Dict.insert text_eq get_str Json.get lookup insert extend
terminal_final_example =
    terminal_final (succeed (ascii "task-1") null ∷ begin ∷ []) ended (ascii "task-1") (omega arith)
      ended-IsFresh refl refl

abbrev task : Map
task = entry task_id_key (string (ascii "t7")) empty
