-- ===== src/Tasks.antt =====
-- src/tasks.rs: routing of task ids, and the server's own task store.
pub mod Routing
pub mod Settle
pub mod Store
use rust_yamp.Prelude.{
  ℕ, ◌+◌, ◌%◌, ◌^◌, Bool, true, false, ◌||◌, Option, none, some, List, [], ◌∷◌, ◌++◌, Text, ascii,
  text_eq, if◌then◌else◌, ◌>>=◌, is_some, any,
}
use rust_yamp.Prelude.Decimal.{decimal}
use rust_yamp.Json.{
  Json, Map, object, string, json_object, insert, get_str, modify_string, modify_object, modify,
}
use rust_yamp.Json
use rust_yamp.Namespace.{prefix, split}
use rust_yamp.Dict.{Dict, text_key}
use rust_yamp.Dict

abbrev pub task_id_key : Text
task_id_key = ascii "taskId"

abbrev pub tasks_methods : List Text
tasks_methods =
    ascii "tasks/get" ∷ ascii "tasks/update" ∷ ascii "tasks/cancel" ∷ ascii "tasks/stream" ∷ []

abbrev pub result_type_task : Text
result_type_task = ascii "task"

abbrev pub task_meta_key : Text
task_meta_key = ascii "io.modelcontextprotocol/task"

abbrev pub status_working : Text
status_working = ascii "working"

abbrev pub status_completed : Text
status_completed = ascii "completed"

abbrev pub status_cancelled : Text
status_cancelled = ascii "cancelled"

abbrev pub status_failed : Text
status_failed = ascii "failed"

unfoldable pub is_task_method : Text → Bool
is_task_method method = any (λ m. text_eq m method) tasks_methods

-- `value.and_then(Value::as_str) == Some(expected)`
unfoldable pub is_text : Option Text → Text → Bool
is_text none expected = false
is_text (some s) expected = text_eq s expected

unfoldable pub is_task_result : Json → Bool
unfolding is_text
is_task_result result = is_text (get_str result (ascii "resultType")) result_type_task

unfoldable pub is_task_augmented : Json → Bool
is_task_augmented params =
    is_some (do m ← Json.get params (ascii "_meta"); Json.get m task_meta_key)

unfoldable pub new_task_id : ℕ → Text
new_task_id seq = ascii "task-" ++ decimal seq

-- `if let Some(value) = value { handle.insert(key, value.clone()); }`
unfoldable pub insert_some : Map → Text → Option Json → Map
insert_some m k none = m
insert_some m k (some v) = insert m k v

unfoldable pub task_handle : Text → Text → Option Json → Option Json → Json
unfolding insert_some
task_handle task_id status result error =
    let handle =
      insert
        (insert (insert Json.empty (ascii "resultType") (string result_type_task)) task_id_key
          (string task_id))
        (ascii "status") (string status) in
    object (insert_some (insert_some handle (ascii "result") result) (ascii "error") error)

-- The `taskId` of the object itself, and that of the object under `task`.
unfoldable pub namespace_task_id : Json → Text → Json
namespace_task_id result backend_id = modify result λ m.
    modify_object (modify_string m task_id_key (prefix backend_id)) (ascii "task")
      λ task. modify_string task task_id_key (prefix backend_id)

unfoldable pub resolve_task : Text → Option (Text × Text)
resolve_task task_id = split task_id

unfoldable pub namespace_event : Json → Text → Json
namespace_event message backend_id = modify message λ m.
    modify_object m (ascii "params") λ params. modify_string params task_id_key (prefix backend_id)

pub record ServerTasks : Type 0 where
  pub tasks : Dict Text Json
  pub seq : ℕ

unfoldable pub new : ServerTasks
new = record { tasks = []; seq = 0 }

-- `seq` is a `u64`.
unfoldable pub create : ServerTasks → ServerTasks × Text
create s =
    let seq = (s.seq + 1) % 2 ^ 64 in
    let task_id = new_task_id seq in
    (
      record {
        tasks =
            Dict.insert s.tasks task_id
              (json_object ((ascii "status", string status_working) ∷ []));
        seq = seq;
      },
      task_id,
    )

unfoldable pub contains : ServerTasks → Text → Bool
contains s task_id = Dict.contains_key s.tasks task_id

unfoldable pub get : ServerTasks → Text → Option Json
get s task_id = Dict.get s.tasks task_id

unfoldable pub status_is_working : Option Json → Bool
unfolding is_text
status_is_working task = is_text (task >>= λ r. get_str r (ascii "status")) status_working

unfoldable pub is_working : ServerTasks → Text → Bool
unfolding status_is_working
is_working s task_id = status_is_working (Dict.get s.tasks task_id)

unfoldable pub complete : ServerTasks → Text → Json → ServerTasks
complete s task_id result =
    if is_working s task_id
    then record s {
      tasks =
          Dict.insert s.tasks task_id (
            json_object
              ((ascii "status", string status_completed) ∷ (ascii "result", result) ∷ []));
    }
    else s

unfoldable pub fail : ServerTasks → Text → Json → ServerTasks
fail s task_id error =
    if is_working s task_id
    then record s {
      tasks =
          Dict.insert s.tasks task_id
            (json_object ((ascii "status", string status_failed) ∷ (ascii "error", error) ∷ []));
    }
    else s

unfoldable pub cancel : ServerTasks → Text → ServerTasks × Bool
cancel s task_id =
    if is_working s task_id
    then (
      record s {
        tasks =
            Dict.insert s.tasks task_id
              (json_object ((ascii "status", string status_cancelled) ∷ []));
      },
      true,
    )
    else (s, false)
