-- ===== src/Tasks/Routing.antt =====
-- A namespaced task id of src/tasks.rs leads back to its backend.
use rust_yamp.Prelude.{◌≡◌, ◌≢◌, refl, ◌∙◌, true, false, some, [], Text, ascii, text_eq, ◌>>=◌}
use rust_yamp.Json.{
  Map, object, string, lookup, get, get_str, lookup-modify_string_self, lookup-modify_string_ne,
  lookup-modify_object_self, lookup-modify_object_ne, modify_string,
}
use rust_yamp.Namespace.{valid_backend_id, prefix}
use rust_yamp.Namespace.RoundTrip.{ends_in, split-prefix}
use rust_yamp.Tasks.{task_id_key, namespace_task_id, namespace_event, resolve_task}

module _ (backend id : Text) (valid : valid_backend_id backend ≡ true)
    (clean : ends_in b'_' backend ≡ false) (named : id ≢ []) where
  resolve-prefix : resolve_task (prefix backend id) ≡ some (backend, id)
  unfolding resolve_task
  resolve-prefix = split-prefix backend id valid clean named

  -- A task handle that a backend returned carries an id that resolves to the backend and its own
  -- id, both on the result and on the task object inside.
  namespace_task_id-resolve :
      (m task : Map)
      → lookup m task_id_key ≡ some (string id)
      → lookup m (ascii "task") ≡ some (object task)
      → lookup task task_id_key ≡ some (string id)
      → ((get_str (namespace_task_id (object m) backend) task_id_key >>= resolve_task)
          ≡ some (backend, id))
        × ((do
          inner ← get (namespace_task_id (object m) backend) (ascii "task")
          t ← get_str inner task_id_key
          resolve_task t)
            ≡ some (backend, id))
  unfolding namespace_task_id get get_str
  namespace_task_id-resolve m task h1 h2 h3 =
      let f = prefix backend in
      let m' = modify_string m task_id_key f in
      let g = λ (t : Map). modify_string t task_id_key f in
      (
        rw (lookup-modify_object_ne m' (ascii "task") task_id_key g (unfold text_eq in refl))
            (rw (lookup-modify_string_self m task_id_key f id h1) resolve-prefix),
        rw
            (lookup-modify_object_self m' (ascii "task") g task (
              lookup-modify_string_ne m task_id_key (ascii "task") f (unfold text_eq in refl) ∙ h2))
            (rw (lookup-modify_string_self task task_id_key f id h3) resolve-prefix),
      )

  -- So does the id of a task event.
  pub namespace_event-resolve :
      (m params : Map)
      → lookup m (ascii "params") ≡ some (object params)
      → lookup params task_id_key ≡ some (string id)
      → (do
        p ← get (namespace_event (object m) backend) (ascii "params")
        t ← get_str p task_id_key
        resolve_task t)
        ≡ some (backend, id)
  unfolding namespace_event get get_str
  namespace_event-resolve m params h1 h2 =
      let g = λ (t : Map). modify_string t task_id_key (prefix backend) in
      rw (lookup-modify_object_self m (ascii "params") g params h1)
        (rw (lookup-modify_string_self params task_id_key (prefix backend) id h2) resolve-prefix)
