-- ===== src/Router/Serve/Finished.antt =====
-- The calls and tasks that run beside the route loop come to an end.
use rust_yamp.Prelude.{
  ◌≡◌, refl, inl, inr, Bool, false, Option, none, some, List, Text, Bytes, ascii, text_eq, text_lt,
  text_eq_refl, if_all, Bool-cases,
}
use rust_yamp.Json.{Json, insert, extend, lookup, get_str, string, json_object, index}
use rust_yamp.Json
use rust_yamp.Float.{Float}
use rust_yamp.Handler.{Registry}
use rust_yamp.Filters.{Filter}
use rust_yamp.Signing.{AuditLog}
use rust_yamp.Namespace.{split}
use rust_yamp.Dict.{Dict, text_key, get-insert, get-remove}
use rust_yamp.Dict
use rust_yamp.Tasks.{ServerTasks, complete, fail, is_working, is_text, status_is_working}
use rust_yamp.Router.{Sent, Reply, Router}
use rust_yamp.Router.Local.{
  DispatchOpts, arguments_of, dispatch_named, dispatch_split, named, run_pooled,
}
use rust_yamp.Router.Call.{opts_of}
use rust_yamp.Router.Call.Local.{run-Out, is_block-forwarded, is_block-blocked, index-forwarded}
use rust_yamp.Router.Call.Answered.{dispatch_local-Carries, blocked-Carries}
use rust_yamp.Router.Route.Answered.{Carries, error_response-Carries}
use rust_yamp.Router.Serve.{finish_pooled, finish_task, settled}

module _ (encode : Json → Bytes) (validates : Json → Json → Option Bool) where
  dispatch_split-Carries :
      (registry : Registry) (opts : DispatchOpts) (message id : Json) (name : Text)
      (resolved : Option (Text × Text))
      → Carries id (dispatch_split encode validates registry opts message id name resolved)
  dispatch_split-Carries registry opts message id name none = error_response-Carries id _
  dispatch_split-Carries registry opts message id name (some (bid, original)) =
      dispatch_local-Carries encode validates registry opts bid original (arguments_of message) id

  dispatch_named-Carries :
      (registry : Registry) (opts : DispatchOpts) (message id : Json)
      → Carries id (dispatch_named encode validates registry opts message id)
  unfolding dispatch_named
  dispatch_named-Carries registry opts message id =
      let name = named message (ascii "name") in
      dispatch_split-Carries registry opts message id name (split name)

  run_pooled-Carries :
      (registry : Registry) (chain : Option (List Filter)) (audit : Option AuditLog)
      (opts : DispatchOpts) (message id : Json)
      → Carries id message
      → Carries id (run_pooled encode validates registry chain audit opts message id).1
  unfolding run_pooled
  run_pooled-Carries registry none audit opts message id h =
      dispatch_named-Carries registry opts message id
  run_pooled-Carries registry (some chain) audit opts message id h =
      elim (run-Out chain (ascii "request") message) [
        | inl (verdict, e) ↦
            rw (e, is_block-blocked message verdict) (blocked-Carries message verdict id h)
        | inr (m, e, keeps) ↦
            rw (e, is_block-forwarded m, index-forwarded m)
              (dispatch_named-Carries registry opts m id)
      ]

inserted-done :
    (s : ServerTasks) (id : Text) (v : Json)
    → status_is_working (some v) ≡ false
    → is_working (record s { tasks = Dict.insert s.tasks id v }) id ≡ false
unfolding is_working
inserted-done s id v h = rw (get-insert s.tasks id id v, text_eq_refl id) h

complete-done :
    (s : ServerTasks) (id : Text) (result : Json) → is_working (complete s id result) id ≡ false
unfolding complete status_is_working is_text text_eq text_lt get_str Json.get lookup insert extend
complete-done s id result = elim (Bool-cases (is_working s id)) [
  | inl w ↦ rw w (inserted-done s id _ refl)
  | inr w ↦ rw w w
]

fail-done : (s : ServerTasks) (id : Text) (error : Json) → is_working (fail s id error) id ≡ false
unfolding fail status_is_working is_text text_eq text_lt get_str Json.get lookup insert extend
fail-done s id error = elim (Bool-cases (is_working s id)) [
  | inl w ↦ rw w (inserted-done s id _ refl)
  | inr w ↦ rw w w
]

module _ (f : Float) (wire : List Sent → Sent → Reply) (clock : List Sent → f.F64)
    (encode : Json → Bytes) (decode : Bytes → Option Json) (validates : Json → Json → Option Bool)
    (render : List Text → Text) (lower : Text → Text) (debug : Text → Text)
    (id_key : Json → Text) where
  open f use {F64}

  settled-done :
      (s : ServerTasks) (id : Text) (response : Json) (result : Option Json)
      → is_working
          (settled f wire clock encode decode validates render lower debug id_key s id response
            result)
          id
        ≡ false
  settled-done s id response (some result) = complete-done s id result
  settled-done s id response none = fail-done s id _

  -- A pooled call that ran to its end, or past its idle deadline, is answered under its own id, and
  -- no cancellation can find it any more.
  pub finish_pooled-Carries :
      (r : Router F64) (message id : Json) (in_time : Bool)
      → Json.get message (ascii "id") ≡ some id
      → Carries id
          (finish_pooled f wire clock encode decode validates render lower debug id_key r message id
            in_time).1
        × (Dict.contains_key
              (finish_pooled f wire clock encode decode validates render lower debug id_key r
                message id in_time).0.pool_tasks
              (id_key id)
            ≡ false)
  unfolding finish_pooled
  finish_pooled-Carries r message id in_time h = (
    if_all (Carries id) in_time _ _
        (run_pooled-Carries encode validates r.registry r.filter_chain r.audit
          (opts_of f wire clock encode decode validates render lower r) message id h)
        (error_response-Carries id _),
    rw (get-remove r.pool_tasks (id_key id) (id_key id), text_eq_refl (id_key id)) refl,
  )

  -- A task whose execution ended, with a result, an error or neither, is no longer working.
  pub finish_task-done :
      (r : Router F64) (message id : Json) (task_id : Text)
      → is_working
          (finish_task f wire clock encode decode validates render lower debug id_key r message id
            task_id).tasks_store
          task_id
        ≡ false
  unfolding finish_task
  finish_task-done r message id task_id =
      let response =
        (run_pooled encode validates r.registry r.filter_chain r.audit
          (opts_of f wire clock encode decode validates render lower r) message id).1 in
      settled-done r.tasks_store task_id response (Json.get response (ascii "result"))
