-- ===== src/Router/Aggregate.antt =====
-- `aggregate` of src/router.rs: a list of the composed surface. `debug` quotes a name in a message.
use rust_yamp.Prelude.{
  ℕ, Bool, not, ◌&&◌, Option, none, some, List, [], ◌∷◌, ◌++◌, map, Text, Bytes, ascii, text_eq,
  Result, ok, err, if◌then◌else◌, ◌>>=◌, unwrap_or, retain, map_or,
}
use rust_yamp.Json.{
  Json, Map, string, array, object, empty, insert, of_list, get_str, is_null, json_object,
}
use rust_yamp.Float.{Float}
use rust_yamp.Routing.{name_matches}
use rust_yamp.Variants.{resolve_cursor, bind_cursor, mismatch_data}
use rust_yamp.Collision.{resolve_manual, apply_priority}
use rust_yamp.Capability.{disclose}
use rust_yamp.Resilience.Messages.{partial_meta}
use rust_yamp.Errors.{minus}
use rust_yamp.Handler.{list_tools}
use rust_yamp.Server.{attach_directives}
use rust_yamp.Cache.{principal_eq}
use rust_yamp.Dict.{Dict, text_key}
use rust_yamp.Dict
use rust_yamp.Router.{
  Awaited, Sent, Reply, Router, Namespacing, Capability, resolve, put, apply_trace, result_response,
  error_response, fail_with,
}
use rust_yamp.Json.{number}
use rust_yamp.Router.Collect.{collect}
use rust_yamp.Router.Listing.{Query, Collected, Cursors, effective_variant, filter_array}

-- The error of a cursor that is bound to another variant.
unfoldable pub cursor_mismatch : Json → Option Text → Option Text → Json
cursor_mismatch id bound wanted = error_response id (
    json_object (
      (ascii "code", number (minus 32602))
      ∷ (ascii "message", string (ascii "Cursor invalid for requested variant"))
      ∷ (ascii "data", mismatch_data bound wanted)
      ∷ []))

-- The `match` on the resolved cursor: the error that the list is refused with.
unfoldable pub cursor_error :
    Json → Bool → Json → Option Text → Option (Option Text × Cursors) → Option Json
unfolding cursor_mismatch
cursor_error id single cursor wanted (some (bound, cursors)) =
    if principal_eq bound wanted then none else some (cursor_mismatch id bound wanted)
cursor_error id single cursor wanted none =
    if not (is_null cursor) && not single
    then some (fail_with id 32602 (ascii "unknown cursor"))
    else none

abbrev pub is_tools : Capability → Bool
is_tools c = text_eq c.collection (ascii "tools")

-- The tools of the local handlers that the name patterns let through.
unfoldable pub local_tools : List Json → Capability → List Json → List Json
unfolding name_matches
local_tools patterns c ts =
    retain (λ t. name_matches (unwrap_or (get_str t c.field) []) patterns) ts

abbrev pub rename_to : Capability → Json → Option Text → Json
rename_to c item none = item
rename_to c item (some exposed) = put item c.field (string exposed)

unfoldable pub rename_all : Capability → Dict Text Text → List Json → List Json
rename_all c mapping items =
    map (λ item. rename_to c item (get_str item c.field >>= λ n. Dict.get mapping n)) items

-- `filter_map(|t| t.get(field).and_then(Value::as_str))`
unfoldable pub field_names : Capability → List Json → List Text
field_names c [] = []
field_names c (t ∷ ts) = elim (get_str t c.field) [
  | some n ↦ n ∷ field_names c ts
  | none ↦ field_names c ts
]

-- The answer for the items, or for a collision that is not resolved.
abbrev pub answer_list : Json → Bool → (List Json → Json) → Result (List Json) → Json
answer_list id trace body (err message) = fail_with id 32603 (ascii "manual collision: " ++ message)
answer_list id trace body (ok items) = result_response id (apply_trace trace (body items))

module _ (debug : Text → Text) where
  -- The renames of the manual strategy, or its refusal.
  unfoldable pub manual : Namespacing → Capability → List Json → Result (List Json)
  unfolding rename_all field_names
  manual namespacing c items =
      elim (resolve_manual debug namespacing.overrides (field_names c items)) [
        | ok mapping ↦ ok (rename_all c mapping items)
        | err message ↦ err message
      ]

  -- The collision strategy of the tools, then the disclosure. `apply_priority` does not panic.
  unfoldable pub arrange : Namespacing → Bool → ℕ → Capability → List Json → Result (List Json)
  unfolding manual
  arrange namespacing disclosing threshold c items =
      let named : Result (List Json) =
        if is_tools c && text_eq namespacing.strategy (ascii "manual")
        then manual namespacing c items
        else ok items in
      let kept : List Json → List Json = λ l.
        if is_tools c && text_eq namespacing.strategy (ascii "priority")
        then unwrap_or (apply_priority (resolve c.kind) namespacing.priority c.field l) []
        else l in
      let shown : List Json → List Json =
        λ l. if disclosing && is_tools c then (disclose l threshold).0 else l in
      elim named [ err message ↦ err message | ok l ↦ ok (shown (kept l)) ]

  module _ (to_vec : Json → Bytes) (from_slice : Bytes → Option Json) where
    abbrev pub with_next : Option Text → Cursors → Map → Map
    with_next variant [] m = m
    with_next variant (c ∷ cs) m =
        insert m (ascii "nextCursor") (string (bind_cursor to_vec from_slice variant (c ∷ cs)))

    abbrev pub with_partial : List Text → Map → Map
    with_partial [] m = m
    with_partial (u ∷ us) m =
        insert m (ascii "_meta") (partial_meta (u ∷ us) (ascii "backend_unavailable"))

    abbrev pub with_directives : Option (ℕ × Text) → Json → Json
    with_directives none body = body
    with_directives (some (ttl_ms, cache_scope)) body = attach_directives body ttl_ms cache_scope

    -- The body of the result for the items that are shown.
    unfoldable pub list_body :
        Capability → Option Text → Option (ℕ × Text) → Collected → List Json → Json
    list_body c variant directives found items = with_directives directives (
        object (
          with_partial found.unavailable (
            with_next variant found.next_cursors
              (insert empty c.collection (array (of_list items))))))

    module _ (f : Float) (wire : List Sent → Sent → Reply) (clock : List Sent → f.F64) where
      open f use {F64}

      abbrev pub all_items : Router F64 → Capability → Query → Collected → List Json
      all_items r c q found =
          if is_tools c
          then found.items
            ++ local_tools (filter_array q.list_filter (ascii "namePatterns")) c
                (list_tools r.registry)
          else found.items

      -- After `collect`.
      unfoldable pub finish :
          Json
          → Capability
          → Query
          → Option Text
          → Router F64 × Awaited Collected
          → Router F64 × Awaited Json
      unfolding local_tools arrange list_body apply_trace result_response
      finish id c q variant (r, err e) = (r, err e)
      finish id c q variant (r, ok found) = (
        r,
        ok (
            answer_list id r.trace (λ items. list_body c variant r.list_directives found items)
              (arrange r.namespacing r.disclose r.disclose_threshold c (all_items r c q found))),
      )

      unfoldable pub aggregate : Router F64 → Json → Capability → Query → Router F64 × Awaited Json
      unfolding cursor_error finish
      aggregate r id c q =
          let variant = effective_variant r.variants q.variant in
          map_or
            (cursor_error id r.single q.cursor variant (resolve_cursor to_vec from_slice q.cursor))
            (finish id c q variant (collect f wire clock to_vec from_slice r c q))
            (λ refusal. (r, ok refusal))
