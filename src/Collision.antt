-- ===== src/Collision.antt =====
-- src/collision.rs: the strategies for tools of the same name.
pub mod Priority
pub mod Manual
pub mod Totals
use rust_yamp.Prelude.{
  ℕ, zero, suc, ◌+◌, ◌-◌, ◌*◌, ◌/◌, ◌%◌, ◌^◌, ◌≤◌, ◌<◌, ◌≡◌, refl, sym, ap, ◌∙◌, ◌≢◌, ◌↔◌, ◌⊎◌, inl,
  inr, Bool, true, false, not, ◌&&◌, ◌||◌, Option, none, some, List, [], ◌∷◌, ◌++◌, map, append-nil,
  append_assoc, arith, ltb, leb, ◌==◌, if◌then◌else◌, ==_iff, Bool-cases, Option-cases,
  some_injective, >>=-eq-some, ◌>>=◌, unwrap_or, is_some, length, take, drop, get_or, any, all,
  retain, length-append, All, All-append, Any, Any-imp, Bytes, Text, ascii, text_eq, text_lt,
  text_eq_refl, eq_of_text_eq, text_eq_iff, text_eq_of_ne, strip_prefix, starts_with, contains,
  split_once, text_eq_comm, Result, ok, err, and_then,
}
use rust_yamp.Dict.{Dict, text_key, get, insert, remove}
use rust_yamp.Json.{Json, get_str}

unfoldable pub is_strategy : Text → Bool
is_strategy value =
    any (λ s. text_eq s value)
      (ascii "prefix" ∷ ascii "priority" ∷ ascii "manual" ∷ ascii "passthrough" ∷ [])

-- The local variables of `apply_priority`, and the tools passed to `on_discard`.
pub record Selection : Type 0 where
  pub best : Dict Text ℕ
  pub kept : Dict Text Json
  pub order : List Text
  pub discarded : List Json

-- The index of each backend's last place in the list, as collected into a `HashMap`.
unfoldable pub ranks : List Text → ℕ → Dict Text ℕ → Dict Text ℕ
ranks [] index m = m
ranks (id ∷ ids) index m = ranks ids (suc index) (insert m id index)

module _ (split : Text → Option (Text × Text)) (priority : List Text) (field : Text) where
  abbrev pub labeled : Json → Text
  labeled tool = unwrap_or (get_str tool field) []

  unfoldable pub original : Json → Text
  original tool = elim (split (labeled tool)) [ some (_, o) ↦ o | none ↦ labeled tool ]

  unfoldable pub rank_of : Json → ℕ
  unfolding ranks
  rank_of tool = elim (split (labeled tool)) [
    | some (backend, _) ↦ unwrap_or (get (ranks priority 0 []) backend) (length priority)
    | none ↦ length priority
  ]

  -- `kept[&original]`
  abbrev pub kept_before : Option Json → List Json
  kept_before none = []
  kept_before (some old) = old ∷ []

  -- The arms of the `match` on the best rank so far.
  unfoldable pub place : Selection → Json → Option ℕ → Selection
  unfolding original rank_of
  place s tool none = record s {
    best = insert s.best (original tool) (rank_of tool);
    kept = insert s.kept (original tool) tool;
    order = s.order ++ original tool ∷ [];
  }
  place s tool (some current) =
      if ltb (rank_of tool) current
      then record {
        best = insert s.best (original tool) (rank_of tool);
        kept = insert s.kept (original tool) tool;
        order = s.order;
        discarded = s.discarded ++ kept_before (get s.kept (original tool));
      }
      else record s { discarded = s.discarded ++ tool ∷ [] }

  unfoldable pub select : Selection → List Json → Selection
  unfolding place
  select s [] = s
  select s (tool ∷ tools) = select (place s tool (get s.best (original tool))) tools

  abbrev pub start : Selection
  start = record { best = []; kept = []; order = []; discarded = [] }

  -- `kept.remove(&original).unwrap()` for each name in order; `none` is the panic.
  unfoldable pub collect : List Text → Dict Text Json → Option (List Json)
  collect [] kept = some []
  collect (o ∷ order) kept = do
    tool ← get kept o
    tools ← collect order (remove kept o)
    some (tool ∷ tools)

  unfoldable pub apply_priority : List Json → Option (List Json)
  unfolding select collect
  apply_priority tools = let s = select start tools in collect s.order s.kept

-- `{text:?}` in a message: the standard library's quoting.
module _ (debug : Text → Text) (overrides : Dict Text Text) where
  abbrev pub target : Text → Text
  target name = unwrap_or (get overrides name) name

  abbrev pub clash : Option Text → Text → Bool
  clash none name = false
  clash (some other) name = not (text_eq other name)

  abbrev pub clash_message : Text → Text → Text → Text
  clash_message name other to =
      debug name ++ (ascii " and " ++ (debug other ++ (ascii " both map to " ++ debug to)))

  unfoldable pub resolve_loop :
      List Text → Dict Text Text → Dict Text Text → Result (Dict Text Text)
  resolve_loop [] seen exposed = ok exposed
  resolve_loop (name ∷ names) seen exposed =
      let to = target name in
      let claimed = get seen to in
      let rest = resolve_loop names (insert seen to name) (insert exposed name to) in
      if clash claimed name then err (clash_message name (unwrap_or claimed []) to) else rest

  unfoldable pub resolve_manual : List Text → Result (Dict Text Text)
  unfolding resolve_loop
  resolve_manual names = resolve_loop names [] []
