-- ===== src/Capability.antt =====
-- src/capability.rs: composition of tool lists and capabilities, search and disclosure. `lower` is the
-- standard library's `to_lowercase`.
pub mod Intersection
use rust_yamp.Prelude.{
  ℕ, zero, suc, ◌+◌, ◌-◌, ◌*◌, ◌/◌, ◌%◌, ◌^◌, ◌≤◌, ◌<◌, ◌≡◌, refl, sym, ap, ◌∙◌, ◌≢◌, ◌↔◌, ◌⊎◌, inl,
  inr, Bool, true, false, not, ◌&&◌, ◌||◌, Option, none, some, List, [], ◌∷◌, ◌++◌, map, append-nil,
  append_assoc, arith, ltb, leb, ◌==◌, if◌then◌else◌, ==_iff, Bool-cases, Option-cases,
  some_injective, >>=-eq-some, ◌>>=◌, unwrap_or, is_some, length, take, drop, get_or, any, all,
  retain, length-append, All, All-append, Any, Any-imp, Bytes, Text, ascii, text_eq, text_lt,
  text_eq_refl, eq_of_text_eq, text_eq_iff, text_eq_of_ne, strip_prefix, starts_with, contains,
  split_once, text_eq_comm, Result, ok, err, and_then,
}
use rust_yamp.Prelude.Sort.{elem}
use rust_yamp.Json.{
  Json, Map, empty, string, object, array, of_list, lookup, insert, extend, entries, contains_key,
  as_object, get_str, json_object,
}
use rust_yamp.Json

unfoldable pub search_tool_definition : Json
search_tool_definition = json_object (
    (ascii "name", string (ascii "proxy__search_tools"))
    ∷ (
      ascii "description",
      string (ascii "Search for additional tools available through this proxy"),
    )
    ∷ (
      ascii "inputSchema",
      json_object (
          (ascii "type", string (ascii "object"))
          ∷ (
            ascii "properties",
            json_object (
                (
                  ascii "query",
                  json_object (
                      (ascii "type", string (ascii "string"))
                      ∷ (
                        ascii "description",
                        string (ascii "Keyword to search tool names and descriptions"),
                      )
                      ∷ []),
                )
                ∷ []),
          )
          ∷ (ascii "required", array (of_list (string (ascii "query") ∷ [])))
          ∷ []),
    )
    ∷ [])

unfoldable pub tool_name : Json → Text
tool_name tool = unwrap_or (get_str tool (ascii "name")) []

abbrev pub names : List Json → List Text
names tools = map tool_name tools

abbrev pub flatten : List (List Json) → List Json
flatten [] = []
flatten (b ∷ bs) = b ++ flatten bs

-- The names that every backend has, from those common so far.
unfoldable pub common_from : List Text → List (List Json) → List Text
unfolding elem tool_name
common_from existing [] = existing
common_from existing (b ∷ bs) = common_from (retain (λ n. elem n (names b)) existing) bs

unfoldable pub common : List (List Json) → List Text
unfolding common_from tool_name
common [] = []
common (b ∷ bs) = common_from (names b) bs

-- The first tool of each common name.
unfoldable pub pick : List Text → List Text → List Json → List Json
unfolding elem tool_name
pick shared seen [] = []
pick shared seen (tool ∷ tools) =
    let name = tool_name tool in
    if elem name shared && not (elem name seen)
    then tool ∷ pick shared (name ∷ seen) tools
    else pick shared seen tools

unfoldable pub intersection : List (List Json) → List Json
unfolding common pick
intersection per_backend = pick (common per_backend) [] (flatten per_backend)

unfoldable pub compose : List (List Json) → Text → Option (List Text) → Result (List Json)
unfolding intersection elem tool_name
compose per_backend mode curated =
    if text_eq mode (ascii "union")
    then ok (flatten per_backend)
    else if text_eq mode (ascii "intersection")
    then ok (intersection per_backend)
    else if text_eq mode (ascii "curated")
    then ok (retain (λ t. elem (tool_name t) (unwrap_or curated [])) (flatten per_backend))
    else err (ascii "unknown composition mode: " ++ mode)

abbrev pub object_or_empty : Json → Map
object_or_empty v = unwrap_or (as_object v) empty

-- One primitive over the backends: nothing until a backend has it.
unfoldable pub merge_primitive : Text → List Json → Option Map → Option Map
merge_primitive primitive [] merged = merged
merge_primitive primitive (caps ∷ rest) merged = elim (Json.get caps primitive) [
  | none ↦ merge_primitive primitive rest merged
  | some value ↦
      merge_primitive primitive rest
        (some (extend (unwrap_or merged empty) (entries (object_or_empty value))))
]

abbrev pub insert_merged : Map → Text → Option Map → Map
insert_merged composed primitive none = composed
insert_merged composed primitive (some merged) = insert composed primitive (object merged)

unfoldable pub merge_primitives : List Text → List Json → Map → Map
unfolding merge_primitive
merge_primitives [] backend_caps composed = composed
merge_primitives (p ∷ ps) backend_caps composed =
    merge_primitives ps backend_caps
      (insert_merged composed p (merge_primitive p backend_caps none))

-- `entry(name).or_insert_with(value)`
unfoldable pub add_missing : Map → List (Text × Json) → Map
add_missing m [] = m
add_missing m ((k, v) ∷ more) = add_missing (if contains_key m k then m else insert m k v) more

unfoldable pub extensions : List Json → Map → Map
unfolding add_missing
extensions [] m = m
extensions (caps ∷ rest) m =
    extensions rest
      (add_missing m (entries (unwrap_or (Json.get caps (ascii "extensions") >>= as_object) empty)))

abbrev pub insert_extensions : Map → Map → Map
insert_extensions composed Json.empty = composed
insert_extensions composed (Json.entry k v m) =
    insert composed (ascii "extensions") (object (Json.entry k v m))

abbrev pub insert_some : Map → Text → Option Json → Map
insert_some m k none = m
insert_some m k (some v) = insert m k v

unfoldable pub compose_capabilities : List Json → Option Json → Json
unfolding merge_primitives extensions
compose_capabilities backend_caps client_caps =
    let primitives =
      ascii "tools"
      ∷ ascii "resources"
      ∷ ascii "prompts"
      ∷ ascii "logging"
      ∷ ascii "sampling"
      ∷ [] in
    let composed = merge_primitives primitives backend_caps empty in
    let elicited =
      insert_some composed (ascii "elicitation")
        (client_caps >>= λ c. Json.get c (ascii "elicitation")) in
    object (insert_extensions elicited (extensions backend_caps empty))

unfoldable pub search_tools : (Text → Text) → Text → List Json → List Json
unfolding tool_name
search_tools lower query tools =
    retain
      (λ tool.
        contains (lower (tool_name tool)) (lower query)
        || contains (lower (unwrap_or (get_str tool (ascii "description")) [])) (lower query))
      tools

unfoldable pub disclose : List Json → ℕ → List Json × Bool
unfolding search_tool_definition
disclose tools threshold =
    if ltb threshold (length tools)
    then (take threshold tools ++ search_tool_definition ∷ [], true)
    else (tools, false)
