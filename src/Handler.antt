-- ===== src/Handler.antt =====
-- src/handler.rs: local handlers and their registry. A handler is its id, its tools and its answer to
-- a call.
pub mod Dispatch
use rust_yamp.Prelude.{
  ℕ, zero, suc, ◌+◌, ◌-◌, ◌*◌, ◌/◌, ◌%◌, ◌^◌, ◌≤◌, ◌<◌, ◌≡◌, refl, sym, ap, ◌∙◌, ◌≢◌, ◌↔◌, ◌⊎◌, inl,
  inr, Bool, true, false, not, ◌&&◌, ◌||◌, Option, none, some, List, [], ◌∷◌, ◌++◌, map, append-nil,
  append_assoc, arith, ltb, leb, ◌==◌, if◌then◌else◌, ==_iff, Bool-cases, Option-cases,
  some_injective, >>=-eq-some, ◌>>=◌, unwrap_or, is_some, length, take, drop, get_or, any, all,
  retain, length-append, All, All-append, Any, Any-imp, Bytes, Text, ascii, text_eq, text_lt,
  text_eq_refl, eq_of_text_eq, text_eq_iff, text_eq_of_ne, strip_prefix, starts_with, contains,
  split_once, text_eq_comm, Result, ok, err, and_then,
}
use rust_yamp.Prelude.Sort.{elem}
use rust_yamp.Namespace.{valid_backend_id, prefix}
use rust_yamp.Json.{
  Json, string, array, object, empty, of_list, insert, modify, get_str, json_object,
}

pub record Handler : Type 0 where
  pub id : Text
  pub list_tools : List Json
  pub call_tool : Text → Json → Json

pub record Registry : Type 0 where
  pub handlers : List Handler

-- The loop of `Registry::new`, with the ids seen so far.
unfoldable pub check_ids : List Handler → List Text → Option Text
unfolding valid_backend_id elem
check_ids [] seen = none
check_ids (h ∷ hs) seen =
    let rest = check_ids hs (h.id ∷ seen) in
    if valid_backend_id h.id
    then if elem h.id seen then some (ascii "duplicate handler id: " ++ h.id) else rest
    else some (ascii "invalid handler id: " ++ h.id)

abbrev pub registered : List Handler → Option Text → Result Registry
registered handlers (some message) = err message
registered handlers none = ok (record { handlers = handlers })

unfoldable pub new : List Handler → Result Registry
unfolding check_ids
new handlers = registered handlers (check_ids handlers [])

unfoldable pub ids : Registry → List Text
ids r = map (λ (h : Handler). h.id) r.handlers

unfoldable pub find_handler : List Handler → Text → Option Handler
find_handler [] id = none
find_handler (h ∷ hs) id = if text_eq h.id id then some h else find_handler hs id

unfoldable pub handler_for : Registry → Text → Option Handler
unfolding find_handler
handler_for r id = find_handler r.handlers id

abbrev pub named : Text → Json → Option Text → Json
named id tool none = tool
named id tool (some name) = modify tool λ m. insert m (ascii "name") (string (prefix id name))

unfoldable pub namespaced : Text → Json → Json
namespaced id tool = named id tool (get_str tool (ascii "name"))

unfoldable pub tools_of : List Handler → List Json
unfolding namespaced
tools_of [] = []
tools_of (h ∷ hs) = map (namespaced h.id) h.list_tools ++ tools_of hs

unfoldable pub list_tools : Registry → List Json
unfolding tools_of
list_tools r = tools_of r.handlers

-- `BackendsHandler`: `render` is `Value::to_string` of what the provider says.
unfoldable pub backends_handler : Text → Handler
backends_handler rendered = record {
  id = ascii "yamp";
  list_tools =
      json_object (
        (ascii "name", string (ascii "backends"))
        ∷ (
          ascii "description",
          string (ascii "List the backends this proxy fronts and their availability"),
        )
        ∷ (
          ascii "inputSchema",
          json_object
              ((ascii "type", string (ascii "object")) ∷ (ascii "properties", object empty) ∷ []),
        )
        ∷ [])
      ∷ [];
  call_tool = λ name arguments. json_object (
      (
        ascii "content",
        array (
            of_list (
              json_object
                ((ascii "type", string (ascii "text")) ∷ (ascii "text", string rendered) ∷ [])
              ∷ [])),
      )
      ∷ []);
}
