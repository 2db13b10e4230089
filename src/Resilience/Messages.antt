-- ===== src/Resilience/Messages.antt =====
-- The JSON-RPC messages of src/resilience.rs.
use rust_yamp.Prelude.{
  Bool, true, false, ◌&&◌, none, some, List, [], ◌∷◌, map, Text, ascii, text_eq, ◌>>=◌, unwrap_or,
}
use rust_yamp.Prelude.Sort.{sort, dedup}
use rust_yamp.Json.{
  Json, Map, null, number, string, array, object, neg_int, json_object, of_list, insert, modify,
  as_array, get_str,
}
use rust_yamp.Json
use rust_yamp.Namespace.{prefix}

-- -32602, -32603 and -32003: `neg_int n` is -(n + 1).
abbrev pub invalid_params : Json
invalid_params = number (neg_int 32601)

abbrev pub internal_error : Json
internal_error = number (neg_int 32602)

abbrev pub server_not_available : Json
server_not_available = number (neg_int 32002)

unfoldable pub partial_meta : List Text → Text → Json
partial_meta unavailable reason = json_object (
    (
      ascii "io.modelcontextprotocol/proxy-partial",
      json_object (
          (ascii "unavailable_backends", array (of_list (map string (dedup (sort unavailable)))))
          ∷ (ascii "reason", string reason)
          ∷ []),
    )
    ∷ [])

unfoldable pub error : Json → Json → Text → Json
error id code message = json_object (
    (ascii "jsonrpc", string (ascii "2.0"))
    ∷ (ascii "id", id)
    ∷ (ascii "error", json_object ((ascii "code", code) ∷ (ascii "message", string message) ∷ []))
    ∷ [])

unfoldable pub reply_with : Json → Text → Json → Json
reply_with id key value =
    json_object ((ascii "jsonrpc", string (ascii "2.0")) ∷ (ascii "id", id) ∷ (key, value) ∷ [])

-- `==` on `Vec<String>`.
unfoldable pub same_ids : List Text → List Text → Bool
same_ids [] [] = true
same_ids [] (y ∷ ys) = false
same_ids (x ∷ xs) [] = false
same_ids (x ∷ xs) (y ∷ ys) = text_eq x y && same_ids xs ys

-- `response.get("result").and_then(|r| r.get("tools")).and_then(Value::as_array)`
unfoldable pub listed_tools : Json → List Json
listed_tools response =
    unwrap_or
      (do r ← Json.get response (ascii "result"); t ← Json.get r (ascii "tools"); as_array t) []

unfoldable pub rename_tool : Text → Json → Json
rename_tool id tool =
    modify tool
      λ m. insert m (ascii "name") (string (prefix id (unwrap_or (get_str tool (ascii "name")) [])))

-- The tool's call with its own name: `params.name = original`.
unfoldable pub call_params : Json → Text → Json
call_params message original =
    modify (unwrap_or (Json.get message (ascii "params")) (object Json.empty))
      λ m. insert m (ascii "name") (string original)

-- The answer to the client for what the backend answered.
unfoldable pub call_response : Json → Json → Json
unfolding reply_with
call_response id response = elim (Json.get response (ascii "result")) [
  | some result ↦ reply_with id (ascii "result") result
  | none ↦ reply_with id (ascii "error") (
      unwrap_or (Json.get response (ascii "error")) (
        json_object (
          (ascii "code", internal_error) ∷ (ascii "message", string (ascii "backend error")) ∷ [])))
]

unfoldable pub list_changed_notification : Json
list_changed_notification = json_object (
    (ascii "jsonrpc", string (ascii "2.0"))
    ∷ (ascii "method", string (ascii "notifications/tools/list_changed"))
    ∷ [])
