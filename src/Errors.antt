-- ===== src/Errors.antt =====
-- src/errors.rs: the registry of error codes. A code is an `i64` as a JSON number.
use rust_yamp.Prelude.{
  ℕ, ◌+◌, ◌-◌, Bool, false, ◌&&◌, Option, none, some, List, [], ◌∷◌, ◌++◌, map, leb, ◌==◌,
  if◌then◌else◌, Text, ascii,
}
use rust_yamp.Json.{
  Json, Map, Number, pos_int, neg_int, number, string, object, empty, insert, json_object,
}

-- The code -n.
abbrev pub minus : ℕ → Number
minus n = neg_int (n - 1)

unfoldable pub code_eq : Number → Number → Bool
code_eq (pos_int a) (pos_int b) = a == b
code_eq (neg_int a) (neg_int b) = a == b
code_eq _ _ = false

pub record Registered : Type 0 where
  pub code : Number
  pub id : Text
  pub reason : Text
  pub cause : Text
  pub hint : Text

abbrev pub registered : ℕ → Text → Text → Text → Text → Registered
registered n id reason cause hint = record {
  code = minus n;
  id = id;
  reason = reason;
  cause = cause;
  hint = hint;
}

unfoldable pub registry : List Registered
registry =
    registered 32600 (ascii "E4000") (ascii "Invalid Request")
      (ascii "The message is not a well-formed JSON-RPC request object.")
      (ascii "Send a JSON-RPC 2.0 request carrying jsonrpc, method, and id.")
    ∷ registered 32602 (ascii "E4002") (ascii "Invalid Params")
        (ascii "The request's params do not match the method's expected shape.")
        (ascii "Check the tool's inputSchema and correct the arguments.")
    ∷ registered 32601 (ascii "E4004") (ascii "Method Not Found")
        (ascii "The requested method or namespaced tool is exposed by no backend or handler.")
        (ascii "List the available tools and call one of the exposed names.")
    ∷ registered 32002 (ascii "E4010") (ascii "Unauthorized")
        (ascii "The client's token failed issuer or audience validation, or none was presented.")
        (ascii "Present a token whose iss and aud match the proxy's configured values.")
    ∷ registered 32001 (ascii "E4030") (ascii "Policy Denied")
        (ascii "A policy rule or extension filter denied the request.")
        (ascii "Review the active policy and filter chain, then adjust the rule or the request.")
    ∷ registered 32000 (ascii "E4400") (ascii "No Session")
        (ascii "The request referenced a session that is missing or has expired.")
        (ascii "Reinitialize to obtain a session before sending session-scoped requests.")
    ∷ registered 32004 (ascii "E4260") (ascii "Unsupported Protocol Version")
        (ascii "The declared protocol version is not in the proxy's supported set.")
        (ascii "Negotiate one of the supported versions named in the error data.")
    ∷ registered 32005 (ascii "E4006") (ascii "Header Mismatch")
        (ascii "A transport routing header disagrees with the request body.")
        (ascii "Make Mcp-Method and Mcp-Name agree with the body, or omit them.")
    ∷ registered 32603 (ascii "E5000") (ascii "Internal Error")
        (ascii "The proxy or a local handler failed while processing the request.")
        (ascii "Retry; if it persists, check the server logs and report the error id.")
    ∷ registered 32003 (ascii "E5030") (ascii "Server Not Available")
        (ascii "The target backend is unavailable or its circuit breaker is open.")
        (ascii "Wait for the backend to recover; the proxy resumes once it is healthy.")
    ∷ []

-- `REGISTRY.iter().find(|(c, ..)| *c == code)`
unfoldable pub find_code : List Registered → Number → Option Registered
unfolding code_eq
find_code [] code = none
find_code (r ∷ rs) code = if code_eq r.code code then some r else find_code rs code

unfoldable pub id : Number → Text
unfolding find_code registry
id code = elim (find_code registry code) [ some r ↦ r.id | none ↦ [] ]

unfoldable pub reason : Number → Text
unfolding find_code registry
reason code = elim (find_code registry code) [ some r ↦ r.reason | none ↦ [] ]

unfoldable pub cause : Number → Text
unfolding find_code registry
cause code = elim (find_code registry code) [ some r ↦ r.cause | none ↦ [] ]

unfoldable pub hint : Number → Text
unfolding find_code registry
hint code = elim (find_code registry code) [ some r ↦ r.hint | none ↦ [] ]

-- `to_lowercase` of an id, which is ASCII.
abbrev pub ascii_lower : ℕ → ℕ
ascii_lower c = if leb b'A' c && leb c b'Z' then c + 32 else c

abbrev pub anchor : Text → Text
anchor [] = []
anchor (c ∷ eid) = ascii "ERRORS.md#" ++ map ascii_lower (c ∷ eid)

unfoldable pub docs_url : Number → Text
unfolding id
docs_url code = anchor (id code)

unfoldable pub describe : Number → Json
unfolding id reason cause hint docs_url
describe code = json_object (
    (ascii "code", number code)
    ∷ (ascii "errorId", string (id code))
    ∷ (ascii "reason", string (reason code))
    ∷ (ascii "cause", string (cause code))
    ∷ (ascii "hint", string (hint code))
    ∷ (ascii "docsUrl", string (docs_url code))
    ∷ [])

abbrev pub insert_detail : Map → Option Text → Map
insert_detail m none = m
insert_detail m (some detail) = insert m (ascii "detail") (string detail)

unfoldable pub error_object : Number → Option Text → Json
unfolding id reason
error_object code detail = json_object (
    (ascii "code", number code)
    ∷ (ascii "message", string (reason code))
    ∷ (
      ascii "data",
      object (insert_detail (insert empty (ascii "errorId") (string (id code))) detail),
    )
    ∷ [])
