-- ===== src/Routing.antt =====
-- src/routing.rs: name patterns and keyword routing.
use rust_yamp.Prelude.{
  ℕ, Bool, true, ◌||◌, Option, none, some, List, [], ◌∷◌, map, ◌==◌, if◌then◌else◌, unwrap_or, any,
  Text, ascii, text_eq, starts_with, contains,
}
use rust_yamp.Prelude.Sort.{elem}
use rust_yamp.Json.{Json, string, array, of_list, as_str, json_object, index}
use rust_yamp.Version.{supported_protocol_versions}

-- `s.strip_suffix('*')`, and `s.ends_with(t)`.
abbrev pub cons_some : ℕ → Option Text → Option Text
cons_some c none = none
cons_some c (some s) = some (c ∷ s)

unfoldable pub strip_star_end : Text → Option Text
strip_star_end [] = none
strip_star_end (c ∷ []) = if c == b'*' then some [] else none
strip_star_end (c ∷ d ∷ s) = cons_some c (strip_star_end (d ∷ s))

abbrev pub strip_star_start : Text → Option Text
strip_star_start [] = none
strip_star_start (c ∷ s) = if c == b'*' then some s else none

unfoldable pub ends_with : Text → Text → Bool
ends_with [] t = text_eq [] t
ends_with (c ∷ s) t = text_eq (c ∷ s) t || ends_with s t

-- The arms of the `match` on the two ends of the pattern.
unfoldable pub glob_arms : Text → Text → Option Text → Option Text → Bool
unfolding strip_star_end ends_with
glob_arms pattern name (some inner) (some _) =
    contains name (unwrap_or (strip_star_end inner) inner)
glob_arms pattern name (some suffix) none = ends_with name suffix
glob_arms pattern name none (some prefix) = starts_with name prefix
glob_arms pattern name none none = text_eq name pattern

unfoldable pub glob : Text → Text → Bool
unfolding glob_arms
glob pattern name =
    if text_eq pattern (ascii "*")
    then true
    else glob_arms pattern name (strip_star_start pattern) (strip_star_end pattern)

-- `filter_map(Value::as_str)`
abbrev pub texts : List Json → List Text
texts [] = []
texts (v ∷ vs) = elim (as_str v) [ some s ↦ s ∷ texts vs | none ↦ texts vs ]

unfoldable pub name_matches : Text → List Json → Bool
unfolding glob
name_matches name [] = true
name_matches name (p ∷ ps) = any (λ pattern. glob pattern name) (texts (p ∷ ps))

unfoldable pub backend_selected : List Text → List Json → Bool
unfolding elem
backend_selected [] filter_keywords = true
backend_selected (k ∷ ks) [] = true
backend_selected (k ∷ ks) (w ∷ ws) = any (λ keyword. elem keyword (texts (w ∷ ws))) (k ∷ ks)

-- `proxy_server_info` is src/forward.rs's.
unfoldable pub server_card : Json → Json
unfolding supported_protocol_versions
server_card info = json_object (
    (ascii "name", index info (ascii "name"))
    ∷ (ascii "version", index info (ascii "version"))
    ∷ (ascii "protocolVersions", array (of_list (map string supported_protocol_versions)))
    ∷ (
      ascii "transports",
      array (of_list (string (ascii "stdio") ∷ string (ascii "streamable-http") ∷ [])),
    )
    ∷ (ascii "role", string (ascii "intermediary"))
    ∷ [])
