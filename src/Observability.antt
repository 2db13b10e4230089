-- ===== src/Observability.antt =====
-- src/observability.rs: the proxy's hops and the W3C trace context in `_meta`.
use rust_yamp.Prelude.{List, [], ◌∷◌, ◌++◌, map, Text, ascii, ℕ, if◌then◌else◌, ◌>>=◌, unwrap_or}
use rust_yamp.Json.{
  Json, Map, number, string, array, object, empty, pos_int, json_object, of_list, insert, as_array,
  as_object, contains_key,
}
use rust_yamp.Json
use rust_yamp.Forward.{proxy_name, proxy_version}

abbrev pub proxy_hops_key : Text
proxy_hops_key = ascii "io.modelcontextprotocol/proxy-hops"

abbrev pub traceparent : Text
traceparent = ascii "traceparent"

unfoldable pub proxy_hop : Text → Json
proxy_hop mode = json_object (
    (ascii "name", string proxy_name)
    ∷ (ascii "mode", string mode)
    ∷ (ascii "version", string proxy_version)
    ∷ (
      ascii "layers",
      array (of_list (map (λ (n : ℕ). number (pos_int n)) (1 ∷ 2 ∷ 3 ∷ 4 ∷ 5 ∷ []))),
    )
    ∷ [])

unfoldable pub hops_of : Json → List Json
hops_of meta = unwrap_or (Json.get meta proxy_hops_key >>= as_array) []

unfoldable pub append_hop : Json → Text → Json
unfolding hops_of proxy_hop
append_hop meta mode = object (
    insert (unwrap_or (as_object meta) empty) proxy_hops_key
      (array (of_list (hops_of meta ++ proxy_hop mode ∷ []))))

unfoldable pub make_traceparent : Text → Text → Text
make_traceparent trace_id span_id =
    ascii "00-" ++ (trace_id ++ (ascii "-" ++ (span_id ++ ascii "-01")))

-- `new_ids` is what the source of ids would give.
unfoldable pub ensure_trace_context : Json → Text × Text → Json
unfolding make_traceparent
ensure_trace_context meta new_ids =
    let m = unwrap_or (as_object meta) empty in
    if contains_key m traceparent
    then object m
    else object (insert m traceparent (string (make_traceparent new_ids.0 new_ids.1)))
