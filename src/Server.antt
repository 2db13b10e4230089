-- ===== src/Server.antt =====
-- src/server.rs: what a server adds to the results it originates, and their bound.
use rust_yamp.Prelude.{ℕ, Bool, false, Text, Bytes, ltb, ◌==◌, if◌then◌else◌, unwrap_or, length}
use rust_yamp.Json.{Json, number, string, object, empty, pos_int, insert, as_object}
use rust_yamp.Transport.Framed.{max_frame_bytes}
use rust_yamp.Cache.{ttl_ms_key, cache_scope_key}

-- `MAX_FRAME_BYTES` of src/transport/mod.rs.
unfoldable pub max_output_bytes : ℕ
max_output_bytes = max_frame_bytes

-- `encode` is serde_json's printing.
unfoldable pub exceeds_output_cap : (Json → Bytes) → Json → ℕ → Bool
exceeds_output_cap encode result max_bytes =
    if max_bytes == 0 then false else ltb max_bytes (length (encode result))

unfoldable pub list_directives : ℕ → Text → Json
list_directives ttl_ms cache_scope = object (
    insert (insert empty ttl_ms_key (number (pos_int ttl_ms))) cache_scope_key (string cache_scope))

unfoldable pub attach_directives : Json → ℕ → Text → Json
attach_directives result ttl_ms cache_scope = object (
    insert (insert (unwrap_or (as_object result) empty) ttl_ms_key (number (pos_int ttl_ms)))
      cache_scope_key (string cache_scope))
