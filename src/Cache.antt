-- ===== src/Cache.antt =====
-- src/cache.rs: the principal-aware cache of list results. The clock is the caller's.
pub mod Laws
pub mod History
use rust_yamp.Prelude.{
  Bool, true, false, not, ◌&&◌, Option, none, some, [], Text, ascii, text_eq, if◌then◌else◌, ◌>>=◌,
  unwrap_or,
}
use rust_yamp.Float.{Float, as_f64}
use rust_yamp.Json.{Json, as_str}
use rust_yamp.Json
use rust_yamp.Dict.{Dict, pair_key}
use rust_yamp.Dict

abbrev pub ttl_ms_key : Text
ttl_ms_key = ascii "ttlMs"

abbrev pub cache_scope_key : Text
cache_scope_key = ascii "cacheScope"

abbrev pub public : Text
public = ascii "public"

abbrev pub private : Text
private = ascii "private"

pub record Entry (F64 : Type 0) : Type 0 where
  pub result : Json
  pub expires_at : F64
  pub scope : Text
  pub principal : Option Text

pub record ListCache (F64 : Type 0) : Type 0 where
  pub entries : Dict (Text × Text) (Entry F64)
  pub default_ttl_ms : F64

-- `==` on `Option<&str>`.
unfoldable pub principal_eq : Option Text → Option Text → Bool
principal_eq none none = true
principal_eq none (some b) = false
principal_eq (some a) none = false
principal_eq (some a) (some b) = text_eq a b

-- `match result.get("cacheScope").and_then(Value::as_str)`.
unfoldable pub scope_of : Json → Text
scope_of result =
    if text_eq (unwrap_or (Json.get result cache_scope_key >>= as_str) []) private
    then private
    else public

module _ (f : Float) where
  open f use {F64, from_u64, add, div, le}

  unfoldable pub new : F64 → ListCache F64
  new default_ttl_ms = record { entries = []; default_ttl_ms = default_ttl_ms }

  -- What is found under the key: an expired entry is removed, a private one is shown only to the
  -- principal that stored it.
  unfoldable pub serve :
      ListCache F64
      → Text × Text
      → Option Text
      → F64
      → Option (Entry F64)
      → Option Json × ListCache F64
  serve cache key principal now none = (none, cache)
  serve cache key principal now (some entry) =
      if le entry.expires_at now
      then (none, record cache { entries = Dict.remove cache.entries key })
      else if text_eq entry.scope private && not (principal_eq entry.principal principal)
      then (none, cache)
      else (some entry.result, cache)

  unfoldable pub get : ListCache F64 → Text → Text → Option Text → F64 → Option Json × ListCache F64
  unfolding serve
  get cache backend_id method principal now =
      serve cache (backend_id, method) principal now (Dict.get cache.entries (backend_id, method))

  -- `result.get("ttlMs").and_then(Value::as_f64).unwrap_or(self.default_ttl_ms)`
  unfoldable pub ttl_of : ListCache F64 → Json → F64
  ttl_of cache result = unwrap_or (Json.get result ttl_ms_key >>= as_f64 f) cache.default_ttl_ms

  unfoldable pub put : ListCache F64 → Text → Text → Option Text → Json → F64 → ListCache F64
  put cache backend_id method principal result now =
      let ttl_ms = ttl_of cache result in
      let scope = scope_of result in
      if le ttl_ms (from_u64 0)
      then record cache { entries = Dict.remove cache.entries (backend_id, method) }
      else record cache {
        entries =
            Dict.insert cache.entries (backend_id, method)
              (record {
                result = result;
                expires_at = add now (div ttl_ms (from_u64 1000));
                scope = scope;
                principal = if text_eq scope private then principal else none;
              });
      }

  unfoldable pub invalidate_backend : ListCache F64 → Text → ListCache F64
  invalidate_backend cache backend_id = record cache {
    entries = Dict.retain_keys (λ key. not (text_eq key.0 backend_id)) cache.entries;
  }
