-- ===== src/Router/Configure.antt =====
-- The construction of backends and of the router in src/router.rs. A time-out is in milliseconds.
pub mod Prefixed
use rust_yamp.Prelude.{
  ℕ, ◌≡◌, refl, Bool, true, false, not, ◌&&◌, Option, none, some, List, [], ◌∷◌, ◌++◌, map, Text,
  ascii, text_eq, Result, ok, err, if◌then◌else◌, is_some, any, length, ◌==◌, ltb, ◌≢◌, arith,
}
use rust_yamp.Json.{object, empty}
use rust_yamp.Float.{Float}
use rust_yamp.Breaker.{CircuitBreaker}
use rust_yamp.Cache.{ListCache}
use rust_yamp.Namespace.{valid_backend_id}
use rust_yamp.Filters.{Filter}
use rust_yamp.Signing.{AuditLog}
use rust_yamp.Handler.{Registry, ids}
use rust_yamp.Server.{max_output_bytes}
use rust_yamp.Router.{Backend, Router, Namespacing, Sent, Reply}

abbrev pub default_namespacing : Namespacing
default_namespacing = record { strategy = ascii "prefix"; overrides = []; priority = [] }

abbrev pub default_tool_threshold : ℕ
default_tool_threshold = 40

module _ (f : Float) where
  open f use {F64}

  -- `Backend::build`, for `new` and `resilient`.
  unfoldable pub build : Text → Option (CircuitBreaker F64) → Option ℕ → Result (Backend F64)
  build id breaker timeout =
      if valid_backend_id id
      then ok (record {
        id = id;
        breaker = breaker;
        timeout = timeout;
        token = none;
        next_id = 0;
        pending = [];
        keywords = [];
        capabilities = object empty;
        server_info = none;
      })
      else err (ascii "invalid backend id: " ++ id)

  unfoldable pub with_keywords : Backend F64 → List Text → Backend F64
  with_keywords b keywords = record b { keywords = keywords }

  unfoldable pub with_token : Backend F64 → Text → Backend F64
  with_token b token = record b { token = some token }

  -- `configure`, with the surface that its watcher begins with. `trace_ids` counts from `counter`.
  unfoldable pub configure : List (Backend F64) → ℕ → Router F64 × List Text
  unfolding max_output_bytes
  configure backends counter = (
    record {
      backends = backends;
      resilient = any (λ (b : Backend F64). is_some b.breaker) backends;
      single = length backends == 1;
      trace = true;
      disclose = false;
      disclose_threshold = default_tool_threshold;
      cache = none;
      principal = none;
      server_requests = [];
      server_req_seq = 0;
      reverse = [];
      audit = none;
      namespacing = default_namespacing;
      registry = record { handlers = [] };
      issuer = none;
      audience = none;
      variants = [];
      filter_chain = none;
      list_directives = none;
      validate_schemas = false;
      pool_enabled = false;
      pool_idle_ms = 0;
      pool_cap = none;
      inflight = record { deadlines = [] };
      pool_tasks = [];
      pool_tokens = [];
      server_tasks = false;
      tasks_store = record { tasks = []; seq = 0 };
      task_handles = [];
      subscriptions_enabled = false;
      subscriptions = record { uris = [] };
      output_limit = max_output_bytes;
      drain_ms = 0;
      counter = counter;
      sent = [];
    },
    map (λ (b : Backend F64). b.id) backends,
  )

  unfoldable pub set_auth : Router F64 → Option Text → Option Text → Router F64
  set_auth r issuer audience = record r { issuer = issuer; audience = audience }

  unfoldable pub set_namespacing : Router F64 → Namespacing → Router F64
  set_namespacing r namespacing = record r { namespacing = namespacing }

  unfoldable pub set_filters : Router F64 → List Filter → Router F64
  set_filters r chain = record r { filter_chain = some chain }

  unfoldable pub set_worker_pool : Router F64 → ℕ → ℕ → Router F64
  set_worker_pool r cap idle_ms = record r {
    pool_enabled = true;
    pool_idle_ms = idle_ms;
    pool_cap = if ltb 0 cap then some cap else none;
  }

  unfoldable pub set_server_tasks : Router F64 → Bool → Router F64
  set_server_tasks r on = record r { server_tasks = on }

  unfoldable pub set_resource_subscriptions : Router F64 → Bool → Router F64
  set_resource_subscriptions r on = record r { subscriptions_enabled = on }

  unfoldable pub set_output_limit : Router F64 → ℕ → Router F64
  set_output_limit r max_bytes = record r { output_limit = max_bytes }

  unfoldable pub set_drain_timeout : Router F64 → ℕ → Router F64
  set_drain_timeout r drain_ms = record r { drain_ms = drain_ms }

  unfoldable pub set_list_directives : Router F64 → ℕ → Text → Router F64
  set_list_directives r ttl_ms cache_scope = record r {
    list_directives = some (ttl_ms, cache_scope);
  }

  unfoldable pub set_validate_schemas : Router F64 → Bool → Router F64
  set_validate_schemas r on = record r { validate_schemas = on }

  unfoldable pub set_audit : Router F64 → AuditLog → Router F64
  set_audit r audit = record r { audit = some audit }

  abbrev pub is_empty : List Text → Bool
  is_empty [] = true
  is_empty (x ∷ xs) = false

  -- A registry is a second source of names.
  unfoldable pub set_registry : Router F64 → Registry → Router F64
  unfolding ids
  set_registry r registry = record r {
    single = length r.backends == 1 && is_empty (ids registry);
    registry = registry;
  }

  -- The watcher's cache is the router's.
  unfoldable pub set_cache : Router F64 → ListCache F64 → Option Text → Router F64
  set_cache r cache principal = record r { cache = some cache; principal = principal }

  unfoldable pub set_trace : Router F64 → Bool → Router F64
  set_trace r trace = record r { trace = trace }

  unfoldable pub set_disclose : Router F64 → ℕ → Router F64
  set_disclose r threshold = record r { disclose = true; disclose_threshold = threshold }
