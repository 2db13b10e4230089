-- ===== src/Lib.antt =====
-- yamp, a proxy for the Model Context Protocol: a verification library of its core.
--
-- The program sits between a client and several backends. It reads framed JSON-RPC messages, gives
-- the names, URIs and task ids of each backend a prefix by which they find their way back, and
-- composes the backends' lists. Around that stand the parts that decide what may pass: credentials
-- and headers, the filter chain, admission and deadlines, circuit breakers, and caches that know
-- principals. The router joins them for a stateful session over several backends: it shakes hands on
-- both sides, fans lists out, routes calls, tasks and subscriptions, serves local handlers, and
-- brings the backends' own requests to the client and the replies back. The stateless forwarder
-- routes single requests, and the forwarding proxy serves one backend.
--
-- The files and the code they model, by the paths of the repository:
--   Namespace: src/namespace.rs (`prefix`, `split`, `prefix_uri`, `split_uri`, `valid_backend_id`).
--   Base64: src/base64.rs. Content: src/content.rs. JsonRpc: src/jsonrpc.rs.
--   Transport and its children Line, Sse and Framed: src/transport/{mod,line,sse,framed}.rs. The
--     record `Framing` is the interface of `MessageRead` and `MessageWrite` with the laws that each
--     framing meets. Relay: `pump` of src/relay.rs, a client of that interface.
--   Filters and Filters.Interest: src/filters.rs; a filter is a record of what the chain calls.
--   Auth: src/auth.rs. Policy: src/policy.rs. Security: src/security.rs. Errors: src/errors.rs.
--   Collision: src/collision.rs. Capability: src/capability.rs. Variants: src/variants.rs.
--   Version: src/version.rs. Routing: src/routing.rs. Handler: src/handler.rs.
--   Cache: src/cache.rs. Pool: src/pool.rs. Tasks: src/tasks.rs. Subscriptions:
--     src/subscriptions.rs. Breaker: `CircuitBreaker`, and Resilience with Resilience.Messages:
--     `ResilientRouter` of src/resilience.rs.
--   Signing and its child Sha256: src/signing.rs. Observability, Server, Schema and Media: the files
--     of these names. Forward: the identity of the proxy, and Forward.Session: `ForwardProxy` of
--     src/forward.rs. Stateless, with its messages in Messages: src/stateless.rs.
--   Router: the data of src/router.rs (`Capability`, `BackendHandle`, `ForwardRouter`), and in its
--     children Request: `available` and `request` of a backend; Reader: `start`'s reader, client
--     replies, notifications and cancellations; Listing and Collect: `collect`; Aggregate:
--     `aggregate`; Route: `route_task`, `route_subscription`, `serve_local_task`; Local:
--     `dispatch_local` and `run_pooled`; Call: `route_call`; Serve: a round of `route_loop`, pooled
--     calls and originated tasks; Handshake: `handshake`; Surface: `SurfaceWatcher`; Configure: the
--     construction and the setters; Publisher: `ResourcePublisher`.
--   Callout: src/callout.rs; its `wire` is the service with its transport. Icap, a client
--     of Callout and Content: src/icap.rs.
--   Json is `serde_json::Value` with its `BTreeMap`, Dict is `HashMap` and `HashSet`, Float is the
--     interface of `f64`, and Prelude holds what the components share: strings, lists, `Result`,
--     sorting, hexadecimal and decimal text, and the bits of a word. The children of a component are
--     named for what they prove, and Tests runs the definitions on concrete inputs.
--
-- How the code corresponds:
--   A struct is a record with the struct's fields, a method a function from the state to the state
--   and the answer, with the code's tests and early returns in their order. A string or a slice of
--   bytes is the list of its bytes. A hash map is an association list: the code uses the order of one
--   only where `route_call` inverts the renames, and there it is the list's. The clock is an argument,
--   as in the code. A `u64` or `u32` counter wraps at its width. `Result` carries the message of the
--   error.
--   A JSON number is an unsigned integer, a negative one, or the bits of a float.
--   A stream is the list of the bytes that are still to come. A channel answers as a function of the
--   calls made so far, and the router's calls are recorded in that order.
--   The router's state is a record; `sent` is the trace of what was written to the backends. A
--   backend's reply to a message is a function `wire` of the trace before it, and the time a function
--   `clock` of the trace, so the backends and the clock may do anything, be silent too: then the
--   request comes to an error where its backend has a time-out, and else to `never`, the wait without
--   an end. A callout's verdict that never comes is `none`. The requests of a fan-out
--   are written in the order of the backends, and `join_all` keeps that order for the outcomes.
--   The code's concurrency is cut at its awaits: a message of a backend (`deliver`), a message of the
--   client (`on_message`), the start and the end of a pooled call (`start_pooled`, `finish_pooled`),
--   the end of a task (`finish_task`) and a look at the surface (`emit_if_changed`) are steps. A
--   request and its reply are one step.
--   A filter, a handler or an authenticator is a record of the functions that the code calls.
--
-- Parameters: what the sources only call. `f64` in Cache, Breaker, Resilience and Router;
-- serde_json's printing of an id in Pool, and its printing and parsing in Variants; the quoting of
-- a name in a message in Collision; `String::from_utf8_lossy` (`lossy`) in Icap; `trim` and
-- `to_lowercase` on Unicode text in Security and Capability; serde_json's printing and parsing
-- (`encode`, `decode`, `canonical`, `render`, `parse`) in Signing, Stateless, Forward and Router;
-- the verdict of the jsonschema crate (`validates`).
--
-- Fuel: `read_header`, `receive_loop` and `pump_loop` make one pass per line or message, and each
-- pass takes at least a byte, so the number of bytes of the stream and one more is enough. `decimal`
-- takes the number itself, which has fewer digits than that. `push_zeros` of SHA-256 has 64 pushes,
-- and `chunks_exact` one step per byte of the message. All other loops are structural.
--
-- Not modelled: the I/O errors of streams and the end of a connection beyond a failed write and a
-- closed backend, `Relay::run`, `build_registry`, of the router the tasks of `serve`, `drain` and
-- `close`, and the files of the transparent modes, configuration, REST, status and the command
-- lines. A write to a backend that needs no reply is taken to succeed: the code ignores its failure,
-- or in the handshake fails with it.
pub mod Prelude
pub mod Dict
pub mod Json
pub mod Namespace
pub mod Base64
pub mod Float
pub mod Cache
pub mod JsonRpc
pub mod Pool
pub mod Tasks
pub mod Subscriptions
pub mod Breaker
pub mod Resilience
pub mod Transport
pub mod Relay
pub mod Content
pub mod Filters
pub mod Auth
pub mod Policy
pub mod Collision
pub mod Handler
pub mod Capability
pub mod Variants
pub mod Security
pub mod Version
pub mod Routing
pub mod Errors
pub mod Signing
pub mod Forward
pub mod Stateless
pub mod Router
pub mod Observability
pub mod Server
pub mod Schema
pub mod Media
pub mod Callout
pub mod Icap
mod Tests
