-- ===== src/Tests.antt =====
-- Runs of the definitions and concrete instances of the theorems, some of them from the sources' own
-- tests.
mod Clock
mod Namespace
mod Base64
mod Transport
mod Filters
mod Auth
mod Collision
mod Cache
mod Pool
mod Tasks
mod Breaker
mod Resilience
mod Capability
mod Signing
mod Stateless
mod Router
mod Callout
