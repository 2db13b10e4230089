-- ===== src/Json.antt =====
-- `serde_json::Value`, its map and accessors, and the laws by which the components use them.
mod Defs
mod Laws
unfoldable pub use Defs.*
pub use Laws.*
