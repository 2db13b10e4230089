-- ===== src/Tests/Resilience.antt =====
-- The router of src/resilience.rs with two backends, one of them down.
use rust_yamp.Prelude.{ℕ, ◌≡◌, ◌⊎◌, Option, none, some, List, [], ◌∷◌, Any, Text, ascii}
use rust_yamp.Namespace.{split}
use rust_yamp.Json.{Json, null, empty, entry, string, object}
use rust_yamp.Breaker.{new}
use rust_yamp.Resilience.{Call, ResilientRouter, tools_call, tool_of}
use rust_yamp.Resilience.Calls.{Allowed, tool_call, tools_call-calls}
use rust_yamp.Tests.Clock.{seconds}

-- Every transport fails.
abbrev down : List Call → Call → Option Json
down calls call = none

abbrev router : ResilientRouter ℕ
router = record {
  backends =
      record { id = ascii "a"; breaker = new seconds 1 30 }
      ∷ record { id = ascii "b"; breaker = new seconds 1 30 }
      ∷ [];
  last_available = [];
  calls = [];
}

abbrev message : Json
message =
    object (
      entry (ascii "params") (object (entry (ascii "name") (string (ascii "a__read")) empty)) empty)

tools_call-calls_example :
    ((tools_call seconds down router message null 5).0.calls ≡ [])
    ⊎ ((bid : Text) × (original : Text) × (split (tool_of seconds down message)
          ≡ some (bid, original))
        × Any (Allowed seconds down bid 5) router.backends
        × ((tools_call seconds down router message null 5).0.calls
            ≡ tool_call seconds down bid message original ∷ []))
tools_call-calls_example = tools_call-calls seconds down router message null 5
