-- ===== src/Breaker.antt =====
-- `CircuitBreaker` of src/resilience.rs. The clock is the caller's; `failures` is a `u32`.
pub mod Laws
use rust_yamp.Prelude.{ℕ, ◌+◌, ◌%◌, ◌^◌, Bool, true, false, not, ◌&&◌, leb, if◌then◌else◌}
use rust_yamp.Float.{Float}

pub data CircuitState : Type 0 where
  closed open_circuit half_open : CircuitState

abbrev pub is_open : CircuitState → Bool
is_open open_circuit = true
is_open _ = false

abbrev pub is_half_open : CircuitState → Bool
is_half_open half_open = true
is_half_open _ = false

pub record CircuitBreaker (F64 : Type 0) : Type 0 where
  pub threshold : ℕ
  pub reset : F64
  pub circuit : CircuitState
  pub failures : ℕ
  pub opened_at : F64

module _ (f : Float) where
  open f use {F64, from_u64, sub, le}

  unfoldable pub new : ℕ → F64 → CircuitBreaker F64
  new threshold reset = record {
    threshold = threshold;
    reset = reset;
    circuit = closed;
    failures = 0;
    opened_at = from_u64 0;
  }

  -- `state(now)`: the breaker it leaves; what it returns is the field `circuit` of that.
  unfoldable pub state : CircuitBreaker F64 → F64 → CircuitBreaker F64
  state b now =
      if is_open b.circuit && le b.reset (sub now b.opened_at)
      then record b { circuit = half_open }
      else b

  unfoldable pub allow : CircuitBreaker F64 → F64 → CircuitBreaker F64 × Bool
  unfolding state
  allow b now = let b' = state b now in (b', not (is_open b'.circuit))

  unfoldable pub record_success : CircuitBreaker F64 → CircuitBreaker F64
  record_success b = record b { failures = 0; circuit = closed }

  unfoldable pub trip : CircuitBreaker F64 → F64 → CircuitBreaker F64
  trip b now = record b { circuit = open_circuit; opened_at = now; failures = b.threshold }

  unfoldable pub record_failure : CircuitBreaker F64 → F64 → CircuitBreaker F64
  unfolding state trip
  record_failure b now =
      let b' = state b now in
      let counted = record b' { failures = (b'.failures + 1) % 2 ^ 32 } in
      if is_half_open b'.circuit
      then trip b' now
      else if leb counted.threshold counted.failures
      then trip counted now
      else counted
