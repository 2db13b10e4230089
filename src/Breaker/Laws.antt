-- ===== src/Breaker/Laws.antt =====
-- The circuit breaker of src/resilience.rs as a state machine.
use rust_yamp.Prelude.{
  ℕ, ◌+◌, ◌^◌, ◌<◌, ◌≡◌, not, ◌&&◌, List, [], ◌∷◌, length, arith, if◌then◌else◌,
}
use rust_yamp.Float.{Float}
use rust_yamp.Breaker.{
  closed, open_circuit, half_open, is_open, CircuitBreaker, new, allow, record_success,
  record_failure,
}

module _ (f : Float) where
  open f use {F64, sub, le}

  pub data Event : Type 0 where
    ask fail : F64 → Event
    succeed : Event

  unfoldable pub step : CircuitBreaker F64 → Event → CircuitBreaker F64
  step b (ask now) = (allow f b now).0
  step b (fail now) = record_failure f b now
  step b succeed = record_success f b

  unfoldable pub run : CircuitBreaker F64 → List Event → CircuitBreaker F64
  unfolding step
  run b [] = b
  run b (e ∷ es) = run (step b e) es

  pub record IsWellFormed (b : CircuitBreaker F64) : Type 0 where
    pub fits : b.threshold + 1 < 2 ^ 32
    pub below : b.circuit ≡ closed → 0 < b.threshold → b.failures < b.threshold
    pub full : b.circuit ≡ open_circuit → b.failures ≡ b.threshold
    pub trial : b.circuit ≡ half_open → b.failures ≡ b.threshold

  step-IsWellFormed :
      (b : CircuitBreaker F64) (e : Event) → IsWellFormed b → IsWellFormed (step b e)
  unfolding step allow record_failure record_success
  step-IsWellFormed b (ask now) h = ground arith
  step-IsWellFormed b (fail now) h = ground arith
  step-IsWellFormed b succeed h = ground arith

  run_from-IsWellFormed :
      (es : List Event) (b : CircuitBreaker F64) → IsWellFormed b → IsWellFormed (run b es)
  unfolding run
  run_from-IsWellFormed [] b w = w
  run_from-IsWellFormed (e ∷ es) b w = run_from-IsWellFormed es (step b e) (step-IsWellFormed b e w)

  -- Whatever happens to a breaker, a closed one has seen fewer failures than its positive threshold
  -- since it last closed, and an open or half-open one stands at the threshold. The threshold is
  -- below the last value of a `u32`.
  pub run-IsWellFormed :
      (es : List Event) (threshold : ℕ) (reset : F64)
      → threshold + 1 < 2 ^ 32
      → IsWellFormed (run (new f threshold reset) es)
  run-IsWellFormed es threshold reset h =
      run_from-IsWellFormed es (new f threshold reset) (unfold new in ground arith)

  -- A call is refused exactly while the breaker is open and its reset time has not passed; the
  -- first call after that finds it half-open.
  pub allow_lem :
      (b : CircuitBreaker F64) (now : F64)
      → ((allow f b now).1 ≡ not (is_open b.circuit && not (le b.reset (sub now b.opened_at))))
        × ((allow f b now).0.circuit ≡ (
            if is_open b.circuit && le b.reset (sub now b.opened_at) then half_open else b.circuit))
  unfolding allow
  allow_lem b now = ground arith

  -- A failed trial opens the circuit again from the moment of the failure, a successful one closes
  -- it with no failure counted.
  pub trial_outcomes :
      (b : CircuitBreaker F64) (now : F64)
      → b.circuit ≡ half_open
      → ((record_failure f b now).circuit ≡ open_circuit)
        × ((record_failure f b now).opened_at ≡ now)
        × ((record_success f b).circuit ≡ closed)
        × ((record_success f b).failures ≡ 0)
  unfolding record_failure record_success
  trial_outcomes b now h = ground arith

  one_failure :
      (b : CircuitBreaker F64) (t : F64)
      → b.circuit ≡ closed
      → b.threshold < 2 ^ 32
      → b.failures + 1 < b.threshold
      → ((record_failure f b t).circuit ≡ closed)
        × ((record_failure f b t).failures ≡ b.failures + 1)
        × ((record_failure f b t).threshold ≡ b.threshold)
  unfolding record_failure
  one_failure b t h w e = ground arith

  abbrev pub failures_at : List F64 → List Event
  failures_at [] = []
  failures_at (t ∷ ts) = fail t ∷ failures_at ts

  -- From a closed breaker, failures with no success between them: it stays closed and counts each
  -- while they are fewer than what is left to the threshold, and the one that reaches it opens it. The
  -- threshold is a `u32`.
  run-failures :
      (ts : List F64) (b : CircuitBreaker F64) (last : F64)
      → b.circuit ≡ closed
      → b.threshold < 2 ^ 32
      → b.failures + length ts + 1 ≡ b.threshold
      → ((run b (failures_at ts)).circuit ≡ closed)
        × ((run b (failures_at ts)).failures ≡ b.failures + length ts)
        × ((record_failure f (run b (failures_at ts)) last).circuit ≡ open_circuit)
        × ((record_failure f (run b (failures_at ts)) last).opened_at ≡ last)
  unfolding run record_failure
  run-failures [] b last h w e = ground arith
  run-failures (t ∷ ts) b last h w e =
      let (c, n, m) = one_failure b t h (omega arith) (omega arith) in
      let (r0, r1, r2, r3) =
        run-failures ts (record_failure f b t) last c (omega arith) (omega arith) in
      (r0, omega arith, r2, r3)
