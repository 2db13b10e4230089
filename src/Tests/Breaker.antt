-- ===== src/Tests/Breaker.antt =====
-- The circuit breaker of src/resilience.rs on a concrete run.
use rust_yamp.Prelude.{[], ◌∷◌, arith}
use rust_yamp.Breaker.{new}
use rust_yamp.Breaker.Laws.{fail, ask, run, IsWellFormed, run-IsWellFormed}
use rust_yamp.Tests.Clock.{seconds}

run-IsWellFormed_example :
    IsWellFormed seconds (run seconds (new seconds 2 30) (fail 1 ∷ fail 2 ∷ ask 40 ∷ []))
run-IsWellFormed_example =
    run-IsWellFormed seconds (fail 1 ∷ fail 2 ∷ ask 40 ∷ []) 2 30 (omega arith)
