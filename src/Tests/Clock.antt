-- ===== src/Tests/Clock.antt =====
-- A clock for the tests: times are natural numbers of seconds.
use rust_yamp.Prelude.{ℕ, ◌+◌, ◌-◌, ◌/◌, leb}
use rust_yamp.Float.{Float}

abbrev pub seconds : Float
seconds = record {
  F64 = ℕ;
  from_bits = λ n. n;
  from_u64 = λ n. n;
  from_neg = λ n. 0;
  add = λ a b. a + b;
  sub = λ a b. a - b;
  div = λ a b. a / b;
  le = leb;
}
