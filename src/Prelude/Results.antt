-- ===== src/Prelude/Results.antt =====
-- Rust's `Result` with a message for its error, and `?` on it.
use rust_yamp.Prelude.Strings.{Text}

pub data ResultOf {ℓ} (E : Type 0) (A : Type ℓ) : Type ℓ where
  err : E → ResultOf E A
  ok : A → ResultOf E A

abbrev pub Result {ℓ} : Type ℓ → Type ℓ
Result A = ResultOf Text A

abbrev pub and_then {ℓ κ} :
    {E : Type 0} {A : Type ℓ} {B : Type κ} → ResultOf E A → (A → ResultOf E B) → ResultOf E B
and_then (err e) k = err e
and_then (ok a) k = k a
