-- ===== src/Float.antt =====
-- `f64`: a parameter of the components that measure time, with the operations that they call.
use rust_yamp.Prelude.{ℕ, Bool, Option, none, some}
use rust_yamp.Json.{Json, Number, number, pos_int, neg_int, float}

pub record Float : Type 1 where
  pub F64 : Type 0
  pub from_bits : ℕ → F64
  -- The value of a non-negative integer, and of -(n + 1).
  pub from_u64 : ℕ → F64
  pub from_neg : ℕ → F64
  pub add : F64 → F64 → F64
  pub sub : F64 → F64 → F64
  pub div : F64 → F64 → F64
  -- `a <= b`
  pub le : F64 → F64 → Bool

module _ (f : Float) where
  open f use {F64, from_bits, from_u64, from_neg}

  abbrev pub number_as_f64 : Number → F64
  number_as_f64 (pos_int n) = from_u64 n
  number_as_f64 (neg_int n) = from_neg n
  number_as_f64 (float bits) = from_bits bits

  -- `Value::as_f64`
  abbrev pub as_f64 : Json → Option F64
  as_f64 (number n) = some (number_as_f64 n)
  as_f64 _ = none
