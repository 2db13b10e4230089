-- ===== src/Schema.antt =====
-- src/schema.rs: the validation of a local handler's arguments and results. `validates` is what the
-- jsonschema crate says of a schema and a value, and `none` is a schema that it cannot read.
use rust_yamp.Prelude.{Bool, false, Option, none, some, ascii, if◌then◌else◌, unwrap_or}
use rust_yamp.Json.{Json, null}
use rust_yamp.Json
use rust_yamp.Errors.{minus, error_object}

module _ (validates : Json → Json → Option Bool) where
  unfoldable pub is_valid : Json → Json → Bool
  is_valid schema value = unwrap_or (validates schema value) false

  unfoldable pub validate_call_args : Option Json → Json → Option Json
  unfolding is_valid
  validate_call_args none arguments = none
  validate_call_args (some schema) arguments =
      if is_valid schema arguments
      then none
      else some (error_object (minus 32602) (some (ascii "input schema validation failed")))

  unfoldable pub validate_call_result : Option Json → Json → Option Json
  unfolding is_valid
  validate_call_result none result = none
  validate_call_result (some schema) result =
      if is_valid schema (unwrap_or (Json.get result (ascii "structuredContent")) null)
      then none
      else some (error_object (minus 32603) (some (ascii "output schema validation failed")))
