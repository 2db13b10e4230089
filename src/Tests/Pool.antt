-- ===== src/Tests/Pool.antt =====
-- src/pool.rs on concrete calls; an id is printed as its text.
use rust_yamp.Prelude.{[], ◌∷◌, arith, unwrap_or, Text, ascii}
use rust_yamp.Dict.{text_key}
use rust_yamp.Json.{Json, string, as_str}
use rust_yamp.Pool.{InFlight, new, deadline, expired, expired_ids}
use rust_yamp.Pool.Registry.{start, run, IsBounded, run-IsBounded}
use rust_yamp.Pool

abbrev id_text : Json → Text
id_text id = unwrap_or (as_str id) []

run-IsBounded_example :
    IsBounded id_text 1
      (run id_text 1 new (start (string (ascii "a")) 5 ∷ start (string (ascii "b")) 5 ∷ []))
unfolding new
run-IsBounded_example =
    run-IsBounded id_text 1 (start (string (ascii "a")) 5 ∷ start (string (ascii "b")) 5 ∷ []) new
      (record { unique = tt; capped = λ h. unfold Pool.count in omega arith })
