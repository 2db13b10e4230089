-- ===== src/Tests/Filters.antt =====
-- src/filters.rs on concrete filters.
use rust_yamp.Prelude.{◌≡◌, refl, some, [], ◌∷◌, Text, ascii, ok, err}
use rust_yamp.Json.{
  Json, Map, empty, entry, string, object, json_object, extend, insert, lookup, get_str,
}
use rust_yamp.Json
use rust_yamp.Filters.{Filter, run}
use rust_yamp.Filters.Interest.{
  interested, matches, matches_content, declared_list, message_context,
}
use rust_yamp.Filters.Chain.{filter_through, run-filter_through}
use rust_yamp.Filters.Failing.{run-fail_closed}

-- A scanner that is never reached, and an annotator.
abbrev scanner : Text → Filter
scanner policy = record {
  failure_policy = policy;
  interest = object empty;
  evaluate = λ hook message. err (ascii "timeout");
}

abbrev annotator : Filter
annotator = record {
  failure_policy = ascii "fail_open";
  interest = object empty;
  evaluate = λ hook message. ok (
      object (
        entry (ascii "kind") (string (ascii "annotate")) (
          entry (ascii "provenance") (object (entry (ascii "by") (string (ascii "t")) empty))
            empty)));
}

abbrev keys : Map
keys =
    entry (ascii "id") (string (ascii "1"))
      (entry (ascii "method") (string (ascii "tools/call")) empty)

run-filter_through_example :
    run (annotator ∷ scanner (ascii "fail_closed") ∷ []) (ascii "request") (object keys)
    ≡ filter_through
        (annotator ∷ scanner (ascii "fail_closed") ∷ [])
        (ascii "request")
        (message_context (object keys) (ascii "c2u"))
        (object keys)
        (object keys)
run-filter_through_example =
    run-filter_through (annotator ∷ scanner (ascii "fail_closed") ∷ []) (ascii "request")
      (object keys)

run-fail_closed_example :
    get_str
      (run (annotator ∷ scanner (ascii "fail_closed") ∷ []) (ascii "request") (object keys))
      (ascii "action")
    ≡ some (ascii "block")
unfolding interested matches matches_content declared_list Json.get lookup
run-fail_closed_example =
    run-fail_closed (annotator ∷ []) [] (scanner (ascii "fail_closed")) (ascii "request")
      (object keys) refl refl (λ m. (ascii "timeout", refl))
