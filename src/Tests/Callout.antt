-- ===== src/Tests/Callout.antt =====
-- src/callout.rs and src/icap.rs with a service that denies, and one that is gone.
use rust_yamp.Prelude.{◌≢◌, ◌≡◌, refl, some, none, List, [], ◌∷◌, ascii, text_eq, text_lt}
use rust_yamp.Json.{
  Json, as_array, array, cons, nil, null, string, object, empty, json_object, insert, extend,
  lookup, get_str,
}
use rust_yamp.Json
use rust_yamp.Dict.{Dict}
use rust_yamp.Dict
use rust_yamp.Callout.{
  Received, silent, closed, received, new, scan, settle, phases, exchange, call, parse_verdict,
  verdict_of, valid_verdict, exceeds_budget,
}
use rust_yamp.Content.{block_list, content_block, block_of, descriptor}
use rust_yamp.Icap
use rust_yamp.Icap.{block_payload}
use rust_yamp.Icap.Blocked.{action, scan-blocked}
use rust_yamp.Callout.Cached.{scan-scan}

abbrev gone : List Json → Json → Received
gone sent request = closed

abbrev denies : List Json → Json → Received
denies sent request = received (json_object ((ascii "verdict", string (ascii "deny")) ∷ []))

scan-scan_example :
    scan denies new null
      (ascii "EICAR")
      (scan denies new null (ascii "EICAR") (some []) []).0
      (scan denies new null (ascii "EICAR") (some []) []).1
    ≡ scan denies new null (ascii "EICAR") (some []) []
unfolding new scan phases exchange call settle parse_verdict verdict_of valid_verdict exceeds_budget
    Dict.get get_str Json.get insert extend lookup text_eq text_lt
scan-scan_example = scan-scan denies new null null (ascii "EICAR") [] [] refl

-- A result with one block of text.
abbrev text_result : Json
text_result = json_object (
    (
      ascii "result",
      json_object (
          (
            ascii "content",
            array (
                cons
                  (json_object (
                    (ascii "type", string (ascii "text"))
                    ∷ (ascii "text", string (ascii "EICAR"))
                    ∷ []))
                  nil),
          )
          ∷ []),
    )
    ∷ [])

gone_silent : (sent : List Json) (request response : Json) → gone sent request ≢ received response
gone_silent sent request response = λ e. absurd (cc)

gone_ends : (sent : List Json) (request : Json) → new.deadline ≡ none → gone sent request ≢ silent
gone_ends sent request unlimited = λ e. absurd (cc)

scan-blocked_example :
    action (Icap.scan (λ bytes. bytes) gone new text_result (ascii "u2c") none []).1
    ≡ some (ascii "block")
unfolding new block_list content_block block_of descriptor block_payload get_str Json.get insert
    extend lookup text_eq text_lt as_array
scan-blocked_example =
    scan-blocked (λ bytes. bytes) gone new refl gone_silent gone_ends text_result (ascii "u2c") []
      refl
