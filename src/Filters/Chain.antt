-- ===== src/Filters/Chain.antt =====
-- What `FilterChain::run` of src/filters.rs amounts to: one pass over the filters.
use rust_yamp.Prelude.{◌≡◌, refl, inl, inr, List, [], ◌∷◌, if◌then◌else◌, Bool-cases, Text, ascii}
use rust_yamp.Json.{Json}
use rust_yamp.Filters.{
  Filter, is_terminal, blocked, forwarded, apply_one, outcome_from, chain_outcome, resolved,
  run_loop, run,
}
use rust_yamp.Filters.Interest.{interested, message_context}

-- One pass: each interested filter judges the message as the ones before it shaped it; the first
-- terminal verdict blocks the request, and otherwise what is left is forwarded.
unfoldable pub filter_through : List Filter → Text → Json → Json → Json → Json
unfolding interested resolved is_terminal apply_one blocked forwarded
filter_through [] hook context request message = forwarded message
filter_through (f ∷ fs) hook context request message =
    let verdict = resolved f (f.evaluate hook message) in
    if interested f.interest context
    then if is_terminal verdict
      then blocked request verdict
      else filter_through fs hook context request (apply_one verdict message)
    else filter_through fs hook context request message

outcome_from-run_loop :
    (fs : List Filter) (hook : Text) (context request message : Json)
    → outcome_from request message (run_loop fs hook context message)
      ≡ filter_through fs hook context request message
unfolding outcome_from run_loop filter_through
outcome_from-run_loop [] hook context request message = refl
outcome_from-run_loop (f ∷ fs) hook context request message =
    let verdict = resolved f (f.evaluate hook message) in
    elim (Bool-cases (interested f.interest context)) [
      | inl e ↦ elim (Bool-cases (is_terminal verdict)) [
        | inl t ↦ rw (e, t)
        | inr t ↦
            rw (e, t) (outcome_from-run_loop fs hook context request (apply_one verdict message))
      ]
      | inr e ↦ rw e (outcome_from-run_loop fs hook context request message)
    ]

-- The chain collects its verdicts and then reduces them again against the request; the outcome is
-- that of a single pass in which each interested filter sees the message as shaped before it.
pub run-filter_through :
    (fs : List Filter) (hook : Text) (request : Json)
    → run fs hook request
      ≡ filter_through fs hook (message_context request (ascii "c2u")) request request
unfolding run chain_outcome
run-filter_through fs hook request =
    outcome_from-run_loop fs hook (message_context request (ascii "c2u")) request request
