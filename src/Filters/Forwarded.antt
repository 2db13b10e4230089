-- ===== src/Filters/Forwarded.antt =====
-- What the chain of src/filters.rs leaves of a request that it forwards.
use rust_yamp.Prelude.{
  ◌≡◌, refl, sym, ◌∙◌, ◌≢◌, ◌⊎◌, inl, inr, List, [], ◌∷◌, Bool-cases, Text, ascii, text_eq,
  text_eq_of_ne,
}
use rust_yamp.Json.{
  Json, Map, null, bool, number, string, array, object, get_str, insert, lookup, lookup-insert_ne,
}
use rust_yamp.Json
use rust_yamp.Filters.{
  Filter, object_or_empty, kind_of, is_terminal, blocked, forwarded, apply_one, apply_params,
  resolved, run,
}
use rust_yamp.Filters.Interest.{interested, message_context}
use rust_yamp.Filters.Chain.{filter_through, run-filter_through}

-- Every key but `params` has the value that it has in the request.
abbrev pub KeepsKeys : Map → Map → Type 0
KeepsKeys request m = (k : Text) → k ≢ ascii "params" → lookup m k ≡ lookup request k

abbrev pub Kept : Json → Map → Json → Type 0
Kept request keys outcome =
    ((verdict : Json) × (outcome ≡ blocked request verdict))
    ⊎ ((m : Map) × (outcome ≡ forwarded (object m)) × KeepsKeys keys m)

apply_one-KeepsKeys :
    (verdict : Json) (m keys : Map)
    → KeepsKeys keys m
    → (m' : Map) × (apply_one verdict (object m) ≡ object m') × KeepsKeys keys m'
unfolding apply_one
apply_one-KeepsKeys verdict m keys h =
    elim (Bool-cases (text_eq (kind_of verdict) (ascii "allow"))) [
      | inl e ↦ (m, rw e refl, h)
      | inr e ↦
          let params =
            object
              (apply_params verdict (object_or_empty (Json.get (object m) (ascii "params")))) in
          (
            insert m (ascii "params") params,
            rw e refl,
            λ k ne.
                lookup-insert_ne m (ascii "params") k params
                  (text_eq_of_ne (ascii "params") k (λ p. ne (sym p)))
                ∙ h k ne,
          )
    ]

filter_through-Kept :
    (fs : List Filter) (hook : Text) (context request : Json) (m keys : Map)
    → KeepsKeys keys m
    → Kept request keys (filter_through fs hook context request (object m))
unfolding filter_through
filter_through-Kept [] hook context request m keys h = inr (m, refl, h)
filter_through-Kept (f ∷ fs) hook context request m keys h =
    let verdict = resolved f (f.evaluate hook (object m)) in
    let (m', applied, h') = apply_one-KeepsKeys verdict m keys h in
    elim (Bool-cases (interested f.interest context)) [
      | inl e ↦ elim (Bool-cases (is_terminal verdict)) [
        | inl t ↦ rw (e, t) (inl (verdict, refl))
        | inr t ↦ rw (e, t, applied) (filter_through-Kept fs hook context request m' keys h')
      ]
      | inr e ↦ rw e (filter_through-Kept fs hook context request m keys h)
    ]

-- A request comes out of the chain blocked, or forwarded with the value of every key other than
-- `params` unchanged: its `id` and `method` are those of the client.
run-Kept :
    (fs : List Filter) (hook : Text) (keys : Map)
    → Kept (object keys) keys (run fs hook (object keys))
run-Kept fs hook keys = rw (run-filter_through fs hook (object keys)) (
    filter_through-Kept fs hook (message_context (object keys) (ascii "c2u")) (object keys) keys
      keys λ k h. refl)
