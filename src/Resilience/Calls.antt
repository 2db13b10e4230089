-- ===== src/Resilience/Calls.antt =====
-- Which channels the router of src/resilience.rs calls, and how often.
use rust_yamp.Prelude.{
  ◌≡◌, refl, ◌⊎◌, inl, inr, true, Option, none, some, List, [], ◌∷◌, ◌++◌, append_assoc, append-nil,
  Text, ascii, text_eq, eq_of_text_eq, if◌then◌else◌, Bool-cases, Option-cases, Any,
}
use rust_yamp.Float.{Float}
use rust_yamp.Json.{Json}
use rust_yamp.Namespace.{split}
use rust_yamp.Breaker.{allow}
use rust_yamp.Resilience.{
  Call, ManagedBackend, ResilientRouter, Listing, list_call, listed, list_backend, list_backends,
  tools_list, call_backend, call_first, keep_first, finish_call, tool_of, tools_call,
}
use rust_yamp.Resilience.Messages.{call_params}

module _ (f : Float) (reply : List Call → Call → Option Json) where
  open f use {F64}

  -- The calls of one listing: one to each backend whose breaker allows it, in order.
  abbrev pub list_calls : List (ManagedBackend F64) → F64 → List Call
  list_calls [] now = []
  list_calls (b ∷ bs) now =
      if (allow f b.breaker now).1
      then list_call f reply b.id ∷ list_calls bs now
      else list_calls bs now

  listed-calls :
      (b : ManagedBackend F64) (now : F64) (acc : Listing) (o : Option Json)
      → (listed f reply b now acc o).1.calls ≡ acc.calls
  unfolding listed
  listed-calls b now acc none = refl
  listed-calls b now acc (some r) = refl

  list_backend-calls :
      (b : ManagedBackend F64) (now : F64) (acc : Listing)
      → (list_backend f reply b now acc).1.calls
        ≡ acc.calls ++ (if (allow f b.breaker now).1 then list_call f reply b.id ∷ [] else [])
  unfolding list_backend
  list_backend-calls b now acc = elim (Bool-cases (allow f b.breaker now).1) [
    | inl yes_ ↦ rw (yes_, listed-calls)
    | inr not_ ↦ rw (not_, append-nil)
  ]

  list_backends-calls :
      (bs : List (ManagedBackend F64)) (now : F64) (acc : Listing)
      → (list_backends f reply bs now acc).1.calls ≡ acc.calls ++ list_calls bs now
  unfolding list_backends
  list_backends-calls [] now acc = rw append-nil
  list_backends-calls (b ∷ bs) now acc =
      rw
        (
          list_backends-calls bs now (list_backend f reply b now acc).1,
          list_backend-calls b now acc,
        )
        (elim (Bool-cases (allow f b.breaker now).1) [
          | inl yes_ ↦ rw (yes_, append_assoc)
          | inr not_ ↦ rw (not_, append-nil)
        ])

  -- `tools_list` calls `tools/list` once at each backend whose breaker allows it, in the backends'
  -- order, and makes no other call.
  tools_list-calls :
      (r : ResilientRouter F64) (id : Json) (now : F64)
      → (tools_list f reply r id now).0.calls ≡ r.calls ++ list_calls r.backends now
  unfolding tools_list
  tools_list-calls r id now =
      list_backends-calls r.backends now (record { tools = []; unavailable = []; calls = r.calls })

  -- The breaker of a backend of that id lets the call through.
  abbrev pub Allowed : Text → F64 → ManagedBackend F64 → Type 0
  Allowed bid now b = (b.id ≡ bid) × ((allow f b.breaker now).1 ≡ true)

  abbrev pub tool_call : Text → Json → Text → Call
  tool_call bid message original = record {
    backend = bid;
    method = ascii "tools/call";
    params = call_params message original;
  }

  -- The trace after a step that asks at most the one backend, which allows it.
  abbrev pub OneCall :
      List (ManagedBackend F64) → Text → F64 → Json → Text → List Call → List Call → Type 0
  OneCall bs bid now message original before after =
      (after ≡ before)
      ⊎ (Any (Allowed bid now) bs × (after ≡ before ++ tool_call bid message original ∷ []))

  call_backend-calls :
      (b : ManagedBackend F64) (calls : List Call) (now : F64) (message id : Json) (original : Text)
      → ((call_backend f reply b calls now message id original).1 ≡ calls)
        ⊎ (((allow f b.breaker now).1 ≡ true)
            × ((call_backend f reply b calls now message id original).1
                ≡ calls ++ tool_call b.id message original ∷ []))
  unfolding call_backend
  call_backend-calls b calls now message id original = elim (Bool-cases (allow f b.breaker now).1) [
    | inl yes_ ↦ inr (yes_, rw yes_)
    | inr not_ ↦ inl (rw not_)
  ]

  abbrev FirstCall :
      List (ManagedBackend F64)
      → Text
      → F64
      → Json
      → Text
      → List Call
      → Option (List (ManagedBackend F64) × List Call × Json)
      → Type 0
  FirstCall bs bid now message original calls none = Unit
  FirstCall bs bid now message original calls (some (bs', calls', response)) =
      OneCall bs bid now message original calls calls'

  keep_first-FirstCall :
      (b : ManagedBackend F64) (bs : List (ManagedBackend F64)) (bid : Text) (now : F64)
      (message : Json) (original : Text) (calls : List Call)
      (o : Option (List (ManagedBackend F64) × List Call × Json))
      → FirstCall bs bid now message original calls o
      → FirstCall (b ∷ bs) bid now message original calls (keep_first f reply b o)
  keep_first-FirstCall b bs bid now message original calls none h = tt
  keep_first-FirstCall b bs bid now message original calls (some (bs', calls', response)) (inl e) =
      inl e
  keep_first-FirstCall b bs bid now message original calls (some (bs', calls', response))
        (inr (a, e)) =
      inr (inr a, e)

  call_first-FirstCall :
      (bs : List (ManagedBackend F64)) (bid : Text) (calls : List Call) (now : F64)
      (message id : Json) (original : Text)
      → FirstCall bs bid now message original calls
          (call_first f reply bs bid calls now message id original)
  unfolding call_first
  call_first-FirstCall [] bid calls now message id original = tt
  call_first-FirstCall (b ∷ bs) bid calls now message id original =
      elim (Bool-cases (text_eq b.id bid)) [
        | inl here ↦
            let e = eq_of_text_eq b.id bid here in
            rw here (elim (call_backend-calls b calls now message id original) [
              | inl none_ ↦ inl none_
              | inr (yes_, one) ↦ inr (inl (e, yes_), rw (← e) one)
            ])
        | inr later ↦ rw later (
            keep_first-FirstCall b bs bid now message original calls
              (call_first f reply bs bid calls now message id original)
              (call_first-FirstCall bs bid calls now message id original))
      ]

  finish_call-calls :
      (r : ResilientRouter F64) (message id : Json) (bid : Text) (now : F64) (original : Text)
      (o : Option (List (ManagedBackend F64) × List Call × Json))
      → FirstCall r.backends bid now message original r.calls o
      → OneCall r.backends bid now message original r.calls
          (finish_call f reply r message id o).0.calls
  unfolding finish_call
  finish_call-calls r message id bid now original none h = inl refl
  finish_call-calls r message id bid now original (some (bs, calls, response)) h = h

  -- A tool call reaches no backend at all, or it is one `tools/call` at the backend that the tool's
  -- name resolves to, with the tool's own name, and that backend's breaker allowed it. So no
  -- failure is retried and no call goes to a backend whose circuit is open.
  pub tools_call-calls :
      (r : ResilientRouter F64) (message id : Json) (now : F64)
      → ((tools_call f reply r message id now).0.calls ≡ r.calls)
        ⊎ ((bid : Text) × (original : Text) × (split (tool_of f reply message)
              ≡ some (bid, original))
            × Any (Allowed bid now) r.backends
            × ((tools_call f reply r message id now).0.calls
                ≡ r.calls ++ tool_call bid message original ∷ []))
  unfolding tools_call
  tools_call-calls r message id now = elim (Option-cases (split (tool_of f reply message))) [
    | inl unknown ↦ inl (rw unknown (unfold finish_call in refl))
    | inr ((bid, original), resolved) ↦
        let step =
          finish_call-calls r message id bid now original
            (call_first f reply r.backends bid r.calls now message id original)
            (call_first-FirstCall r.backends bid r.calls now message id original) in
        rw resolved (elim step [ inl e ↦ inl e | inr (a, e) ↦ inr (bid, original, refl, a, e) ])
  ]
