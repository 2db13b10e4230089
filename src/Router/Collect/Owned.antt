-- ===== src/Router/Collect/Owned.antt =====
-- Every item of a list that is collected under prefixes is one that a backend answered, relabelled.
use rust_yamp.Prelude.{
  ◌≡◌, refl, inl, inr, Bool, true, false, ◌&&◌, Option, none, some, List, [], ◌∷◌, ap, ◌∙◌, Text,
  Bytes, ascii, text_eq, ok, err, if_all, All, All-append, Any, Option-cases,
}
use rust_yamp.Json.{Json, string, get_str}
use rust_yamp.Float.{Float}
use rust_yamp.Dict.{Dict, text_key}
use rust_yamp.Dict
use rust_yamp.Router.{Sent, Reply, Router, Capability, Namespacing, Awaited, label, put}
use rust_yamp.Router.Collect.Survives.{collect-Gathered}
use rust_yamp.Router.Collect.Replies.{Replied, FetchedSourced, result_of}
use rust_yamp.Router.Collect.{composed, collect}
use rust_yamp.Router.Listing.{
  Query, Fetched, Collected, Listed, list_item, list_items, listed_of, compose, filter_array,
}

abbrev pub IsListed : Json → List Json → Type 0
IsListed item items = Any (λ i. i ≡ item) items

All-listed :
    {P : Json → Type 0} (items : List Json)
    → ((item : Json) → IsListed item items → P item)
    → All P items
All-listed [] h = tt
All-listed (item ∷ items) h = (h item (inl refl), All-listed items (λ i listed. h i (inr listed)))

-- The item of a backend with its name under the backend's label.
abbrev pub relabelled : Capability → Text → Json → Text → Json
relabelled c id item value = put item c.field (string (label c.kind id value))

module _ (c : Capability) (patterns : List Json) (P : Json → Type 0) where
  -- What an item of a backend must bring with it, to be listed.
  abbrev Fit : Text → Json → Type 0
  Fit id item = (value : Text) → get_str item c.field ≡ some value → P (relabelled c id item value)

  list_item-All :
      (id : Text) (acc : Listed) (item : Json) (value : Text)
      → P (relabelled c id item value)
      → All P acc.items
      → All P (list_item c false false patterns id acc item value).items
  unfolding list_item
  list_item-All id acc item value p all =
      if_all (λ (l : Listed). All P l.items) _ _ _
        (All-append P acc.items (relabelled c id item value ∷ []) all (p, tt)) all

  list_items-All :
      (id : Text) (items : List Json) (acc : Listed)
      → All (Fit id) items
      → All P acc.items
      → All P (list_items c false false patterns id acc items).items
  unfolding list_items
  list_items-All id [] acc fit all = all
  list_items-All id (item ∷ items) acc (p, fit) all = elim (Option-cases (get_str item c.field)) [
    | inl e ↦ rw (list_items, e) (list_items-All id items acc fit all)
    | inr (value, e) ↦
        rw (list_items, e)
          (list_items-All id items (list_item c false false patterns id acc item value) fit
            (list_item-All id acc item value (p value e) all))
  ]

  compose-All :
      (per_backend : Dict Text Json)
      → ((id : Text) (result : Json)
          → Dict.get per_backend id ≡ some result
          → All (Fit id) (listed_of c result))
      → (chosen : List Text) (acc : Listed) → All P acc.items
      → All P (compose c false false patterns per_backend chosen acc).items
  unfolding compose
  compose-All per_backend fits [] acc all = all
  compose-All per_backend fits (id ∷ chosen) acc all =
      elim (Option-cases (Dict.get per_backend id)) [
        | inl e ↦ rw (compose, e) (compose-All per_backend fits chosen acc all)
        | inr (result, e) ↦
            rw (compose, e)
              (compose-All per_backend fits chosen
                (list_items c false false patterns id acc (listed_of c result))
                (list_items-All id (listed_of c result) acc (fits id result e) all))
      ]

and_false : (b : Bool) → (b && false) ≡ false
and_false true = refl
and_false false = refl

module _ (f : Float) (wire : List Sent → Sent → Reply) (clock : List Sent → f.F64) where
  open f use {F64}

  -- It is an item with a name that a backend listed in its reply to a message of the trace, and
  -- differs from it only in the name, which is under that backend's label.
  abbrev pub Owned : Capability → List Sent → Json → Type 0
  Owned c trace item =
      (id : Text) × (response : Json) × (own : Json) × (value : Text) × Replied f wire clock trace
        id response
      × IsListed own (listed_of c (result_of response))
      × (get_str own c.field ≡ some value)
      × (item ≡ relabelled c id own value)

  abbrev pub ListsOwned : Capability → Router F64 × Awaited Collected → Type 0
  ListsOwned c (r, ok found) = All (Owned c r.sent) found.items
  ListsOwned c (r, err e) = Unit {0}

  Replied-Fit :
      (c : Capability) (trace : List Sent) (id : Text) (result response : Json)
      → result ≡ result_of response
      → Replied f wire clock trace id response
      → All (Fit c [] (Owned c trace) id) (listed_of c result)
  Replied-Fit c trace id result response e p = rw e (
      All-listed (listed_of c (result_of response))
        (λ own listed value at_value. (id, response, own, value, p, listed, at_value, refl)))

  composed-Owned :
      (r : Router F64) (c : Capability) (q : Query) (chosen : List Text) (fetched : Awaited Fetched)
      → r.single ≡ false
      → text_eq r.namespacing.strategy (ascii "passthrough") ≡ false
      → FetchedSourced f wire clock r.sent fetched
      → ListsOwned c (composed f wire clock r c q chosen fetched)
  unfolding composed
  composed-Owned r c q chosen (err e) s p sourced = tt
  composed-Owned r c q chosen (ok fetched) s p sourced =
      rw (s, p, and_false (text_eq c.collection (ascii "tools")))
        (compose-All c (filter_array q.list_filter (ascii "namePatterns")) (Owned c r.sent)
          fetched.per_backend
          (λ id result h.
            let (response, e, replied) = sourced id result h in
            Replied-Fit c r.sent id result response e replied)
          chosen (record { items = []; reverse = r.reverse }) tt)

  -- Without a cache, and unless there is a single backend or names pass through, each item of a list
  -- that is collected is an item that some backend listed in its reply to a message of the trace,
  -- unchanged but for its name, which is under that backend's label: the prefixed name, or the URI as
  -- `prefix_uri` makes it.
  pub collect-Owned :
      (to_vec : Json → Bytes) (from_slice : Bytes → Option Json) (r : Router F64) (c : Capability)
      (q : Query)
      → r.cache ≡ none
      → r.single ≡ false
      → text_eq r.namespacing.strategy (ascii "passthrough") ≡ false
      → ListsOwned c (collect f wire clock to_vec from_slice r c q)
  collect-Owned to_vec from_slice r c q uncached s p =
      let g = collect-Gathered f wire clock to_vec from_slice r c q in
      rw g.composition (
        composed-Owned g.router c q _ g.fetched
          (ap (λ (m : Bool × Bool × Namespacing). m.1) g.same_mode ∙ s)
          (ap (λ (m : Bool × Bool × Namespacing). text_eq m.2.strategy (ascii "passthrough"))
              g.same_mode
            ∙ p)
          (g.sourced uncached))
