-- ===== src/Router/Collect.antt =====
-- `collect` of src/router.rs: the fan-out of a list over the backends, with the cache, the filters and
-- the labels. `to_vec` and `from_slice` are serde_json's, for the bytes of a cursor.
pub mod Survives
pub mod Owned
pub mod Ends
pub mod Replies
use rust_yamp.Prelude.{
  Bool, true, false, not, ◌&&◌, ◌||◌, Option, none, some, List, [], ◌∷◌, ◌++◌, map, Text, Bytes,
  ascii, text_eq, text_lt, Result, ok, err, if◌then◌else◌, ◌>>=◌, unwrap_or, is_some,
}
use rust_yamp.Json.{
  Json, Map, null, string, object, empty, insert, as_array, as_object, as_str, get_str, is_null,
  json_object,
}
use rust_yamp.Json
use rust_yamp.Float.{Float}
use rust_yamp.Cache.{ListCache}
use rust_yamp.Cache
use rust_yamp.Routing.{backend_selected, name_matches}
use rust_yamp.Variants.{resolve_cursor, server_variant_meta_key}
use rust_yamp.Dict.{Dict, text_key}
use rust_yamp.Dict
use rust_yamp.Router.{
  Awaited, Failure, io, never, Backend, Sent, Reply, Router, Capability, label, put,
}
use rust_yamp.Router.Request.{available, request, replace_backend}
use rust_yamp.Router.Listing.{
  Query, filter_array, is_empty_map, has_filter, effective_variant, Cursors, insert_cursor,
  with_filter, with_variant, with_cursor, params_for, Listed, or_insert, list_item, list_items,
  listed_of, compose, next_cursors, Fetched, Collected,
}

abbrev pub Outcomes : Type 0
Outcomes = List (Text × Result Json)

module _ (f : Float) (wire : List Sent → Sent → Reply) (clock : List Sent → f.F64) where
  open f use {F64}

  abbrev pub restricted : Option Cursors → Text → Bool
  restricted none id = true
  restricted (some r) id = Dict.contains_key r id

  -- `self.backends.iter().filter(…)`: the breakers are asked in resilient mode only.
  unfoldable pub select :
      Bool
      → List Json
      → Option Cursors
      → F64
      → List (Backend F64)
      → List (Backend F64) × List (Backend F64)
  select resilient keywords restrict now [] = ([], [])
  select resilient keywords restrict now (b ∷ bs) =
      let (asked, allowed) = available f b now in
      let b' = if resilient then asked else b in
      let (bs', chosen) = select resilient keywords restrict now bs in
      let selected =
        (not resilient || allowed)
        && backend_selected b.keywords keywords
        && restricted restrict b.id in
      (b' ∷ bs', if selected then b' ∷ chosen else chosen)

  abbrev pub cache_get :
      Option (ListCache F64)
      → Bool
      → Text
      → Text
      → Option Text
      → F64
      → Option (ListCache F64) × Option Json
  cache_get none use_cache id method principal now = (none, none)
  cache_get (some cache) use_cache id method principal now =
      let (hit, cache') = Cache.get f cache id method principal now in
      if use_cache then (some cache', hit) else (some cache, none)

  -- The hits, and the backends that are left to fetch.
  unfoldable pub look_up :
      Router F64
      → Capability
      → Bool
      → List (Backend F64)
      → Dict Text Json
      → Router F64 × Dict Text Json × List (Backend F64)
  look_up r c use_cache [] hits = (r, hits, [])
  look_up r c use_cache (b ∷ bs) hits =
      let (cache, hit) = cache_get r.cache use_cache b.id c.list r.principal (clock r.sent) in
      elim hit [
        | some result ↦
            look_up (record r { cache = cache }) c use_cache bs (Dict.insert hits b.id result)
        | none ↦
            (let (r', hits', misses) = look_up (record r { cache = cache }) c use_cache bs hits in
              (r', hits', b ∷ misses))
      ]

  -- The requests, written in the order of the backends; `join_all` keeps the order of the outcomes.
  unfoldable pub fetch :
      Router F64
      → Capability
      → (Text → Json)
      → List (Backend F64)
      → Router F64 × List (Text × Awaited Json)
  fetch r c params [] = (r, [])
  fetch r c params (b ∷ bs) =
      let (b', sent, outcome) = request f wire clock b r.sent c.list (params b.id) in
      let (r', outcomes) =
        fetch (replace_backend f wire clock (record r { sent = sent }) b') c params bs in
      (r', (b.id, outcome) ∷ outcomes)

  abbrev pub add_outcome : Text → Result Json → Awaited Outcomes → Awaited Outcomes
  add_outcome id outcome (err e) = err e
  add_outcome id outcome (ok outcomes) = ok ((id, outcome) ∷ outcomes)

  -- `join_all` waits for every outcome.
  unfoldable pub join_all : List (Text × Awaited Json) → Awaited Outcomes
  join_all [] = ok []
  join_all ((id, ok response) ∷ outcomes) = add_outcome id (ok response) (join_all outcomes)
  join_all ((id, err (io e)) ∷ outcomes) = add_outcome id (err e) (join_all outcomes)
  join_all ((id, err never) ∷ outcomes) = err never

  -- `self.backends.iter().filter(|b| !b.available())`.
  unfoldable pub unavailable_ids : List (Backend F64) → F64 → List (Backend F64) × List Text
  unavailable_ids [] now = ([], [])
  unavailable_ids (b ∷ bs) now =
      let (b', allowed) = available f b now in
      let (bs', ids) = unavailable_ids bs now in (b' ∷ bs', if allowed then ids else b.id ∷ ids)

  abbrev pub cache_put :
      Option (ListCache F64)
      → Bool
      → Text
      → Text
      → Option Text
      → Json
      → F64
      → Option (ListCache F64)
  cache_put none use_cache id method principal result now = none
  cache_put (some cache) use_cache id method principal result now =
      some (if use_cache then Cache.put f cache id method principal result now else cache)

  -- The loop over the outcomes: a failure ends the list, or in resilient mode leaves the backend out.
  unfoldable pub absorb :
      Router F64
      → Capability
      → Bool
      → List (Text × Result Json)
      → Fetched
      → Router F64 × Awaited Fetched
  absorb r c use_cache [] acc = (r, ok acc)
  absorb r c use_cache ((id, err e) ∷ outcomes) acc =
      let rest =
        absorb r c use_cache outcomes (record acc { unavailable = acc.unavailable ++ id ∷ [] }) in
      if r.resilient then rest else (r, err (io e))
  absorb r c use_cache ((id, ok response) ∷ outcomes) acc =
      let result = unwrap_or (Json.get response (ascii "result")) (object empty) in
      absorb
        (record r {
          cache = cache_put r.cache use_cache id c.list r.principal result (clock r.sent);
        })
        c use_cache outcomes (record acc { per_backend = Dict.insert acc.per_backend id result })

  -- After the wait for the outcomes.
  abbrev pub absorb_all :
      Router F64 → Capability → Bool → Awaited Outcomes → Fetched → Router F64 × Awaited Fetched
  absorb_all r c use_cache (err e) acc = (r, err e)
  absorb_all r c use_cache (ok outcomes) acc = absorb r c use_cache outcomes acc

  -- The composed surface of what was fetched.
  unfoldable pub composed :
      Router F64 → Capability → Query → List Text → Awaited Fetched → Router F64 × Awaited Collected
  unfolding compose next_cursors
  composed r c q ids (err e) = (r, err e)
  composed r c q ids (ok fetched) =
      let passthrough =
        text_eq c.collection (ascii "tools")
        && text_eq r.namespacing.strategy (ascii "passthrough") in
      let listed =
        compose c r.single passthrough (filter_array q.list_filter (ascii "namePatterns"))
          fetched.per_backend ids (record { items = []; reverse = r.reverse }) in
      (
        record r { reverse = listed.reverse },
        ok (record {
          items = listed.items;
          unavailable = fetched.unavailable;
          next_cursors = next_cursors fetched.per_backend ids [];
        }),
      )

  module _ (to_vec : Json → Bytes) (from_slice : Bytes → Option Json) where
    abbrev pub cursors_of : Option (Option Text × Cursors) → Option Cursors
    cursors_of none = none
    cursors_of (some (variant, cursors)) = some cursors

    unfoldable pub collect : Router F64 → Capability → Query → Router F64 × Awaited Collected
    unfolding join_all select look_up fetch unavailable_ids absorb composed params_for
        effective_variant
    collect r c q =
        let restrict = cursors_of (resolve_cursor to_vec from_slice q.cursor) in
        let variant = effective_variant r.variants q.variant in
        let (backends, chosen) =
          select r.resilient (filter_array q.list_filter (ascii "keywords")) restrict (clock r.sent)
            r.backends in
        let use_cache =
          not (has_filter q.list_filter) && is_null q.cursor && not (is_some variant) in
        let (r1, hits, misses) = look_up (record r { backends = backends }) c use_cache chosen [] in
        let (r2, outcomes) = fetch r1 c (params_for r.single q variant restrict) misses in
        let (asked, down) = unavailable_ids r2.backends (clock r2.sent) in
        let r3 = if r.resilient then record r2 { backends = asked } else r2 in
        let (r4, fetched) =
          absorb_all r3 c use_cache (join_all outcomes)
            (record { per_backend = hits; unavailable = if r.resilient then down else [] }) in
        composed r4 c q (map (λ (b : Backend F64). b.id) chosen) fetched
