-- ===== src/Router/Listing.antt =====
-- The data of `collect` in src/router.rs: what a list request asks of each backend, and the
-- composed surface of what the backends gave.
use rust_yamp.Prelude.{
  Bool, true, false, not, ◌&&◌, ◌||◌, Option, none, some, List, [], ◌∷◌, ◌++◌, Text, ascii, text_eq,
  text_lt, if◌then◌else◌, ◌>>=◌, unwrap_or,
}
use rust_yamp.Json.{
  Json, Map, null, string, object, empty, insert, as_array, as_object, as_str, get_str, is_null,
  json_object,
}
use rust_yamp.Json
use rust_yamp.Routing.{name_matches}
use rust_yamp.Variants.{server_variant_meta_key}
use rust_yamp.Dict.{Dict, text_key}
use rust_yamp.Dict
use rust_yamp.Router.{Capability, label, put}

-- The arguments of a list request that `collect` reads.
pub record Query : Type 0 where
  pub list_filter : Json
  pub cursor : Json
  pub variant : Option Text

abbrev pub filter_array : Json → Text → List Json
filter_array list_filter key = unwrap_or (Json.get list_filter key >>= as_array) []

abbrev pub is_empty_map : Map → Bool
is_empty_map Json.empty = true
is_empty_map (Json.entry k v m) = false

abbrev pub has_filter : Json → Bool
has_filter list_filter = elim (as_object list_filter) [
  | some m ↦ not (is_empty_map m)
  | none ↦ false
]

unfoldable pub effective_variant : List Text → Option Text → Option Text
effective_variant variants (some v) = some v
effective_variant [] none = none
effective_variant (v ∷ vs) none = some v

-- A `BTreeMap<String, String>` of cursors, in the order of its keys.
abbrev pub Cursors : Type 0
Cursors = List (Text × Text)

unfoldable pub insert_cursor : Cursors → Text → Text → Cursors
insert_cursor [] k v = (k, v) ∷ []
insert_cursor ((j, w) ∷ m) k v =
    if text_eq j k
    then (k, v) ∷ m
    else if text_lt k j
    then (k, v) ∷ (j, w) ∷ m
    else (j, w) ∷ insert_cursor m k v

-- `params_for`: the filter, the variant, and the cursor of this backend or the raw one.
abbrev pub with_filter : Json → Map → Map
with_filter list_filter m =
    if has_filter list_filter then insert m (ascii "filter") list_filter else m

abbrev pub with_variant : Option Text → Map → Map
with_variant none m = m
with_variant (some v) m =
    insert m (ascii "_meta") (json_object ((server_variant_meta_key, string v) ∷ []))

abbrev pub with_cursor : Bool → Json → Option Cursors → Text → Map → Map
with_cursor single cursor (some r) id m =
    insert m (ascii "cursor") (string (unwrap_or (Dict.get r id) []))
with_cursor single cursor none id m =
    if not (is_null cursor) && single then insert m (ascii "cursor") cursor else m

unfoldable pub params_for : Bool → Query → Option Text → Option Cursors → Text → Json
params_for single q variant restrict id = object (
    with_cursor single q.cursor restrict id
      (with_variant variant (with_filter q.list_filter empty)))

-- The items of one backend under their labels, and the reverse map of passthrough.
pub record Listed : Type 0 where
  pub items : List Json
  pub reverse : Dict Text (Text × Text)

abbrev pub or_insert : Dict Text (Text × Text) → Text → Text × Text → Dict Text (Text × Text)
or_insert m k v = if Dict.contains_key m k then m else Dict.insert m k v

-- One item whose `field` is `value`.
unfoldable pub list_item :
    Capability → Bool → Bool → List Json → Text → Listed → Json → Text → Listed
unfolding label name_matches
list_item c single passthrough patterns id acc item value =
    let labeled = if single || passthrough then value else label c.kind id value in
    let reverse =
      if passthrough && not single
      then or_insert acc.reverse labeled (id, value)
      else acc.reverse in
    if name_matches labeled patterns
    then record { items = acc.items ++ put item c.field (string labeled) ∷ []; reverse = reverse }
    else record acc { reverse = reverse }

unfoldable pub list_items :
    Capability → Bool → Bool → List Json → Text → Listed → List Json → Listed
unfolding list_item
list_items c single passthrough patterns id acc [] = acc
list_items c single passthrough patterns id acc (item ∷ items) =
    let acc' : Listed = elim (get_str item c.field) [
      | some value ↦ list_item c single passthrough patterns id acc item value
      | none ↦ acc
    ] in
    list_items c single passthrough patterns id acc' items

unfoldable pub listed_of : Capability → Json → List Json
listed_of c result = unwrap_or (Json.get result c.collection >>= as_array) []

-- The loop over the available backends, in their order, with what each of them gave.
unfoldable pub compose :
    Capability → Bool → Bool → List Json → Dict Text Json → List Text → Listed → Listed
unfolding list_items listed_of
compose c single passthrough patterns per_backend [] acc = acc
compose c single passthrough patterns per_backend (id ∷ ids) acc =
    let acc' : Listed = elim (Dict.get per_backend id) [
      | some result ↦ list_items c single passthrough patterns id acc (listed_of c result)
      | none ↦ acc
    ] in
    compose c single passthrough patterns per_backend ids acc'

unfoldable pub next_cursors : Dict Text Json → List Text → Cursors → Cursors
unfolding insert_cursor
next_cursors per_backend [] m = m
next_cursors per_backend (id ∷ ids) m =
    let m' : Cursors = elim (Dict.get per_backend id >>= λ r. get_str r (ascii "nextCursor")) [
      | some cursor ↦ insert_cursor m id cursor
      | none ↦ m
    ] in
    next_cursors per_backend ids m'

-- What the fan-out knows while it runs.
pub record Fetched : Type 0 where
  pub per_backend : Dict Text Json
  pub unavailable : List Text

pub record Collected : Type 0 where
  pub items : List Json
  pub unavailable : List Text
  pub next_cursors : Cursors
