-- ===== src/Json/Defs.antt =====
-- `serde_json::Value` with its `Map` (a `BTreeMap`, kept in the order of its keys), and the
-- accessors that the sources call.
use rust_yamp.Prelude.{
  ℕ, Bool, true, false, Option, none, some, List, [], ◌∷◌, Text, text_eq, text_lt, ◌>>=◌, is_some,
  unwrap_or, if◌then◌else◌,
}

-- `serde_json::Number`: an unsigned integer, a negative one (`neg_int n` is -(n + 1)), or the bits
-- of an `f64`.
pub data Number : Type 0 where
  pos_int neg_int float : ℕ → Number

mutual
  pub data Json : Type 0 where
    null : Json
    bool : Bool → Json
    number : Number → Json
    string : Text → Json
    array : Items → Json
    object : Map → Json

  pub data Items : Type 0 where
    nil : Items
    cons : Json → Items → Items

  pub data Map : Type 0 where
    empty : Map
    entry : Text → Json → Map → Map

unfoldable pub to_list : Items → List Json
to_list nil = []
to_list (cons v vs) = v ∷ to_list vs

unfoldable pub of_list : List Json → Items
of_list [] = nil
of_list (v ∷ vs) = cons v (of_list vs)

-- `Map::iter`.
unfoldable pub entries : Map → List (Text × Json)
entries empty = []
entries (entry k v m) = (k, v) ∷ entries m

-- `Map::get`, `Map::contains_key`.
unfoldable pub lookup : Map → Text → Option Json
lookup empty k = none
lookup (entry j v m) k = if text_eq j k then some v else lookup m k

abbrev pub contains_key : Map → Text → Bool
contains_key m k = is_some (lookup m k)

-- `Map::insert`: replaces the value of a key that is there.
unfoldable pub insert : Map → Text → Json → Map
insert empty k v = entry k v empty
insert (entry j w m) k v =
    if text_eq j k
    then entry k v m
    else if text_lt k j
    then entry k v (entry j w m)
    else entry j w (insert m k v)

-- `Map::remove`.
unfoldable pub remove : Map → Text → Map
remove empty k = empty
remove (entry j w m) k = if text_eq j k then remove m k else entry j w (remove m k)

-- `for (key, value) in more { m.insert(key.clone(), value.clone()); }`.
unfoldable pub extend : Map → List (Text × Json) → Map
extend m [] = m
extend m ((k, v) ∷ more) = extend (insert m k v) more

-- `Value::as_object`, `as_array`, `as_str`, `as_bool`, `is_object`, `is_null`.
abbrev pub as_object : Json → Option Map
as_object (object m) = some m
as_object _ = none

abbrev pub as_items : Json → Option Items
as_items (array vs) = some vs
as_items _ = none

unfoldable pub as_array : Json → Option (List Json)
unfolding to_list
as_array v = as_items v >>= λ vs. some (to_list vs)

abbrev pub as_str : Json → Option Text
as_str (string s) = some s
as_str _ = none

abbrev pub as_bool : Json → Option Bool
as_bool (bool b) = some b
as_bool _ = none

abbrev pub number_as_u64 : Number → Option ℕ
number_as_u64 (pos_int n) = some n
number_as_u64 _ = none

abbrev pub as_u64 : Json → Option ℕ
as_u64 (number n) = number_as_u64 n
as_u64 _ = none

abbrev pub is_object : Json → Bool
is_object v = is_some (as_object v)

abbrev pub is_null : Json → Bool
is_null null = true
is_null _ = false

-- `Value::get` at a string key.
unfoldable pub get : Json → Text → Option Json
get v k = as_object v >>= λ m. lookup m k

-- `v[key]`: null where the key is missing.
unfoldable pub index : Json → Text → Json
unfolding get
index v k = unwrap_or (get v k) null

-- `v.get(key).and_then(Value::as_str)`.
unfoldable pub get_str : Json → Text → Option Text
unfolding get
get_str v k = get v k >>= as_str

-- `json!({ key: value, … })`.
abbrev pub json_object : List (Text × Json) → Json
json_object fields = object (extend empty fields)

-- `if let Some(inner) = m.get_mut(key).and_then(Value::as_object_mut) { inner := f(inner) }`.
unfoldable pub update_inner : Map → Text → (Map → Map) → Option Map → Map
update_inner m k f none = m
update_inner m k f (some inner) = insert m k (object (f inner))

unfoldable pub modify_object : Map → Text → (Map → Map) → Map
unfolding update_inner
modify_object m k f = update_inner m k f (lookup m k >>= as_object)

-- `if let Some(s) = m.get(key).and_then(Value::as_str) { m.insert(key, string(f(s))) }`.
unfoldable pub update_string : Map → Text → (Text → Text) → Option Text → Map
update_string m k f none = m
update_string m k f (some s) = insert m k (string (f s))

unfoldable pub modify_string : Map → Text → (Text → Text) → Map
unfolding update_string
modify_string m k f = update_string m k f (lookup m k >>= as_str)

-- `if let Some(m) = v.as_object_mut() { m := f(m) }`.
abbrev pub modify : Json → (Map → Map) → Json
modify (object m) f = object (f m)
modify v f = v
