-- ===== src/Json/Laws.antt =====
-- What a map shows after it is written: in conditional form, whatever the order of its keys.
use rust_yamp.Prelude.{
  ◌≡◌, refl, false, Option, none, some, List, [], ◌∷◌, Text, text_eq, text_eq_iff, text_eq_refl,
  if◌then◌else◌, arith, ap, ◌>>=◌,
}
use rust_yamp.Json.Defs.{
  null, bool, number, string, as_str, as_object, update_string, modify_string, update_inner,
  modify_object, Json, Map, empty, entry, object, array, to_list, of_list, lookup, insert, remove,
}

pub to_list-of_list : (vs : List Json) → to_list (of_list vs) ≡ vs
unfolding to_list of_list
to_list-of_list [] = refl
to_list-of_list (v ∷ vs) = ap (λ l. v ∷ l) (to_list-of_list vs)

pub lookup-insert :
    (m : Map) (k j : Text) (v : Json)
    → lookup (insert m k v) j ≡ (if text_eq k j then some v else lookup m j)
unfolding lookup insert
lookup-insert empty k j v = refl
lookup-insert (entry i w m) k j v =
    ground (arith, text_eq_iff i k, text_eq_iff i j, text_eq_iff k j, lookup-insert m k j v)

pub lookup-remove :
    (m : Map) (k j : Text) → lookup (remove m k) j ≡ (if text_eq k j then none else lookup m j)
unfolding lookup remove
lookup-remove empty k j = ground arith
lookup-remove (entry i w m) k j =
    ground (arith, text_eq_iff i k, text_eq_iff i j, text_eq_iff k j, lookup-remove m k j)

-- What stands under a key after a string there is rewritten.
abbrev pub map_string : (Text → Text) → Option Json → Option Json
map_string f (some (string s)) = some (string (f s))
map_string f o = o

abbrev pub map_object : (Map → Map) → Option Json → Option Json
map_object f (some (object m)) = some (object (f m))
map_object f o = o

update_string_lem :
    (m : Map) (k j : Text) (f : Text → Text) (o : Option Json)
    → lookup m k ≡ o
    → lookup (update_string m k f (o >>= as_str)) j
      ≡ (if text_eq k j then map_string f o else lookup m j)
unfolding update_string
update_string_lem m k j f none h = ground (arith, text_eq_iff k j)
update_string_lem m k j f (some (string s)) h = lookup-insert m k j (string (f s))
update_string_lem m k j f (some null) h = ground (arith, text_eq_iff k j)
update_string_lem m k j f (some (bool b)) h = ground (arith, text_eq_iff k j)
update_string_lem m k j f (some (number n)) h = ground (arith, text_eq_iff k j)
update_string_lem m k j f (some (array vs)) h = ground (arith, text_eq_iff k j)
update_string_lem m k j f (some (object n)) h = ground (arith, text_eq_iff k j)

pub lookup-modify_string :
    (m : Map) (k j : Text) (f : Text → Text)
    → lookup (modify_string m k f) j
      ≡ (if text_eq k j then map_string f (lookup m k) else lookup m j)
unfolding modify_string
lookup-modify_string m k j f = update_string_lem m k j f (lookup m k) refl

update_inner_lem :
    (m : Map) (k j : Text) (f : Map → Map) (o : Option Json)
    → lookup m k ≡ o
    → lookup (update_inner m k f (o >>= as_object)) j
      ≡ (if text_eq k j then map_object f o else lookup m j)
unfolding update_inner
update_inner_lem m k j f none h = ground (arith, text_eq_iff k j)
update_inner_lem m k j f (some (object n)) h = lookup-insert m k j (object (f n))
update_inner_lem m k j f (some null) h = ground (arith, text_eq_iff k j)
update_inner_lem m k j f (some (bool b)) h = ground (arith, text_eq_iff k j)
update_inner_lem m k j f (some (number n)) h = ground (arith, text_eq_iff k j)
update_inner_lem m k j f (some (array vs)) h = ground (arith, text_eq_iff k j)
update_inner_lem m k j f (some (string s)) h = ground (arith, text_eq_iff k j)

pub lookup-modify_object :
    (m : Map) (k j : Text) (f : Map → Map)
    → lookup (modify_object m k f) j
      ≡ (if text_eq k j then map_object f (lookup m k) else lookup m j)
unfolding modify_object
lookup-modify_object m k j f = update_inner_lem m k j f (lookup m k) refl

pub ruleset map_laws = (lookup-insert, lookup-remove)

module _ (m : Map) (k : Text) where
  pub lookup-insert_self : (v : Json) → lookup (insert m k v) k ≡ some v
  lookup-insert_self v = rw lookup-insert (rw (text_eq_refl k))

  pub lookup-insert_ne :
      (j : Text) (v : Json) → text_eq k j ≡ false → lookup (insert m k v) j ≡ lookup m j
  lookup-insert_ne j v h = rw lookup-insert (rw h)

  pub lookup-modify_string_self :
      (f : Text → Text) (s : Text)
      → lookup m k ≡ some (string s)
      → lookup (modify_string m k f) k ≡ some (string (f s))
  lookup-modify_string_self f s h = rw lookup-modify_string (rw (text_eq_refl k) (rw h))

  pub lookup-modify_string_ne :
      (j : Text) (f : Text → Text)
      → text_eq k j ≡ false
      → lookup (modify_string m k f) j ≡ lookup m j
  lookup-modify_string_ne j f h = rw lookup-modify_string (rw h)

  pub lookup-modify_object_self :
      (f : Map → Map) (n : Map)
      → lookup m k ≡ some (object n)
      → lookup (modify_object m k f) k ≡ some (object (f n))
  lookup-modify_object_self f n h = rw lookup-modify_object (rw (text_eq_refl k) (rw h))

  pub lookup-modify_object_ne :
      (j : Text) (f : Map → Map) → text_eq k j ≡ false → lookup (modify_object m k f) j ≡ lookup m j
  lookup-modify_object_ne j f h = rw lookup-modify_object (rw h)
