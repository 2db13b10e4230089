-- ===== src/Namespace.antt =====
-- src/namespace.rs: names `{backend_id}__{original}`, and URIs with the backend as their first path
-- segment.
pub mod RoundTrip
pub mod Uri
use rust_yamp.Prelude.{
  ℕ, Bool, true, false, Option, none, some, [], ◌∷◌, ◌++◌, not, ◌&&◌, ◌||◌, Text, ascii, all, leb,
  ◌==◌, contains, split_once, ◌>>=◌,
}

abbrev pub delimiter : Text
delimiter = ascii "__"

-- `u8::is_ascii_alphanumeric`
unfoldable pub is_ascii_alphanumeric : ℕ → Bool
is_ascii_alphanumeric b =
    (leb b'0' b && leb b b'9') || (leb b'A' b && leb b b'Z') || (leb b'a' b && leb b b'z')

abbrev pub is_empty : Text → Bool
is_empty [] = true
is_empty (_ ∷ _) = false

unfoldable pub id_byte : ℕ → Bool
unfolding is_ascii_alphanumeric
id_byte b = is_ascii_alphanumeric b || b == b'_' || b == b'-'

unfoldable pub valid_backend_id : Text → Bool
valid_backend_id id = not (is_empty id) && not (contains id delimiter) && all id_byte id

unfoldable pub prefix : Text → Text → Text
prefix id name = id ++ (delimiter ++ name)

abbrev pub non_empty_pair : Text × Text → Option (Text × Text)
non_empty_pair ([], original) = none
non_empty_pair (c ∷ id, []) = none
non_empty_pair (c ∷ id, d ∷ original) = some (c ∷ id, d ∷ original)

unfoldable pub split : Text → Option (Text × Text)
split name = do parts ← split_once name delimiter; non_empty_pair parts

abbrev pub scheme_mark : Text
scheme_mark = ascii "://"

abbrev pub slash : Text
slash = ascii "/"

unfoldable pub prefix_path : Text → Text → Text → Option (Text × Text) → Text
prefix_path id scheme rest (some (authority, path)) =
    scheme ++ (scheme_mark ++ (authority ++ (slash ++ (id ++ (slash ++ path)))))
prefix_path id scheme rest none = scheme ++ (scheme_mark ++ (rest ++ (slash ++ id)))

unfoldable pub prefix_parts : Text → Text → Option (Text × Text) → Text
unfolding prefix_path
prefix_parts id uri (some (scheme, rest)) = prefix_path id scheme rest (split_once rest slash)
prefix_parts id uri none = uri

unfoldable pub prefix_uri : Text → Text → Text
unfolding prefix_parts
prefix_uri id uri = prefix_parts id uri (split_once uri scheme_mark)

-- The `match path.split_once('/')` of `split_uri`, with its guards.
unfoldable pub split_path : Text → Text → Text → Option (Text × Text) → Option (Text × Text)
split_path scheme authority path (some ([], remainder)) = none
split_path scheme authority path (some (c ∷ id, remainder)) =
    some (c ∷ id, scheme ++ (scheme_mark ++ (authority ++ (slash ++ remainder))))
split_path scheme authority [] none = none
split_path scheme authority (c ∷ path) none = some (c ∷ path, scheme ++ (scheme_mark ++ authority))

unfoldable pub split_uri : Text → Option (Text × Text)
unfolding split_path
split_uri uri = do
  (scheme, rest) ← split_once uri scheme_mark
  (authority, path) ← split_once rest slash
  split_path scheme authority path (split_once path slash)
