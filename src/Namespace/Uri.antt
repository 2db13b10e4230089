-- ===== src/Namespace/Uri.antt =====
-- `prefix_uri` and `split_uri` of src/namespace.rs undo one another.
use rust_yamp.Prelude.{
  ◌≡◌, ◌≢◌, refl, ◌∙◌, true, Option, none, some, [], ◌∷◌, ◌++◌, Text, arith, all, strip_prefix,
  split_once,
}
use rust_yamp.Prelude.Split.{append-split_once, split_once_again, split_once_fresh}
use rust_yamp.Namespace.{
  scheme_mark, slash, id_byte, valid_backend_id, prefix_uri, prefix_parts, prefix_path, split_uri,
  split_path,
}

no_slash : (id : Text) → all id_byte id ≡ true → split_once id slash ≡ none
unfolding split_once strip_prefix id_byte
no_slash [] h = refl
no_slash (x ∷ id) h = ground (arith, no_slash id)

valid_uri_facts :
    (id : Text) → valid_backend_id id ≡ true → (id ≢ []) × (split_once id slash ≡ none)
unfolding valid_backend_id
valid_uri_facts [] h = absurd (cc)
valid_uri_facts (x ∷ id) h = (λ e. cc, no_slash (x ∷ id) (ground arith))

-- `split_uri` at its two splits.
split_uri_by :
    (uri scheme rest authority path : Text)
    → split_once uri scheme_mark ≡ some (scheme, rest)
    → split_once rest slash ≡ some (authority, path)
    → split_uri uri ≡ split_path scheme authority path (split_once path slash)
unfolding split_uri
split_uri_by uri scheme rest authority path h k = rw h (rw k)

split_path-some :
    (scheme authority path id remainder : Text)
    → id ≢ []
    → split_path scheme authority path (some (id, remainder))
      ≡ some (id, scheme ++ (scheme_mark ++ (authority ++ (slash ++ remainder))))
unfolding split_path
split_path-some scheme authority path [] remainder n = absurd (n refl)
split_path-some scheme authority path (x ∷ id) remainder n = refl

split_path-none :
    (scheme authority id : Text)
    → id ≢ []
    → split_path scheme authority id none ≡ some (id, scheme ++ (scheme_mark ++ authority))
unfolding split_path
split_path-none scheme authority [] n = absurd (n refl)
split_path-none scheme authority (x ∷ id) n = refl

module _ (id uri scheme rest : Text) (v : valid_backend_id id ≡ true)
    (h : split_once uri scheme_mark ≡ some (scheme, rest)) where
  -- the prefixed URI starts with the same scheme
  scheme_again :
      (t : Text) → split_once (scheme ++ (scheme_mark ++ t)) scheme_mark ≡ some (scheme, t)
  scheme_again t = split_once_again uri scheme rest t b':' (b'/' ∷ b'/' ∷ []) h

  round_trip :
      (parts : Option (Text × Text))
      → split_once rest slash ≡ parts
      → split_uri (prefix_path id scheme rest parts) ≡ some (id, uri)
  unfolding prefix_path
  round_trip (some (authority, path)) e =
      split_uri_by _ scheme (authority ++ (slash ++ (id ++ (slash ++ path)))) authority
        (id ++ (slash ++ path)) (scheme_again _)
        (split_once_again rest authority path (id ++ (slash ++ path)) b'/' [] e)
      ∙ rw (split_once_fresh id path b'/' (valid_uri_facts id v).1) (
          split_path-some scheme authority (id ++ (slash ++ path)) id path (valid_uri_facts id v).0
          ∙ cc (
            append-split_once uri scheme_mark scheme rest h,
            append-split_once rest slash authority path e,
          ))
  round_trip none e =
      split_uri_by _ scheme (rest ++ (slash ++ id)) rest id (scheme_again _)
        (split_once_fresh rest id b'/' e)
      ∙ rw (valid_uri_facts id v).1 (
          split_path-none scheme rest id (valid_uri_facts id v).0
          ∙ cc (append-split_once uri scheme_mark scheme rest h))

  -- For every valid id, a URI with a scheme comes back from its namespaced form with the id.
  pub split_uri-prefix_uri : split_uri (prefix_uri id uri) ≡ some (id, uri)
  unfolding prefix_uri prefix_parts
  split_uri-prefix_uri = rw h (round_trip (split_once rest slash) refl)
