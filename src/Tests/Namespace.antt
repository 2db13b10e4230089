-- ===== src/Tests/Namespace.antt =====
-- tests/router.rs and the tests inside src/namespace.rs.
use rust_yamp.Prelude.{
  ◌≡◌, refl, some, none, ascii, contains, starts_with, strip_prefix, split_once,
}
use rust_yamp.Namespace.{valid_backend_id, prefix, split, prefix_uri, split_uri, id_byte}
use rust_yamp.Namespace.RoundTrip.{split-prefix, split-prefix_trailing}
use rust_yamp.Namespace.Uri.{split_uri-prefix_uri}

uri_runs :
    (prefix_uri (ascii "docs") (ascii "file:///reports/q3.md") ≡ ascii "file:///docs/reports/q3.md")
    × (prefix_uri (ascii "docs") (ascii "scheme://auth") ≡ ascii "scheme://auth/docs")
    × (prefix_uri (ascii "docs") (ascii "mailto:x") ≡ ascii "mailto:x")
    × (split_uri (ascii "scheme://auth/docs") ≡ some (ascii "docs", ascii "scheme://auth"))
    × (split_uri (ascii "scheme://auth") ≡ none)
    × (split_uri (ascii "scheme://auth/") ≡ none)
unfolding prefix_uri split_uri split_once strip_prefix
uri_runs = (refl, refl, refl, refl, refl, refl)

split-prefix_example :
    split (prefix (ascii "git_hub") (ascii "_get__issue"))
    ≡ some (ascii "git_hub", ascii "_get__issue")
unfolding valid_backend_id contains starts_with id_byte
split-prefix_example = split-prefix (ascii "git_hub") (ascii "_get__issue") refl refl (λ e. cc)

split-prefix_trailing_example :
    split (prefix (ascii "a_") (ascii "b")) ≡ some (ascii "a", ascii "_b")
unfolding valid_backend_id contains starts_with id_byte
split-prefix_trailing_example = split-prefix_trailing (ascii "a") (ascii "b") refl (λ e. cc)

split_uri-prefix_uri_example :
    split_uri (prefix_uri (ascii "docs") (ascii "https://ex.com/p"))
    ≡ some (ascii "docs", ascii "https://ex.com/p")
unfolding valid_backend_id contains starts_with id_byte split_once strip_prefix
split_uri-prefix_uri_example =
    split_uri-prefix_uri (ascii "docs") (ascii "https://ex.com/p") (ascii "https")
      (ascii "ex.com/p") refl refl
