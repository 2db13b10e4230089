-- ===== src/Version.antt =====
-- src/version.rs: the protocol versions and their negotiation.
use rust_yamp.Prelude.{
  ◌≡◌, refl, Bool, Option, none, some, List, [], ◌∷◌, map, arith, if◌then◌else◌, any, Text, ascii,
  text_eq, text_eq_iff,
}
use rust_yamp.Json.{Json, null, string, array, of_list, json_object}

unfoldable pub supported_protocol_versions : List Text
supported_protocol_versions = ascii "2026-07-28" ∷ ascii "2025-06-18" ∷ []

unfoldable pub is_supported : Text → Bool
unfolding supported_protocol_versions
is_supported version = any (λ v. text_eq v version) supported_protocol_versions

-- `into_iter().find(|&supported| supported == version)`
unfoldable pub find_version : List Text → Text → Option Text
find_version [] version = none
find_version (v ∷ vs) version = if text_eq v version then some v else find_version vs version

unfoldable pub negotiate : Option Text → Text → Option Text
unfolding supported_protocol_versions find_version
negotiate none default_version = some default_version
negotiate (some version) default_version = find_version supported_protocol_versions version

abbrev pub text_or_null : Option Text → Json
text_or_null none = null
text_or_null (some s) = string s

unfoldable pub unsupported_error_data : Option Text → Json
unfolding supported_protocol_versions
unsupported_error_data requested = json_object (
    (ascii "requested", text_or_null requested)
    ∷ (ascii "supported", array (of_list (map string supported_protocol_versions)))
    ∷ [])

find_version_lem :
    (vs : List Text) (version : Text)
    → find_version vs version ≡ (if any (λ v. text_eq v version) vs then some version else none)
unfolding find_version
find_version_lem [] version = refl
find_version_lem (v ∷ vs) version =
    ground (arith, find_version_lem vs version, text_eq_iff v version)

-- A request that names a version runs under exactly that version if it is supported, and is refused
-- otherwise.
pub negotiate_named :
    (version default_version : Text)
    → negotiate (some version) default_version
      ≡ (if is_supported version then some version else none)
unfolding negotiate is_supported
negotiate_named version default_version = find_version_lem supported_protocol_versions version
