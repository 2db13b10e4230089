-- ===== src/Media.antt =====
-- src/media.rs: the negotiation of the media type. `trim` is `str::trim`, which knows Unicode.
use rust_yamp.Prelude.{
  Bool, false, ◌||◌, Option, none, some, List, [], ◌∷◌, Text, ascii, text_eq, any, if◌then◌else◌,
  map,
}
use rust_yamp.Transport.{split_on}

abbrev pub mcp_json : Text
mcp_json = ascii "application/mcp+json"

abbrev pub json : Text
json = ascii "application/json"

-- `split(';').next().unwrap_or("")`
abbrev pub first_part : List Text → Text
first_part [] = []
first_part (part ∷ parts) = part

module _ (trim : Text → Text) where
  unfoldable pub media_type : Text → Text
  media_type part = trim (first_part (split_on b';' part))

  abbrev pub accepts_mcp : Text → Bool
  accepts_mcp token =
      text_eq token mcp_json || text_eq token (ascii "application/*") || text_eq token (ascii "*/*")

  unfoldable pub response_content_type : Option Text → Text
  unfolding media_type
  response_content_type none = json
  response_content_type (some []) = json
  response_content_type (some (c ∷ accept)) =
      if any accepts_mcp (map media_type (split_on b',' (c ∷ accept))) then mcp_json else json

  unfoldable pub is_mcp_json : Option Text → Bool
  unfolding media_type
  is_mcp_json none = false
  is_mcp_json (some []) = false
  is_mcp_json (some (c ∷ value)) = text_eq (media_type (c ∷ value)) mcp_json
