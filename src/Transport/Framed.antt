-- ===== src/Transport/Framed.antt =====
-- src/transport/framed.rs: Content-Length framing.
pub mod Header
pub mod RoundTrip
pub mod Bounds
use rust_yamp.Prelude.{
  ℕ, zero, suc, ◌+◌, ◌-◌, ◌*◌, ◌/◌, ◌%◌, ◌^◌, ◌≤◌, ◌<◌, ◌≡◌, refl, sym, ap, ◌∙◌, ◌≢◌, ◌↔◌, ◌⊎◌, inl,
  inr, Bool, true, false, not, ◌&&◌, ◌||◌, Option, none, some, List, [], ◌∷◌, ◌++◌, map, append-nil,
  append_assoc, arith, ltb, leb, ◌==◌, if◌then◌else◌, ==_iff, Bool-cases, Option-cases,
  some_injective, ◌>>=◌, unwrap_or, is_some, length, take, drop, get_or, any, all, retain,
  length-append, All, All-append, Any, Any-imp, Bytes, Text, ascii, text_eq, text_lt, text_eq_refl,
  eq_of_text_eq, text_eq_iff, text_eq_of_ne, strip_prefix, starts_with, contains, split_once,
  text_eq_comm, Result, ok, err, and_then,
}
use rust_yamp.Prelude.Decimal.{decimal, parse_digits}
use rust_yamp.Transport.{read_until, split_on, strip_last, trim, Framing}

unfoldable pub max_frame_bytes : ℕ
max_frame_bytes = 64 * 1024 * 1024

abbrev pub ascii_lower : ℕ → ℕ
ascii_lower c = if leb b'A' c && leb c b'Z' then c + 32 else c

-- `a.eq_ignore_ascii_case(b)`
unfoldable pub eq_ignore_ascii_case : Bytes → Bytes → Bool
eq_ignore_ascii_case a b = text_eq (map ascii_lower a) (map ascii_lower b)

-- `str::parse::<usize>`: decimal digits, at least one, after an optional plus sign; a `usize` has
-- 64 bits. Bytes that are not UTF-8 are no digits either.
abbrev pub in_usize : Option ℕ → Option ℕ
in_usize none = none
in_usize (some n) = if ltb n (2 ^ 64) then some n else none

abbrev pub parse_unsigned : Bytes → Option ℕ
parse_unsigned [] = none
parse_unsigned (c ∷ s) = in_usize (parse_digits 0 (c ∷ s))

unfoldable pub parse_usize : Bytes → Option ℕ
parse_usize [] = none
parse_usize (c ∷ s) = if c == b'+' then parse_unsigned s else parse_unsigned (c ∷ s)

-- The value of a `Content-Length` line.
unfoldable pub parse_length : Option ℕ → Result ℕ
unfolding max_frame_bytes
parse_length none = err (ascii "invalid Content-Length")
parse_length (some length) =
    if ltb max_frame_bytes length then err (ascii "Content-Length exceeds maximum") else ok length

-- What one header line says: nothing where it has another name or no colon. `none` is no colon.
unfoldable pub header_line : Option (Bytes × Bytes) → Option (Result ℕ)
unfolding eq_ignore_ascii_case parse_usize parse_length trim
header_line none = none
header_line (some (name, value)) =
    if eq_ignore_ascii_case (trim name) (ascii "content-length")
    then some (parse_length (parse_usize (trim value)))
    else none

abbrev pub or_else {ℓ} : {A : Type ℓ} → Option A → A → A
or_else none later = later
or_else (some a) later = a

unfoldable pub parse_lines : List Bytes → Result ℕ
unfolding strip_last split_once header_line
parse_lines [] = err (ascii "missing Content-Length header")
parse_lines (raw ∷ lines) =
    or_else (header_line (split_once (strip_last b'\r' raw) (ascii ":"))) (parse_lines lines)

unfoldable pub parse_content_length : Bytes → Result ℕ
unfolding split_on parse_lines
parse_content_length header = parse_lines (split_on b'\n' header)

-- `matches!(line, b"\r\n" | b"\n")`
abbrev pub is_blank : Bytes → Bool
is_blank line = text_eq line (b'\r' ∷ b'\n' ∷ []) || text_eq line (b'\n' ∷ [])

-- One pass of the loop reads one line, so the length of the stream is fuel enough; `none` is its end.
unfoldable pub read_header : ℕ → Bytes → Bytes → Option Bytes × Bytes
unfolding read_until
read_header zero header s = (none, s)
read_header (suc fuel) header [] = (none, [])
read_header (suc fuel) header (c ∷ s) =
    let (line, rest) = read_until (c ∷ s) in
    let more = read_header fuel (header ++ line) rest in
    if is_blank line then (some header, rest) else more

-- `read_exact` of the body: at an early end the bytes are gone.
unfoldable pub read_exact : ℕ → Bytes → Option Bytes × Bytes
read_exact n s = if leb n (length s) then (some (take n s), drop n s) else (none, [])

unfoldable pub read_body : Result ℕ → Bytes → Result (Option Bytes) × Bytes
unfolding read_exact
read_body (err e) s = (err e, s)
read_body (ok length) s = let (body, rest) = read_exact length s in (ok body, rest)

unfoldable pub after_header : Option Bytes → Bytes → Result (Option Bytes) × Bytes
unfolding parse_content_length read_body
after_header none s = (ok none, s)
after_header (some header) s = read_body (parse_content_length header) s

unfoldable pub receive : Bytes → Result (Option Bytes) × Bytes
unfolding read_header after_header
receive s = let (header, rest) = read_header (length s + 1) [] s in after_header header rest

abbrev pub header_of : ℕ → Bytes
header_of n = ascii "Content-Length: " ++ decimal n

unfoldable pub send : Bytes → Bytes
unfolding decimal
send payload = header_of (length payload) ++ (b'\r' ∷ b'\n' ∷ b'\r' ∷ b'\n' ∷ payload)
