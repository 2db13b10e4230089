-- ===== src/Transport/Sse.antt =====
-- src/transport/sse.rs: Server-Sent Events framing.
pub mod RoundTrip
use rust_yamp.Prelude.{
  ℕ, zero, suc, ◌+◌, ◌-◌, ◌*◌, ◌/◌, ◌%◌, ◌^◌, ◌≤◌, ◌<◌, ◌≡◌, refl, sym, ap, ◌∙◌, ◌≢◌, ◌↔◌, ◌⊎◌, inl,
  inr, Bool, true, false, not, ◌&&◌, ◌||◌, Option, none, some, List, [], ◌∷◌, ◌++◌, map, append-nil,
  append_assoc, arith, ltb, leb, ◌==◌, if◌then◌else◌, ==_iff, Bool-cases, Option-cases,
  some_injective, ◌>>=◌, unwrap_or, is_some, length, take, drop, get_or, any, all, retain,
  length-append, All, All-append, Any, Any-imp, Bytes, Text, ascii, text_eq, text_lt, text_eq_refl,
  eq_of_text_eq, text_eq_iff, text_eq_of_ne, strip_prefix, starts_with, contains, split_once,
  text_eq_comm, Result, ok, err, and_then,
}
use rust_yamp.Transport.{read_until, split_on, strip_last}

-- `if line.ends_with(b"\n") { line.pop(); }`, and the same for `\r`.
unfoldable pub strip_line : Bytes → Bytes
unfolding strip_last
strip_line line = strip_last b'\r' (strip_last b'\n' line)

abbrev pub strip_space : Bytes → Bytes
strip_space [] = []
strip_space (c ∷ value) = if c == b' ' then value else c ∷ value

unfoldable pub field_value : Bytes → Bytes
field_value line = strip_space (drop 5 line)

unfoldable pub join : List Bytes → Bytes
join [] = []
join (part ∷ []) = part
join (part ∷ next ∷ parts) = part ++ b'\n' ∷ join (next ∷ parts)

-- An empty line ends the event that the parts read so far make, if there are any.
abbrev pub event_of : List Bytes → Option Bytes
event_of [] = none
event_of (part ∷ parts) = some (join (part ∷ parts))

abbrev pub data_of : List Bytes → Bytes → List Bytes
data_of parts line =
    if starts_with line (ascii ":")
    then parts
    else if starts_with line (ascii "data:")
    then parts ++ field_value line ∷ []
    else parts

abbrev pub first_some : Option Bytes → Bytes → Option Bytes × Bytes → Option Bytes × Bytes
first_some none rest later = later
first_some (some message) rest later = (some message, rest)

abbrev pub after_line : List Bytes → Bytes → Bytes → Option Bytes × Bytes → Option Bytes × Bytes
after_line parts [] rest later = first_some (event_of parts) rest later
after_line parts (c ∷ line) rest later = later

-- One pass of the loop reads one line, so the length of the stream is fuel enough.
unfoldable pub receive_loop : ℕ → List Bytes → Bytes → Option Bytes × Bytes
unfolding read_until strip_line field_value join starts_with
receive_loop zero parts s = (none, s)
receive_loop (suc fuel) parts [] = (event_of parts, [])
receive_loop (suc fuel) parts (c ∷ s) =
    let (raw, rest) = read_until (c ∷ s) in
    let line = strip_line raw in
    after_line parts line rest (receive_loop fuel (data_of parts line) rest)

unfoldable pub receive : Bytes → Result (Option Bytes) × Bytes
unfolding receive_loop
receive s = let (message, rest) = receive_loop (length s + 1) [] s in (ok message, rest)

unfoldable pub send_lines : List Bytes → Bytes
send_lines [] = b'\n' ∷ []
send_lines (part ∷ parts) = ascii "data: " ++ (part ++ b'\n' ∷ send_lines parts)

unfoldable pub send : Bytes → Bytes
unfolding split_on send_lines
send payload = send_lines (split_on b'\n' payload)
