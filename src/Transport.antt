-- ===== src/Transport.antt =====
-- src/transport/mod.rs, and the calls of the byte stream that its readers share. A stream is the
-- list of the bytes that are still to come before its end; its own I/O errors are not modelled.
pub mod Lines
pub mod Line
pub mod Sse
pub mod Framed
use rust_yamp.Prelude.{
  ℕ, zero, suc, ◌+◌, ◌-◌, ◌*◌, ◌/◌, ◌%◌, ◌^◌, ◌≤◌, ◌<◌, ◌≡◌, refl, sym, ap, ◌∙◌, ◌≢◌, ◌↔◌, ◌⊎◌, inl,
  inr, Bool, true, false, not, ◌&&◌, ◌||◌, Option, none, some, List, [], ◌∷◌, ◌++◌, map, append-nil,
  append_assoc, arith, ltb, leb, ◌==◌, if◌then◌else◌, ==_iff, Bool-cases, Option-cases,
  some_injective, ◌>>=◌, unwrap_or, is_some, length, take, drop, get_or, any, all, retain,
  length-append, All, All-append, Any, Any-imp, Bytes, Text, ascii, text_eq, text_lt, text_eq_refl,
  eq_of_text_eq, text_eq_iff, text_eq_of_ne, strip_prefix, starts_with, contains, split_once,
  text_eq_comm, Result, ok, err, and_then,
}

-- `read_until(b'\n', buf)`: the line with its newline, which the last line may lack, and the rest.
unfoldable pub read_until : Bytes → Bytes × Bytes
read_until [] = ([], [])
read_until (c ∷ s) =
    let (line, rest) = read_until s in if c == b'\n' then (c ∷ [], s) else (c ∷ line, rest)

-- `u8::is_ascii_whitespace`
abbrev pub is_ascii_whitespace : ℕ → Bool
is_ascii_whitespace c = c == 32 || (c == 9 || (c == 10 || (c == 12 || c == 13)))

-- The first loop of `trim`, and the second.
unfoldable pub trim_start : Bytes → Bytes
trim_start [] = []
trim_start (c ∷ s) = if is_ascii_whitespace c then trim_start s else c ∷ s

abbrev pub keep_end : ℕ → Bytes → Bytes
keep_end c [] = if is_ascii_whitespace c then [] else c ∷ []
keep_end c (d ∷ s) = c ∷ d ∷ s

unfoldable pub trim_end : Bytes → Bytes
trim_end [] = []
trim_end (c ∷ s) = keep_end c (trim_end s)

unfoldable pub trim : Bytes → Bytes
unfolding trim_start trim_end
trim s = trim_end (trim_start s)

-- `s.split(|&b| b == d)`
abbrev pub cons_head : ℕ → List Bytes → List Bytes
cons_head c [] = (c ∷ []) ∷ []
cons_head c (part ∷ parts) = (c ∷ part) ∷ parts

unfoldable pub split_on : ℕ → Bytes → List Bytes
split_on d [] = [] ∷ []
split_on d (c ∷ s) = let parts = split_on d s in if c == d then [] ∷ parts else cons_head c parts

-- What is left of a line without its last byte, where that is `c`.
unfoldable pub strip_last : ℕ → Bytes → Bytes
strip_last c [] = []
strip_last c (x ∷ []) = if x == c then [] else x ∷ []
strip_last c (x ∷ y ∷ s) = x ∷ strip_last c (y ∷ s)

-- `MessageRead` and `MessageWrite` of one framing. `Fits p` are the payloads that it carries whole.
pub record Framing : Type 1 where
  pub receive : Bytes → Result (Option Bytes) × Bytes
  pub send : Bytes → Bytes
  pub Fits : Bytes → Type 0
  pub receive-end : receive [] ≡ (ok none, [])
  pub receive-send : (p rest : Bytes) → Fits p → receive (send p ++ rest) ≡ (ok (some p), rest)
  pub send-nonempty : (p : Bytes) → 0 < length (send p)
