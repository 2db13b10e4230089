-- ===== src/Transport/Framed/Bounds.antt =====
-- The size check of `parse_content_length` in src/transport/framed.rs.
use rust_yamp.Prelude.{
  ℕ, ◌≤◌, ◌≡◌, ap, ◌∙◌, inl, inr, Option, none, some, List, [], ◌∷◌, arith, ltb, Bool-cases,
  Option-cases, some_injective, Bytes, Text, ascii, split_once, Result, ok, err,
}
use rust_yamp.Transport.{split_on, strip_last, trim}
use rust_yamp.Transport.Framed.{
  max_frame_bytes, eq_ignore_ascii_case, parse_usize, parse_length, header_line, parse_lines,
  parse_content_length,
}

parse_length-bounded : (o : Option ℕ) (n : ℕ) → parse_length o ≡ ok n → n ≤ max_frame_bytes
unfolding parse_length
parse_length-bounded none n h = absurd (cc)
parse_length-bounded (some m) n h = elim (Bool-cases (ltb max_frame_bytes m)) [
  | inl e ↦ absurd (err≢ok (rw e at h))
  | inr e ↦ let same : m ≡ n = ok_injective (rw e at h) in ground (arith, e, same)
]
  where
    err≢ok : {e : Text} → ◌≡◌ {A = Result ℕ} (err e) (ok n) → ⊥
    err≢ok h = cc

    ok_injective : ◌≡◌ {A = Result ℕ} (ok m) (ok n) → m ≡ n
    ok_injective h = cc

header_line-bounded :
    (o : Option (Bytes × Bytes)) (n : ℕ) → header_line o ≡ some (ok n) → n ≤ max_frame_bytes
unfolding header_line
header_line-bounded none n h = absurd (cc)
header_line-bounded (some (name, value)) n h =
    elim (Bool-cases (eq_ignore_ascii_case (trim name) (ascii "content-length"))) [
      | inl e ↦ parse_length-bounded (parse_usize (trim value)) n (some_injective (rw e at h))
      | inr e ↦ absurd (none≢some (rw e at h))
    ]
  where
    none≢some : {r : Result ℕ} → none ≡ some r → ⊥
    none≢some h = cc

parse_lines-bounded : (lines : List Bytes) (n : ℕ) → parse_lines lines ≡ ok n → n ≤ max_frame_bytes
unfolding parse_lines
parse_lines-bounded [] n h = absurd (cc)
parse_lines-bounded (raw ∷ lines) n h =
    elim (Option-cases (header_line (split_once (strip_last b'\r' raw) (ascii ":")))) [
      | inl e ↦ parse_lines-bounded lines n (rw e at h)
      | inr (r, e) ↦
          header_line-bounded (split_once (strip_last b'\r' raw) (ascii ":")) n
            (e ∙ ap some (rw e at h))
    ]

-- A header that parses declares at most 64 MiB, so no larger buffer is ever made.
parse_content_length-bounded :
    (header : Bytes) (n : ℕ) → parse_content_length header ≡ ok n → n ≤ max_frame_bytes
unfolding parse_content_length
parse_content_length-bounded header n h = parse_lines-bounded (split_on b'\n' header) n h
