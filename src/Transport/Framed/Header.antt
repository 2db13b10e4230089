-- ===== src/Transport/Framed/Header.antt =====
-- The header that the writer of src/transport/framed.rs sends, and what `parse_content_length` makes of it.
use rust_yamp.Prelude.{
  ℕ, ◌^◌, ◌≤◌, ◌<◌, ◌≡◌, refl, ap, ◌∙◌, true, false, Option, none, some, List, [], ◌∷◌, ◌++◌, arith,
  ◌==◌, if◌then◌else◌, any, All, Bytes, ascii, text_eq, strip_prefix, split_once, ok,
}
use rust_yamp.Prelude.Decimal.{
  decimal, is_digit, parse_digits, parse_digits-decimal, parse_digits-All, decimal-Nonempty,
}
use rust_yamp.Transport.{trim, trim_start, trim_end, keep_end}
use rust_yamp.Transport.Lines.{strip_last-append, split_on-append, or_false}
use rust_yamp.Transport.Framed.{
  max_frame_bytes, eq_ignore_ascii_case, in_usize, parse_usize, parse_length, header_line, or_else,
  parse_lines, parse_content_length, header_of,
}

abbrev Digits : Bytes → Type 0
Digits s = All (λ c. is_digit c ≡ true) s

decimal-Digits : (n : ℕ) → Digits (decimal n)
decimal-Digits n = parse_digits-All (decimal n) 0 n (parse_digits-decimal n)

Digits-plain : (d : ℕ) (s : Bytes) → is_digit d ≡ false → Digits s → any (λ c. c == d) s ≡ false
Digits-plain d [] e h = refl
Digits-plain d (c ∷ s) e h = ground (arith, Digits-plain d s e h.1)

trim_end-Digits : (s : Bytes) → Digits s → trim_end s ≡ s
unfolding trim_end
trim_end-Digits [] h = refl
trim_end-Digits (c ∷ s) h = rw (trim_end-Digits s h.1) (keep s (ground (arith, h.0)))
  where
    keep : (s : Bytes) → is_digit c ≡ true → keep_end c s ≡ c ∷ s
    keep [] e = ground arith
    keep (d ∷ s) e = refl

trim_start-digit : (c : ℕ) (s : Bytes) → is_digit c ≡ true → trim_start (c ∷ s) ≡ c ∷ s
unfolding trim_start
trim_start-digit c s h = ground arith

trim-space : (s : Bytes) → trim (ascii " " ++ s) ≡ trim_end (trim_start s)
unfolding trim trim_start
trim-space s = refl

trim-value : (n : ℕ) → trim (ascii " " ++ decimal n) ≡ decimal n
trim-value n = let (c, s, e) = decimal-Nonempty n in value (decimal n) (decimal-Digits n) c s e
  where
    value : (d : Bytes) → Digits d → (c : ℕ) (s : Bytes) → d ≡ c ∷ s → trim (ascii " " ++ d) ≡ d
    value [] h c s e = absurd (cc)
    value (c ∷ d) h _ _ _ =
        trim-space (c ∷ d) ∙ ap trim_end (trim_start-digit c d h.0) ∙ trim_end-Digits (c ∷ d) h

parse_usize-decimal : (n : ℕ) → n < 2 ^ 64 → parse_usize (decimal n) ≡ some n
unfolding parse_usize
parse_usize-decimal n h =
    let (c, s, e) = decimal-Nonempty n in
    value (decimal n) (decimal-Digits n) (parse_digits-decimal n) c s e
  where
    fits : (o : Option ℕ) → o ≡ some n → in_usize o ≡ some n
    fits none e = absurd (cc)
    fits (some m) e = ground arith

    value :
        (d : Bytes)
        → Digits d
        → parse_digits 0 d ≡ some n
        → (c : ℕ) (s : Bytes) → d ≡ c ∷ s
        → parse_usize d ≡ some n
    value [] g p c s e = absurd (cc)
    value (c ∷ d) g p _ _ _ =
        let other : (c == b'+') ≡ false = ground (arith, g.0) in
        rw other (fits (parse_digits 0 (c ∷ d)) p)

split_once-header_of :
    (n : ℕ)
    → split_once (header_of n) (ascii ":") ≡ some (ascii "Content-Length", ascii " " ++ decimal n)
unfolding split_once strip_prefix
split_once-header_of n = refl

is_content_length :
    eq_ignore_ascii_case (trim (ascii "Content-Length")) (ascii "content-length") ≡ true
unfolding eq_ignore_ascii_case trim trim_start trim_end text_eq
is_content_length = refl

parse_length-ok : (n : ℕ) → n ≤ max_frame_bytes → parse_length (some n) ≡ ok n
unfolding parse_length
parse_length-ok n h = ground arith

header_line-value :
    (n : ℕ)
    → n ≤ max_frame_bytes
    → header_line (some (ascii "Content-Length", ascii " " ++ decimal n)) ≡ some (ok n)
unfolding header_line
header_line-value n h =
    ap (λ b. if b then some (parse_length (parse_usize (trim (ascii " " ++ decimal n)))) else none)
      is_content_length
    ∙ ap some (
        ap (λ v. parse_length (parse_usize v)) (trim-value n)
        ∙ ap parse_length (parse_usize-decimal n (unfold max_frame_bytes in omega (arith, h)))
        ∙ parse_length-ok n h)

any-snoc :
    (d x : ℕ) (s : Bytes)
    → any (λ c. c == d) s ≡ false
    → (x == d) ≡ false
    → any (λ c. c == d) (s ++ x ∷ []) ≡ false
any-snoc d x [] h e = rw e refl
any-snoc d x (c ∷ s) h e =
    let (head_, tail_) = or_false (c == d) (any (λ y. y == d) s) h in
    rw (head_, any-snoc d x s tail_ e)

-- The header's line, as the writer sends it, up to its newline.
abbrev pub line_of : ℕ → Bytes
line_of n = header_of n ++ b'\r' ∷ []

pub line_of_plain : (n : ℕ) → any (λ c. c == b'\n') (line_of n) ≡ false
line_of_plain n =
    any-snoc b'\n' b'\r' (decimal n) (Digits-plain b'\n' (decimal n) refl (decimal-Digits n)) refl

parse_lines-line :
    (line : Bytes) (lines : List Bytes) (n : ℕ)
    → header_line (split_once line (ascii ":")) ≡ some (ok n)
    → parse_lines ((line ++ b'\r' ∷ []) ∷ lines) ≡ ok n
unfolding parse_lines
parse_lines-line line lines n h =
    ap (λ l. or_else (header_line (split_once l (ascii ":"))) (parse_lines lines))
      (strip_last-append b'\r' line)
    ∙ ap (λ o. or_else o (parse_lines lines)) h

pub parse_content_length-header_of :
    (n : ℕ) → n ≤ max_frame_bytes → parse_content_length (line_of n ++ b'\n' ∷ []) ≡ ok n
unfolding parse_content_length
parse_content_length-header_of n h =
    ap parse_lines (split_on-append b'\n' (line_of n) (line_of_plain n))
    ∙ parse_lines-line (header_of n) ([] ∷ []) n
        (ap header_line (split_once-header_of n) ∙ header_line-value n h)
