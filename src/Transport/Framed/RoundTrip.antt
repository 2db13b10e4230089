-- ===== src/Transport/Framed/RoundTrip.antt =====
-- What the reader of src/transport/framed.rs makes of a frame that its writer sent.
use rust_yamp.Prelude.{
  ℕ, zero, suc, ◌+◌, ◌≤◌, ◌<◌, ◌≡◌, refl, sym, ap, ◌∙◌, true, false, Option, some, [], ◌∷◌, ◌++◌,
  append_assoc, arith, leb, if◌then◌else◌, length, drop, length-append, Bytes, text_eq, Result, ok,
  take-append, drop-append,
}
use rust_yamp.Transport.{read_until, Framing}
use rust_yamp.Transport.Lines.{read_until-append}
use rust_yamp.Transport.Framed.{
  max_frame_bytes, parse_content_length, is_blank, read_header, read_exact, read_body, after_header,
  receive, header_of, send,
}
use rust_yamp.Transport.Framed.Header.{line_of, line_of_plain, parse_content_length-header_of}

read_header-step :
    (fuel : ℕ) (header line rest : Bytes) (c : ℕ) (s : Bytes)
    → read_until (c ∷ s) ≡ (line, rest)
    → read_header (suc fuel) header (c ∷ s)
      ≡ (if is_blank line then (some header, rest) else read_header fuel (header ++ line) rest)
unfolding read_header
read_header-step fuel header line rest c s h =
    ap
      (λ (r : Bytes × Bytes).
        if is_blank r.0 then (some header, r.1) else read_header fuel (header ++ r.0) r.1)
      h

line_of-is_blank : (n : ℕ) → is_blank (line_of n ++ b'\n' ∷ []) ≡ false
unfolding text_eq
line_of-is_blank n = refl

blank_line : (rest : Bytes) → read_until (b'\r' ∷ b'\n' ∷ rest) ≡ (b'\r' ∷ b'\n' ∷ [], rest)
unfolding read_until
blank_line rest = refl

read_header-header_of :
    (fuel n : ℕ) (rest : Bytes)
    → 1 < fuel
    → read_header fuel [] (line_of n ++ (b'\n' ∷ b'\r' ∷ b'\n' ∷ rest))
      ≡ (some (line_of n ++ b'\n' ∷ []), rest)
read_header-header_of zero n rest h = absurd (omega arith)
read_header-header_of (suc zero) n rest h = absurd (omega arith)
read_header-header_of (suc (suc fuel)) n rest h =
    let line = line_of n ++ b'\n' ∷ [] in
    read_header-step (suc fuel) [] line (b'\r' ∷ b'\n' ∷ rest) b'C'
      (drop 1 (line_of n) ++ (b'\n' ∷ b'\r' ∷ b'\n' ∷ rest))
      (read_until-append (line_of n) (b'\r' ∷ b'\n' ∷ rest) (line_of_plain n))
    ∙ ap
        (λ b.
          if b
          then (some [], b'\r' ∷ b'\n' ∷ rest)
          else read_header (suc fuel) line (b'\r' ∷ b'\n' ∷ rest))
        (line_of-is_blank n)
    ∙ read_header-step fuel line (b'\r' ∷ b'\n' ∷ []) rest b'\r' (b'\n' ∷ rest) (blank_line rest)
    ∙ (unfold text_eq in refl)

read_body-append : (p rest : Bytes) → read_body (ok (length p)) (p ++ rest) ≡ (ok (some p), rest)
unfolding read_body read_exact
read_body-append p rest =
    let fits : leb (length p) (length (p ++ rest)) ≡ true = ground (arith, length-append p rest) in
    rw (fits, take-append p rest, drop-append p rest)

send-append :
    (p rest : Bytes) → send p ++ rest ≡ line_of (length p) ++ (b'\n' ∷ b'\r' ∷ b'\n' ∷ (p ++ rest))
unfolding send
send-append p rest =
    append_assoc (header_of (length p)) (b'\r' ∷ b'\n' ∷ b'\r' ∷ b'\n' ∷ p) rest
    ∙ sym (append_assoc (header_of (length p)) (b'\r' ∷ []) (b'\n' ∷ b'\r' ∷ b'\n' ∷ (p ++ rest)))

pub send-nonempty : (p : Bytes) → 0 < length (send p)
unfolding send
send-nonempty p = omega arith

receive-frame :
    (s header rest : Bytes) (n : ℕ) (r : Result (Option Bytes) × Bytes)
    → read_header (length s + 1) [] s ≡ (some header, rest)
    → parse_content_length header ≡ ok n
    → read_body (ok n) rest ≡ r
    → receive s ≡ r
unfolding receive after_header
receive-frame s header rest n r h k b = rw (h, k) b

-- A payload of at most 64 MiB that `FramedWriter` has sent is the next message of `FramedReader`,
-- which leaves what follows the frame.
pub receive-send_frame :
    (p rest : Bytes) → length p ≤ max_frame_bytes → receive (send p ++ rest) ≡ (ok (some p), rest)
receive-send_frame p rest h =
    let n = length p in
    let stream = line_of n ++ (b'\n' ∷ b'\r' ∷ b'\n' ∷ (p ++ rest)) in
    ap receive (send-append p rest)
    ∙ receive-frame stream (line_of n ++ b'\n' ∷ []) (p ++ rest) n (ok (some p), rest)
        (read_header-header_of (length stream + 1) n (p ++ rest) (omega arith))
        (parse_content_length-header_of n h) (read_body-append p rest)

unfoldable pub framed_framing : Framing
unfolding receive read_header after_header send
framed_framing = record {
  receive = receive;
  send = send;
  Fits = λ p. length p ≤ max_frame_bytes;
  receive-end = refl;
  receive-send = receive-send_frame;
  send-nonempty = send-nonempty;
}
