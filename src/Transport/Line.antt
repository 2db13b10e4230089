-- ===== src/Transport/Line.antt =====
-- src/transport/line.rs: newline-delimited framing.
use rust_yamp.Prelude.{
  ◌≡◌, refl, ap, false, Option, none, some, [], ◌∷◌, ◌++◌, append_assoc, arith, ◌==◌, any,
  length-append, Bytes, Result, ok,
}
use rust_yamp.Transport.{read_until, strip_last, Framing}
use rust_yamp.Transport.Lines.{read_until-append, strip_last-append}

-- `n == 0` is an empty buffer.
abbrev pub line_of : Bytes → Option Bytes
line_of [] = none
line_of (c ∷ line) = some (strip_last b'\n' (c ∷ line))

unfoldable pub receive : Bytes → Result (Option Bytes) × Bytes
unfolding read_until strip_last
receive s = let (buf, rest) = read_until s in (ok (line_of buf), rest)

unfoldable pub send : Bytes → Bytes
send payload = payload ++ b'\n' ∷ []

line_of-append : (p : Bytes) → line_of (p ++ b'\n' ∷ []) ≡ some p
line_of-append [] = unfold strip_last in refl
line_of-append (c ∷ p) = ap some (strip_last-append b'\n' (c ∷ p))

-- A payload without a newline that `LineWriter` has sent is the next message of `LineReader`, which
-- leaves what follows it.
pub receive-send_line :
    (p rest : Bytes)
    → any (λ c. c == b'\n') p ≡ false
    → receive (send p ++ rest) ≡ (ok (some p), rest)
unfolding receive send
receive-send_line p rest h = rw (append_assoc, read_until-append p rest h, line_of-append p)

unfoldable pub line_framing : Framing
unfolding receive send read_until
line_framing = record {
  receive = receive;
  send = send;
  Fits = λ p. any (λ c. c == b'\n') p ≡ false;
  receive-end = refl;
  receive-send = receive-send_line;
  send-nonempty = λ p. omega (arith, length-append p (b'\n' ∷ []));
}
