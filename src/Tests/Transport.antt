-- ===== src/Tests/Transport.antt =====
-- The framings of src/transport on concrete messages, and a relay between two of them.
use rust_yamp.Prelude.{◌≡◌, refl, some, [], ◌∷◌, ◌++◌, arith, ascii, ok}
use rust_yamp.Transport.{Framing, split_on, strip_last, trim, trim_start, trim_end}
use rust_yamp.Transport
use rust_yamp.Transport.Line.{line_framing}
use rust_yamp.Transport.Sse.RoundTrip.{sse_framing, receive-send_lines}
use rust_yamp.Transport.Sse
use rust_yamp.Transport.Framed.{
  max_frame_bytes, parse_content_length, parse_lines, header_line, eq_ignore_ascii_case,
  parse_usize, parse_length,
}
use rust_yamp.Transport.Framed
use rust_yamp.Transport.Framed.RoundTrip.{receive-send_frame}
use rust_yamp.Relay.{closed, pump, sent, pump-sent}

receive-send_frame_example :
    Transport.Framed.receive (Transport.Framed.send (ascii "{}") ++ ascii "next")
    ≡ (ok (some (ascii "{}")), ascii "next")
receive-send_frame_example =
    receive-send_frame (ascii "{}") (ascii "next") (unfold max_frame_bytes in omega arith)

-- A carriage return before a newline is lost.
receive-send_lines_example :
    Transport.Sse.receive (Transport.Sse.send (97 ∷ 13 ∷ 10 ∷ 98 ∷ []) ++ [])
    ≡ (ok (some (97 ∷ 10 ∷ 98 ∷ [])), [])
unfolding split_on strip_last Transport.Sse.join
receive-send_lines_example = receive-send_lines (97 ∷ 13 ∷ 10 ∷ 98 ∷ []) []

pump-sent_example :
    pump line_framing sse_framing (sent line_framing (ascii "{}" ∷ ascii "[]" ∷ []))
    ≡ record { written = sent sse_framing (ascii "{}" ∷ ascii "[]" ∷ []); ending = closed }
unfolding line_framing
pump-sent_example =
    pump-sent line_framing sse_framing (ascii "{}" ∷ ascii "[]" ∷ []) (refl, (refl, tt))
