-- ===== src/Relay.antt =====
-- `pump` of src/relay.rs, for any framing of its source and its destination.
use rust_yamp.Prelude.{
  ℕ, zero, suc, ◌+◌, ◌≤◌, ◌<◌, ◌≡◌, Option, none, some, List, [], ◌∷◌, ◌++◌, append-nil,
  append_assoc, arith, length, length-append, All, Bytes, Text, Result, ok, err,
}
use rust_yamp.Transport.{Framing}

-- How a pump ends: at the end of its source, with the destination closed, or with an error of the
-- source. `running` is a pump that has passes left to make.
pub data Ending : Type 0 where
  running closed : Ending
  failed : Text → Ending

pub record Pumped : Type 0 where
  pub written : Bytes
  pub ending : Ending

-- The `match` on what the source gave.
abbrev pub on_message : Result (Option Bytes) → Bytes → (Bytes → Pumped) → Pumped
on_message (err e) out next = record { written = out; ending = failed e }
on_message (ok none) out next = record { written = out; ending = closed }
on_message (ok (some message)) out next = next message

-- What the writers put on the wire for a list of messages.
abbrev pub sent : Framing → List Bytes → Bytes
sent framing [] = []
sent framing (m ∷ ms) = framing.send m ++ sent framing ms

sent-length : (framing : Framing) (ms : List Bytes) → length ms ≤ length (sent framing ms)
sent-length framing [] = omega arith
sent-length framing (m ∷ ms) = omega (
  arith,
  length-append (framing.send m) (sent framing ms),
  framing.send-nonempty m,
  sent-length framing ms,
)

module _ (src dst : Framing) where
  -- Each pass takes a message from the stream, so the stream's length is fuel enough.
  unfoldable pub pump_loop : ℕ → Bytes → Bytes → Pumped
  pump_loop zero s out = record { written = out; ending = running }
  pump_loop (suc fuel) s out =
      let (message, rest) = src.receive s in
      on_message message out λ m. pump_loop fuel rest (out ++ dst.send m)

  unfoldable pub pump : Bytes → Pumped
  unfolding pump_loop
  pump s = pump_loop (length s + 1) s []

  pump_loop-sent :
      (ms : List Bytes) (fuel : ℕ) (out : Bytes)
      → length ms < fuel
      → All src.Fits ms
      → pump_loop fuel (sent src ms) out ≡ record { written = out ++ sent dst ms; ending = closed }
  unfolding pump_loop
  pump_loop-sent ms zero out l h = absurd (omega arith)
  pump_loop-sent [] (suc fuel) out l h = rw (src.receive-end, append-nil)
  pump_loop-sent (m ∷ ms) (suc fuel) out l h =
      rw (src.receive-send m (sent src ms) h.0, ← append_assoc out (dst.send m) (sent dst ms))
        (pump_loop-sent ms fuel (out ++ dst.send m) (omega arith) h.1)

  -- A pump between any two framings writes each message that its source carries whole, in order and
  -- unchanged, and closes the destination at the source's end.
  pub pump-sent :
      (ms : List Bytes)
      → All src.Fits ms
      → pump (sent src ms) ≡ record { written = sent dst ms; ending = closed }
  unfolding pump
  pump-sent ms h =
      pump_loop-sent ms (length (sent src ms) + 1) [] (omega (arith, sent-length src ms)) h
