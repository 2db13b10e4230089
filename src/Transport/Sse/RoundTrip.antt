-- ===== src/Transport/Sse/RoundTrip.antt =====
-- What the reader of src/transport/sse.rs makes of an event that its writer sent.
use rust_yamp.Prelude.{
  ℕ, zero, suc, ◌+◌, ◌<◌, ◌≡◌, refl, ap, ◌∙◌, inl, inr, true, false, Option, some, List, [], ◌∷◌,
  ◌++◌, map, append-nil, append_assoc, arith, ◌==◌, Bool-cases, length, any, length-append, All,
  Bytes, ascii, starts_with, ok,
}
use rust_yamp.Transport.{read_until, split_on, cons_head, strip_last, Framing}
use rust_yamp.Transport.Lines.{
  read_until-append, strip_last-append, strip_last-absent, cons_head-All, or_false, split_on-All,
}
use rust_yamp.Transport.Sse.{
  strip_line, field_value, join, event_of, data_of, after_line, receive_loop, receive, send_lines,
  send,
}

abbrev Plain : Bytes → Type 0
Plain p = any (λ c. c == b'\n') p ≡ false

-- The parts of a message lose a carriage return at their ends.
abbrev pub strip_returns : List Bytes → List Bytes
strip_returns parts = map (strip_last b'\r') parts

cons_head-join : (c : ℕ) (parts : List Bytes) → join (cons_head c parts) ≡ c ∷ join parts
unfolding join
cons_head-join c [] = refl
cons_head-join c (part ∷ []) = refl
cons_head-join c (part ∷ next ∷ parts) = refl

split_on-cons : (d : ℕ) (s : Bytes) → (p : Bytes) × (ps : List Bytes) × (split_on d s ≡ p ∷ ps)
unfolding split_on
split_on-cons d [] = ([], [], refl)
split_on-cons d (c ∷ s) = elim (Bool-cases (c == d)) [
  | inl e ↦ ([], split_on d s, rw e refl)
  | inr e ↦ let (p, ps, h) = split_on-cons d s in (c ∷ p, ps, rw (e, h) refl)
]

break-join :
    (c : ℕ) (p : Bytes) (ps : List Bytes) (s : Bytes)
    → (c == b'\n') ≡ true
    → join (p ∷ ps) ≡ s
    → join ([] ∷ p ∷ ps) ≡ c ∷ s
unfolding join
break-join c p ps s e h = ground arith

pub join-split_on : (s : Bytes) → join (split_on b'\n' s) ≡ s
unfolding split_on
join-split_on [] = unfold join in refl
join-split_on (c ∷ s) = elim (Bool-cases (c == b'\n')) [
  | inl e ↦
      let (p, ps, h) = split_on-cons b'\n' s in
      rw (e, h) (break-join c p ps s e (rw (← h) (join-split_on s)))
  | inr e ↦ rw e (cons_head-join c (split_on b'\n' s) ∙ ap (λ l. c ∷ l) (join-split_on s))
]

-- `data: ` and a part that the writer put on one line.
abbrev data_line : Bytes → Bytes
data_line p = ascii "data: " ++ p

strip_last-cons :
    (c x : ℕ) (p : Bytes) → (x == c) ≡ false → strip_last c (x ∷ p) ≡ x ∷ strip_last c p
unfolding strip_last
strip_last-cons c x [] h = rw h refl
strip_last-cons c x (y ∷ p) h = refl

strip_line-data_line :
    (p : Bytes) → strip_line (data_line p ++ b'\n' ∷ []) ≡ data_line (strip_last b'\r' p)
unfolding strip_line
strip_line-data_line p =
    ap (strip_last b'\r') (strip_last-append b'\n' (data_line p))
    ∙ (strip_last-cons b'\r' 100 (ascii "ata: " ++ p) refl
        ∙ ap (λ l. 100 ∷ l) (strip_last-cons b'\r' 97 (ascii "ta: " ++ p) refl)
        ∙ ap (λ l. 100 ∷ 97 ∷ l) (strip_last-cons b'\r' 116 (ascii "a: " ++ p) refl)
        ∙ ap (λ l. 100 ∷ 97 ∷ 116 ∷ l) (strip_last-cons b'\r' 97 (ascii ": " ++ p) refl)
        ∙ ap (λ l. 100 ∷ 97 ∷ 116 ∷ 97 ∷ l) (strip_last-cons b'\r' 58 (ascii " " ++ p) refl)
        ∙ ap (λ l. 100 ∷ 97 ∷ 116 ∷ 97 ∷ 58 ∷ l) (strip_last-cons b'\r' 32 p refl))

data_of-data_line : (parts : List Bytes) (p : Bytes) → data_of parts (data_line p) ≡ parts ++ p ∷ []
unfolding field_value starts_with
data_of-data_line parts p = refl

receive_loop-step :
    (fuel : ℕ) (parts : List Bytes) (c : ℕ) (s raw rest : Bytes) (x : ℕ) (line : Bytes)
    → read_until (c ∷ s) ≡ (raw, rest)
    → strip_line raw ≡ x ∷ line
    → receive_loop (suc fuel) parts (c ∷ s) ≡ receive_loop fuel (data_of parts (x ∷ line)) rest
unfolding receive_loop
receive_loop-step fuel parts c s raw rest x line h k =
    ap
      (λ (r : Bytes × Bytes).
        after_line parts (strip_line r.0) r.1
          (receive_loop fuel (data_of parts (strip_line r.0)) r.1))
      h
    ∙ ap (λ l. after_line parts l rest (receive_loop fuel (data_of parts l) rest)) k

receive_loop-data :
    (fuel : ℕ) (parts : List Bytes) (p rest : Bytes)
    → Plain p
    → receive_loop (suc fuel) parts (data_line p ++ b'\n' ∷ rest)
      ≡ receive_loop fuel (parts ++ strip_last b'\r' p ∷ []) rest
receive_loop-data fuel parts p rest h =
    receive_loop-step fuel parts 100 (ascii "ata: " ++ (p ++ b'\n' ∷ rest))
      (data_line p ++ b'\n' ∷ []) rest 100 (ascii "ata: " ++ strip_last b'\r' p)
      (read_until-append (data_line p) rest h) (strip_line-data_line p)
    ∙ ap (λ d. receive_loop fuel d rest) (data_of-data_line parts (strip_last b'\r' p))

receive_loop-blank :
    (fuel : ℕ) (parts : List Bytes) (message rest : Bytes)
    → event_of parts ≡ some message
    → receive_loop (suc fuel) parts (b'\n' ∷ rest) ≡ (some message, rest)
unfolding receive_loop read_until strip_line strip_last
receive_loop-blank fuel parts message rest e = rw e refl

receive_loop-send_lines :
    (ps parts : List Bytes) (fuel : ℕ) (message rest : Bytes)
    → length ps < fuel
    → All Plain ps
    → event_of (parts ++ strip_returns ps) ≡ some message
    → receive_loop fuel parts (send_lines ps ++ rest) ≡ (some message, rest)
unfolding send_lines
receive_loop-send_lines [] parts zero message rest l h e = absurd (omega arith)
receive_loop-send_lines [] parts (suc fuel) message rest l h e =
    receive_loop-blank fuel parts message rest (rw append-nil at e)
receive_loop-send_lines (p ∷ ps) parts zero message rest l h e = absurd (omega arith)
receive_loop-send_lines (p ∷ ps) parts (suc fuel) message rest l h e =
    rw (append_assoc p (b'\n' ∷ send_lines ps) rest) (
      receive_loop-data fuel parts p (send_lines ps ++ rest) h.0
      ∙ receive_loop-send_lines ps (parts ++ strip_last b'\r' p ∷ []) fuel message rest
          (omega arith) h.1
          (rw (append_assoc parts (strip_last b'\r' p ∷ []) (strip_returns ps)) e))

send_lines-length : (ps : List Bytes) → length ps < length (send_lines ps)
unfolding send_lines
send_lines-length [] = omega arith
send_lines-length (p ∷ ps) =
    omega (arith, length-append p (b'\n' ∷ send_lines ps), send_lines-length ps)

event-split_on :
    (s : Bytes) (f : Bytes → Bytes)
    → event_of (map f (split_on b'\n' s)) ≡ some (join (map f (split_on b'\n' s)))
event-split_on s f = let (p, ps, h) = split_on-cons b'\n' s in rw h refl

-- Whatever the payload, the reader gives back its lines without a carriage return at their ends,
-- joined by newlines, and leaves what follows the event.
pub receive-send_lines :
    (p rest : Bytes)
    → receive (send p ++ rest) ≡ (ok (some (join (strip_returns (split_on b'\n' p)))), rest)
unfolding receive send
receive-send_lines p rest =
    let ps = split_on b'\n' p in
    ap (λ (r : Option Bytes × Bytes). (ok r.0, r.1))
      (receive_loop-send_lines ps [] (length (send_lines ps ++ rest) + 1) (join (strip_returns ps))
        rest (omega (arith, send_lines-length ps, length-append (send_lines ps) rest))
        (split_on-All b'\n' p) (event-split_on p (strip_last b'\r')))

any-split_on :
    (d c : ℕ) (s : Bytes)
    → any (λ x. x == c) s ≡ false
    → All (λ p. any (λ x. x == c) p ≡ false) (split_on d s)
unfolding split_on
any-split_on d c [] h = (refl, tt)
any-split_on d c (x ∷ s) h =
    let (head_, tail_) = or_false (x == c) (any (λ y. y == c) s) h in
    elim (Bool-cases (x == d)) [
      | inl e ↦ rw e (refl, any-split_on d c s tail_)
      | inr e ↦ rw e (cons_head-All x c (split_on d s) head_ (any-split_on d c s tail_))
    ]

strip_returns-absent :
    (ps : List Bytes) → All (λ p. any (λ x. x == b'\r') p ≡ false) ps → strip_returns ps ≡ ps
strip_returns-absent [] h = refl
strip_returns-absent (p ∷ ps) h = cc (strip_last-absent b'\r' p h.0, strip_returns-absent ps h.1)

-- A payload without a carriage return comes back whole.
pub receive-send_event :
    (p rest : Bytes)
    → any (λ c. c == b'\r') p ≡ false
    → receive (send p ++ rest) ≡ (ok (some p), rest)
receive-send_event p rest h =
    receive-send_lines p rest
    ∙ ap (λ m. (ok (some m), rest))
        (ap join (strip_returns-absent (split_on b'\n' p) (any-split_on b'\n' b'\r' p h))
          ∙ join-split_on p)

pub send-nonempty : (p : Bytes) → 0 < length (send p)
unfolding send
send-nonempty p = omega (arith, send_lines-length (split_on b'\n' p))

unfoldable pub sse_framing : Framing
unfolding receive receive_loop send
sse_framing = record {
  receive = receive;
  send = send;
  Fits = λ p. any (λ c. c == b'\r') p ≡ false;
  receive-end = refl;
  receive-send = receive-send_event;
  send-nonempty = send-nonempty;
}
