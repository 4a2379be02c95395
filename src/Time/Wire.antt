-- ===== src/Time/Wire.antt =====
-- The bodies of crates/km43/src/time.rs over the wire: encoded, then decoded.
use km.Prelude.{
  ℕ, ◌≤◌, ◌≡◌, refl, ap, ◌∙◌, arith, List, [], ◌∷◌, length, take, isize_max, u64_max, Option, ok,
  none, some, pos, ltb, false,
}
use km.Cbor.Reader
use km.Cbor.Calls.{Call, call, calls}
use km.Cbor.Types.{◌>>◌}
use km.Body
use km.Body.Wire.{joined, joined-calls, grouped, encoded-Heads, write_body-Heads}
use km.Time.Defs.{
  TimeOperation, TimeAck, Outcome, accepted, rejected, unauthorised, needs_button, cbor, encode,
  decode, encode_ack, write_ack, decode_ack, new_ack, outcome_number,
}
use km.Time.Ack.{outcome_of-outcome_number}

-- A clock within u64: what its encoder writes, its decoder reads back.
pub time_round_trip :
    (o : TimeOperation) (dst dst' : List ℕ) (n : ℕ)
    → length dst ≤ isize_max
    → o.at ≤ u64_max
    → encode o dst ≡ (dst', ok n)
    → decode (take n dst') ≡ ok o
unfolding encode decode Body.read_body Body.read_pairs call Reader.map Reader.key Reader.u64
time_round_trip o dst dst' n small fits e =
    let (r, (_, e1, (_, e2, (_, e3, same))), fin) =
      write_body-Heads cbor (Call.map 1) (Call.key (pos 1) ∷ Call.u64 o.at ∷ []) dst dst' n small
        (omega arith, (omega arith, (fits, tt))) e in
    rw (e1, e2, e3, same, fin) refl

-- An acknowledgement that the constructor gives: an accepted one has a clock, and clocks are u64s.
abbrev pub IsAck : Outcome → Option ℕ → Type 0
IsAck accepted none = ⊥
IsAck accepted (some t) = t ≤ u64_max
IsAck o none = Unit {0}
IsAck o (some t) = t ≤ u64_max

outcome_small : (o : Outcome) → (ltb 255 (outcome_number o) ≡ false) × (outcome_number o ≤ u64_max)
outcome_small accepted = (refl, omega arith)
outcome_small rejected = (refl, omega arith)
outcome_small unauthorised = (refl, omega arith)
outcome_small needs_button = (refl, omega arith)

new_ack-IsAck :
    (o : Outcome) (at : Option ℕ) → IsAck o at → new_ack o at ≡ ok (record { outcome = o; at = at })
unfolding new_ack
new_ack-IsAck accepted none h = absurd h
new_ack-IsAck accepted (some t) h = refl
new_ack-IsAck rejected at h = refl
new_ack-IsAck unauthorised at h = refl
new_ack-IsAck needs_button at h = refl

IsAck-clock : (o : Outcome) (t : ℕ) → IsAck o (some t) → t ≤ u64_max
IsAck-clock accepted t h = h
IsAck-clock rejected t h = h
IsAck-clock unauthorised t h = h
IsAck-clock needs_button t h = h

abbrev clock_calls : Outcome → ℕ → List Call
clock_calls o t =
    Call.key (pos 1) ∷ Call.u64 (outcome_number o) ∷ Call.key (pos 2) ∷ Call.u64 t ∷ []

clock_grouped : (o : Outcome) (t : ℕ) → calls (Call.map 2 ∷ clock_calls o t) ≡ write_ack o (some t)
unfolding call
clock_grouped o t =
    joined-calls (Call.map 2) (clock_calls o t)
    ∙ ap (λ k. call (Call.map 2) >> k)
        (grouped (call (Call.key (pos 1))) (call (Call.u64 (outcome_number o)))
          (joined (Call.key (pos 2)) (Call.u64 t ∷ [])))

acks :
    (o : Outcome) (at : Option ℕ) (dst dst' : List ℕ) (n : ℕ)
    → length dst ≤ isize_max
    → IsAck o at
    → encode_ack (record { outcome = o; at = at }) dst ≡ (dst', ok n)
    → decode_ack (take n dst') ≡ new_ack o at
unfolding encode_ack decode_ack Body.read_body Body.read_pairs call Reader.map Reader.key Reader.u64
    Reader.u8
acks o none dst dst' n small h e =
    let (byte, fits) = outcome_small o in
    let (r, (_, e1, (_, e2, (_, e3, same))), fin) =
      write_body-Heads cbor (Call.map 1) (Call.key (pos 1) ∷ Call.u64 (outcome_number o) ∷ []) dst
        dst' n small (omega arith, (omega arith, (fits, tt))) e in
    rw (e1, e2, e3, byte, outcome_of-outcome_number.0 o, same, fin) refl
acks o (some t) dst dst' n small h e =
    let (byte, fits) = outcome_small o in
    let (r, (_, e1, (_, e2, (_, e3, (_, e4, (_, e5, same))))), fin) =
      encoded-Heads cbor (write_ack o (some t)) (Call.map 2 ∷ clock_calls o t) dst dst' n
        (clock_grouped o t) small
        (omega arith, (omega arith, (fits, (omega arith, (IsAck-clock o t h, tt))))) e in
    rw (e1, e2, e3, byte, outcome_of-outcome_number.0 o, e4, e5, same, fin) refl

-- An acknowledgement with a clock if it is accepted, and clocks within u64, encoded into a
-- destination of at most isize::MAX bytes: what its encoder writes, its decoder reads back as
-- that acknowledgement.
pub time_ack_round_trip :
    (a : TimeAck) (dst dst' : List ℕ) (n : ℕ)
    → length dst ≤ isize_max
    → IsAck a.outcome a.at
    → encode_ack a dst ≡ (dst', ok n)
    → decode_ack (take n dst') ≡ ok a
time_ack_round_trip a dst dst' n small h e =
    acks a.outcome a.at dst dst' n small h e ∙ new_ack-IsAck a.outcome a.at h
