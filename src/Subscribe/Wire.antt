-- ===== src/Subscribe/Wire.antt =====
-- The bodies of crates/km43/src/subscribe.rs over the wire: encoded, then decoded.
use km.Prelude.{
  ℕ, ◌≤◌, ◌≡◌, refl, false, ap, arith, List, [], ◌∷◌, length, take, isize_max, ok, ◌==◌, inl, inr,
  pos,
}
use km.Cbor.Reader
use km.Cbor.Calls.{Call, call}
use km.Body
use km.Cbor.Trace.{AreCalls}
use km.Body.Wire.{write_body-Heads}
use km.Subscribe.Defs.{
  Subscribe, SubscribeAck, Replay, live_only, from, wire, replay_of, cbor, encode, decode,
  encode_ack, decode_ack, u64_max, fill, LogExtent,
}
use km.Subscribe.Answer.{IsExtent, complete-slots_of}

-- A replay that the constructors give: a position is not zero.
abbrev pub IsReplay : Replay → Type 0
IsReplay live_only = Unit {0}
IsReplay (from at) = (1 ≤ at) × (at ≤ u64_max)

abbrev calls_of : Subscribe → List Call
calls_of s = Call.key (pos 1) ∷ Call.u64 (wire s.replay) ∷ []

replay_of-wire : (r : Replay) → IsReplay r → replay_of (wire r) ≡ r
replay_of-wire live_only h = refl
replay_of-wire (from at) (low, high) =
    let some_at : at == 0 ≡ false = ground arith in rw some_at refl

wire-u64 : (r : Replay) → IsReplay r → wire r ≤ u64_max
wire-u64 live_only h = omega arith
wire-u64 (from at) (low, high) = high

-- A request whose position, if it names one, is from 1 to u64's last, encoded into a destination
-- of at most isize::MAX bytes: what its encoder writes, its decoder reads back as that request.
pub subscribe_round_trip :
    (s : Subscribe) (dst dst' : List ℕ) (n : ℕ)
    → length dst ≤ isize_max
    → IsReplay s.replay
    → encode s dst ≡ (dst', ok n)
    → decode (take n dst') ≡ ok s
unfolding encode decode Body.read_body Body.read_pairs call Reader.map Reader.key Reader.u64
subscribe_round_trip s dst dst' n small h e =
    let (r, (r1, e1, (r2, e2, (r3, e3, same))), fin) =
      write_body-Heads cbor (Call.map 1) (calls_of s) dst dst' n small
        (omega arith, (omega arith, (wire-u64 s.replay h, tt))) e in
    rw (e1, e2, e3, same, fin) (ap (λ r. ok (record { replay = r })) (replay_of-wire s.replay h))

abbrev ack_calls : SubscribeAck → List Call
ack_calls a =
    Call.key (pos 1)
    ∷ Call.u64 a.accepted_from_seq
    ∷ Call.key (pos 2)
    ∷ Call.u64 a.extent.oldest
    ∷ Call.key (pos 3)
    ∷ Call.u64 a.extent.newest
    ∷ Call.key (pos 4)
    ∷ Call.bool a.gap
    ∷ []

oldest-u64 : (log : LogExtent) → log.newest ≤ u64_max → IsExtent log → log.oldest ≤ u64_max
oldest-u64 log h (inl (o, n)) = omega arith
oldest-u64 log h (inr (o, n)) = omega arith

-- An acknowledgement of positions within u64, whose extent a log may have, encoded into a
-- destination of at most isize::MAX bytes: what its encoder writes, its decoder reads back as
-- that acknowledgement.
pub subscribe_ack_round_trip :
    (a : SubscribeAck) (dst dst' : List ℕ) (n : ℕ)
    → length dst ≤ isize_max
    → a.accepted_from_seq ≤ u64_max
    → a.extent.newest ≤ u64_max
    → IsExtent a.extent
    → encode_ack a dst ≡ (dst', ok n)
    → decode_ack (take n dst') ≡ ok a
unfolding encode_ack decode_ack fill Body.read_body Body.read_pairs call Reader.map Reader.key
    Reader.u64 Reader.bool
subscribe_ack_round_trip a dst dst' n small first newest extent e =
    let oldest = oldest-u64 a.extent newest extent in
    let fits : AreCalls (Call.map 4 ∷ ack_calls a) = (
      omega arith,
      (
        omega arith,
        (first, (omega arith, (oldest, (omega arith, (newest, (omega arith, (tt, tt))))))),
      ),
    ) in
    let (
      r,
      (_, e1, (_, e2, (_, e3, (_, e4, (_, e5, (_, e6, (_, e7, (_, e8, (_, e9, same))))))))),
      fin,
    ) =
      write_body-Heads cbor (Call.map 4) (ack_calls a) dst dst' n small fits e in
    rw (e1, e2, e3, e4, e5, e6, e7, e8, e9, same, fin) (complete-slots_of a extent)
