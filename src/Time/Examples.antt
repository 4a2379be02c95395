-- ===== src/Time/Examples.antt =====
-- Clock bodies at concrete inputs.
use km.Prelude.{◌≡◌, ◌≢◌, ℕ, refl, arith, take, List, [], ◌∷◌, ok, none, some, replicate}
use km.Cbor.Nest
use km.Cbor.Nest.{settled_depth}
use km.Cbor.Bytes
use km.Cbor.Heads
use km.Cbor.Reader
use km.Cbor.Utf8.{is_utf8}
use km.Cbor.Writer
use km.Body
use km.Time.Defs.{TimeAck, accepted, encode_ack, decode_ack, outcome_of, new_ack}
use km.Time.Ack.{finish_ack_ok}
use km.Time.Wire.{time_ack_round_trip}

abbrev set : TimeAck
set = record { outcome = accepted; at = some 1000 }

encode_set : encode_ack set (replicate 7 0) ≡ (0xA2 ∷ 1 ∷ 1 ∷ 2 ∷ 0x19 ∷ 3 ∷ 0xE8 ∷ [], ok 7)
unfolding encode_ack Body.write_body Writer.map Writer.key Writer.u64 Writer.finish Writer.new
    Writer.head Writer.ensure Writer.emit Writer.open_item Nest.settle Nest.at_key Nest.count_item
    Nest.has_room Nest.push Nest.take_key Nest.new_nest settled_depth
encode_set = refl

decode_set : decode_ack (0xA2 ∷ 1 ∷ 1 ∷ 2 ∷ 0x19 ∷ 3 ∷ 0xE8 ∷ []) ≡ ok set
unfolding decode_ack Body.read_body Body.read_pairs outcome_of new_ack Reader.map Reader.key
    Reader.u64 Reader.u8 Reader.skip Reader.finish Reader.head Heads.head_with Heads.skip_with
    Heads.walk Heads.walk_from Heads.settle_skipped Bytes.decode Bytes.argument Bytes.take_bytes
    Bytes.length_of Bytes.count Bytes.simple Nest.settle Nest.at_key Nest.count_item Nest.push
    Nest.read_key Nest.new_nest settled_depth is_utf8
decode_set = refl

finish_ack_ok_example :
    (some accepted ≡ some set.outcome)
    × (some 1000 ≡ set.at)
    × (set.outcome ≡ accepted → set.at ≢ none)
unfolding new_ack
finish_ack_ok_example = finish_ack_ok (some accepted) (some 1000) set refl

abbrev set_bytes : List ℕ
set_bytes = 0xA2 ∷ 1 ∷ 1 ∷ 2 ∷ 0x19 ∷ 3 ∷ 0xE8 ∷ []

time_ack_round_trip_example : decode_ack (take 7 set_bytes) ≡ ok set
time_ack_round_trip_example =
    time_ack_round_trip set (replicate 7 0) set_bytes 7 (omega arith) (omega arith) encode_set
