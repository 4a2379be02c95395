-- ===== src/Subscribe/Examples.antt =====
-- Subscriptions at concrete inputs.
use km.Prelude.{ℕ, ◌≡◌, refl, arith, take, inr, List, [], ◌∷◌, ◌++◌, ok, some, true, replicate}
use km.Cbor.Nest
use km.Cbor.Nest.{settled_depth}
use km.Cbor.Bytes
use km.Cbor.Heads
use km.Cbor.Reader
use km.Cbor.Utf8.{is_utf8}
use km.Cbor.Writer
use km.Body
use km.Subscribe.Defs.{
  Subscribe, SubscribeAck, LogExtent, from, encode, decode, encode_ack, decode_ack, answer, holding,
  fill, complete, extent_of,
}
use km.Subscribe.Answer.{Answers, answer-Answers, slots_of, Completed, complete_ok}
use km.Subscribe.Wire.{subscribe_round_trip, subscribe_ack_round_trip}

abbrev log : LogExtent
log = record { oldest = 40; newest = 300 }

-- A client that fell off the log's ring.
abbrev asked : Subscribe
asked = record { replay = from 12 }

abbrev acknowledged : SubscribeAck
acknowledged = record { accepted_from_seq = 40; extent = log; gap = true }

abbrev acknowledged_bytes : List ℕ
acknowledged_bytes = 0xA4 ∷ 1 ∷ 0x18 ∷ 40 ∷ 2 ∷ 0x18 ∷ 40 ∷ 3 ∷ 0x19 ∷ 1 ∷ 44 ∷ 4 ∷ 0xF5 ∷ []

answer-asked : answer asked log ≡ ok acknowledged
unfolding answer
answer-asked = refl

encode_acknowledged :
    encode_ack acknowledged (replicate 14 9) ≡ (acknowledged_bytes ++ (9 ∷ []), ok 13)
unfolding encode_ack Body.write_body Writer.map Writer.key Writer.u64 Writer.bool Writer.finish
    Writer.new Writer.head Writer.ensure Writer.emit Writer.open_item Nest.settle Nest.at_key
    Nest.count_item Nest.has_room Nest.push Nest.take_key Nest.new_nest settled_depth
encode_acknowledged = refl

decode_acknowledged : decode_ack acknowledged_bytes ≡ ok acknowledged
unfolding decode_ack Body.read_body Body.read_pairs fill complete extent_of holding Reader.map
    Reader.key Reader.u64 Reader.bool Reader.skip Reader.finish Reader.head Heads.head_with
    Heads.skip_with Heads.walk Heads.walk_from Heads.settle_skipped Bytes.decode Bytes.argument
    Bytes.take_bytes Bytes.length_of Bytes.count Bytes.simple Nest.settle Nest.at_key
    Nest.count_item Nest.push Nest.read_key Nest.new_nest settled_depth is_utf8
decode_acknowledged = refl

answer-Answers_example : Answers (from 12) log (answer asked log)
answer-Answers_example = answer-Answers asked log

complete_ok_example : Completed (some 40) (some 40) (some 300) (some true) acknowledged
unfolding complete extent_of holding
complete_ok_example = complete_ok (slots_of acknowledged) acknowledged refl

subscribe_ack_round_trip_example :
    decode_ack (take 13 (acknowledged_bytes ++ (9 ∷ []))) ≡ ok acknowledged
subscribe_ack_round_trip_example =
    subscribe_ack_round_trip acknowledged (replicate 14 9) (acknowledged_bytes ++ (9 ∷ [])) 13
      (omega arith) (omega arith) (omega arith) (inr (omega arith, omega arith)) encode_acknowledged

abbrev asked_bytes : List ℕ
asked_bytes = 0xA1 ∷ 1 ∷ 12 ∷ []

encode-asked : encode asked (replicate 3 0) ≡ (asked_bytes, ok 3)
unfolding encode Body.write_body Writer.map Writer.key Writer.u64 Writer.bool Writer.finish
    Writer.new Writer.head Writer.ensure Writer.emit Writer.open_item Nest.settle Nest.at_key
    Nest.count_item Nest.has_room Nest.push Nest.take_key Nest.new_nest settled_depth
encode-asked = refl

subscribe_round_trip_example : decode (take 3 asked_bytes) ≡ ok asked
subscribe_round_trip_example =
    subscribe_round_trip asked (replicate 3 0) asked_bytes 3 (omega arith)
      (omega arith, omega arith) encode-asked
