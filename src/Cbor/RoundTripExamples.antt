-- ===== src/Cbor/RoundTripExamples.antt =====
-- Tests and witnesses of the round trip and of the stack view of crates/km43/src/cbor.rs.
use km.Prelude.{ℕ, ◌≡◌, refl, arith, List, [], ◌∷◌, true, take, replicate, pos, negsuc, ok}
use km.Cbor.Types.{Nesting}
use km.Cbor.Nest
use km.Cbor.Nest.{settled_depth}
use km.Cbor.Bytes
use km.Cbor.Utf8.{is_utf8}
use km.Cbor.Writer
use km.Cbor.Writer.{CborWriter}
use km.Cbor.Calls.{Call, call, calls}
use km.Cbor.View.{view}
use km.Cbor.RoundTrip.{calls-read_all, finished_after, read_all}
use km.Cbor.Trace.{AreCalls}
use km.Cbor.Refines.{Op, slots_answer, stack_answers, slots_answer-refines}

-- { 1: -5, 2: [true, "hi"], 7: h'0102' }
abbrev sample : List Call
sample =
    Call.map 3
    ∷ Call.key (pos 1)
    ∷ Call.i32 (negsuc 4)
    ∷ Call.key (pos 2)
    ∷ Call.array 2
    ∷ Call.bool true
    ∷ Call.text (104 ∷ 105 ∷ [])
    ∷ Call.key (pos 7)
    ∷ Call.bytes (1 ∷ 2 ∷ [])
    ∷ []

abbrev room : List ℕ
room = replicate 14 0

abbrev written : CborWriter
written = (calls sample (Writer.new room)).0

sample_written : calls sample (Writer.new room) ≡ (written, ok tt)
unfolding calls call Writer.new Writer.array Writer.map Writer.key Writer.i32 Writer.bool
    Writer.text Writer.bytes Writer.open_item Writer.head Writer.emit Writer.ensure Nest.settle
    Nest.at_key Nest.count_item Nest.push Nest.take_key Nest.has_room Nest.new_nest settled_depth
sample_written = refl

sample_finished : Writer.finish written ≡ (written.dst, ok 13)
unfolding calls call Writer.new Writer.array Writer.map Writer.key Writer.i32 Writer.bool
    Writer.text Writer.bytes Writer.open_item Writer.head Writer.emit Writer.ensure Nest.settle
    Nest.at_key Nest.count_item Nest.push Nest.take_key Nest.has_room Nest.new_nest settled_depth
    Writer.finish
sample_finished = refl

sample-AreCalls : AreCalls sample
unfolding is_utf8
sample-AreCalls = (
  omega arith,
  (
    omega arith,
    (omega arith, (omega arith, (omega arith, (tt, (refl, (omega arith, (omega arith, tt))))))),
  ),
)

calls-read_all_example :
    finished_after (read_all sample (Bytes.new (take 13 written.dst))) ≡ ok sample
calls-read_all_example =
    calls-read_all sample room written.dst written 13 (omega arith) sample-AreCalls sample_written
      sample_finished

-- A map of two pairs: a key, its value, a key that does not ascend, and one that does.
abbrev ops : List Op
ops =
    Op.at_key
    ∷ Op.has_room
    ∷ Op.push Nesting.map 4 0
    ∷ Op.at_key
    ∷ Op.take_key 5
    ∷ Op.count_item
    ∷ Op.count_item
    ∷ Op.take_key 5
    ∷ Op.take_key 6
    ∷ Op.count_item
    ∷ Op.count_item
    ∷ Op.settle
    ∷ Op.at_key
    ∷ []

slots_answer-refines_example :
    slots_answer ops Nest.new_nest ≡ stack_answers ops (view Nest.new_nest)
unfolding Nest.new_nest
slots_answer-refines_example = slots_answer-refines ops Nest.new_nest (refl, omega arith)
