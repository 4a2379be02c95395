-- ===== src/Cbor/Examples.antt =====
-- Runs of the CBOR writer and reader, and the theorems on them at concrete inputs.
use km.Prelude.{
  ℕ, ◌++◌, ◌+◌, ◌%◌, ◌≡◌, refl, arith, List, [], ◌∷◌, ok, err, ℤ, pos, negsuc, replicate, true,
  Result,
}
use km.Cbor.Types.{info_of, width_of, width_bytes, CborError, Act, ◌>>=◌, ◌>>◌, pure, repeated_key}
use km.Cbor.Nest
use km.Cbor.Nest.{settled_depth}
use km.Cbor.Bytes
use km.Cbor.Heads
use km.Cbor.Reader
use km.Cbor.Utf8.{is_utf8}
use km.Cbor.Writer
use km.Cbor.Writer.{CborWriter, tail_bytes}
use km.Cbor.Argument.{At, argument-At}
use km.Cbor.Bounds.{Kept}
use km.Cbor.Calls.{Call}
use km.Cbor.Methods.{Method, methods, methods-Keeps}
use km.Cbor.Bytes.{CborReader}

-- { 1: 500, 2: [true, -3], 9: "k" }
abbrev sample : Act CborWriter (Unit {0})
sample = do
  Writer.map 3
  Writer.key (pos 1)
  Writer.u64 500
  Writer.key (pos 2)
  Writer.array 2
  Writer.bool true
  Writer.i32 (negsuc 2)
  Writer.key (pos 9)
  Writer.text (0x6B ∷ [])

abbrev sample_bytes : List ℕ
sample_bytes = 0xA3 ∷ 1 ∷ 0x19 ∷ 1 ∷ 0xF4 ∷ 2 ∷ 0x82 ∷ 0xF5 ∷ 0x22 ∷ 9 ∷ 0x61 ∷ 0x6B ∷ []

abbrev written : CborWriter × Result CborError (Unit {0}) → List ℕ × Result CborError ℕ
written (w, ok _) = Writer.finish w
written (w, err why) = (w.dst, err why)

sample_writes : written (sample (Writer.new (replicate 12 7))) ≡ (sample_bytes, ok 12)
unfolding Writer.map Writer.key Writer.u64 Writer.array Writer.bool Writer.i32 Writer.text
    Writer.finish Writer.new Writer.head Writer.ensure Writer.emit Writer.open_item Nest.settle
    Nest.at_key Nest.count_item Nest.has_room Nest.push Nest.take_key Nest.new_nest settled_depth
sample_writes = refl

-- The same body read back, its second value skipped.
abbrev read_sample : Act CborReader (ℕ × ℤ × ℕ × List ℕ)
read_sample = do
  pairs ← Reader.map
  one ← Reader.key
  value ← Reader.u64
  two ← Reader.key
  Reader.skip
  nine ← Reader.key
  k ← Reader.text
  pure (pairs, nine, value, k)

sample_reads : (read_sample (Bytes.new sample_bytes)).1 ≡ ok (3, pos 9, 500, 0x6B ∷ [])
unfolding Reader.map Reader.key Reader.u64 Reader.skip Reader.text Reader.head Heads.head_with
    Heads.skip_with Heads.walk Heads.walk_from Heads.settle_skipped Bytes.decode Bytes.argument
    Bytes.take_bytes Bytes.length_of Bytes.count Bytes.simple Nest.settle Nest.at_key
    Nest.count_item Nest.push Nest.read_key Nest.new_nest settled_depth is_utf8
sample_reads = refl

-- { 1: 0, 1: 0 } with both values skipped: the repeat is found when the reader goes on.
abbrev skip_twice : Act CborReader (Unit {0})
skip_twice = do pairs ← Reader.map; one ← Reader.key; Reader.skip; again ← Reader.key; Reader.skip

repeat_found :
    (Heads.settle_skipped Heads.search_key (skip_twice (Bytes.new (0xA2 ∷ 1 ∷ 0 ∷ 1 ∷ 0 ∷ []))).0).1
    ≡ err repeated_key
unfolding Reader.map Reader.key Reader.skip Reader.head Heads.head_with Heads.search_key
    Heads.search_from Heads.skip_with Heads.walk Heads.walk_from Heads.settle_skipped Bytes.decode
    Bytes.argument Bytes.take_bytes Bytes.length_of Bytes.count Bytes.simple Nest.settle Nest.at_key
    Nest.count_item Nest.push Nest.read_key Nest.new_nest settled_depth is_utf8
repeat_found = refl

-- An item encoded already, bytes to fill, and a destination with no room for what follows.
abbrev three_methods : List Method
three_methods =
    Method.of_call (Call.array 3)
    ∷ Method.raw (0x82 ∷ 1 ∷ 2 ∷ [])
    ∷ Method.bytes_to_fill 2
    ∷ Method.of_call (Call.u64 500)
    ∷ []

methods-Keeps_example :
    Kept (Writer.new (replicate 8 7)) (methods three_methods (Writer.new (replicate 8 7))).0
unfolding Writer.new
methods-Keeps_example = methods-Keeps three_methods (Writer.new (replicate 8 7)) (omega arith)

-- The argument 500 behind a head byte, and one byte that follows it.
five_hundred :
    At
      (record (Bytes.new (0x19 ∷ 1 ∷ 0xF4 ∷ 7 ∷ [])) { next = 1 })
      (0x19 ∷ [])
      (tail_bytes 500 ++ (7 ∷ []))
five_hundred = record { source = refl; next = refl; small = omega arith }

argument-At_example :
    Bytes.argument
      (info_of (width_of 500) (500 % 256))
      (record (Bytes.new (0x19 ∷ 1 ∷ 0xF4 ∷ 7 ∷ [])) { next = 1 })
    ≡ (
      record (Bytes.new (0x19 ∷ 1 ∷ 0xF4 ∷ 7 ∷ [])) { next = 1 + width_bytes (width_of 500) },
      ok 500,
    )
argument-At_example =
    argument-At 500 (record (Bytes.new (0x19 ∷ 1 ∷ 0xF4 ∷ 7 ∷ [])) { next = 1 }) (0x19 ∷ [])
      (7 ∷ []) (omega arith) five_hundred
