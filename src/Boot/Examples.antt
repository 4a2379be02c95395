-- ===== src/Boot/Examples.antt =====
-- Boot bodies at concrete inputs.
use km.Prelude.{ℕ, ◌≡◌, refl, arith, take, List, [], ◌∷◌, ok, true, false, replicate}
use km.Cbor.Nest
use km.Cbor.Nest.{settled_depth}
use km.Cbor.Bytes
use km.Cbor.Heads
use km.Cbor.Reader
use km.Cbor.Utf8.{is_utf8}
use km.Cbor.Writer
use km.Body
use km.Boot.Defs.{Boot, BootCause, encode, reason_of}
use km.Boot.Decode.{decode, complete, cause_of}
use km.Boot.Words.{boot_slots, Fills, complete-Fills}
use km.Boot.Wire.{boot_round_trip}

-- A panic at line 70 of the file whose hash is 9.
abbrev crashed : Boot
crashed = record {
  cause = BootCause.panic (record { file = 9; line = 70 });
  backup_valid = true;
  rtc_crystal = false;
  rail_cycled = true;
}

abbrev crashed_bytes : List ℕ
crashed_bytes = 0xA6 ∷ 1 ∷ 5 ∷ 2 ∷ 0xF5 ∷ 3 ∷ 0xF4 ∷ 4 ∷ 0xF5 ∷ 7 ∷ 9 ∷ 8 ∷ 0x18 ∷ 70 ∷ []

encode-crashed : encode crashed (replicate 14 0) ≡ (crashed_bytes, ok 14)
unfolding encode Body.write_body Writer.map Writer.key Writer.u64 Writer.bool Writer.finish
    Writer.new Writer.head Writer.ensure Writer.emit Writer.open_item Nest.settle Nest.at_key
    Nest.count_item Nest.has_room Nest.push Nest.take_key Nest.new_nest settled_depth
encode-crashed = refl

decode-crashed : decode crashed_bytes ≡ ok crashed
unfolding decode Body.read_body Body.read_pairs complete cause_of reason_of Reader.map Reader.key
    Reader.u64 Reader.u8 Reader.u32 Reader.bool Reader.skip Reader.finish Reader.head
    Heads.head_with Heads.skip_with Heads.walk Heads.walk_from Heads.settle_skipped Bytes.decode
    Bytes.argument Bytes.take_bytes Bytes.length_of Bytes.count Bytes.simple Nest.settle Nest.at_key
    Nest.count_item Nest.push Nest.read_key Nest.new_nest settled_depth is_utf8
decode-crashed = refl

complete-Fills_example : Fills crashed (boot_slots crashed)
unfolding complete cause_of
complete-Fills_example = complete-Fills (boot_slots crashed) crashed refl

boot_round_trip_example : decode (take 14 crashed_bytes) ≡ ok crashed
boot_round_trip_example =
    boot_round_trip crashed (replicate 14 0) crashed_bytes 14 (omega arith)
      (omega arith, omega arith) encode-crashed
