-- ===== src/Boot/Pairs.antt =====
-- The calls that encode a boot body of crates/km43/src/boot.rs, and the decoder over their heads.
use km.Prelude.{ℕ, ◌≤◌, ◌≡◌, refl, arith, List, [], ◌∷◌, u64_max, ok, some, pos, ltb, false}
use km.Cbor.Reader
use km.Cbor.Bytes
use km.Cbor.Bytes.{CborReader}
use km.Cbor.Calls.{Call}
use km.Cbor.Trace.{Heads}
use km.Body
use km.Boot.Defs.{Boot, BootReason, reason, reason_number, reason_of}
use km.Boot.Decode.{decode, complete, no_slots}

pub reason_small :
    (r : BootReason) → (ltb 255 (reason_number r) ≡ false) × (reason_number r ≤ u64_max)
reason_small BootReason.power = (refl, omega arith)
reason_small BootReason.watchdog = (refl, omega arith)
reason_small BootReason.software_reset = (refl, omega arith)
reason_small BootReason.panic = (refl, omega arith)
reason_small BootReason.pin_reset = (refl, omega arith)
reason_small BootReason.option_byte_reload = (refl, omega arith)
reason_small BootReason.window_watchdog = (refl, omega arith)
reason_small BootReason.low_power_entry = (refl, omega arith)

reason_of-reason_number : (r : BootReason) → reason_of (reason_number r) ≡ ok r
unfolding reason_of
reason_of-reason_number BootReason.power = refl
reason_of-reason_number BootReason.watchdog = refl
reason_of-reason_number BootReason.software_reset = refl
reason_of-reason_number BootReason.panic = refl
reason_of-reason_number BootReason.pin_reset = refl
reason_of-reason_number BootReason.option_byte_reload = refl
reason_of-reason_number BootReason.window_watchdog = refl
reason_of-reason_number BootReason.low_power_entry = refl

-- The calls of an encoder, with the calls for the last words behind.
abbrev pub pair_calls : Boot → List Call → List Call
pair_calls b words =
    Call.key (pos 1)
    ∷ Call.u64 (reason_number (reason b.cause))
    ∷ Call.key (pos 2)
    ∷ Call.bool b.backup_valid
    ∷ Call.key (pos 3)
    ∷ Call.bool b.rtc_crystal
    ∷ Call.key (pos 4)
    ∷ Call.bool b.rail_cycled
    ∷ words

abbrev pub boot_calls : ℕ → Boot → List Call → List Call
boot_calls pairs b words = Call.map pairs ∷ pair_calls b words

-- Without last words.
pub plain_decoded :
    (b : Boot) (payload : List ℕ) (r : CborReader)
    → Heads (Bytes.new payload) (boot_calls 4 b []) r
    → Reader.finish r ≡ ok tt
    → decode payload
      ≡ complete (record no_slots {
        reason = some (reason b.cause);
        backup_valid = some b.backup_valid;
        rtc_crystal = some b.rtc_crystal;
        rail_cycled = some b.rail_cycled;
      })
unfolding decode Body.read_body Body.read_pairs Reader.map Reader.key Reader.u8 Reader.u64
    Reader.bool
plain_decoded b payload r
      (_, e1, (_, e2, (_, e3, (_, e4, (_, e5, (_, e6, (_, e7, (_, e8, (_, e9, same))))))))) fin =
    rw
      (
        e1,
        e2,
        e3,
        (reason_small (reason b.cause)).0,
        reason_of-reason_number (reason b.cause),
        e4,
        e5,
        e6,
        e7,
        e8,
        e9,
        same,
        fin,
      )
      refl

-- With the last words of the watchdog, and of a panic.
pub starved_decoded :
    (b : Boot) (task overdue_ms : ℕ) (payload : List ℕ) (r : CborReader)
    → task ≤ 255
    → overdue_ms ≤ 4294967295
    → Heads
        (Bytes.new payload)
        (boot_calls 6 b
          (Call.key (pos 5) ∷ Call.u64 task ∷ Call.key (pos 6) ∷ Call.u64 overdue_ms ∷ []))
        r
    → Reader.finish r ≡ ok tt
    → decode payload
      ≡ complete (record no_slots {
        reason = some (reason b.cause);
        backup_valid = some b.backup_valid;
        rtc_crystal = some b.rtc_crystal;
        rail_cycled = some b.rail_cycled;
        task = some task;
        overdue_ms = some overdue_ms;
      })
unfolding decode Body.read_body Body.read_pairs Reader.map Reader.key Reader.u8 Reader.u32
    Reader.u64 Reader.bool
starved_decoded b task overdue_ms payload r byte word
      (
        _,
        e1,
        (
          _,
          e2,
          (
            _,
            e3,
            (
              _,
              e4,
              (
                _,
                e5,
                (_, e6, (_, e7, (_, e8, (_, e9, (_, e10, (_, e11, (_, e12, (_, e13, same)))))))),
              ),
            ),
          ),
        ),
      )
      fin =
    let small : ltb 255 task ≡ false = ground arith in
    let short : ltb 4294967295 overdue_ms ≡ false = ground arith in
    rw
      (
        e1,
        e2,
        e3,
        (reason_small (reason b.cause)).0,
        reason_of-reason_number (reason b.cause),
        e4,
        e5,
        e6,
        e7,
        e8,
        e9,
        e10,
        e11,
        small,
        e12,
        e13,
        short,
        same,
        fin,
      )
      refl

pub site_decoded :
    (b : Boot) (file line : ℕ) (payload : List ℕ) (r : CborReader)
    → file ≤ 4294967295
    → line ≤ 4294967295
    → Heads
        (Bytes.new payload)
        (boot_calls 6 b (Call.key (pos 7) ∷ Call.u64 file ∷ Call.key (pos 8) ∷ Call.u64 line ∷ []))
        r
    → Reader.finish r ≡ ok tt
    → decode payload
      ≡ complete (record no_slots {
        reason = some (reason b.cause);
        backup_valid = some b.backup_valid;
        rtc_crystal = some b.rtc_crystal;
        rail_cycled = some b.rail_cycled;
        file = some file;
        line = some line;
      })
unfolding decode Body.read_body Body.read_pairs Reader.map Reader.key Reader.u8 Reader.u32
    Reader.u64 Reader.bool
site_decoded b file line payload r word word'
      (
        _,
        e1,
        (
          _,
          e2,
          (
            _,
            e3,
            (
              _,
              e4,
              (
                _,
                e5,
                (_, e6, (_, e7, (_, e8, (_, e9, (_, e10, (_, e11, (_, e12, (_, e13, same)))))))),
              ),
            ),
          ),
        ),
      )
      fin =
    let small : ltb 4294967295 file ≡ false = ground arith in
    let short : ltb 4294967295 line ≡ false = ground arith in
    rw
      (
        e1,
        e2,
        e3,
        (reason_small (reason b.cause)).0,
        reason_of-reason_number (reason b.cause),
        e4,
        e5,
        e6,
        e7,
        e8,
        e9,
        e10,
        e11,
        small,
        e12,
        e13,
        short,
        same,
        fin,
      )
      refl
