-- ===== src/Boot/Decode.antt =====
-- `Boot::decode` of crates/km43/src/boot.rs, with its slots as a record.
use km.Prelude.{
  ℕ, List, Option, none, some, Bool, ◌==◌, if◌then◌else◌, Result, ok, err, ℤ, pos, negsuc,
}
use km.Cbor.Bytes.{CborReader}
use km.Cbor.Reader.{u8, u32, bool, skip}
use km.Body.{Step, ◌>>=◌, done, given, on, required, once, read_body, and_then}
use km.Boot.Defs.{
  Boot, BootCause, BootReason, BootError, Starved, PanicSite, reason_of, cbor, missing_key,
  duplicate, words_without_their_reason,
}

pub record BootSlots : Type 0 where
  pub reason : Option BootReason
  pub backup_valid : Option Bool
  pub rtc_crystal : Option Bool
  pub rail_cycled : Option Bool
  pub task : Option ℕ
  pub overdue_ms : Option ℕ
  pub file : Option ℕ
  pub line : Option ℕ

abbrev pub no_slots : BootSlots
no_slots = record {
  reason = none;
  backup_valid = none;
  rtc_crystal = none;
  rail_cycled = none;
  task = none;
  overdue_ms = none;
  file = none;
  line = none;
}

-- The arms of the decoder's match on a key.
abbrev pub take_reason : BootSlots → Step BootError CborReader BootSlots
take_reason s = do
  number ← on cbor u8
  known ← given (reason_of number)
  slot ← given (once (duplicate 1) s.reason known)
  done (record s { reason = slot })

abbrev pub take_backup : BootSlots → Step BootError CborReader BootSlots
take_backup s = do
  value ← on cbor bool
  slot ← given (once (duplicate 2) s.backup_valid value)
  done (record s { backup_valid = slot })

abbrev pub take_crystal : BootSlots → Step BootError CborReader BootSlots
take_crystal s = do
  value ← on cbor bool
  slot ← given (once (duplicate 3) s.rtc_crystal value)
  done (record s { rtc_crystal = slot })

abbrev pub take_rail : BootSlots → Step BootError CborReader BootSlots
take_rail s = do
  value ← on cbor bool
  slot ← given (once (duplicate 4) s.rail_cycled value)
  done (record s { rail_cycled = slot })

abbrev pub take_task : BootSlots → Step BootError CborReader BootSlots
take_task s = do
  value ← on cbor u8
  slot ← given (once (duplicate 5) s.task value)
  done (record s { task = slot })

abbrev pub take_overdue : BootSlots → Step BootError CborReader BootSlots
take_overdue s = do
  value ← on cbor u32
  slot ← given (once (duplicate 6) s.overdue_ms value)
  done (record s { overdue_ms = slot })

abbrev pub take_file : BootSlots → Step BootError CborReader BootSlots
take_file s = do
  value ← on cbor u32
  slot ← given (once (duplicate 7) s.file value)
  done (record s { file = slot })

abbrev pub take_line : BootSlots → Step BootError CborReader BootSlots
take_line s = do
  value ← on cbor u32
  slot ← given (once (duplicate 8) s.line value)
  done (record s { line = slot })

abbrev pub skip_value : BootSlots → Step BootError CborReader BootSlots
skip_value s = do skipped ← on cbor skip; done s

abbrev pub boot_key : ℕ → BootSlots → Step BootError CborReader BootSlots
boot_key n =
    if n == 1
    then take_reason
    else if n == 2
    then take_backup
    else if n == 3
    then take_crystal
    else if n == 4
    then take_rail
    else if n == 5
    then take_task
    else if n == 6
    then take_overdue
    else if n == 7
    then take_file
    else if n == 8
    then take_line
    else skip_value

abbrev pub boot_pair : ℤ → BootSlots → Step BootError CborReader BootSlots
boot_pair (pos n) = boot_key n
boot_pair (negsuc n) = skip_value

abbrev pub starved_of : Option ℕ → Option ℕ → Result BootError (Option Starved)
starved_of (some task) (some overdue_ms) =
    ok (some (record { task = task; overdue_ms = overdue_ms }))
starved_of none none = ok none
starved_of (some task) none = err (missing_key 6)
starved_of none (some overdue_ms) = err (missing_key 5)

abbrev pub site_of : Option ℕ → Option ℕ → Result BootError (Option PanicSite)
site_of (some file) (some line) = ok (some (record { file = file; line = line }))
site_of none none = ok none
site_of (some file) none = err (missing_key 8)
site_of none (some line) = err (missing_key 7)

-- The cause that a reason and its last words name.
unfoldable pub cause_of :
    BootReason → Option Starved → Option PanicSite → Result BootError BootCause
cause_of BootReason.watchdog starved none = ok (BootCause.watchdog starved)
cause_of BootReason.panic none (some site) = ok (BootCause.panic site)
cause_of BootReason.panic none none = err (missing_key 7)
cause_of BootReason.power none none = ok BootCause.power
cause_of BootReason.software_reset none none = ok BootCause.software_reset
cause_of BootReason.pin_reset none none = ok BootCause.pin_reset
cause_of BootReason.option_byte_reload none none = ok BootCause.option_byte_reload
cause_of BootReason.window_watchdog none none = ok BootCause.window_watchdog
cause_of BootReason.low_power_entry none none = ok BootCause.low_power_entry
cause_of named starved site = err (words_without_their_reason named)

-- The end of `Boot::decode`.
unfoldable pub complete : BootSlots → Result BootError Boot
unfolding cause_of
complete s = and_then (required (missing_key 1) s.reason) (λ named.
    and_then (starved_of s.task s.overdue_ms) (λ starved. and_then (site_of s.file s.line) (λ site.
      and_then (cause_of named starved site) (λ cause.
        and_then (required (missing_key 2) s.backup_valid) (λ backup_valid.
          and_then (required (missing_key 3) s.rtc_crystal) (λ rtc_crystal.
            and_then (required (missing_key 4) s.rail_cycled) (λ rail_cycled. ok (record {
              cause = cause;
              backup_valid = backup_valid;
              rtc_crystal = rtc_crystal;
              rail_cycled = rail_cycled;
            }))))))))

-- `Boot::decode`.
unfoldable pub decode : List ℕ → Result BootError Boot
unfolding read_body complete
decode payload = and_then (read_body cbor boot_pair no_slots payload) complete
