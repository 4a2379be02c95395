-- ===== src/Boot/Defs.antt =====
-- The definitions of crates/km43/src/boot.rs.
use km.Prelude.{ℕ, ◌+◌, List, Option, some, Bool, ◌==◌, if◌then◌else◌, Result, ok, err, pos}
use km.Cbor.Types.{CborError, Act, ◌>>◌, pure}
use km.Cbor.Writer.{
  CborWriter, map as write_map, key as write_key, u64 as write_u64, bool as write_bool,
}
use km.Body.{write_body}

pub data BootReason : Type 0 where
  power watchdog software_reset panic pin_reset option_byte_reload window_watchdog low_power_entry :
      BootReason

pub record Starved : Type 0 where
  pub task : ℕ
  pub overdue_ms : ℕ

pub record PanicSite : Type 0 where
  pub file : ℕ
  pub line : ℕ

pub data BootCause : Type 0 where
  power software_reset pin_reset option_byte_reload window_watchdog low_power_entry : BootCause
  watchdog : Option Starved → BootCause
  panic : PanicSite → BootCause

-- `BootCause::reason`.
abbrev pub reason : BootCause → BootReason
reason BootCause.power = BootReason.power
reason (BootCause.watchdog words) = BootReason.watchdog
reason BootCause.software_reset = BootReason.software_reset
reason (BootCause.panic site) = BootReason.panic
reason BootCause.pin_reset = BootReason.pin_reset
reason BootCause.option_byte_reload = BootReason.option_byte_reload
reason BootCause.window_watchdog = BootReason.window_watchdog
reason BootCause.low_power_entry = BootReason.low_power_entry

pub data BootError : Type 0 where
  missing_key duplicate unknown_reason : ℕ → BootError
  words_without_their_reason : BootReason → BootError
  cbor : CborError → BootError

-- `BootReason as u64` and `BootReason::try_from`.
abbrev pub reason_number : BootReason → ℕ
reason_number BootReason.power = 1
reason_number BootReason.watchdog = 2
reason_number BootReason.software_reset = 4
reason_number BootReason.panic = 5
reason_number BootReason.pin_reset = 6
reason_number BootReason.option_byte_reload = 7
reason_number BootReason.window_watchdog = 8
reason_number BootReason.low_power_entry = 9

unfoldable pub reason_of : ℕ → Result BootError BootReason
reason_of n =
    if n == 1
    then ok BootReason.power
    else if n == 2
    then ok BootReason.watchdog
    else if n == 4
    then ok BootReason.software_reset
    else if n == 5
    then ok BootReason.panic
    else if n == 6
    then ok BootReason.pin_reset
    else if n == 7
    then ok BootReason.option_byte_reload
    else if n == 8
    then ok BootReason.window_watchdog
    else if n == 9
    then ok BootReason.low_power_entry
    else err (unknown_reason n)

pub record Boot : Type 0 where
  pub cause : BootCause
  pub backup_valid : Bool
  pub rtc_crystal : Bool
  pub rail_cycled : Bool

-- How many keys of last words a cause has.
abbrev pub words : BootCause → ℕ
words (BootCause.watchdog (some starved)) = 2
words (BootCause.panic site) = 2
words _ = 0

-- The last words themselves.
abbrev pub write_words : BootCause → Act CborWriter (Unit {0})
unfolding write_key write_u64
write_words (BootCause.watchdog (some starved)) = do
  write_key (pos 5)
  write_u64 starved.task
  write_key (pos 6)
  write_u64 starved.overdue_ms
write_words (BootCause.panic site) = do
  write_key (pos 7)
  write_u64 site.file
  write_key (pos 8)
  write_u64 site.line
write_words _ = pure tt

-- `Boot::encode`.
unfoldable pub encode : Boot → List ℕ → List ℕ × Result BootError ℕ
unfolding write_body write_map write_key write_u64 write_bool
encode b = write_body cbor (do
  write_map (4 + words b.cause)
  write_key (pos 1)
  write_u64 (reason_number (reason b.cause))
  write_key (pos 2)
  write_bool b.backup_valid
  write_key (pos 3)
  write_bool b.rtc_crystal
  write_key (pos 4)
  write_bool b.rail_cycled
  write_words b.cause)
