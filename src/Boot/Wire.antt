-- ===== src/Boot/Wire.antt =====
-- The body of crates/km43/src/boot.rs over the wire: encoded, then decoded.
use km.Prelude.{
  ℕ, ◌≤◌, ◌≡◌, refl, ◌∙◌, arith, List, [], ◌∷◌, length, take, isize_max, ok, none, some, pos, Bool,
}
use km.Cbor.Types.{Act}
use km.Cbor.Writer.{CborWriter}
use km.Cbor.Calls.{Call, call, calls}
use km.Cbor.Trace.{AreCalls}
use km.Body
use km.Body.Wire.{encoded-Heads, write_body-Heads}
use km.Boot.Defs.{Boot, BootCause, cbor, encode, reason}
use km.Boot.Decode.{decode, complete, no_slots}
use km.Boot.Words.{boot_slots, complete-boot_slots}
use km.Boot.Pairs.{
  reason_small, pair_calls, boot_calls, plain_decoded, starved_decoded, site_decoded,
}

-- Last words within the widths of their fields.
abbrev pub AreWords : BootCause → Type 0
AreWords (BootCause.watchdog (some starved)) =
    (starved.task ≤ 255) × (starved.overdue_ms ≤ 4294967295)
AreWords (BootCause.panic site) = (site.file ≤ 4294967295) × (site.line ≤ 4294967295)
AreWords _ = Unit {0}

-- Every call of the encoder but those for the last words has a value of its type.
boot-AreCalls :
    (pairs : ℕ) (b : Boot) (words : List Call)
    → pairs ≤ 6
    → AreCalls words
    → AreCalls (boot_calls pairs b words)
boot-AreCalls pairs b words few fits = (
  omega arith,
  (
    omega arith,
    (
      (reason_small (reason b.cause)).1,
      (omega arith, (tt, (omega arith, (tt, (omega arith, (tt, fits)))))),
    ),
  ),
)

-- Encoded without last words, decoded as the slots of the body.
plain_wire :
    (b : Boot) (dst dst' : List ℕ) (n : ℕ) (m : Act CborWriter (Unit {0}))
    → length dst ≤ isize_max
    → calls (boot_calls 4 b []) ≡ m
    → Body.write_body cbor m dst ≡ (dst', ok n)
    → decode (take n dst')
      ≡ complete (record no_slots {
        reason = some (reason b.cause);
        backup_valid = some b.backup_valid;
        rtc_crystal = some b.rtc_crystal;
        rail_cycled = some b.rail_cycled;
      })
plain_wire b dst dst' n m small same e =
    let (r, heads, fin) =
      encoded-Heads cbor m (boot_calls 4 b []) dst dst' n same small
        (boot-AreCalls 4 b [] (omega arith) tt) e in
    plain_decoded b (take n dst') r heads fin

abbrev body : BootCause → Bool → Bool → Bool → Boot
body c v x y = record { cause = c; backup_valid = v; rtc_crystal = x; rail_cycled = y }

causes :
    (c : BootCause) (v x y : Bool) (dst dst' : List ℕ) (n : ℕ)
    → length dst ≤ isize_max
    → AreWords c
    → encode (body c v x y) dst ≡ (dst', ok n)
    → decode (take n dst') ≡ complete (boot_slots (body c v x y))
unfolding encode calls call
causes BootCause.power v x y dst dst' n small h e =
    plain_wire (body BootCause.power v x y) dst dst' n _ small refl e
causes BootCause.software_reset v x y dst dst' n small h e =
    plain_wire (body BootCause.software_reset v x y) dst dst' n _ small refl e
causes BootCause.pin_reset v x y dst dst' n small h e =
    plain_wire (body BootCause.pin_reset v x y) dst dst' n _ small refl e
causes BootCause.option_byte_reload v x y dst dst' n small h e =
    plain_wire (body BootCause.option_byte_reload v x y) dst dst' n _ small refl e
causes BootCause.window_watchdog v x y dst dst' n small h e =
    plain_wire (body BootCause.window_watchdog v x y) dst dst' n _ small refl e
causes BootCause.low_power_entry v x y dst dst' n small h e =
    plain_wire (body BootCause.low_power_entry v x y) dst dst' n _ small refl e
causes (BootCause.watchdog none) v x y dst dst' n small h e =
    plain_wire (body (BootCause.watchdog none) v x y) dst dst' n _ small refl e
causes (BootCause.watchdog (some s)) v x y dst dst' n small (byte, word) e =
    let b = body (BootCause.watchdog (some s)) v x y in
    let words =
      Call.key (pos 5) ∷ Call.u64 s.task ∷ Call.key (pos 6) ∷ Call.u64 s.overdue_ms ∷ [] in
    let fits : AreCalls words = (omega arith, (omega arith, (omega arith, (omega arith, tt)))) in
    let (r, heads, fin) =
      write_body-Heads cbor (Call.map 6) (pair_calls b words) dst dst' n small
        (boot-AreCalls 6 b words (omega arith) fits) e in
    starved_decoded b s.task s.overdue_ms (take n dst') r byte word heads fin
causes (BootCause.panic s) v x y dst dst' n small (word, word') e =
    let b = body (BootCause.panic s) v x y in
    let words = Call.key (pos 7) ∷ Call.u64 s.file ∷ Call.key (pos 8) ∷ Call.u64 s.line ∷ [] in
    let fits : AreCalls words = (omega arith, (omega arith, (omega arith, (omega arith, tt)))) in
    let (r, heads, fin) =
      write_body-Heads cbor (Call.map 6) (pair_calls b words) dst dst' n small
        (boot-AreCalls 6 b words (omega arith) fits) e in
    site_decoded b s.file s.line (take n dst') r word word' heads fin

-- A boot body whose last words are within the widths of their fields, encoded into a destination
-- of at most isize::MAX bytes: what its encoder writes, its decoder reads back as that body, last
-- words and all.
pub boot_round_trip :
    (b : Boot) (dst dst' : List ℕ) (n : ℕ)
    → length dst ≤ isize_max
    → AreWords b.cause
    → encode b dst ≡ (dst', ok n)
    → decode (take n dst') ≡ ok b
boot_round_trip b dst dst' n small words e =
    causes b.cause b.backup_valid b.rtc_crystal b.rail_cycled dst dst' n small words e
    ∙ complete-boot_slots b
