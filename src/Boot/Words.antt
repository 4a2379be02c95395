-- ===== src/Boot/Words.antt =====
-- The last words of a boot body, and that its keys say no less and no more than the body.
use km.Prelude.{ℕ, ◌≡◌, refl, ap, ◌∙◌, arith, Option, none, some, Bool, Result, ok}
use km.Body.{and_then_ok, required_ok}
use km.Boot.Defs.{Boot, BootCause, BootReason, BootError, Starved, PanicSite, reason}
use km.Boot.Decode.{BootSlots, starved_of, site_of, cause_of, complete}

-- The last words of a cause, and the slots that their keys fill.
abbrev pub starved_in : BootCause → Option Starved
starved_in (BootCause.watchdog words) = words
starved_in _ = none

abbrev pub site_in : BootCause → Option PanicSite
site_in (BootCause.panic site) = some site
site_in _ = none

abbrev pub task_of : Option Starved → Option ℕ
task_of none = none
task_of (some starved) = some starved.task

abbrev pub overdue_of : Option Starved → Option ℕ
overdue_of none = none
overdue_of (some starved) = some starved.overdue_ms

abbrev pub file_of : Option PanicSite → Option ℕ
file_of none = none
file_of (some site) = some site.file

abbrev pub line_of : Option PanicSite → Option ℕ
line_of none = none
line_of (some site) = some site.line

abbrev pub boot_slots : Boot → BootSlots
boot_slots b = record {
  reason = some (reason b.cause);
  backup_valid = some b.backup_valid;
  rtc_crystal = some b.rtc_crystal;
  rail_cycled = some b.rail_cycled;
  task = task_of (starved_in b.cause);
  overdue_ms = overdue_of (starved_in b.cause);
  file = file_of (site_in b.cause);
  line = line_of (site_in b.cause);
}

complete_cause :
    (c : BootCause) (v x y : Bool)
    → complete
        (boot_slots (record { cause = c; backup_valid = v; rtc_crystal = x; rail_cycled = y }))
      ≡ ok (record { cause = c; backup_valid = v; rtc_crystal = x; rail_cycled = y })
unfolding complete cause_of
complete_cause BootCause.power v x y = refl
complete_cause BootCause.software_reset v x y = refl
complete_cause BootCause.pin_reset v x y = refl
complete_cause BootCause.option_byte_reload v x y = refl
complete_cause BootCause.window_watchdog v x y = refl
complete_cause BootCause.low_power_entry v x y = refl
complete_cause (BootCause.watchdog none) v x y = refl
complete_cause (BootCause.watchdog (some starved)) v x y = refl
complete_cause (BootCause.panic site) v x y = refl

-- Every boot body is completed from the slots that its keys fill, with the last words of its
-- cause.
pub complete-boot_slots : (b : Boot) → complete (boot_slots b) ≡ ok b
complete-boot_slots b = complete_cause b.cause b.backup_valid b.rtc_crystal b.rail_cycled

abbrev Named : BootReason → Option Starved → Option PanicSite → BootCause → Type 0
Named named starved site c = (named ≡ reason c) × (starved ≡ starved_in c) × (site ≡ site_in c)

abbrev named_ok : BootCause → Result BootError BootCause
named_ok d = ok d

Named-by :
    (named : BootReason) (starved : Option Starved) (site : Option PanicSite) (c d : BootCause)
    → Named named starved site d
    → named_ok d ≡ ok c
    → Named named starved site c
Named-by named starved site c d h e = let same : d ≡ c = ground arith in rw (← same) h

cause_of_ok :
    (named : BootReason) (starved : Option Starved) (site : Option PanicSite) (c : BootCause)
    → cause_of named starved site ≡ ok c
    → Named named starved site c
unfolding cause_of
cause_of_ok BootReason.power none none c e =
    Named-by BootReason.power none none c BootCause.power (refl, refl, refl) e
cause_of_ok BootReason.power none (some site) c e = ground arith
cause_of_ok BootReason.power (some starved) none c e = ground arith
cause_of_ok BootReason.power (some starved) (some site) c e = ground arith
cause_of_ok BootReason.watchdog starved none c e =
    Named-by BootReason.watchdog starved none c (BootCause.watchdog starved) (refl, refl, refl) e
cause_of_ok BootReason.watchdog starved (some site) c e = ground arith
cause_of_ok BootReason.software_reset none none c e =
    Named-by BootReason.software_reset none none c BootCause.software_reset (refl, refl, refl) e
cause_of_ok BootReason.software_reset none (some site) c e = ground arith
cause_of_ok BootReason.software_reset (some starved) none c e = ground arith
cause_of_ok BootReason.software_reset (some starved) (some site) c e = ground arith
cause_of_ok BootReason.panic none (some site) c e =
    Named-by BootReason.panic none (some site) c (BootCause.panic site) (refl, refl, refl) e
cause_of_ok BootReason.panic none none c e = ground arith
cause_of_ok BootReason.panic (some starved) none c e = ground arith
cause_of_ok BootReason.panic (some starved) (some site) c e = ground arith
cause_of_ok BootReason.pin_reset none none c e =
    Named-by BootReason.pin_reset none none c BootCause.pin_reset (refl, refl, refl) e
cause_of_ok BootReason.pin_reset none (some site) c e = ground arith
cause_of_ok BootReason.pin_reset (some starved) none c e = ground arith
cause_of_ok BootReason.pin_reset (some starved) (some site) c e = ground arith
cause_of_ok BootReason.option_byte_reload none none c e =
    Named-by BootReason.option_byte_reload none none c BootCause.option_byte_reload
      (refl, refl, refl) e
cause_of_ok BootReason.option_byte_reload none (some site) c e = ground arith
cause_of_ok BootReason.option_byte_reload (some starved) none c e = ground arith
cause_of_ok BootReason.option_byte_reload (some starved) (some site) c e = ground arith
cause_of_ok BootReason.window_watchdog none none c e =
    Named-by BootReason.window_watchdog none none c BootCause.window_watchdog (refl, refl, refl) e
cause_of_ok BootReason.window_watchdog none (some site) c e = ground arith
cause_of_ok BootReason.window_watchdog (some starved) none c e = ground arith
cause_of_ok BootReason.window_watchdog (some starved) (some site) c e = ground arith
cause_of_ok BootReason.low_power_entry none none c e =
    Named-by BootReason.low_power_entry none none c BootCause.low_power_entry (refl, refl, refl) e
cause_of_ok BootReason.low_power_entry none (some site) c e = ground arith
cause_of_ok BootReason.low_power_entry (some starved) none c e = ground arith
cause_of_ok BootReason.low_power_entry (some starved) (some site) c e = ground arith

starved_of_ok :
    (task overdue_ms : Option ℕ) (words : Option Starved)
    → starved_of task overdue_ms ≡ ok words
    → (task ≡ task_of words) × (overdue_ms ≡ overdue_of words)
starved_of_ok none none words e = let same : none ≡ words = ground arith in rw (← same) (refl, refl)
starved_of_ok (some t) (some o) words e =
    let same : some (record { task = t; overdue_ms = o }) ≡ words = ground arith in
    rw (← same) (refl, refl)
starved_of_ok none (some o) words e = ground arith
starved_of_ok (some t) none words e = ground arith

site_of_ok :
    (file line : Option ℕ) (words : Option PanicSite)
    → site_of file line ≡ ok words
    → (file ≡ file_of words) × (line ≡ line_of words)
site_of_ok none none words e = let same : none ≡ words = ground arith in rw (← same) (refl, refl)
site_of_ok (some f) (some l) words e =
    let same : some (record { file = f; line = l }) ≡ words = ground arith in
    rw (← same) (refl, refl)
site_of_ok none (some l) words e = ground arith
site_of_ok (some f) none words e = ground arith

-- Whether the slots are those of a body, one by one.
abbrev pub Fills : Boot → BootSlots → Type 0
Fills b s =
    (s.reason ≡ some (reason b.cause))
    × (s.backup_valid ≡ some b.backup_valid)
    × (s.rtc_crystal ≡ some b.rtc_crystal)
    × (s.rail_cycled ≡ some b.rail_cycled)
    × (s.task ≡ task_of (starved_in b.cause))
    × (s.overdue_ms ≡ overdue_of (starved_in b.cause))
    × (s.file ≡ file_of (site_in b.cause))
    × (s.line ≡ line_of (site_in b.cause))

-- Slots that complete a boot body are just the slots of that body: no last words without their
-- cause, and none missing.
pub complete-Fills : (s : BootSlots) (b : Boot) → complete s ≡ ok b → Fills b s
unfolding complete
complete-Fills s b e =
    let (named, is_named, e1) = and_then_ok _ _ b e in
    let (starved, is_starved, e2) = and_then_ok _ _ b e1 in
    let (site, is_site, e3) = and_then_ok _ _ b e2 in
    let (cause, is_cause, e4) = and_then_ok _ _ b e3 in
    let (valid, is_valid, e5) = and_then_ok _ _ b e4 in
    let (crystal, is_crystal, e6) = and_then_ok _ _ b e5 in
    let (cycled, is_cycled, e7) = and_then_ok _ _ b e6 in
    let (r, w, p) = cause_of_ok named starved site cause is_cause in
    let (t, o) = starved_of_ok s.task s.overdue_ms starved is_starved in
    let (f, l) = site_of_ok s.file s.line site is_site in
    let same : record {
      cause = cause;
      backup_valid = valid;
      rtc_crystal = crystal;
      rail_cycled = cycled;
    }
        ≡ b =
      ground arith in
    rw (← same) (
      required_ok _ _ _ is_named ∙ ap some r,
      required_ok _ _ _ is_valid,
      required_ok _ _ _ is_crystal,
      required_ok _ _ _ is_cycled,
      t ∙ ap task_of w,
      o ∙ ap overdue_of w,
      f ∙ ap file_of p,
      l ∙ ap line_of p,
    )
