-- ===== src/Counter/Defs.antt =====
-- The definitions of crates/km43/src/counter.rs. A total is an `i32`.
use km.Prelude.{ℕ, Option, none, some, ltb, if◌then◌else◌, ℤ, pos, negsuc}

-- The validities of crates/km43/src/generated.rs.
pub data Validity : Type 0 where
  ok stale initialising unsupported sensor_fault out_of_range absent unnamed_state reset : Validity

pub record CounterRun : Type 0 where
  pub last : Option ℤ

unfoldable pub new : CounterRun
new = record { last = none }

-- `total < last` for a total that is not negative.
abbrev pub below : ℕ → ℤ → Validity
below total (pos last) = if ltb total last then reset else ok
below total (negsuc last) = ok

abbrev pub judge_last : ℕ → Option ℤ → Validity
judge_last total none = ok
judge_last total (some last) = below total last

-- `CounterRun::judge`.
unfoldable pub judge : CounterRun → ℤ → Validity
judge r (negsuc n) = out_of_range
judge r (pos n) = judge_last n r.last

-- `CounterRun::published`.
unfoldable pub published : CounterRun → ℤ → CounterRun
published r (negsuc n) = r
published r (pos n) = record { last = some (pos n) }
