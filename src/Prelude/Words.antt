-- ===== src/Prelude/Words.antt =====
-- Machine words as native numbers, with the wrap-around and the saturation written out.
use Prim.Native.Nat.{ℕ, ◌+◌, ◌<◌, min}

-- The controller is a 32-bit part.
abbrev pub usize_max : ℕ
usize_max = 4294967295

-- No slice is longer than `isize::MAX`.
abbrev pub isize_max : ℕ
isize_max = 2147483647

abbrev pub u64_max : ℕ
u64_max = 18446744073709551615

abbrev pub IsByte : ℕ → Type 0
IsByte b = b < 256

-- `usize::saturating_add`.
abbrev pub sat_add : ℕ → ℕ → ℕ
sat_add a b = min usize_max (a + b)
