-- ===== src/Prelude/Digits.antt =====
-- The binary digits of a word, and what `|`, `<<` and a test of one bit do to them.
use Prim.Native.Nat.{max, min, bit_or-bitwise}
use Prim.Native.Nat.{ℕ, zero, suc, ◌+◌, ◌*◌, ◌-◌, ◌/◌, ◌%◌, ◌^◌, ◌<◌, bit_and, bit_or}
use native.Mathlib.Nat.{pow-suc, mul_assoc}
use native.Mathlib.Omega.{arith}
use mathlib.Core.Path.{◌≡◌, refl, ap, sym, ◌∙◌}
use mathlib.Core.Bool.{Bool, true, false, not, ◌&&◌, ◌||◌}
use km.Prelude.Tests.{◌==◌, leb}
use km.Prelude.Bits.{bit_and_step, bit_and-zero, lowest_digit}

-- The digit of weight `2 ^ i`.
unfoldable pub digit : ℕ → ℕ → Bool
digit word zero = word % 2 == 1
digit word (suc i) = digit (word / 2) i

-- `|` on the words without their lowest digits, and on those digits.
halves-bit_or :
    (word other : ℕ)
    → (bit_or word other / 2 ≡ bit_or (word / 2) (other / 2))
      × (bit_or word other % 2 ≡ max (word % 2) (other % 2))
halves-bit_or zero other = simp bit_or-bitwise (omega arith, omega arith)
halves-bit_or (suc below) other =
    let joined = lowest_digit (λ digit_of_other. digit_of_other) max below other in
    simp bit_or-bitwise (omega (arith, joined), omega (arith, joined))

pub zero-digit : (i : ℕ) → digit 0 i ≡ false
unfolding digit
zero-digit zero = refl
zero-digit (suc i) = zero-digit i

pub digit-bit_and : (i word : ℕ) → (bit_and word (2 ^ i) == 0) ≡ not (digit word i)
unfolding digit
digit-bit_and zero word =
    let low : bit_and word 1 ≡ word % 2 =
      omega (arith, bit_and_step word 1, bit_and-zero (word / 2)) in
    rw low (ground arith)
digit-bit_and (suc i) word =
    let half : 2 ^ suc i / 2 ≡ 2 ^ i = omega (arith, pow-suc 2 i) in
    let even : 2 ^ suc i % 2 ≡ 0 = omega (arith, pow-suc 2 i) in
    let step = rw (half, even) at (bit_and_step word (2 ^ suc i)) in
    ap (λ (n : ℕ). n == 0) step ∙ doubled (bit_and (word / 2) (2 ^ i)) ∙ digit-bit_and i (word / 2)
  where
    doubled : (n : ℕ) → (n * 2 + min (word % 2) 0 == 0) ≡ (n == 0)
    doubled n = ground arith

pub digit-bit_or : (i a b : ℕ) → digit (bit_or a b) i ≡ (digit a i || digit b i)
unfolding digit
digit-bit_or zero a b = ground (arith, (halves-bit_or a b).1)
digit-bit_or (suc i) a b = rw ((halves-bit_or a b).0) (digit-bit_or i (a / 2) (b / 2))

pub digit-pow : (i a : ℕ) → digit (2 ^ a) i ≡ (i == a)
unfolding digit
digit-pow zero zero = refl
digit-pow zero (suc a) =
    let even : 2 ^ suc a % 2 ≡ 0 = omega (arith, pow-suc 2 a) in
    let other : (0 == suc a) ≡ false = ground arith in rw (even, other) refl
digit-pow (suc i) zero = zero-digit i ∙ ground arith
digit-pow (suc i) (suc a) =
    let half : 2 ^ suc a / 2 ≡ 2 ^ a = omega (arith, pow-suc 2 a) in
    rw half (digit-pow i a ∙ ground arith)

double : (q k : ℕ) → q * 2 ^ suc k ≡ q * 2 ^ k * 2
double q k = ap (λ (p : ℕ). q * p) (pow-suc 2 k) ∙ sym (mul_assoc q (2 ^ k) 2)

pub digit-low : (k i q m : ℕ) → i < k → digit (q * 2 ^ k + m) i ≡ digit m i
unfolding digit
digit-low zero i q m h = absurd (omega arith)
digit-low (suc k) zero q m h = ground (arith, double q k)
digit-low (suc k) (suc i) q m h =
    let half : (q * 2 ^ suc k + m) / 2 ≡ q * 2 ^ k + m / 2 = omega (arith, double q k) in
    rw half (digit-low k i q (m / 2) (omega arith))

pub digit-shift : (s i word : ℕ) → digit (word * 2 ^ s) i ≡ (leb s i && digit word (i - s))
unfolding digit
digit-shift zero i word =
    let same : word * 1 ≡ word = omega arith in
    let all : leb 0 i ≡ true = ground arith in
    let whole : i - 0 ≡ i = omega arith in rw (same, all, whole) refl
digit-shift (suc s) zero word =
    let even : word * 2 ^ suc s % 2 ≡ 0 = omega (arith, double word s) in
    let far : leb (suc s) 0 ≡ false = ground arith in rw (even, far) refl
digit-shift (suc s) (suc i) word =
    let half : word * 2 ^ suc s / 2 ≡ word * 2 ^ s = omega (arith, double word s) in
    let both : leb (suc s) (suc i) ≡ leb s i = ground arith in
    let less : suc i - suc s ≡ i - s = omega arith in rw (half, both, less) (digit-shift s i word)
