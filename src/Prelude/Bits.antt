-- ===== src/Prelude/Bits.antt =====
-- Laws of `&`, `|` and `^` on the native numbers, at every width.
use Prim.Native.Nat.{min, differ, digits, bitwise, bit_and-bitwise, bit_xor-bitwise}
use Prim.Native.Nat.{ℕ, zero, suc, ◌+◌, ◌*◌, ◌/◌, ◌%◌, ◌^◌, ◌≤◌, ◌<◌, bit_and, bit_xor}
use native.Mathlib.Nat.{pow-suc}
use native.Mathlib.Omega.{arith}
use mathlib.Core.Path.{◌≡◌, refl, ap, sym}
use mathlib.Core.Bool.{Bool, true, ◌&&◌}

-- A native operation goes down the binary digits of its first word, on fuel. Any fuel that
-- reaches the word gives what the operation gives.
module _ (end : ℕ → ℕ) (digit : ℕ → ℕ → ℕ) where
  enough_fuel :
      (bound fuel word other : ℕ)
      → fuel ≤ bound
      → word ≤ fuel
      → digits end digit fuel word other ≡ bitwise end digit word other
  enough_fuel bound zero word other below reach =
      let none_left : word ≡ 0 = omega arith in rw none_left refl
  enough_fuel bound (suc fuel) zero other below reach = refl
  enough_fuel zero (suc fuel) (suc word) other below reach = absurd (omega arith)
  enough_fuel (suc bound) (suc fuel) (suc word) other below reach =
      let shorter = enough_fuel bound fuel (suc word / 2) (other / 2) (omega arith) (omega arith) in
      let shortest =
        enough_fuel bound word (suc word / 2) (other / 2) (omega arith) (omega arith) in
      rw (shorter, shortest) refl

  pub lowest_digit :
      (word other : ℕ)
      → bitwise end digit (suc word) other
        ≡ bitwise end digit (suc word / 2) (other / 2) * 2 + digit (suc word % 2) (other % 2)
  lowest_digit word other =
      let halves = enough_fuel word word (suc word / 2) (other / 2) (omega arith) (omega arith) in
      rw halves refl

-- The lowest digit of `&`.
pub bit_and_step :
    (word mask : ℕ)
    → bit_and word mask ≡ bit_and (word / 2) (mask / 2) * 2 + min (word % 2) (mask % 2)
bit_and_step zero mask = simp bit_and-bitwise (omega arith)
bit_and_step (suc word) mask = simp bit_and-bitwise (lowest_digit (λ _. zero) min word mask)

-- Of two digits, `^` has the parity of the sum.
parity : (x y : ℕ) → x < 2 → y < 2 → differ x y ≡ (x + y) % 2
parity zero zero h k = refl
parity zero (suc zero) h k = refl
parity zero (suc (suc y)) h k = absurd (omega arith)
parity (suc zero) zero h k = refl
parity (suc zero) (suc zero) h k = refl
parity (suc zero) (suc (suc y)) h k = absurd (omega arith)
parity (suc (suc x)) y h k = absurd (omega arith)

parity_lowest : (a b : ℕ) → differ (a % 2) (b % 2) ≡ (a + b) % 2
parity_lowest a b = omega (arith, parity (a % 2) (b % 2) (omega arith) (omega arith))

-- The lowest digit of `^`.
pub bit_xor_step : (a b : ℕ) → bit_xor a b ≡ bit_xor (a / 2) (b / 2) * 2 + (a + b) % 2
bit_xor_step zero b = simp bit_xor-bitwise (omega arith)
bit_xor_step (suc a) b =
    simp bit_xor-bitwise (rw (← parity_lowest (suc a) b) (lowest_digit (λ y. y) differ a b))

-- A word stays a word.
pub bit_xor-lt : (k a b : ℕ) → a < 2 ^ k → b < 2 ^ k → bit_xor a b < 2 ^ k
bit_xor-lt zero a b ha hb =
    let ea : a ≡ 0 = omega arith in let eb : b ≡ 0 = omega arith in rw (ea, eb) (omega arith)
bit_xor-lt (suc k) a b ha hb = omega (
  arith,
  pow-suc 2 k,
  bit_xor_step a b,
  bit_xor-lt k (a / 2) (b / 2) (omega (arith, pow-suc 2 k)) (omega (arith, pow-suc 2 k)),
)

cancel_fuel : (n a b : ℕ) → a ≤ n → b ≤ n → bit_xor (bit_xor a b) b ≡ a
cancel_fuel zero a b ha hb =
    let ea : a ≡ 0 = omega arith in let eb : b ≡ 0 = omega arith in rw (ea, eb) refl
cancel_fuel (suc n) a b ha hb =
    let half : bit_xor a b / 2 ≡ bit_xor (a / 2) (b / 2) = omega (arith, bit_xor_step a b) in
    let rec = cancel_fuel n (a / 2) (b / 2) (omega arith) (omega arith) in
    omega (arith, bit_xor_step a b, rw half at (bit_xor_step (bit_xor a b) b), rec)

-- Exclusive or twice with one word gives back the other.
pub bit_xor_cancel : (a b : ℕ) → bit_xor (bit_xor a b) b ≡ a
bit_xor_cancel a b = cancel_fuel (a + b) a b (omega arith) (omega arith)

comm_fuel : (n a b : ℕ) → a ≤ n → b ≤ n → bit_xor a b ≡ bit_xor b a
comm_fuel zero a b ha hb =
    let ea : a ≡ 0 = omega arith in let eb : b ≡ 0 = omega arith in rw (ea, eb) refl
comm_fuel (suc n) a b ha hb = omega (
  arith,
  bit_xor_step a b,
  bit_xor_step b a,
  comm_fuel n (a / 2) (b / 2) (omega arith) (omega arith),
)

pub bit_xor_comm : (a b : ℕ) → bit_xor a b ≡ bit_xor b a
bit_xor_comm a b = comm_fuel (a + b) a b (omega arith) (omega arith)

assoc_fuel :
    (n a b c : ℕ) → a ≤ n → b ≤ n → c ≤ n → bit_xor (bit_xor a b) c ≡ bit_xor a (bit_xor b c)
assoc_fuel zero a b c ha hb hc =
    let ea : a ≡ 0 = omega arith in
    let eb : b ≡ 0 = omega arith in let ec : c ≡ 0 = omega arith in rw (ea, eb, ec) refl
assoc_fuel (suc n) a b c ha hb hc =
    let half_ab : bit_xor a b / 2 ≡ bit_xor (a / 2) (b / 2) = omega (arith, bit_xor_step a b) in
    let half_bc : bit_xor b c / 2 ≡ bit_xor (b / 2) (c / 2) = omega (arith, bit_xor_step b c) in
    let rec = assoc_fuel n (a / 2) (b / 2) (c / 2) (omega arith) (omega arith) (omega arith) in
    omega (
      arith,
      bit_xor_step a b,
      bit_xor_step b c,
      rw half_ab at (bit_xor_step (bit_xor a b) c),
      rw half_bc at (bit_xor_step a (bit_xor b c)),
      rec,
    )

pub bit_xor_assoc : (a b c : ℕ) → bit_xor (bit_xor a b) c ≡ bit_xor a (bit_xor b c)
bit_xor_assoc a b c = assoc_fuel (a + b + c) a b c (omega arith) (omega arith) (omega arith)

no_mask : (bound word : ℕ) → word ≤ bound → bit_and word 0 ≡ 0
no_mask zero word h = let e : word ≡ 0 = omega arith in rw e refl
no_mask (suc bound) word h =
    omega (arith, bit_and_step word 0, no_mask bound (word / 2) (omega arith))

pub bit_and-zero : (word : ℕ) → bit_and word 0 ≡ 0
bit_and-zero word = no_mask word word (omega arith)

-- A mask bounds what it leaves.
pub bit_and-lt : (k a b : ℕ) → b < 2 ^ k → bit_and a b < 2 ^ k
bit_and-lt zero a b h = let e : b ≡ 0 = omega arith in rw (e, bit_and-zero a) (omega arith)
bit_and-lt (suc k) a b h = omega (
  arith,
  pow-suc 2 k,
  bit_and_step a b,
  bit_and-lt k (a / 2) (b / 2) (omega (arith, pow-suc 2 k)),
)

-- Testing the top bit of a word of `k + 1` bits.
pub bit_and_top :
    (k a : ℕ)
    → (a < 2 ^ k → bit_and a (2 ^ k) ≡ 0) × (2 ^ k ≤ a → a < 2 * 2 ^ k → bit_and a (2 ^ k) ≡ 2 ^ k)
bit_and_top zero a =
    (λ h. let e : a ≡ 0 = omega arith in rw e refl, λ h k. let e : a ≡ 1 = omega arith in rw e refl)
bit_and_top (suc k) a =
    let p = pow-suc 2 k in
    let rec = bit_and_top k (a / 2) in
    let half : 2 ^ suc k / 2 ≡ 2 ^ k = omega (arith, p) in
    let step = rw half at (bit_and_step a (2 ^ suc k)) in
    (
      λ h. omega (arith, p, step, rec.0 (omega (arith, p))),
      λ h h'. omega (arith, p, step, rec.1 (omega (arith, p)) (omega (arith, p))),
    )

pub zero-bit_xor : (b : ℕ) → bit_xor 0 b ≡ b
zero-bit_xor b = simp bit_xor-bitwise refl

pub bit_xor_self : (a : ℕ) → bit_xor a a ≡ 0
bit_xor_self a = rw (zero-bit_xor a) at (bit_xor_cancel 0 a)

pub bit_xor-zero : (a : ℕ) → bit_xor a 0 ≡ a
bit_xor-zero a = rw (bit_xor_comm a 0) (zero-bit_xor a)

-- Words that differ nowhere are equal.
pub eq_of_bit_xor : (a b : ℕ) → bit_xor a b ≡ 0 → a ≡ b
eq_of_bit_xor a b h = rw (h, zero-bit_xor b) at (sym (bit_xor_cancel a b))

pub bit_xor_right_inj : (a b c : ℕ) → bit_xor a c ≡ bit_xor b c → a ≡ b
bit_xor_right_inj a b c h = rw (← bit_xor_cancel a c, h) (bit_xor_cancel b c)

pub bit_xor_interchange :
    (a b c d : ℕ) → bit_xor (bit_xor a b) (bit_xor c d) ≡ bit_xor (bit_xor a c) (bit_xor b d)
bit_xor_interchange a b c d =
    rw
      (
        bit_xor_assoc a b (bit_xor c d),
        ← bit_xor_assoc b c d,
        bit_xor_comm b c,
        bit_xor_assoc c b d,
        bit_xor_assoc a c (bit_xor b d),
      )
      refl

-- A field one place further up.
field_up : (k high : ℕ) → high * 2 ^ suc k ≡ high * 2 ^ k + high * 2 ^ k
field_up k high = omega (arith, ap (λ (power : ℕ). high * power) (pow-suc 2 k))

-- Exclusive or works on the high part and on the low part of two words.
pub bit_xor_fields :
    (k q r s t : ℕ)
    → r < 2 ^ k
    → t < 2 ^ k
    → bit_xor (q * 2 ^ k + r) (s * 2 ^ k + t) ≡ bit_xor q s * 2 ^ k + bit_xor r t
bit_xor_fields zero q r s t hr ht =
    let er : r ≡ 0 = omega arith in
    let et : t ≡ 0 = omega arith in
    let eq : q * 2 ^ 0 + 0 ≡ q = omega arith in
    let es : s * 2 ^ 0 + 0 ≡ s = omega arith in rw (er, et, eq, es, bit_xor_self 0) (omega arith)
bit_xor_fields (suc k) q r s t hr ht =
    let a = q * 2 ^ suc k + r in
    let b = s * 2 ^ suc k + t in
    let ha : a / 2 ≡ q * 2 ^ k + r / 2 = omega (arith, field_up k q) in
    let hb : b / 2 ≡ s * 2 ^ k + t / 2 = omega (arith, field_up k s) in
    omega (
      arith,
      rw (ha, hb) at (bit_xor_step a b),
      bit_xor_fields k q (r / 2) s (t / 2) (omega (arith, pow-suc 2 k))
          (omega (arith, pow-suc 2 k)),
      bit_xor_step r t,
      field_up k (bit_xor q s),
      field_up k q,
      field_up k s,
    )

-- A test run on every number below a limit, and what its success says of one of them.
unfoldable pub all_below : ℕ → (ℕ → Bool) → Bool
all_below zero test = true
all_below (suc limit) test = all_below limit test && test limit

pub all_below_sound :
    (limit : ℕ) (test : ℕ → Bool) (k : ℕ) → all_below limit test ≡ true → k < limit → test k ≡ true
unfolding all_below
all_below_sound zero test k passed below = absurd (omega arith)
all_below_sound (suc limit) test k passed below = ground (arith, all_below_sound limit test k)
