-- ===== src/Crc/Linear.antt =====
-- One bit of the CRC register is a linear map with no kernel.
use km.Prelude.{ℕ, zero, suc, ◌+◌, ◌*◌, ◌/◌, ◌%◌, ◌<◌, ◌≡◌, refl, arith}
use km.Prelude.{bit_xor, ◌==◌, if◌then◌else◌}
use km.Prelude.Bits.{
  bit_xor_step, bit_xor-lt, bit_xor_fields, bit_and_top, bit_xor_interchange, bit_xor_self,
  bit_xor-zero, eq_of_bit_xor,
}
use km.Crc.Defs.{poly, crc_bit, crc_bits}

abbrev pub IsWord : ℕ → Type 0
IsWord c = c < 65536

-- What the top bit mixes in.
abbrev mixed : ℕ → ℕ
mixed top = if top == 0 then 0 else poly

-- The test of the top bit, as arithmetic.
crc_bit_lem : (c : ℕ) → IsWord c → crc_bit c ≡ bit_xor (c % 32768 * 2) (mixed (c / 32768))
unfolding crc_bit
crc_bit_lem c h = ground (arith, bit_and_top 15 c, bit_xor-zero (c % 32768 * 2))

pub crc_bit-IsWord : (c : ℕ) → IsWord c → IsWord (crc_bit c)
crc_bit-IsWord c h =
    rw (crc_bit_lem c h)
      (bit_xor-lt 16 (c % 32768 * 2) (mixed (c / 32768)) (omega arith) (ground arith))

mixed-xor : (s t : ℕ) → s < 2 → t < 2 → mixed (bit_xor s t) ≡ bit_xor (mixed s) (mixed t)
mixed-xor zero zero h k = refl
mixed-xor zero (suc zero) h k = refl
mixed-xor (suc zero) zero h k = refl
mixed-xor (suc zero) (suc zero) h k = refl
mixed-xor zero (suc (suc t)) h k = absurd (omega arith)
mixed-xor (suc zero) (suc (suc t)) h k = absurd (omega arith)
mixed-xor (suc (suc s)) t h k = absurd (omega arith)

double-xor : (a b : ℕ) → bit_xor a b * 2 ≡ bit_xor (a * 2) (b * 2)
double-xor a b =
    let ha : a * 2 / 2 ≡ a = omega arith in
    let hb : b * 2 / 2 ≡ b = omega arith in
    omega (arith, rw (ha, hb) at (bit_xor_step (a * 2) (b * 2)))

-- The top bit and the rest of an exclusive or.
parts-xor :
    (a b : ℕ)
    → IsWord a
    → IsWord b
    → (bit_xor a b / 32768 ≡ bit_xor (a / 32768) (b / 32768))
      × (bit_xor a b % 32768 ≡ bit_xor (a % 32768) (b % 32768))
parts-xor a b ha hb =
    let ea : a / 32768 * 32768 + a % 32768 ≡ a = omega arith in
    let eb : b / 32768 * 32768 + b % 32768 ≡ b = omega arith in
    let low = bit_xor-lt 15 (a % 32768) (b % 32768) (omega arith) (omega arith) in
    let fields =
      rw (ea, eb) at
        (bit_xor_fields 15 (a / 32768) (a % 32768) (b / 32768) (b % 32768) (omega arith)
          (omega arith)) in
    (omega (arith, fields, low), omega (arith, fields, low))

crc_bit-xor :
    (a b : ℕ) → IsWord a → IsWord b → crc_bit (bit_xor a b) ≡ bit_xor (crc_bit a) (crc_bit b)
crc_bit-xor a b ha hb =
    rw
      (
        crc_bit_lem (bit_xor a b) (bit_xor-lt 16 a b ha hb),
        (parts-xor a b ha hb).0,
        (parts-xor a b ha hb).1,
        mixed-xor (a / 32768) (b / 32768) (omega arith) (omega arith),
        double-xor (a % 32768) (b % 32768),
        crc_bit_lem a ha,
        crc_bit_lem b hb,
        bit_xor_interchange (a % 32768 * 2) (b % 32768 * 2) (mixed (a / 32768)) (mixed (b / 32768)),
      )
      refl

-- The polynomial is odd, so a top bit that was shifted out shows in the lowest bit.
crc_bit_kernel : (c : ℕ) → IsWord c → crc_bit c ≡ 0 → c ≡ 0
crc_bit_kernel c h e = ground (
  arith,
  rw (crc_bit_lem c h) at e,
  bit_xor_step (c % 32768 * 2) poly,
  bit_xor-zero (c % 32768 * 2),
)

pub crc_bits-IsWord : (n c : ℕ) → IsWord c → IsWord (crc_bits n c)
unfolding crc_bits
crc_bits-IsWord zero c h = h
crc_bits-IsWord (suc n) c h = crc_bits-IsWord n (crc_bit c) (crc_bit-IsWord c h)

pub crc_bits-xor :
    (n a b : ℕ)
    → IsWord a
    → IsWord b
    → crc_bits n (bit_xor a b) ≡ bit_xor (crc_bits n a) (crc_bits n b)
unfolding crc_bits
crc_bits-xor zero a b ha hb = refl
crc_bits-xor (suc n) a b ha hb =
    rw (crc_bit-xor a b ha hb)
      (crc_bits-xor n (crc_bit a) (crc_bit b) (crc_bit-IsWord a ha) (crc_bit-IsWord b hb))

crc_bits_kernel : (n c : ℕ) → IsWord c → crc_bits n c ≡ 0 → c ≡ 0
unfolding crc_bits
crc_bits_kernel zero c h e = e
crc_bits_kernel (suc n) c h e =
    crc_bit_kernel c h (crc_bits_kernel n (crc_bit c) (crc_bit-IsWord c h) e)

-- So the register loses nothing, however many bits go by.
pub crc_bits_inj : (n a b : ℕ) → IsWord a → IsWord b → crc_bits n a ≡ crc_bits n b → a ≡ b
crc_bits_inj n a b ha hb e = eq_of_bit_xor a b (
    crc_bits_kernel n (bit_xor a b) (bit_xor-lt 16 a b ha hb)
      (rw (crc_bits-xor n a b ha hb, e) (bit_xor_self (crc_bits n b))))
