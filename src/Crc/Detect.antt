-- ===== src/Crc/Detect.antt =====
-- The corruption that the CRC of crates/km43/src/crc.rs catches.
use km.Prelude.{ℕ, ◌+◌, ◌*◌, ◌/◌, ◌%◌, ◌^◌, ◌≡◌, refl, sym, ap, ◌∙◌, arith, true}
use km.Prelude.{List, [], ◌∷◌, ◌++◌, All, bit_xor, ◌==◌, not, ◌||◌, IsByte}
use km.Prelude.Bits.{
  bit_xor-lt, bit_xor_fields, bit_xor_comm, bit_xor_self, bit_xor-zero, zero-bit_xor, eq_of_bit_xor,
  bit_xor_right_inj, bit_xor_interchange, all_below, all_below_sound,
}
use km.Crc.Defs.{crc_bit, crc_bits, crc_byte, crc_from, crc16, init}
use km.Crc.Linear.{IsWord, crc_bits-IsWord, crc_bits-xor, crc_bits_inj}

pub crc_byte-IsWord : (c byte : ℕ) → IsWord c → IsByte byte → IsWord (crc_byte c byte)
unfolding crc_byte
crc_byte-IsWord c byte h hb = crc_bits-IsWord 8 _ (bit_xor-lt 16 c (byte * 256) h (omega arith))

crc_byte_inj :
    (c d byte : ℕ) → IsWord c → IsWord d → IsByte byte → crc_byte c byte ≡ crc_byte d byte → c ≡ d
unfolding crc_byte
crc_byte_inj c d byte hc hd hb e = bit_xor_right_inj c d (byte * 256) (
    crc_bits_inj 8 _ _ (bit_xor-lt 16 c (byte * 256) hc (omega arith))
      (bit_xor-lt 16 d (byte * 256) hd (omega arith)) e)

pub crc_from-IsWord :
    (bytes : List ℕ) (c : ℕ) → IsWord c → All IsByte bytes → IsWord (crc_from c bytes)
unfolding crc_from
crc_from-IsWord [] c h hs = h
crc_from-IsWord (b ∷ bytes) c h hs =
    crc_from-IsWord bytes (crc_byte c b) (crc_byte-IsWord c b h hs.0) hs.1

crc_from_inj :
    (bytes : List ℕ) (c d : ℕ)
    → IsWord c
    → IsWord d
    → All IsByte bytes
    → crc_from c bytes ≡ crc_from d bytes
    → c ≡ d
unfolding crc_from
crc_from_inj [] c d hc hd hs e = e
crc_from_inj (b ∷ bytes) c d hc hd hs e = crc_byte_inj c d b hc hd hs.0 (
    crc_from_inj bytes (crc_byte c b) (crc_byte d b) (crc_byte-IsWord c b hc hs.0)
      (crc_byte-IsWord d b hd hs.0) hs.1 e)

crc_from-append : (xs ys : List ℕ) (c : ℕ) → crc_from c (xs ++ ys) ≡ crc_from (crc_from c xs) ys
unfolding crc_from
crc_from-append [] ys c = refl
crc_from-append (x ∷ xs) ys c = crc_from-append xs ys (crc_byte c x)

-- Eight bits on, a byte at the top has left a mark in the low half.
low_half_table : all_below 256 (λ d. not (crc_bits 8 (d * 256) % 256 == 0) || d == 0) ≡ true
unfolding all_below crc_bits crc_bit
low_half_table = refl

low_half : (d : ℕ) → IsByte d → crc_bits 8 (d * 256) % 256 ≡ 0 → d ≡ 0
low_half d h e = ground (
  arith,
  all_below_sound 256 (λ d. not (crc_bits 8 (d * 256) % 256 == 0) || d == 0) d low_half_table h,
)

-- The low half of a register into which a byte enters at the top is unchanged.
low-xor : (c byte : ℕ) → IsWord c → IsByte byte → bit_xor c (byte * 256) % 256 ≡ c % 256
low-xor c byte h hb =
    let e : c / 256 * 256 + c % 256 ≡ c = omega arith in
    let e' : byte * 256 + 0 ≡ byte * 256 = omega arith in
    omega (
      arith,
      rw (e, e', bit_xor-zero (c % 256)) at
          (bit_xor_fields 8 (c / 256) (c % 256) byte 0 (omega arith) (omega arith)),
    )

-- Equal low halves make an exclusive or with low half zero.
low-eq : (a b : ℕ) → a % 256 ≡ b % 256 → bit_xor a b % 256 ≡ 0
low-eq a b h =
    let ea : a / 256 * 256 + a % 256 ≡ a = omega arith in
    let eb : b / 256 * 256 + a % 256 ≡ b = omega arith in
    let fields =
      rw (ea, eb, bit_xor_self (a % 256)) at
        (bit_xor_fields 8 (a / 256) (a % 256) (b / 256) (a % 256) (omega arith) (omega arith)) in
    omega (arith, fields)

shift-xor : (a b : ℕ) → bit_xor (a * 256) (b * 256) ≡ bit_xor a b * 256
shift-xor a b =
    let ea : a * 2 ^ 8 + 0 ≡ a * 256 = omega arith in
    let eb : b * 2 ^ 8 + 0 ≡ b * 256 = omega arith in
    let ec : bit_xor a b * 2 ^ 8 + bit_xor 0 0 ≡ bit_xor a b * 256 =
      omega (arith, bit_xor_self 0) in
    rw (ea, eb, ec) at (bit_xor_fields 8 a 0 b 0 (omega arith) (omega arith))

crc_byte-xor :
    (r a a' : ℕ)
    → IsWord r
    → IsByte a
    → IsByte a'
    → crc_bits 8 (bit_xor a a' * 256) ≡ bit_xor (crc_byte r a) (crc_byte r a')
unfolding crc_byte
crc_byte-xor r a a' hr ha ha' =
    rw
      (
        ← crc_bits-xor 8 (bit_xor r (a * 256)) (bit_xor r (a' * 256))
            (bit_xor-lt 16 r (a * 256) hr (omega arith))
            (bit_xor-lt 16 r (a' * 256) hr (omega arith)),
        bit_xor_interchange r (a * 256) r (a' * 256),
        bit_xor_self r,
        zero-bit_xor (bit_xor (a * 256) (a' * 256)),
        shift-xor a a',
      )
      refl

bytes_entered_eq : (r b b' : ℕ) → bit_xor r (b * 256) ≡ bit_xor r (b' * 256) → b ≡ b'
bytes_entered_eq r b b' e =
    let e' =
      bit_xor_right_inj (b * 256) (b' * 256) r
        (rw (bit_xor_comm (b * 256) r, bit_xor_comm (b' * 256) r) e) in
    omega (arith, e')

-- Two bytes in a row reach every register in one way only.
two_bytes_inj :
    (r a b a' b' : ℕ)
    → IsWord r
    → IsByte a
    → IsByte b
    → IsByte a'
    → IsByte b'
    → crc_byte (crc_byte r a) b ≡ crc_byte (crc_byte r a') b'
    → (a ≡ a') × (b ≡ b')
two_bytes_inj r a b a' b' hr ha hb ha' hb' e = (same, second)
  where
    mid : ℕ
    mid = crc_byte r a

    mid' : ℕ
    mid' = crc_byte r a'

    w : IsWord mid
    w = crc_byte-IsWord r a hr ha

    w' : IsWord mid'
    w' = crc_byte-IsWord r a' hr ha'

    entered : bit_xor mid (b * 256) ≡ bit_xor mid' (b' * 256)
    entered =
        crc_bits_inj 8 _ _ (bit_xor-lt 16 mid (b * 256) w (omega arith))
          (bit_xor-lt 16 mid' (b' * 256) w' (omega arith)) (unfold crc_byte in e)

    lows : mid % 256 ≡ mid' % 256
    lows =
        omega (arith, ap (λ (t : ℕ). t % 256) entered, low-xor mid b w hb, low-xor mid' b' w' hb')

    whole : crc_bits 8 (bit_xor a a' * 256) ≡ bit_xor mid mid'
    whole = crc_byte-xor r a a' hr ha ha'

    same : a ≡ a'
    same =
        eq_of_bit_xor a a'
          (low_half (bit_xor a a') (bit_xor-lt 8 a a' ha ha') (rw whole (low-eq mid mid' lows)))

    second : b ≡ b'
    second =
        bytes_entered_eq mid b b'
          (entered ∙ ap (λ (t : ℕ). bit_xor (crc_byte r t) (b' * 256)) (sym same))

-- Two messages of bytes that agree outside a window of two neighbouring bytes and have one CRC
-- agree in the window too.
pub crc16_window :
    (front back : List ℕ) (a b a' b' : ℕ)
    → All IsByte front
    → All IsByte back
    → (IsByte a × IsByte b) × (IsByte a' × IsByte b')
    → crc16 (front ++ (a ∷ b ∷ back)) ≡ crc16 (front ++ (a' ∷ b' ∷ back))
    → (a ≡ a') × (b ≡ b')
unfolding crc16
crc16_window front back a b a' b' hf hb ((ha, hb₁), (ha', hb')) e =
    let r = crc_from init front in
    let hr = crc_from-IsWord front init (omega arith) hf in
    two_bytes_inj r a b a' b' hr ha hb₁ ha' hb' (
      crc_from_inj back (crc_byte (crc_byte r a) b) (crc_byte (crc_byte r a') b')
        (crc_byte-IsWord _ b (crc_byte-IsWord r a hr ha) hb₁)
        (crc_byte-IsWord _ b' (crc_byte-IsWord r a' hr ha') hb') hb
        (unfold crc_from in
          (rw
            (crc_from-append front (a ∷ b ∷ back) init, crc_from-append front (a' ∷ b' ∷ back) init)
            at e)))

pub crc16-IsWord : (bytes : List ℕ) → All IsByte bytes → IsWord (crc16 bytes)
unfolding crc16
crc16-IsWord bytes h = crc_from-IsWord bytes init (omega arith) h
