-- ===== src/Cbor/Argument.antt =====
-- The argument of a head in its shortest form, written and read (crates/km43/src/cbor.rs).
use km.Prelude.{ℕ, zero, suc, ◌+◌, ◌*◌, ◌/◌, ◌%◌, ◌^◌, ◌≤◌, ◌<◌, ◌≡◌, refl, ap, ◌∙◌, arith}
use km.Prelude.{List, ◌++◌, length, take-append, drop-append, u64_max}
use km.Cbor.Types.{
  Major, bits, of_bits, Width, inline, one, two, four, eight, width_of, width_bytes, info_of,
}
use km.Prelude.{isize_max, length-append, bit_or, bit_and, ◌==◌, ==_iff, true, ok}
use km.Prelude.Bits.{all_below, all_below_sound}
use km.Cbor.Bytes.{big_endian, CborReader, take_bytes, argument}
use km.Cbor.Writer.{be_bytes, tail_bytes, head_byte}

length-be_bytes : (w n : ℕ) → length (be_bytes w n) ≡ w
length-be_bytes zero n = refl
length-be_bytes (suc w) n = ap suc (length-be_bytes w n)

pub length-tail_bytes : (n : ℕ) → length (tail_bytes n) ≡ width_bytes (width_of n)
length-tail_bytes n = length-be_bytes (width_bytes (width_of n)) n

-- Where a reader stands: `front` is read, `rest` is not.
pub record At (r : CborReader) (front rest : List ℕ) : Type 0 where
  pub source : r.source ≡ front ++ rest
  pub next : r.next ≡ length front
  pub small : length r.source ≤ isize_max

pub take_bytes-At :
    (r : CborReader) (front raw rest : List ℕ)
    → At r front (raw ++ rest)
    → take_bytes (length raw) r ≡ (record r { next = length front + length raw }, ok raw)
unfolding take_bytes
take_bytes-At r front raw rest h = rw (h.next) (
    ground (
      arith,
      h.source,
      length-append front (raw ++ rest),
      length-append raw rest,
      drop-append front (raw ++ rest),
      take-append raw rest,
    ))

-- Every value of a byte, by evaluation.
or_table : all_below 256 (λ b. bit_or (b / 32 * 32) (b % 32) == b) ≡ true
unfolding all_below
or_table = refl

and_table : all_below 256 (λ b. bit_and b 0x1F == b % 32) ≡ true
unfolding all_below
and_table = refl

info_of-lt : (n : ℕ) → info_of (width_of n) (n % 256) < 28
info_of-lt n = ground arith

bits-lt : (major : Major) → bits major < 8
bits-lt Major.unsigned = omega arith
bits-lt Major.negative = omega arith
bits-lt Major.bytes = omega arith
bits-lt Major.text = omega arith
bits-lt Major.array = omega arith
bits-lt Major.map = omega arith
bits-lt Major.tag = omega arith
bits-lt Major.simple = omega arith

of_bits-bits : (major : Major) → of_bits (bits major) ≡ major
of_bits-bits Major.unsigned = refl
of_bits-bits Major.negative = refl
of_bits-bits Major.bytes = refl
of_bits-bits Major.text = refl
of_bits-bits Major.array = refl
of_bits-bits Major.map = refl
of_bits-bits Major.tag = refl
of_bits-bits Major.simple = refl

join_bits : (q i : ℕ) → q < 8 → i < 32 → bit_or (q * 32) i ≡ q * 32 + i
join_bits q i hq hi =
    let b : ℕ = q * 32 + i in
    let eq : b / 32 * 32 ≡ q * 32 = omega arith in
    let ei : b % 32 ≡ i = omega arith in
    rw (eq, ei) at
      ((==_iff (bit_or (b / 32 * 32) (b % 32)) b).0
        (all_below_sound 256 (λ b. bit_or (b / 32 * 32) (b % 32) == b) b or_table (omega arith)))

-- The head byte that the writer joins, the reader takes apart.
pub head_byte_parts :
    (major : Major) (n : ℕ)
    → (of_bits (head_byte major n / 32) ≡ major)
      × (bit_and (head_byte major n) 0x1F ≡ info_of (width_of n) (n % 256))
head_byte_parts major n =
    let i = info_of (width_of n) (n % 256) in
    let hi : i < 28 = info_of-lt n in
    let joined = join_bits (bits major) i (bits-lt major) (omega arith) in
    let top : (bits major * 32 + i) / 32 ≡ bits major = omega arith in
    let low : (bits major * 32 + i) % 32 ≡ i = omega arith in
    let masked = (==_iff (bit_and (bits major * 32 + i) 0x1F) ((bits major * 32 + i) % 32)).0 (
      all_below_sound 256 (λ b. bit_and b 0x1F == b % 32) (bits major * 32 + i) and_table
        (omega (arith, bits-lt major))) in
    (rw (joined, top) (of_bits-bits major), rw joined (masked ∙ low))

be_one : (n : ℕ) → n < 2 ^ 8 → big_endian 0 (be_bytes 1 n) ≡ n
be_one n h = omega arith

be_two : (n : ℕ) → n < 2 ^ 16 → big_endian 0 (be_bytes 2 n) ≡ n
be_two n h = omega arith

be_four : (n : ℕ) → n < 2 ^ 32 → big_endian 0 (be_bytes 4 n) ≡ n
be_four n h = omega arith

be_eight : (n : ℕ) → n < 2 ^ 64 → big_endian 0 (be_bytes 8 n) ≡ n
be_eight n h = omega arith

-- What each width holds.
abbrev Fits : Width → ℕ → Type 0
Fits inline n = n < 24
Fits one n = n < 2 ^ 8
Fits two n = n < 2 ^ 16
Fits four n = n < 2 ^ 32
Fits eight n = n < 2 ^ 64

width_of-Fits : (n : ℕ) → n ≤ u64_max → Fits (width_of n) n
width_of-Fits n h = ground arith

Width-arg :
    (w : Width) (n : ℕ) (r : CborReader) (front rest : List ℕ)
    → Fits w n
    → At r front (be_bytes (width_bytes w) n ++ rest)
    → argument (info_of w (n % 256)) r ≡ (record r { next = length front + width_bytes w }, ok n)
unfolding argument
Width-arg inline n r front rest h a = ground (arith, a.next)
Width-arg one n r front rest h a =
    rw (take_bytes-At r front (be_bytes 1 n) rest a)
      (λ i. (record r { next = length front + 1 }, ok (be_one n h i)))
Width-arg two n r front rest h a =
    rw (take_bytes-At r front (be_bytes 2 n) rest a)
      (λ i. (record r { next = length front + 2 }, ok (be_two n h i)))
Width-arg four n r front rest h a =
    rw (take_bytes-At r front (be_bytes 4 n) rest a)
      (λ i. (record r { next = length front + 4 }, ok (be_four n h i)))
Width-arg eight n r front rest h a =
    rw (take_bytes-At r front (be_bytes 8 n) rest a)
      (λ i. (record r { next = length front + 8 }, ok (be_eight n h i)))

-- For every value of a u64: the argument that the writer puts behind a head byte in its shortest
-- form is read back as that value, and the reader stands behind its bytes.
pub argument-At :
    (n : ℕ) (r : CborReader) (front rest : List ℕ)
    → n ≤ u64_max
    → At r front (tail_bytes n ++ rest)
    → argument (info_of (width_of n) (n % 256)) r
      ≡ (record r { next = length front + width_bytes (width_of n) }, ok n)
argument-At n r front rest h a = Width-arg (width_of n) n r front rest (width_of-Fits n h) a
