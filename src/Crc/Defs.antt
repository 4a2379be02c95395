-- ===== src/Crc/Defs.antt =====
-- The definitions of crates/km43/src/crc.rs.
use km.Prelude.{ℕ, zero, suc, ◌*◌, ◌%◌, ◌≡◌, refl, List, [], ◌∷◌, bit_and, bit_xor}
use km.Prelude.{◌==◌, if◌then◌else◌}

abbrev pub poly : ℕ
poly = 0x1021

abbrev pub init : ℕ
init = 0xFFFF

-- One round of the inner loop; `crc << 1` drops the top bit of the `u16`.
unfoldable pub crc_bit : ℕ → ℕ
crc_bit crc = if bit_and crc 0x8000 == 0 then crc * 2 % 65536 else bit_xor (crc * 2 % 65536) poly

-- `while bit < 8`, by the rounds left.
unfoldable pub crc_bits : ℕ → ℕ → ℕ
crc_bits zero crc = crc
crc_bits (suc left) crc = crc_bits left (crc_bit crc)

-- One byte enters the top half of the register.
unfoldable pub crc_byte : ℕ → ℕ → ℕ
crc_byte crc byte = crc_bits 8 (bit_xor crc (byte * 256))

-- `while let Some((&byte, rest)) = data.split_first()`.
unfoldable pub crc_from : ℕ → List ℕ → ℕ
crc_from crc [] = crc
crc_from crc (byte ∷ rest) = crc_from (crc_byte crc byte) rest

unfoldable pub crc16 : List ℕ → ℕ
unfolding crc_from
crc16 bytes = crc_from init bytes

-- The published check value, which the source asserts at compile time.
check_value : crc16 (0x31 ∷ 0x32 ∷ 0x33 ∷ 0x34 ∷ 0x35 ∷ 0x36 ∷ 0x37 ∷ 0x38 ∷ 0x39 ∷ []) ≡ 0x29B1
unfolding crc16 crc_byte crc_bits crc_bit
check_value = refl
