-- ===== src/Crc/Examples.antt =====
-- The theorem on the CRC at a concrete input: no other pair of bytes has this CRC in its place.
use km.Prelude.{ℕ, ◌≡◌, refl, arith, [], ◌∷◌}
use km.Crc.Detect.{crc16_window}

crc16_window_example : ◌≡◌ {A = ℕ} 3 3 × ◌≡◌ {A = ℕ} 4 4
crc16_window_example =
    crc16_window (7 ∷ []) (0 ∷ 9 ∷ []) 3 4 3 4 (omega arith) (omega arith) (omega arith) refl
