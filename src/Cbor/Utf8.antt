-- ===== src/Cbor/Utf8.antt =====
-- `core::str::from_utf8` of the standard library, as the Unicode standard's table of well-formed
-- byte sequences: what the next byte may be, and how many bytes of its sequence follow.
use km.Prelude.{ℕ, zero, suc, List, [], ◌∷◌, Bool, true, false, ◌&&◌, ltb, leb, if◌then◌else◌, ◌==◌}
use km.Prelude.{◌≡◌, refl, Option, none, some}

abbrev pub Expect : Type 0
Expect = ℕ × ℕ × ℕ

-- What follows a leading byte: continuation bytes, and the range of the first of them.
abbrev pub lead : ℕ → Option Expect
lead b =
    if ltb b 0x80
    then some (0, 0, 0)
    else if ltb b 0xC2
    then none
    else if ltb b 0xE0
    then some (1, 0x80, 0xBF)
    else if b == 0xE0
    then some (2, 0xA0, 0xBF)
    else if b == 0xED
    then some (2, 0x80, 0x9F)
    else if ltb b 0xF0
    then some (2, 0x80, 0xBF)
    else if b == 0xF0
    then some (3, 0x90, 0xBF)
    else if ltb b 0xF4
    then some (3, 0x80, 0xBF)
    else if b == 0xF4
    then some (3, 0x80, 0x8F)
    else none

abbrev pub expect : Expect → ℕ → Option Expect
expect (zero, lo, hi) b = lead b
expect (suc more, lo, hi) b = if leb lo b && leb b hi then some (more, 0x80, 0xBF) else none

abbrev pub done : Option Expect → Bool
done none = false
done (some (more, lo, hi)) = more == 0

abbrev pub expect_next : Option Expect → ℕ → Option Expect
expect_next none b = none
expect_next (some e) b = expect e b

unfoldable pub utf8_from : Option Expect → List ℕ → Bool
utf8_from e [] = done e
utf8_from e (b ∷ rest) = utf8_from (expect_next e b) rest

unfoldable pub is_utf8 : List ℕ → Bool
unfolding utf8_from
is_utf8 raw = utf8_from (some (0, 0, 0)) raw

utf8_runs :
    (is_utf8 (0x6B ∷ 0xC3 ∷ 0xA9 ∷ 0xE2 ∷ 0x82 ∷ 0xAC ∷ []) ≡ true)
    × (is_utf8 (0xC3 ∷ []) ≡ false)
    × (is_utf8 (0xED ∷ 0xA0 ∷ 0x80 ∷ []) ≡ false)
unfolding is_utf8
utf8_runs = (refl, refl, refl)
