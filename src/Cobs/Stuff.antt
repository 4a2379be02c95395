-- ===== src/Cobs/Stuff.antt =====
-- What a COBS encoding is, with no buffer in it: the reference that the encoder is compared with.
use km.Prelude.{ℕ, suc, ◌≡◌, refl}
use km.Prelude.{List, [], ◌∷◌, ◌++◌, length, ◌==◌, if◌then◌else◌}

-- A block closed: its code, then its bytes.
abbrev pub block_bytes : List ℕ → List ℕ
block_bytes blk = suc (length blk) ∷ blk

-- What one byte adds to the finished blocks, and the block that is open after it.
unfoldable pub stuff_step : List ℕ → ℕ → List ℕ × List ℕ
stuff_step blk byte =
    if length blk == 254
    then (if byte == 0 then (block_bytes blk ++ (1 ∷ []), []) else (block_bytes blk, byte ∷ []))
    else if byte == 0
    then (block_bytes blk, [])
    else ([], blk ++ (byte ∷ []))

unfoldable pub stuff_from : List ℕ → List ℕ → List ℕ
stuff_from blk [] = block_bytes blk
stuff_from blk (byte ∷ src) = let (done, blk') = stuff_step blk byte in done ++ stuff_from blk' src

-- The encoding of `src`.
unfoldable pub stuff : List ℕ → List ℕ
stuff src = stuff_from [] src

stuff_333 : stuff (0x11 ∷ 0 ∷ 0 ∷ 0x22 ∷ []) ≡ 2 ∷ 0x11 ∷ 1 ∷ 2 ∷ 0x22 ∷ []
unfolding stuff stuff_from stuff_step
stuff_333 = refl
