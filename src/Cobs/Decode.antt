-- ===== src/Cobs/Decode.antt =====
-- The decoder of crates/km43/src/cobs.rs: one block at a time, on a destination with room for it.
use km.Prelude.{ℕ, suc, ◌-◌, ◌≤◌, ◌≢◌, ◌≡◌, refl, arith}
use km.Prelude.{
  List, [], ◌∷◌, ◌++◌, append-nil, append_assoc, length, length-append, set-append, drop,
}
use km.Prelude.{
  if◌then◌else◌, drop-drop, length-drop, All, false, ◌==◌, le→ltb, ok, take-append, drop-append,
}
use km.Cobs.Defs.{Decoder, decoder_put, copy_bytes, copy_block, implied_zero, decode_round, run}

-- The decoder with `out` written and `tail` free, `rest` unread.
abbrev pub at : List ℕ → List ℕ → List ℕ → Decoder
at rest out tail = record { rest = rest; dst = out ++ tail; written = length out }

pub put-at :
    (rest out : List ℕ) (t : ℕ) (tail : List ℕ) (byte : ℕ)
    → decoder_put (at rest out (t ∷ tail)) byte ≡ (at rest (out ++ (byte ∷ [])) tail, ok tt)
unfolding decoder_put
put-at rest out t tail byte = ground (
  arith,
  length-append out (t ∷ tail),
  length-append out (byte ∷ []),
  set-append out t byte tail,
  append_assoc out (byte ∷ []) tail,
)

-- A block's bytes, none of them zero, land behind what is written.
pub copy_bytes-at :
    (blk rest out tail : List ℕ)
    → All (λ b. b ≢ 0) blk
    → length blk ≤ length tail
    → copy_bytes (at rest out tail) blk ≡ (at rest (out ++ blk) (drop (length blk) tail), ok tt)
unfolding copy_bytes
copy_bytes-at [] rest out tail h fits = rw (append-nil out)
copy_bytes-at (b ∷ blk) rest out [] h fits = absurd (omega arith)
copy_bytes-at (b ∷ blk) rest out (t ∷ tail) h fits = ground (
  arith,
  h.0,
  put-at rest out t tail b,
  copy_bytes-at blk rest (out ++ (b ∷ [])) tail h.1,
  append_assoc out (b ∷ []) blk,
)

suc_nonzero : (n : ℕ) → (suc n == 0) ≡ false
suc_nonzero n = ground arith

minus_one : (n : ℕ) → suc n - 1 ≡ n
minus_one n = omega arith

pub copy_block-at :
    (blk rest out tail : List ℕ)
    → All (λ b. b ≢ 0) blk
    → length blk ≤ length tail
    → copy_block (at (blk ++ rest) out tail) (suc (length blk))
      ≡ (at rest (out ++ blk) (drop (length blk) tail), ok tt)
unfolding copy_block
copy_block-at blk rest out tail h fits =
    rw
      (
        minus_one (length blk),
        le→ltb (length (blk ++ rest)) (length blk) (omega (arith, length-append blk rest)),
        take-append blk rest,
        drop-append blk rest,
        copy_bytes-at blk (blk ++ rest) out tail h fits,
      )
      refl

-- The zero that is written behind a block: none behind a full one, nor behind the last.
abbrev pub zero_after : List ℕ → List ℕ → List ℕ
zero_after blk [] = []
zero_after blk (r ∷ rest) = if length blk == 254 then [] else 0 ∷ []

implied_zero-at :
    (blk rest out tail : List ℕ)
    → length (zero_after blk rest) ≤ length tail
    → implied_zero (suc (length blk)) (at rest out tail)
      ≡ (at rest (out ++ zero_after blk rest) (drop (length (zero_after blk rest)) tail), ok tt)
unfolding implied_zero
implied_zero-at blk [] out tail fits = ground (arith, append-nil out)
implied_zero-at blk (r ∷ rest) out [] fits = ground (arith, append-nil out)
implied_zero-at blk (r ∷ rest) out (t ∷ tail) fits =
    ground (arith, append-nil out, put-at (r ∷ rest) out t tail 0)

-- One round takes a block off the front of what is read.
pub run_block :
    (fuel : ℕ) (blk rest out tail : List ℕ)
    → All (λ b. b ≢ 0) blk
    → length (blk ++ zero_after blk rest) ≤ length tail
    → let added = blk ++ zero_after blk rest in
      run (suc fuel) (suc (length blk) ∷ (blk ++ rest)) (out ++ tail) (length out)
      ≡ run fuel rest ((out ++ added) ++ drop (length added) tail) (length (out ++ added))
unfolding run decode_round
run_block fuel blk rest out tail h fits =
    let z = zero_after blk rest in
    let size = length-append blk z in
    rw
      (
        copy_block-at blk rest out tail h (omega (arith, size)),
        implied_zero-at blk rest (out ++ blk) (drop (length blk) tail)
            (omega (arith, size, length-drop (length blk) tail)),
        drop-drop (length z) (length blk) tail,
        append_assoc out blk z,
        ← size,
        suc_nonzero (length blk),
      )
      refl
