-- ===== src/Cobs/RoundTrip.antt =====
-- Decoding what was encoded (crates/km43/src/cobs.rs), and that an encoding holds no zero.
use km.Prelude.{ℕ, zero, suc, ◌+◌, ◌≤◌, ◌<◌, ◌≢◌, ◌≡◌, refl, ◌∙◌, arith, inl, inr}
use km.Prelude.{
  List, [], ◌∷◌, ◌++◌, append-nil, append_assoc, length, length-append, drop, drop-drop,
  length-drop,
}
use km.Prelude.{All, Bool-cases, ◌==◌, if◌then◌else◌, ok, isize_max, take, take-append}
use km.Cobs.Defs.{encode, decode, run, max_encoded_len}
use km.Cobs.Stuff.{block_bytes, stuff_step, stuff_from, stuff}
use km.Cobs.Steps.{block-le-stuff_from}
use km.Cobs.Decode.{run_block, zero_after}
use km.Cobs.Encode.{encode-stuff}

abbrev pub NonZero : List ℕ → Type 0
NonZero = All (λ b. b ≢ 0)

pub NonZero-append : (xs ys : List ℕ) → NonZero xs → NonZero ys → NonZero (xs ++ ys)
NonZero-append [] ys h k = k
NonZero-append (x ∷ xs) ys h k = (h.0, NonZero-append xs ys h.1 k)

stuff_step-NonZero :
    (blk : List ℕ) (byte : ℕ)
    → NonZero blk
    → NonZero (stuff_step blk byte).0 × NonZero (stuff_step blk byte).1
unfolding stuff_step
stuff_step-NonZero blk byte h = elim (Bool-cases (byte == 0)) [
  | inl z ↦ ground (arith, NonZero-append blk (1 ∷ []) h)
  | inr nz ↦ ground (arith, NonZero-append blk (byte ∷ []) h)
]

stuff_from-NonZero : (blk src : List ℕ) → NonZero blk → NonZero (stuff_from blk src)
unfolding stuff_from
stuff_from-NonZero blk [] h = ground arith
stuff_from-NonZero blk (byte ∷ src) h =
    let step = stuff_step-NonZero blk byte h in
    NonZero-append (stuff_step blk byte).0 _ step.0
      (stuff_from-NonZero (stuff_step blk byte).1 src step.1)

-- An encoding never contains the delimiter.
pub stuff-NonZero : (src : List ℕ) → NonZero (stuff src)
unfolding stuff
stuff-NonZero src = stuff_from-NonZero [] src tt

-- In a destination of max_encoded_len bytes, encode answers a length, and that many bytes at the
-- front of the destination hold no zero.
pub encode-NonZero :
    (src dst : List ℕ)
    → length dst ≤ isize_max
    → max_encoded_len (length src) ≤ length dst
    → (n : ℕ) × ((encode src dst).1 ≡ ok n) × NonZero (take n (encode src dst).0)
encode-NonZero src dst h fits =
    let e = encode-stuff src dst h fits in
    let behind = drop (length (stuff src)) dst in
    (length (stuff src), rw e refl, rw (e, take-append (stuff src) behind) (stuff-NonZero src))

-- The run over the rest of an encoding writes the open block and the bytes behind it.
abbrev Decodes : ℕ → List ℕ → List ℕ → List ℕ → List ℕ → Type 0
Decodes fuel input plain out tail =
    run fuel input (out ++ tail) (length out)
    ≡ ((out ++ plain) ++ drop (length plain) tail, ok (length (out ++ plain)))

-- The zero behind a block that is not the last.
abbrev gap : List ℕ → List ℕ
gap blk = if length blk == 254 then [] else 0 ∷ []

zero_after-gap : (blk rest : List ℕ) → 1 ≤ length rest → zero_after blk rest ≡ gap blk
zero_after-gap blk [] h = absurd (omega arith)
zero_after-gap blk (r ∷ rest) h = refl

-- A closed block with more behind it, and what the rest decodes to.
Decodes-block :
    (fuel : ℕ) (blk rest plain out tail : List ℕ)
    → NonZero blk
    → 1 ≤ length rest
    → length (blk ++ gap blk) ≤ length tail
    → Decodes fuel rest plain (out ++ (blk ++ gap blk)) (drop (length (blk ++ gap blk)) tail)
    → Decodes (suc fuel) (block_bytes blk ++ rest) ((blk ++ gap blk) ++ plain) out tail
Decodes-block fuel blk rest plain out tail h more fits rec =
    let added = blk ++ gap blk in
    let e = run_block fuel blk rest out tail h (rw (zero_after-gap blk rest more) fits) in
    (rw (zero_after-gap blk rest more) at e)
    ∙ rec
    ∙ rw
        (
          drop-drop (length plain) (length added) tail,
          ← length-append added plain,
          append_assoc out added plain,
        )
        refl

-- The last block.
Decodes-last :
    (fuel : ℕ) (blk out tail : List ℕ)
    → NonZero blk
    → length blk ≤ length tail
    → Decodes (suc fuel) (block_bytes blk) blk out tail
unfolding run
Decodes-last fuel blk out tail h fits =
    rw (append-nil blk) at (run_block fuel blk [] out tail h (rw (append-nil blk) fits))

-- The three ways an encoding goes on.
stuff_from_full :
    (blk : List ℕ) (byte : ℕ) (src : List ℕ)
    → length blk ≡ 254
    → stuff_from blk (byte ∷ src) ≡ block_bytes blk ++ stuff_from [] (byte ∷ src)
unfolding stuff_from stuff_step
stuff_from_full blk byte src h =
    ground (arith, append_assoc (block_bytes blk) (1 ∷ []) (stuff_from [] src))

stuff_from_zero :
    (blk src : List ℕ)
    → length blk < 254
    → stuff_from blk (0 ∷ src) ≡ block_bytes blk ++ stuff_from [] src
unfolding stuff_from stuff_step
stuff_from_zero blk src h = ground arith

stuff_from_byte :
    (blk : List ℕ) (byte : ℕ) (src : List ℕ)
    → length blk < 254
    → byte ≢ 0
    → stuff_from blk (byte ∷ src) ≡ stuff_from (blk ++ (byte ∷ [])) src
unfolding stuff_from stuff_step
stuff_from_byte blk byte src h nz = ground arith

run-stuff_from :
    (src blk out tail : List ℕ) (fuel : ℕ)
    → NonZero blk
    → length blk ≤ 254
    → length (stuff_from blk src) ≤ fuel
    → length blk + length src ≤ length tail
    → Decodes fuel (stuff_from blk src) (blk ++ src) out tail
run-stuff_from [] blk out tail zero h size steps fits =
    absurd (omega (arith, block-le-stuff_from blk [] size))
run-stuff_from [] blk out tail (suc fuel) h size steps fits =
    unfold stuff_from in rw (append-nil blk) (Decodes-last fuel blk out tail h (omega arith))
run-stuff_from (byte ∷ src) blk out tail zero h size steps fits =
    absurd (omega (arith, block-le-stuff_from blk (byte ∷ src) size))
run-stuff_from (byte ∷ src) blk out tail (suc fuel) h size steps fits =
    elim (Bool-cases (length blk == 254)) [
      | inl full ↦
          let e = stuff_from_full blk byte src (ground arith) in
          let g : gap blk ≡ [] = rw full in
          let b : blk ++ gap blk ≡ blk = rw g (append-nil blk) in
          let steps' = rw e at steps in
          rw e (
            rw b at (
              Decodes-block fuel blk (stuff_from [] (byte ∷ src)) (byte ∷ src) out tail h
                (block-le-stuff_from [] (byte ∷ src) (omega arith)) (rw b (omega arith))
                (rw b (
                  run-stuff_from (byte ∷ src) [] (out ++ blk) (drop (length blk) tail) fuel tt
                    (omega arith)
                    (omega
                      (arith, steps', length-append (block_bytes blk) (stuff_from [] (byte ∷ src))))
                    (omega (arith, length-drop (length blk) tail))))))
      | inr space ↦ elim (Bool-cases (byte == 0)) [
        | inl z ↦
            let byte_zero : byte ≡ 0 = ground arith in
            let e = stuff_from_zero blk src (ground arith) in
            let g : gap blk ≡ 0 ∷ [] = rw space in
            let b : (blk ++ gap blk) ++ src ≡ blk ++ (0 ∷ src) =
              rw g (append_assoc blk (0 ∷ []) src) in
            let size' = length-append blk (0 ∷ []) in
            let steps' = rw (byte_zero, e) at steps in
            rw (byte_zero, e, ← b)
              (Decodes-block fuel blk (stuff_from [] src) src out tail h
                (block-le-stuff_from [] src (omega arith)) (rw g (omega arith))
                (rw g (
                  run-stuff_from src [] (out ++ (blk ++ (0 ∷ [])))
                    (drop (length (blk ++ (0 ∷ []))) tail) fuel tt (omega arith)
                    (omega (arith, steps', length-append (block_bytes blk) (stuff_from [] src)))
                    (omega (arith, length-drop (length (blk ++ (0 ∷ []))) tail)))))
        | inr nz ↦
            let e = stuff_from_byte blk byte src (ground arith) (ground arith) in
            let size' = length-append blk (byte ∷ []) in
            let a = append_assoc blk (byte ∷ []) src in
            rw (e, ← a)
              (run-stuff_from src (blk ++ (byte ∷ [])) out tail (suc fuel)
                (NonZero-append blk (byte ∷ []) h (ground arith)) (ground arith) (rw e at steps)
                (omega arith))
      ]
    ]

decode-run :
    (frame dst : List ℕ) → 1 ≤ length frame → decode frame dst ≡ run (length frame) frame dst 0
unfolding decode
decode-run [] dst h = absurd (omega arith)
decode-run (code ∷ rest) dst h = refl

-- Decoding an encoding gives back what was encoded, in any destination it fits, with the rest of
-- the destination untouched.
pub decode-stuff :
    (src dst : List ℕ)
    → length src ≤ length dst
    → decode (stuff src) dst ≡ (src ++ drop (length src) dst, ok (length src))
unfolding stuff
decode-stuff src dst h =
    rw (decode-run (stuff_from [] src) dst (block-le-stuff_from [] src (omega arith)))
      (run-stuff_from src [] [] dst _ tt (omega arith) (omega arith) (omega arith))

-- A destination of max_encoded_len bytes: encode succeeds, and decode of the bytes it wrote gives
-- back the source, its length, and the rest of the decode destination untouched.
pub decode-encode :
    (src dst back : List ℕ)
    → length dst ≤ isize_max
    → max_encoded_len (length src) ≤ length dst
    → length src ≤ length back
    → (n : ℕ) × ((encode src dst).1 ≡ ok n)
      × (decode (take n (encode src dst).0) back ≡ (src ++ drop (length src) back, ok (length src)))
decode-encode src dst back h room fits = (
  length (stuff src),
  rw (encode-stuff src dst h room),
  rw (encode-stuff src dst h room, take-append (stuff src) (drop (length (stuff src)) dst))
      (decode-stuff src back fits),
)
