-- ===== src/Cobs/Bounds.antt =====
-- What the decoder of crates/km43/src/cobs.rs does on any bytes at all.
use km.Prelude.{ℕ, zero, suc, ◌+◌, ◌-◌, ◌≤◌, ◌<◌, ◌≢◌, ◌≡◌, ◌⊎◌, ◌∙◌, arith, inl, inr}
use km.Prelude.{List, [], ◌∷◌, length, length-set, drop, length-drop, take, length-take}
use km.Prelude.{Bool-cases, ◌==◌, ltb, Result, ok, err}
use km.Cobs.Defs.{
  CobsError, Decoder, Step, decoder_put, copy_bytes, copy_block, implied_zero, decode_round, run,
  decode, stuck, run_on, try_decoder,
}

-- A step keeps the destination's length, and on success writes `n` bytes within it.
abbrev Kept : Step → Decoder → ℕ → Type 0
Kept (d', ok _) d n =
    (length d'.dst ≡ length d.dst)
    × (d'.written ≡ d.written + n)
    × (d'.written ≤ length d.dst)
    × (d'.rest ≡ d.rest)
Kept (d', err why) d n = (length d'.dst ≡ length d.dst) × (why ≢ stuck)

put-Kept : (d : Decoder) (byte : ℕ) → Kept (decoder_put d byte) d 1
unfolding decoder_put
put-Kept d byte = ground (arith, length-set d.dst d.written byte)

suc-eq-one_add : (n : ℕ) → suc n ≡ 1 + n
suc-eq-one_add n = omega arith

take_all : (n : ℕ) (xs : List ℕ) → n ≤ length xs → length (take n xs) ≡ n
take_all n xs h = omega (arith, length-take n xs)

-- Two steps in a row.
Kept-trans :
    (s : Step) (d d' : Decoder) (m n : ℕ)
    → length d'.dst ≡ length d.dst
    → d'.written ≡ d.written + m
    → d'.rest ≡ d.rest
    → Kept s d' n
    → Kept s d (m + n)
Kept-trans (d'', ok _) d d' m n same more rest (same', more', fits, rest') =
    (same' ∙ same, omega arith, omega arith, rest' ∙ rest)
Kept-trans (d'', err why) d d' m n same more rest (same', live) = (same' ∙ same, live)

Kept-try :
    (s : Step) (k : Decoder → Step) (d : Decoder) (m n : ℕ)
    → Kept s d m
    → ((d' : Decoder) → d'.written ≤ length d'.dst → Kept (k d') d' n)
    → Kept (try_decoder s k) d (m + n)
Kept-try (d', ok _) k d m n (same, more, fits, rest) next =
    Kept-trans (k d') d d' m n same more rest (next d' (omega arith))
Kept-try (d', err why) k d m n h next = h

copy_bytes-Kept :
    (block : List ℕ) (d : Decoder)
    → d.written ≤ length d.dst
    → Kept (copy_bytes d block) d (length block)
unfolding copy_bytes
copy_bytes-Kept [] d h = ground arith
copy_bytes-Kept (byte ∷ block) d h = elim (Bool-cases (byte == 0)) [
  | inl z ↦ rw z (ground arith)
  | inr nz ↦
      rw (nz, suc-eq-one_add (length block))
        (Kept-try (decoder_put d byte) _ d 1 (length block) (put-Kept d byte)
          (λ d' h'. copy_bytes-Kept block d' h'))
]

-- After a round: what it consumed of `rest` covers what it wrote, but for one zero, which is
-- written only when more is to be read.
abbrev Advanced : Step → Decoder → List ℕ → Type 0
Advanced (d', ok _) d rest =
    (length d'.dst ≡ length d.dst)
    × (d'.written ≤ length d.dst)
    × (length d'.rest ≤ length rest)
    × ((d'.written + length d'.rest ≤ d.written + length rest)
        ⊎ ((0 < length d'.rest) × (d'.written + length d'.rest ≤ d.written + suc (length rest))))
Advanced (d', err why) d rest = (length d'.dst ≡ length d.dst) × (why ≢ stuck)

abbrev Copied : Step → Decoder → Type 0
Copied (d', ok _) d =
    (length d'.dst ≡ length d.dst)
    × (d'.written ≤ length d.dst)
    × (length d'.rest ≤ length d.rest)
    × (d'.written + length d'.rest ≡ d.written + length d.rest)
Copied (d', err why) d = (length d'.dst ≡ length d.dst) × (why ≢ stuck)

move_on :
    (s : Step) (d : Decoder) (n : ℕ)
    → n ≤ length d.rest
    → Kept s d n
    → Copied (try_decoder s (λ d'. (record d' { rest = drop n d.rest }, ok tt))) d
move_on (d', ok _) d n h (same, more, fits, rest) = omega (arith, length-drop n d.rest)
move_on (d', err why) d n h k = k

copy_block-Copied :
    (d : Decoder) (code : ℕ) → d.written ≤ length d.dst → Copied (copy_block d code) d
unfolding copy_block
copy_block-Copied d code h = elim (Bool-cases (ltb (length d.rest) (code - 1))) [
  | inl past ↦ rw past (ground arith)
  | inr inside ↦ rw inside (
      move_on (copy_bytes d (take (code - 1) d.rest)) d (code - 1) (ground arith) (
        rw (take_all (code - 1) d.rest (ground arith)) at
          (copy_bytes-Kept (take (code - 1) d.rest) d h)))
]

implied_zero-Advanced :
    (s : Step) (d : Decoder) (code : ℕ)
    → Copied s d
    → Advanced (try_decoder s (implied_zero code)) d d.rest
unfolding implied_zero decoder_put
implied_zero-Advanced (d', ok _) d code c = ground (arith, length-set d'.dst d'.written 0)
implied_zero-Advanced (d', err why) d code c = c

Advanced-from :
    (s : Step) (d : Decoder) (rest : List ℕ)
    → Advanced s (record d { rest = rest }) rest
    → Advanced s d rest
Advanced-from (d', ok _) d rest h = h
Advanced-from (d', err why) d rest h = h

round-Advanced :
    (d : Decoder) (code : ℕ) (rest : List ℕ)
    → d.written ≤ length d.dst
    → Advanced (decode_round d code rest) d rest
unfolding decode_round
round-Advanced d code rest h = elim (Bool-cases (code == 0)) [
  | inl z ↦ rw z (ground arith)
  | inr nz ↦ rw nz (
      Advanced-from _ d rest (
        implied_zero-Advanced (copy_block (record d { rest = rest }) code)
          (record d { rest = rest }) code (copy_block-Copied (record d { rest = rest }) code h)))
]

-- The end of a run over `input`: the destination keeps its length, what is written fits, and it is
-- shorter than the input unless there was none.
abbrev pub Ends : List ℕ × Result CobsError ℕ → ℕ → ℕ → ℕ → Type 0
Ends (dst, ok n) cap written zero = (length dst ≡ cap) × (n ≤ cap) × (n ≤ written)
Ends (dst, ok n) cap written (suc k) = (length dst ≡ cap) × (n ≤ cap) × (n ≤ written + k)
Ends (dst, err why) cap written k = (length dst ≡ cap) × (why ≢ stuck)

Ends-mono :
    (r : List ℕ × Result CobsError ℕ) (cap w w' k k' : ℕ)
    → (w + k ≤ w' + k') ⊎ ((0 < k) × (w + k ≤ w' + suc k'))
    → Ends r cap w k
    → Ends r cap w' (suc k')
Ends-mono (dst, ok n) cap w w' zero k' h e = ground arith
Ends-mono (dst, ok n) cap w w' (suc k) k' h e = ground arith
Ends-mono (dst, err why) cap w w' zero k' h e = e
Ends-mono (dst, err why) cap w w' (suc k) k' h e = e

run_on-Ends :
    (s : Step) (k : Decoder → List ℕ × Result CobsError ℕ) (d : Decoder) (rest : List ℕ)
    → Advanced s d rest
    → ((d' : Decoder)
        → d'.written ≤ length d'.dst
        → length d'.rest ≤ length rest
        → Ends (k d') (length d'.dst) d'.written (length d'.rest))
    → Ends (run_on s k) (length d.dst) d.written (suc (length rest))
run_on-Ends (d', ok _) k d rest (same, fits, less, adv) next =
    Ends-mono (k d') (length d.dst) d'.written d.written (length d'.rest) (length rest) adv
      (rw same at (next d' (omega arith) less))
run_on-Ends (d', err why) k d rest h next = h

run-Ends :
    (fuel : ℕ) (input dst : List ℕ) (written : ℕ)
    → length input ≤ fuel
    → written ≤ length dst
    → Ends (run fuel input dst written) (length dst) written (length input)
unfolding run
run-Ends zero [] dst written h fits = ground arith
run-Ends (suc fuel) [] dst written h fits = ground arith
run-Ends zero (code ∷ rest) dst written h fits = absurd (omega arith)
run-Ends (suc fuel) (code ∷ rest) dst written h fits =
    let d : Decoder = record { rest = code ∷ rest; dst = dst; written = written } in
    run_on-Ends (decode_round d code rest) _ d rest (round-Advanced d code rest fits)
      (λ d' ok_written less. run-Ends fuel d'.rest d'.dst d'.written (omega arith) ok_written)

-- On any bytes and any destination decode keeps the length of the destination and ends without
-- running out of fuel, and a length it answers fits the destination and is less than the frame.
pub decode-Ends : (src dst : List ℕ) → Ends (decode src dst) (length dst) 0 (length src)
unfolding decode
decode-Ends [] dst = ground arith
decode-Ends (code ∷ rest) dst =
    run-Ends (length (code ∷ rest)) (code ∷ rest) dst 0 (omega arith) (omega arith)
