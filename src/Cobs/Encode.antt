-- ===== src/Cobs/Encode.antt =====
-- The encoder of crates/km43/src/cobs.rs writes exactly the reference encoding.
use km.Prelude.{ℕ, zero, suc, ◌+◌, ◌-◌, ◌/◌, ◌≤◌, ◌<◌, ◌≡◌, refl, ◌∙◌, arith}
use km.Prelude.{List, [], ◌∷◌, ◌++◌, append_assoc, length, length-append, drop}
use km.Prelude.{drop-drop, length-drop}
use km.Prelude.{lt→ltb, le→ltb, Result, ok, err, isize_max}
use native.Mathlib.Nat.{add_assoc, zero-add}
use km.Cobs.Defs.{
  CobsError, push_all, finish, encode, max_encoded_len, destination_too_small, finish_run,
}
use km.Cobs.Steps.{
  holding, taken, filled, length-holding, push-holding, stuff_step_size, length-stuff_step,
  block-le-stuff_from,
}
use km.Cobs.Stuff.{block_bytes, stuff_step, stuff_from, stuff}

-- The two halves of a step's output, put together.
join_step :
    (done blk : List ℕ) (byte : ℕ) (src tail : List ℕ)
    → (length (stuff_step blk byte).1 ≤ 254)
      × (length (stuff_step blk byte).0 + length (stuff_step blk byte).1 ≡ length blk + taken blk)
    → let (ds, blk') = stuff_step blk byte in
      let out = stuff_from blk' src in
      suc (length blk') ≤ length out
      → Path
          (List ℕ × Result CobsError ℕ)
          (
            (done ++ ds) ++ (out ++ drop (length out - suc (length blk')) (drop (taken blk) tail)),
            ok (length (done ++ ds) + length out),
          )
          (
            done
                ++ (stuff_from blk (byte ∷ src)
                    ++ drop (length (stuff_from blk (byte ∷ src)) - suc (length blk)) tail),
            ok (length done + length (stuff_from blk (byte ∷ src))),
          )
unfolding stuff_from
join_step done blk byte src tail size le =
    let (ds, blk') = stuff_step blk byte in
    let out = stuff_from blk' src in
    let count : taken blk + (length out - suc (length blk'))
        ≡ length (ds ++ out) - suc (length blk) =
      omega (arith, size, le, length-append ds out) in
    rw
      (
        drop-drop (length out - suc (length blk')) (taken blk) tail,
        count,
        append_assoc done ds (out ++ drop (length (ds ++ out) - suc (length blk)) tail),
        append_assoc ds out (drop (length (ds ++ out) - suc (length blk)) tail),
        length-append done ds,
        length-append ds out,
        add_assoc (length done) (length ds) (length out),
      )
      refl

-- From any point of the run on, what is written is the reference encoding, and the bytes of the
-- destination behind it stay.
finish-push_all :
    (src done : List ℕ) (held : ℕ) (blk tail : List ℕ)
    → length blk ≤ 254
    → length (stuff_from blk src) ≤ suc (length blk) + length tail
    → finish_run (push_all (holding done held blk tail) src) ≡ (
      done ++ (stuff_from blk src ++ drop (length (stuff_from blk src) - suc (length blk)) tail),
      ok (length done + length (stuff_from blk src)),
    )
unfolding push_all
finish-push_all [] done held blk tail h fits =
    unfold finish stuff_from in
    ground (
      arith,
      length-holding done held blk tail,
      filled done held blk tail,
      append_assoc done (block_bytes blk) tail,
    )
finish-push_all (byte ∷ src) done held blk tail h fits =
    let size = stuff_step_size blk byte h in
    let blk' = (stuff_step blk byte).1 in
    let room : taken blk ≤ length tail =
      omega (arith, size, length-stuff_step blk byte src, block-le-stuff_from blk' src size.0) in
    let (held', e) = push-holding done held blk tail byte h room in
    let less : length (stuff_from blk' src) ≤ suc (length blk') + length (drop (taken blk) tail) =
      omega (arith, size, length-stuff_step blk byte src, length-drop (taken blk) tail) in
    rw e (
      finish-push_all src _ held' blk' (drop (taken blk) tail) size.0 less
      ∙ join_step done blk byte src tail size (block-le-stuff_from blk' src size.0))

-- One byte more costs a byte of the bound, and a block's boundary another.
stuff_step_cost :
    (blk : List ℕ) (byte n : ℕ)
    → length blk ≤ 254
    → let (ds, blk') = stuff_step blk byte in
      length ds + (length blk' + n + 1 + (length blk' + n) / 254)
      ≤ length blk + suc n + 1 + (length blk + suc n) / 254
unfolding stuff_step
stuff_step_cost blk byte n h =
    ground (arith, length-append blk (byte ∷ []), length-append (block_bytes blk) (1 ∷ []))

length-stuff_from :
    (blk src : List ℕ)
    → length blk ≤ 254
    → length (stuff_from blk src) ≤ length blk + length src + 1 + (length blk + length src) / 254
length-stuff_from blk [] h = unfold stuff_from in omega arith
length-stuff_from blk (byte ∷ src) h = omega (
  arith,
  length-stuff_step blk byte src,
  stuff_step_cost blk byte (length src) h,
  length-stuff_from (stuff_step blk byte).1 src (stuff_step_size blk byte h).0,
)

-- The reference encoding of `src` is at least one byte longer, and within `max_encoded_len`
-- wherever that does not saturate.
pub length-stuff :
    (src : List ℕ)
    → (1 ≤ length (stuff src)) × (length (stuff src) ≤ length src + length src / 254 + 1)
unfolding stuff
length-stuff src =
    (omega (arith, block-le-stuff_from [] src), omega (arith, length-stuff_from [] src))

drop_pos : (n x : ℕ) (xs : List ℕ) → 1 ≤ n → drop (n - 1) xs ≡ drop n (x ∷ xs)
drop_pos zero x xs h = absurd (omega arith)
drop_pos (suc n) x xs h = let e : suc n - 1 ≡ n = omega arith in rw e

-- In a destination of max_encoded_len bytes, encode returns the length of the reference encoding,
-- leaves it at the front of the destination and touches nothing behind it.
pub encode-stuff :
    (src dst : List ℕ)
    → length dst ≤ isize_max
    → max_encoded_len (length src) ≤ length dst
    → encode src dst ≡ (stuff src ++ drop (length (stuff src)) dst, ok (length (stuff src)))
unfolding encode stuff
encode-stuff src [] h fits = absurd (unfold max_encoded_len in omega arith)
encode-stuff src (x ∷ xs) h fits =
    let bounds = length-stuff src in
    let room : length (stuff_from [] src) ≤ 1 + length xs =
      unfold max_encoded_len in omega (arith, bounds) in
    rw
      (
        le→ltb (length (x ∷ xs)) (max_encoded_len (length src)) fits,
        ← drop_pos (length (stuff_from [] src)) x xs bounds.0,
      )
      (rw (zero-add (length (stuff_from [] src))) at
        (finish-push_all src [] x [] xs (omega arith) room))

-- A destination too small by the bound is refused, and is left as it was.
pub encode_refused :
    (src dst : List ℕ)
    → length dst < max_encoded_len (length src)
    → encode src dst ≡ (dst, err destination_too_small)
unfolding encode
encode_refused src dst h = rw (lt→ltb _ _ h)
