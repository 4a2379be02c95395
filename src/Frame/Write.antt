-- ===== src/Frame/Write.antt =====
-- What `FrameWriter::write` (crates/km43/src/frame.rs) leaves in the destination.
use km.Prelude.{
  ℕ, zero, suc, ◌+◌, ◌/◌, ◌≤◌, ◌<◌, ◌≡◌, refl, ap, arith, ◌⊎◌, inl, inr, Bool-cases, ltb,
}
use km.Prelude.{List, [], ◌∷◌, ◌++◌, length, length-append, set, set-append, take-append}
use km.Prelude.{drop, length-drop, le→ltb, lt→ltb, ok, err, isize_max}
use km.Cobs.Defs.{max_encoded_len}
use km.Cobs.Stuff.{stuff}
use km.Cobs.Encode.{encode-stuff, length-stuff}
use km.Crc.Defs.{crc16}
use km.Frame.Defs.{
  FrameWriter, Written, write, delimit, overwrite, to_le_bytes, max_frame_len, max_payload,
  max_decoded, payload_too_long, no_room,
}

-- The envelope with its CRC, and the bytes of its frame before the delimiter.
abbrev pub guarded : List ℕ → List ℕ
guarded payload = payload ++ to_le_bytes (crc16 payload)

unfoldable pub frame_body : List ℕ → List ℕ
frame_body payload = stuff (guarded payload)

overwrite-append :
    (xs slots : List ℕ)
    → length xs ≤ length slots
    → overwrite xs slots ≡ xs ++ drop (length xs) slots
unfolding overwrite
overwrite-append [] slots h = refl
overwrite-append (x ∷ xs) [] h = absurd (omega arith)
overwrite-append (x ∷ xs) (s ∷ slots) h = ap (λ t. x ∷ t) (overwrite-append xs slots (omega arith))

drop_cons : (n : ℕ) (xs : List ℕ) → n < length xs → (y : ℕ) × (drop n xs ≡ y ∷ drop (suc n) xs)
drop_cons zero [] h = absurd (omega arith)
drop_cons zero (x ∷ xs) h = (x, refl)
drop_cons (suc n) [] h = absurd (omega arith)
drop_cons (suc n) (x ∷ xs) h = drop_cons n xs (omega arith)

set_behind :
    (xs dst : List ℕ) (v : ℕ)
    → length xs < length dst
    → set (xs ++ drop (length xs) dst) (length xs) v ≡ xs ++ (v ∷ drop (suc (length xs)) dst)
set_behind xs dst v h =
    let (y, e) = drop_cons (length xs) dst h in
    rw e (set-append xs y v (drop (suc (length xs)) dst))

pub length-guarded : (payload : List ℕ) → length (guarded payload) ≡ length payload + 2
length-guarded payload = length-append payload (to_le_bytes (crc16 payload))

-- The bounds of a frame, in one place.
frame_bounds :
    (payload dst : List ℕ)
    → length dst ≤ isize_max
    → max_frame_len (length payload) ≤ length dst
    → (max_encoded_len (length (guarded payload)) ≤ length dst)
      × (length (frame_body payload) < length dst)
      × (length (frame_body payload) + 1 ≤ length payload + 4 + (length payload + 2) / 254)
unfolding max_frame_len max_encoded_len frame_body
frame_bounds payload dst h fits =
    omega (arith, length-guarded payload, length-stuff (guarded payload))

delimit-body :
    (w : FrameWriter) (body dst : List ℕ)
    → length body < length dst
    → length dst ≤ isize_max
    → delimit w (body ++ drop (length body) dst, ok (length body))
      ≡ (w, body ++ (0 ∷ drop (suc (length body)) dst), ok (length body + 1))
unfolding delimit
delimit-body w body dst h small = ground (
  arith,
  set_behind body dst 0 h,
  length-append body (drop (length body) dst),
  length-drop (length body) dst,
)

-- A payload within the cap, and a destination sized by `max_frame_len`: the frame is written, its
-- length is returned and the rest of the destination is untouched.
pub write-frame :
    (w : FrameWriter) (payload dst : List ℕ)
    → length w.body ≡ max_decoded
    → length payload ≤ max_payload
    → length dst ≤ isize_max
    → max_frame_len (length payload) ≤ length dst
    → (body : List ℕ) × (write w payload dst ≡ (
      record { body = body },
      frame_body payload ++ (0 ∷ drop (suc (length (frame_body payload))) dst),
      ok (length (frame_body payload) + 1),
    ))
unfolding write
write-frame w payload dst wide cap small fits =
    let bytes = guarded payload in
    let size = length-guarded payload in
    let bounds = frame_bounds payload dst small fits in
    (
      bytes ++ drop (length bytes) w.body,
      rw
          (
            le→ltb 4294967295 (length payload + 2) (omega arith),
            le→ltb (length dst) (max_frame_len (length payload)) fits,
            le→ltb (length w.body) (length payload + 2) (omega arith),
            overwrite-append bytes w.body (omega arith),
            ← size,
            take-append bytes (drop (length bytes) w.body),
            encode-stuff bytes dst small bounds.0,
          )
          (unfold frame_body in
            delimit-body _ (stuff bytes) dst (unfold frame_body in bounds.1) small),
    )

-- The guards, and what they leave.
write_refused :
    (w : FrameWriter) (payload dst : List ℕ)
    → length w.body ≡ max_decoded
    → length payload ≤ isize_max
    → (length dst < max_frame_len (length payload) → write w payload dst ≡ (w, dst, err no_room))
      × (max_frame_len (length payload) ≤ length dst
          → max_payload < length payload
          → write w payload dst ≡ (w, dst, err payload_too_long))
unfolding write
write_refused w payload dst wide small = (
  λ short. rw (le→ltb 4294967295 (length payload + 2) (omega arith), lt→ltb (length dst) _ short),
  λ fits long. rw (
    le→ltb 4294967295 (length payload + 2) (omega arith),
    le→ltb (length dst) _ fits,
    lt→ltb (length w.body) (length payload + 2) (omega arith),
  ),
)

-- What a write ends in: a length, both bounds being met, or the bound that is not met, with the
-- writer and the destination as they were.
abbrev pub Ends : FrameWriter → List ℕ → List ℕ → Written → Type 0
Ends w payload dst (w', dst', ok n) =
    (length payload ≤ max_payload) × (max_frame_len (length payload) ≤ length dst)
Ends w payload dst (w', dst', err why) =
    (w' ≡ w)
    × (dst' ≡ dst)
    × (((why ≡ no_room) × (length dst < max_frame_len (length payload)))
        ⊎ ((why ≡ payload_too_long)
            × (max_frame_len (length payload) ≤ length dst)
            × (max_payload < length payload)))

-- Any write with a scratch of its width, of a payload and into a destination of at most
-- isize::MAX bytes, answers a length just when the payload is within the cap and the destination
-- within max_frame_len of it; else it refuses with the bound that is not met, the destination
-- first, and leaves the writer and the destination as they were.
pub write-Ends :
    (w : FrameWriter) (payload dst : List ℕ)
    → length w.body ≡ max_decoded
    → length payload ≤ isize_max
    → length dst ≤ isize_max
    → Ends w payload dst (write w payload dst)
write-Ends w payload dst wide small narrow =
    let (short, long) = write_refused w payload dst wide small in
    elim (Bool-cases (ltb (length dst) (max_frame_len (length payload)))) [
      | inl e ↦
          let less : length dst < max_frame_len (length payload) = ground arith in
          rw (short less) (refl, refl, inl (refl, less))
      | inr e ↦
          let fits : max_frame_len (length payload) ≤ length dst = ground arith in
          elim (Bool-cases (ltb max_payload (length payload))) [
            | inl over ↦
                let past : max_payload < length payload = ground arith in
                rw (long fits past) (refl, refl, inr (refl, fits, past))
            | inr under ↦
                let cap : length payload ≤ max_payload = ground arith in
                let (body, e) = write-frame w payload dst wide cap narrow fits in rw e (cap, fits)
          ]
    ]
