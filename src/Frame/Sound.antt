-- ===== src/Frame/Sound.antt =====
-- What a frame that the reader of crates/km43/src/frame.rs hands up has passed.
use km.Prelude.{ℕ, zero, suc, ◌+◌, ◌-◌, ◌≤◌, ◌<◌, ◌≡◌, refl, ap, arith, inl, inr}
use km.Prelude.{
  List, [], ◌∷◌, ◌++◌, length, length-append, take, take-append-drop, drop, length-take,
}
use km.Prelude.{false, Bool-cases, ltb, ◌==◌, Result, ok, err}
use km.Cobs.Defs.{CobsError, decode}
use km.Cobs.Bounds.{Ends, decode-Ends}
use km.Crc.Defs.{crc16}
use km.Frame.Defs.{
  FrameReader, FrameError, frame, push, end_run, take_frame, opened, open_frame, check_crc,
  max_payload, hand_up, from_le_bytes,
}
use km.Frame.Feed.{IsReader}

-- A decoded frame that holds `envelope` with its own CRC behind it.
abbrev pub Guards : List ℕ → List ℕ → Type 0
Guards whole envelope =
    (low : ℕ) × (high : ℕ) × (whole ≡ envelope ++ (low ∷ high ∷ []))
    × (crc16 envelope ≡ from_le_bytes low high)

-- A successful check names the two CRC bytes.
check_crc_inv :
    (envelope crc x : List ℕ) → check_crc envelope crc ≡ ok x → Guards (envelope ++ crc) x
unfolding check_crc
check_crc_inv envelope [] x h = cc
check_crc_inv envelope (low ∷ []) x h = cc
check_crc_inv envelope (low ∷ high ∷ []) x h =
    elim (Bool-cases (crc16 envelope == from_le_bytes low high)) [
      | inl same ↦ let e : envelope ≡ x = ground arith in rw (← e) (low, high, refl, ground arith)
      | inr other ↦ absurd (ground arith)
    ]
check_crc_inv envelope (low ∷ high ∷ more ∷ rest) x h = cc

open_frame_inv :
    (decoded x : List ℕ) (filled : ℕ)
    → open_frame decoded filled ≡ ok x
    → (filled ≤ length decoded) × Guards (take filled decoded) x
unfolding open_frame
open_frame_inv decoded x filled h = elim (Bool-cases (ltb (length decoded) filled)) [
  | inl past ↦ absurd (ground arith)
  | inr inside ↦ (
    ground arith,
    rw (take-append-drop (filled - 2) (take filled decoded)) at (
        check_crc_inv (take (filled - 2) (take filled decoded))
          (drop (filled - 2) (take filled decoded)) x (rw inside at h)),
  )
]

-- What `decode` answered behind a frame.
abbrev pub Decoded : List ℕ × Result CobsError ℕ → List ℕ → List ℕ → Type 0
Decoded result decoded envelope =
    (filled : ℕ) × (result ≡ (decoded, ok filled))
    × Guards (take filled decoded) envelope
    × (length envelope + 2 ≤ length decoded)

opened_inv :
    (result : List ℕ × Result CobsError ℕ) (decoded x : List ℕ)
    → opened result ≡ (decoded, ok x)
    → Decoded result decoded x
opened_inv (d, err why) decoded x h = cc
opened_inv (d, ok filled) decoded x h =
    let e : d ≡ decoded = cc in
    let r : open_frame d filled ≡ ok x = cc in
    let inv = open_frame_inv d x filled r in
    let (low, high, whole, crc) = inv.1 in
    rw (← e) (
      filled,
      refl,
      inv.1,
      omega
          (arith, inv.0, ap length whole, length-take filled d, length-append x (low ∷ high ∷ [])),
    )

take_frame_inv :
    (r : FrameReader) (len : ℕ) (decoded x : List ℕ)
    → take_frame r len ≡ (decoded, ok x)
    → Decoded (decode (take len r.encoded) r.decoded) decoded x
unfolding take_frame
take_frame_inv r len decoded x h = elim (Bool-cases (ltb (length r.encoded) len)) [
  | inl past ↦ cc (rw past at h)
  | inr inside ↦ opened_inv (decode (take len r.encoded) r.decoded) decoded x (rw inside at h)
]

hand_up_inv :
    (r r' : FrameReader) (result : List ℕ × Result FrameError (List ℕ)) (x : List ℕ)
    → hand_up r result ≡ (r', frame x)
    → result ≡ (r'.decoded, ok x)
hand_up_inv r r' (decoded, ok y) x h = ground arith
hand_up_inv r r' (decoded, err why) x h = absurd (ground arith)

end_run_inv :
    (r r' : FrameReader) (x : List ℕ)
    → end_run r ≡ (r', frame x)
    → (r.overlong ≡ false)
      × (0 < r.at)
      × Decoded (decode (take r.at r.encoded) r.decoded) r'.decoded x
unfolding end_run
end_run_inv r r' x h = elim (Bool-cases r.overlong) [
  | inl long ↦ absurd (ground arith)
  | inr fits ↦ elim (Bool-cases (r.at == 0)) [
    | inl idle ↦ absurd (ground arith)
    | inr run ↦
        let cleared = record r { waiting = 0; at = 0; overlong = false } in
        (
          fits,
          ground arith,
          take_frame_inv cleared r.at r'.decoded x
              (hand_up_inv cleared r' (take_frame cleared r.at) x (rw (fits, run) at h)),
        )
  ]
]

decode_width :
    (result : List ℕ × Result CobsError ℕ) (decoded : List ℕ) (n cap written k : ℕ)
    → result ≡ (decoded, ok n)
    → Ends result cap written k
    → length decoded ≡ cap
decode_width (d, ok m) decoded n cap written zero e h = ground arith
decode_width (d, ok m) decoded n cap written (suc k) e h = ground arith
decode_width (d, err why) decoded n cap written zero e h = cc
decode_width (d, err why) decoded n cap written (suc k) e h = cc

-- A well-formed reader hands a frame up only on a delimiter that ends a non-empty run which
-- fitted its buffer, and then that run decoded to the envelope followed by two bytes that are its
-- CRC, the envelope being within the payload cap.
pub push_frame_sound :
    (r r' : FrameReader) (byte : ℕ) (envelope : List ℕ)
    → IsReader r
    → push r byte ≡ (r', frame envelope)
    → (byte ≡ 0)
      × (r.overlong ≡ false)
      × (0 < r.at)
      × (length envelope ≤ max_payload)
      × Decoded (decode (take r.at r.encoded) r.decoded) r'.decoded envelope
unfolding push
push_frame_sound r r' byte envelope h e = elim (Bool-cases (byte == 0)) [
  | inl z ↦
      let (fits, run, d) = end_run_inv r r' envelope (rw z at e) in
      let wide =
        decode_width (decode (take r.at r.encoded) r.decoded) r'.decoded d.0 (length r.decoded) 0
          (length (take r.at r.encoded)) d.1 (decode-Ends (take r.at r.encoded) r.decoded) in
      (ground arith, fits, run, omega (arith, d.3, wide, h.decoded_width), d)
  | inr nz ↦ absurd (ground arith)
]
