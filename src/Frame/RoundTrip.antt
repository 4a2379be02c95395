-- ===== src/Frame/RoundTrip.antt =====
-- What the writer of crates/km43/src/frame.rs sends, its reader hands up, also behind noise.
use km.Prelude.{ℕ, suc, ◌+◌, ◌-◌, ◌≤◌, ◌<◌, ◌≡◌, refl, ap, arith}
use km.Prelude.{
  List, [], ◌∷◌, ◌++◌, append_assoc, length, length-append, take, take-append, All, IsByte,
}
use km.Prelude.{drop, drop-append, length-drop, replicate, false, le→ltb, Result, ok, isize_max}
use km.Cobs.Stuff.{stuff}
use km.Cobs.RoundTrip.{NonZero, stuff-NonZero, decode-stuff}
use km.Cobs.Encode.{length-stuff}
use km.Crc.Defs.{crc16}
use km.Crc.Detect.{crc16-IsWord}
use km.Frame.Defs.{
  FrameReader, FrameWriter, FrameError, nothing, frame, push, end_run, take_frame, open_frame,
  check_crc, to_le_bytes, write, max_encoded, max_decoded, max_payload, max_frame, max_frame_len,
}
use km.Frame.Write.{guarded, frame_body, length-guarded, write-frame}
use km.Frame.Feed.{feed, feed-append, feed-run, AtBoundary}

check_crc-guarded :
    (payload : List ℕ)
    → All IsByte payload
    → check_crc payload (to_le_bytes (crc16 payload)) ≡ ok payload
unfolding check_crc
check_crc-guarded payload h = ground (arith, crc16-IsWord payload h)

open_frame-guarded :
    (payload tail : List ℕ)
    → All IsByte payload
    → open_frame (guarded payload ++ tail) (length (guarded payload)) ≡ ok payload
unfolding open_frame
open_frame-guarded payload tail h =
    let size = length-guarded payload in
    let less : length (guarded payload) - 2 ≡ length payload = omega (arith, size) in
    rw
      (
        le→ltb (length (guarded payload ++ tail)) (length (guarded payload))
            (omega (arith, length-append (guarded payload) tail)),
        take-append (guarded payload) tail,
        less,
        take-append payload (to_le_bytes (crc16 payload)),
        drop-append payload (to_le_bytes (crc16 payload)),
      )
      (check_crc-guarded payload h)

frame_body-pos : (payload : List ℕ) → 0 < length (frame_body payload)
unfolding frame_body
frame_body-pos payload = omega (arith, length-stuff (guarded payload))

frame_body-NonZero : (payload : List ℕ) → NonZero (frame_body payload)
unfolding frame_body
frame_body-NonZero payload = stuff-NonZero (guarded payload)

-- No frame of a payload within the cap overruns the receive buffer.
pub frame_body-le :
    (payload : List ℕ) → length payload ≤ max_payload → length (frame_body payload) ≤ max_encoded
unfolding frame_body
frame_body-le payload h = omega (arith, length-stuff (guarded payload), length-guarded payload)

pub feed_one :
    (r : FrameReader) (byte : ℕ) → feed r (byte ∷ []) ≡ ((push r byte).0, (push r byte).1 ∷ [])
unfolding feed
feed_one r byte = refl

-- The decode buffer behind a frame.
abbrev pub decoded_frame : List ℕ → List ℕ → List ℕ
decoded_frame payload old = guarded payload ++ drop (length (guarded payload)) old

decoded_frame_width :
    (payload old : List ℕ)
    → length payload ≤ max_payload
    → length old ≡ max_decoded
    → length (decoded_frame payload old) ≡ max_decoded
decoded_frame_width payload old cap wide = omega (
  arith,
  length-guarded payload,
  length-append (guarded payload) (drop (length (guarded payload)) old),
  length-drop (length (guarded payload)) old,
)

take_frame-body :
    (r : FrameReader) (payload tail : List ℕ)
    → All IsByte payload
    → length payload ≤ max_payload
    → length r.decoded ≡ max_decoded
    → r.encoded ≡ frame_body payload ++ tail
    → take_frame r (length (frame_body payload)) ≡ (decoded_frame payload r.decoded, ok payload)
unfolding take_frame frame_body
take_frame-body r payload tail bytes cap wide e =
    let body = stuff (guarded payload) in
    rw
      (
        e,
        le→ltb (length (body ++ tail)) (length body) (omega (arith, length-append body tail)),
        take-append body tail,
        decode-stuff (guarded payload) r.decoded (omega (arith, length-guarded payload)),
      )
      (ap {B = List ℕ × Result FrameError (List ℕ)} (λ x. (decoded_frame payload r.decoded, x))
        (open_frame-guarded payload (drop (length (guarded payload)) r.decoded) bytes))

-- The delimiter behind a frame's bytes hands its payload up, and leaves the reader at a boundary.
pub push-frame :
    (r : FrameReader) (payload tail : List ℕ)
    → All IsByte payload
    → length payload ≤ max_payload
    → length r.decoded ≡ max_decoded
    → r.encoded ≡ frame_body payload ++ tail
    → r.at ≡ length (frame_body payload)
    → r.overlong ≡ false
    → push r 0 ≡ (
      record r { waiting = 0; at = 0; overlong = false; decoded = decoded_frame payload r.decoded },
      frame payload,
    )
unfolding push end_run
push-frame r payload tail bytes cap wide e p fits = ground (
  arith,
  frame_body-pos payload,
  take_frame-body (record r { waiting = 0; at = 0; overlong = false }) payload tail bytes cap wide
      e,
)

-- A wire frame: the bytes that `write` puts at the front of its destination.
abbrev pub wire : List ℕ → List ℕ
wire payload = frame_body payload ++ (0 ∷ [])

-- A reader at a boundary takes a whole frame in, hands its payload up at the last byte and nothing
-- before, and is at a boundary again.
pub feed-wire :
    (r : FrameReader) (payload : List ℕ)
    → AtBoundary r
    → All IsByte payload
    → length payload ≤ max_payload
    → ((feed r (wire payload)).1
        ≡ replicate (length (frame_body payload)) nothing ++ (frame payload ∷ []))
      × AtBoundary (feed r (wire payload)).0
feed-wire r payload b bytes cap =
    let body = frame_body payload in
    let long = frame_body-le payload cap in
    let collected =
      feed-run body [] r.encoded r (frame_body-NonZero payload) refl b.empty
        (omega (arith, b.reader.encoded_width)) (omega (arith, b.reader.encoded_width)) in
    let ended =
      push-frame (record r { encoded = body ++ drop (length body) r.encoded; at = length body })
        payload (drop (length body) r.encoded) bytes cap b.reader.decoded_width refl refl b.fits in
    rw (feed-append body (0 ∷ []) r, collected, feed_one _ 0, ended)
      (
        refl,
        record {
          reader = record {
            encoded_width = omega (
              arith,
              length-append body (drop (length body) r.encoded),
              length-drop (length body) r.encoded,
              b.reader.encoded_width,
            );
            decoded_width = decoded_frame_width payload r.decoded cap b.reader.decoded_width;
            within = omega arith;
          };
          empty = refl;
          fits = refl;
        },
      )

minus_one : (n : ℕ) → n + 1 - 1 ≡ n
minus_one n = omega arith

take-wire :
    (payload rest : List ℕ)
    → take (length (frame_body payload) + 1) (frame_body payload ++ (0 ∷ rest)) ≡ wire payload
take-wire payload rest =
    rw
      (
        ← length-append (frame_body payload) (0 ∷ []),
        ← append_assoc (frame_body payload) (0 ∷ []) rest,
      )
      (take-append (wire payload) rest)

-- For a payload of bytes within the cap and a destination sized by max_frame_len, write succeeds
-- with a length of at most MAX_FRAME, and a reader at a boundary fed those bytes hands up exactly
-- the payload at the last byte and nothing before.
pub feed-write :
    (w : FrameWriter) (payload dst : List ℕ) (r : FrameReader)
    → length w.body ≡ max_decoded
    → length payload ≤ max_payload
    → length dst ≤ isize_max
    → max_frame_len (length payload) ≤ length dst
    → All IsByte payload
    → AtBoundary r
    → (n : ℕ) × ((write w payload dst).2 ≡ ok n)
      × (n ≤ max_frame)
      × ((feed r (take n (write w payload dst).1)).1
          ≡ replicate (n - 1) nothing ++ (frame payload ∷ []))
feed-write w payload dst r wide cap small fits bytes b =
    let (body, e) = write-frame w payload dst wide cap small fits in
    let n = length (frame_body payload) + 1 in
    (
      n,
      rw e,
      omega (arith, frame_body-le payload cap),
      rw
          (
            e,
            take-wire payload (drop (suc (length (frame_body payload))) dst),
            minus_one (length (frame_body payload)),
          )
          (feed-wire r payload b bytes cap).0,
    )
