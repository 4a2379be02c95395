-- ===== src/Frame/Reader.antt =====
-- What a reader of crates/km43/src/frame.rs keeps, whatever bytes arrive, and how it finds its footing.
use km.Prelude.{ℕ, zero, suc, ◌+◌, ◌≤◌, ◌≡◌, refl, ap, arith, inl, inr}
use km.Prelude.{List, [], ◌∷◌, ◌++◌, length, length-append, length-set, take, All, IsByte}
use km.Prelude.{replicate, length-replicate, false, Bool-cases, ltb, ◌==◌, Result, ok, err}
use km.Cobs.Defs.{CobsError, decode}
use km.Cobs.Bounds.{Ends, decode-Ends}
use km.Frame.Defs.{
  FrameReader, Received, nothing, frame, push, hold, end_run, take_frame, opened, max_encoded,
  max_decoded, max_payload, new_reader,
}
use km.Frame.Feed.{feed, feed-append, push-byte, IsReader, AtBoundary}
use km.Frame.Write.{frame_body}
use km.Frame.RoundTrip.{wire, feed-wire, feed_one}

pub hold-IsReader : (r : FrameReader) (byte : ℕ) → IsReader r → IsReader (hold r byte)
unfolding hold
hold-IsReader r byte h = ground (arith, length-set r.encoded r.at byte)

opened_width :
    (result : List ℕ × Result CobsError ℕ) (cap written k : ℕ)
    → Ends result cap written k
    → length (opened result).0 ≡ cap
opened_width (decoded, ok n) cap written zero h = h.0
opened_width (decoded, ok n) cap written (suc k) h = h.0
opened_width (decoded, err why) cap written zero h = h.0
opened_width (decoded, err why) cap written (suc k) h = h.0

take_frame_width : (r : FrameReader) (len : ℕ) → length (take_frame r len).0 ≡ length r.decoded
unfolding take_frame
take_frame_width r len = elim (Bool-cases (ltb (length r.encoded) len)) [
  | inl past ↦ rw past
  | inr inside ↦ rw inside (
      opened_width (decode (take len r.encoded) r.decoded) _ _ _
        (decode-Ends (take len r.encoded) r.decoded))
]

-- A delimiter puts any reader at a boundary, whatever it held and whatever it answers.
pub push_delimiter-AtBoundary : (r : FrameReader) → IsReader r → AtBoundary (push r 0).0
unfolding push end_run
push_delimiter-AtBoundary r h =
    ground (arith, take_frame_width (record r { waiting = 0; at = 0; overlong = false }) r.at)

-- Any byte keeps the widths of both buffers of the reader and its run within the receive buffer.
pub push-IsReader : (r : FrameReader) (byte : ℕ) → IsReader r → IsReader (push r byte).0
push-IsReader r byte h = elim (Bool-cases (byte == 0)) [
  | inl z ↦ let e : byte ≡ 0 = ground arith in rw e (push_delimiter-AtBoundary r h).reader
  | inr nz ↦ rw (push-byte r byte (ground arith)) (hold-IsReader r byte h)
]

feed-IsReader : (bytes : List ℕ) (r : FrameReader) → IsReader r → IsReader (feed r bytes).0
unfolding feed
feed-IsReader [] r h = h
feed-IsReader (byte ∷ bytes) r h = feed-IsReader bytes (push r byte).0 (push-IsReader r byte h)

pub new_reader-AtBoundary : AtBoundary new_reader
unfolding new_reader
new_reader-AtBoundary = record {
  reader = record {
    encoded_width = length-replicate {A = ℕ} max_encoded 0;
    decoded_width = length-replicate {A = ℕ} max_decoded 0;
    within = omega arith;
  };
  empty = refl;
  fits = refl;
}

length-feed : (bytes : List ℕ) (r : FrameReader) → length (feed r bytes).1 ≡ length bytes
unfolding feed
length-feed [] r = refl
length-feed (byte ∷ bytes) r = ap suc (length-feed bytes (push r byte).0)

after_delimiter :
    (noise : List ℕ) (r : FrameReader) → IsReader r → AtBoundary (feed r (noise ++ (0 ∷ []))).0
after_delimiter noise r h =
    rw (feed-append noise (0 ∷ []) r, feed_one (feed r noise).0 0)
      (push_delimiter-AtBoundary (feed r noise).0 (feed-IsReader noise r h))

-- A well-formed reader in any state, fed any noise and then one delimiter, hands up the next
-- whole frame intact at its last byte, with nothing coming back while it arrives.
pub feed_resync :
    (r : FrameReader) (noise payload : List ℕ)
    → IsReader r
    → All IsByte payload
    → length payload ≤ max_payload
    → (answers : List Received) × (length answers ≡ length noise + 1)
      × ((feed r ((noise ++ (0 ∷ [])) ++ wire payload)).1
          ≡ answers ++ (replicate (length (frame_body payload)) nothing ++ (frame payload ∷ [])))
feed_resync r noise payload h bytes cap =
    let first = feed r (noise ++ (0 ∷ [])) in
    (
      first.1,
      rw length-feed (length-append noise (0 ∷ [])),
      rw
          (
            feed-append (noise ++ (0 ∷ [])) (wire payload) r,
            (feed-wire first.0 payload (after_delimiter noise r h) bytes cap).0,
          )
          refl,
    )
