-- ===== src/Frame/Feed.antt =====
-- A reader of crates/km43/src/frame.rs fed a stream of bytes, one `push` each.
use km.Prelude.{ℕ, ◌+◌, ◌≤◌, ◌<◌, ◌≢◌, ◌≡◌, refl, ap, ◌∙◌, arith}
use km.Prelude.{List, [], ◌∷◌, ◌++◌, append-nil, append_assoc, length, length-append, set-append}
use km.Prelude.{drop, replicate, false}
use km.Cobs.RoundTrip.{NonZero}
use km.Frame.Defs.{FrameReader, Received, nothing, push, hold, max_encoded, max_decoded}

-- The reader after the bytes, and what each byte did.
unfoldable pub feed : FrameReader → List ℕ → FrameReader × List Received
feed r [] = (r, [])
feed r (byte ∷ bytes) =
    let (r', what) = push r byte in let (r'', rest) = feed r' bytes in (r'', what ∷ rest)

pub feed-append :
    (xs ys : List ℕ) (r : FrameReader)
    → feed r (xs ++ ys) ≡ ((feed (feed r xs).0 ys).0, (feed r xs).1 ++ (feed (feed r xs).0 ys).1)
unfolding feed
feed-append [] ys r = refl
feed-append (x ∷ xs) ys r = rw (feed-append xs ys (push r x).0) refl

-- The buffers have their widths, and the run in progress lies within its buffer.
pub record IsReader (r : FrameReader) : Type 0 where
  pub encoded_width : length r.encoded ≡ max_encoded
  pub decoded_width : length r.decoded ≡ max_decoded
  pub within : r.at ≤ max_encoded

-- Nothing is in progress, as behind a delimiter and in a new reader.
pub record AtBoundary (r : FrameReader) : Type 0 where
  pub reader : IsReader r
  pub empty : r.at ≡ 0
  pub fits : r.overlong ≡ false

hold-run :
    (r : FrameReader) (held : List ℕ) (t : ℕ) (tail : List ℕ) (byte : ℕ)
    → r.encoded ≡ held ++ (t ∷ tail)
    → r.at ≡ length held
    → length held < max_encoded
    → hold r byte
      ≡ record r { encoded = (held ++ (byte ∷ [])) ++ tail; at = length (held ++ (byte ∷ [])) }
unfolding hold
hold-run r held t tail byte e p small = ground (
  arith,
  length-append held (t ∷ tail),
  length-append held (byte ∷ []),
  set-append held t byte tail,
  append_assoc held (byte ∷ []) tail,
)

pub push-byte : (r : FrameReader) (byte : ℕ) → byte ≢ 0 → push r byte ≡ (hold r byte, nothing)
unfolding push
push-byte r byte h = ground arith

-- Bytes that are no delimiter collect behind the run in progress.
pub feed-run :
    (bytes held tail : List ℕ) (r : FrameReader)
    → NonZero bytes
    → r.encoded ≡ held ++ tail
    → r.at ≡ length held
    → length held + length tail ≤ max_encoded
    → length bytes ≤ length tail
    → feed r bytes ≡ (
      record r {
        encoded = (held ++ bytes) ++ drop (length bytes) tail;
        at = length (held ++ bytes);
      },
      replicate (length bytes) nothing,
    )
unfolding feed
feed-run [] held tail r nz e p small fits = ground (arith, append-nil held)
feed-run (b ∷ bytes) held [] r nz e p small fits = absurd (omega arith)
feed-run (b ∷ bytes) held (t ∷ tail) r nz e p small fits =
    let next = record r { encoded = (held ++ (b ∷ [])) ++ tail; at = length (held ++ (b ∷ [])) } in
    let step =
      push-byte r b nz.0
      ∙ ap {B = FrameReader × Received} (λ (x : FrameReader). (x, nothing))
          (hold-run r held t tail b e p (omega arith)) in
    rw step (
      rw
        (
          feed-run bytes (held ++ (b ∷ [])) tail next nz.1 refl refl
              (omega (arith, length-append held (b ∷ []))) (omega arith),
          append_assoc held (b ∷ []) bytes,
        )
        refl)
