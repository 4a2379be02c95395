-- ===== src/Frame/Timeout.antt =====
-- The incomplete-frame timeout of crates/km43/src/frame.rs.
use km.Prelude.{ℕ, ◌+◌, ◌≤◌, ◌<◌, ◌≡◌, refl, arith, min, false}
use km.Prelude.{List, [], ◌∷◌, length, replicate, none, some}
use km.Frame.Defs.{
  FrameReader, Received, nothing, abandoned, tick, push, discard, incomplete_after_ms,
}

-- Intervals in which nothing arrived, one `tick` each.
unfoldable pub idle : FrameReader → List ℕ → FrameReader × List Received
idle r [] = (r, [])
idle r (ms ∷ rest) =
    let (r', what) = tick r none ms in let (r'', answers) = idle r' rest in (r'', what ∷ answers)

abbrev pub total : List ℕ → ℕ
total [] = 0
total (ms ∷ rest) = ms + total rest

-- Short of the timeout an open run stays as it is, and the wait adds up.
pub idle_short :
    (r : FrameReader) (ms : List ℕ)
    → r.waiting + total ms < incomplete_after_ms
    → idle r ms ≡ (record r { waiting = r.waiting + total ms }, replicate (length ms) nothing)
unfolding idle tick
idle_short r [] h = ground arith
idle_short r (m ∷ ms) h = ground (arith, idle_short (record r { waiting = r.waiting + m }) ms)

-- For an open run and any intervals with no byte that stay short of 50 ms: they answer nothing;
-- one more that reaches 50 ms abandons the run and leaves a reader with no run, no overlong mark
-- and no wait, its buffers as they were; a byte instead is taken as with no wait before it.
pub idle_timeout :
    (r : FrameReader) (ms : List ℕ) (last : ℕ)
    → 0 < r.at
    → r.waiting + total ms < incomplete_after_ms
    → incomplete_after_ms ≤ r.waiting + total ms + last
    → ((idle r ms).1 ≡ replicate (length ms) nothing)
      × (tick (idle r ms).0 none last ≡ (
        record { encoded = r.encoded; at = 0; overlong = false; decoded = r.decoded; waiting = 0 },
        abandoned,
      ))
      × ((byte : ℕ) → tick (idle r ms).0 (some byte) last ≡ push (record r { waiting = 0 }) byte)
unfolding tick discard
idle_timeout r ms last run short long =
    rw (idle_short r ms short) (refl, ground arith, λ byte. refl)

tick_empty :
    (r : FrameReader) (ms : ℕ)
    → r.at ≡ 0
    → tick r none ms ≡ (record r { waiting = min 4294967295 (r.waiting + ms) }, nothing)
unfolding tick
tick_empty r ms h = ground arith

-- With no run open, no wait abandons anything.
pub idle_empty :
    (r : FrameReader) (ms : List ℕ)
    → r.at ≡ 0
    → ((idle r ms).1 ≡ replicate (length ms) nothing) × ((idle r ms).0.at ≡ 0)
unfolding idle
idle_empty r [] h = (refl, h)
idle_empty r (m ∷ ms) h = rw (tick_empty r m h) (
    let (quiet, still) = idle_empty (record r { waiting = min 4294967295 (r.waiting + m) }) ms h in
    (rw quiet, still))
