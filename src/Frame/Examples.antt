-- ===== src/Frame/Examples.antt =====
-- The theorems on frames at concrete inputs.
use km.Prelude.{ℕ, ◌≡◌, ◌≤◌, ◌-◌, refl, arith, List, [], ◌∷◌, ◌++◌, ok, length, take, replicate}
use km.Prelude.{length-replicate, some, none, drop, length-drop, length-append, Bool, false, ◌<◌}
use km.Cobs.Defs.{max_encoded_len, decode}
use km.Frame.Defs.{
  write, push, tick, new_reader, new_writer, max_frame, max_frame_len, max_decoded, max_encoded,
  max_payload, nothing, frame, abandoned, FrameReader, FrameWriter, Received,
}
use km.Frame.Write.{frame_body, Ends, write-Ends}
use km.Frame.Feed.{feed, IsReader}
use km.Frame.RoundTrip.{feed-write, wire, push-frame, frame_body-le, decoded_frame}
use km.Frame.Reader.{new_reader-AtBoundary, feed_resync, push-IsReader}
use km.Frame.Sound.{push_frame_sound, Decoded}
use km.Frame.Timeout.{idle, idle_timeout}

abbrev ping : List ℕ
ping = 1 ∷ 0 ∷ []

abbrev room : List ℕ
room = 9 ∷ 9 ∷ 9 ∷ 9 ∷ 9 ∷ 9 ∷ []

scratch : FrameWriter
scratch = new_writer

scratch_width : length scratch.body ≡ max_decoded
unfolding scratch new_writer
scratch_width = length-replicate {A = ℕ} max_decoded 0

feed-write_example :
    (n : ℕ) × ((write scratch ping room).2 ≡ ok n)
    × (n ≤ max_frame)
    × ((feed new_reader (take n (write scratch ping room).1)).1
        ≡ replicate (n - 1) nothing ++ (frame ping ∷ []))
feed-write_example =
    feed-write scratch ping room new_reader scratch_width (omega arith) (omega arith)
      (unfold max_frame_len max_encoded_len in omega arith) (omega arith) new_reader-AtBoundary

-- A destination of one byte.
write-Ends_example : Ends scratch ping (9 ∷ []) (write scratch ping (9 ∷ []))
write-Ends_example = write-Ends scratch ping (9 ∷ []) scratch_width (omega arith) (omega arith)

feed_resync_example :
    (answers : List Received) × (length answers ≡ 4)
    × ((feed new_reader (((5 ∷ 0 ∷ 7 ∷ []) ++ (0 ∷ [])) ++ wire ping)).1
        ≡ answers ++ (replicate (length (frame_body ping)) nothing ++ (frame ping ∷ [])))
feed_resync_example =
    feed_resync new_reader (5 ∷ 0 ∷ 7 ∷ []) ping new_reader-AtBoundary.reader (omega arith)
      (omega arith)

push-IsReader_example : IsReader (push new_reader 5).0
push-IsReader_example = push-IsReader new_reader 5 new_reader-AtBoundary.reader

-- A reader that has collected the bytes of a frame.
abbrev collected : FrameReader
collected = record {
  encoded = frame_body ping ++ drop (length (frame_body ping)) (replicate max_encoded 0);
  at = length (frame_body ping);
  overlong = false;
  decoded = replicate max_decoded 0;
  waiting = 0;
}

collected-IsReader : IsReader collected
collected-IsReader = record {
  encoded_width = omega (
    arith,
    frame_body-le ping (omega arith),
    length-append (frame_body ping) (drop (length (frame_body ping)) (replicate max_encoded 0)),
    length-drop (length (frame_body ping)) (replicate {A = ℕ} max_encoded 0),
    length-replicate {A = ℕ} max_encoded 0,
  );
  decoded_width = length-replicate {A = ℕ} max_decoded 0;
  within = frame_body-le ping (omega arith);
}

push_frame_sound_example :
    ◌≡◌ {A = ℕ} 0 0
    × ◌≡◌ {A = Bool} false false
    × (0 < length (frame_body ping))
    × (2 ≤ max_payload)
    × Decoded
        (decode (take collected.at collected.encoded) collected.decoded)
        (decoded_frame ping collected.decoded)
        ping
push_frame_sound_example = push_frame_sound collected _ 0 ping collected-IsReader (
    push-frame collected ping (drop (length (frame_body ping)) (replicate max_encoded 0))
      (omega arith) (omega arith) (length-replicate {A = ℕ} max_decoded 0) refl refl refl)

abbrev open_run : FrameReader
open_run = record { encoded = 5 ∷ []; at = 1; overlong = false; decoded = []; waiting = 10 }

idle_timeout_example :
    ((idle open_run (20 ∷ 19 ∷ [])).1 ≡ replicate 2 nothing)
    × (tick (idle open_run (20 ∷ 19 ∷ [])).0 none 1 ≡ (
      record { encoded = 5 ∷ []; at = 0; overlong = false; decoded = []; waiting = 0 },
      abandoned,
    ))
    × ((byte : ℕ)
        → tick (idle open_run (20 ∷ 19 ∷ [])).0 (some byte) 1
          ≡ push (record open_run { waiting = 0 }) byte)
idle_timeout_example =
    idle_timeout open_run (20 ∷ 19 ∷ []) 1 (omega arith) (omega arith) (omega arith)
