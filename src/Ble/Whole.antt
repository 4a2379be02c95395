-- ===== src/Ble/Whole.antt =====
-- A message cut into values by the sender of crates/km43/src/ble.rs arrives whole.
use km.Prelude.{ℕ, zero, suc, ◌+◌, ◌-◌, ◌*◌, ◌≤◌, ◌<◌, ◌≡◌, refl, ap, ◌∙◌, arith, true, false}
use km.Prelude.{
  List, [], ◌++◌, append-nil, append_assoc, length, length-append, take, drop, length-take,
  length-drop,
}
use km.Prelude.{
  take-append-drop, Option, none, some, ok, bit_or, ltb, leb, ◌==◌, inl, inr, Bool-cases,
}
use km.Ble.Defs.{
  BleReceiver, BleSender, Active, accepted, enqueue, value_len, max_payload, ble_timeout_ms,
}
use km.Ble.Delivery.{
  flags_lem, Handed, hand_over, until_message, deliver, sending, receiving, Awaits, next_active,
  receive-piece, eqb_refl, fragment-piece, take_value,
}

-- One value, offered, received and accepted: either it completes the message, or both sides stand
-- further on.
hand_over-last :
    (sent piece spare free out : List ℕ) (active : Option Active) (id index limit m now_ms : ℕ)
    → Awaits active id index now_ms sent
    → index < 128
    → 1 ≤ length piece
    → length piece ≤ limit - 2
    → limit ≤ value_len m
    → limit ≤ 512
    → limit ≤ length out
    → 2 ≤ limit
    → length (sent ++ piece) ≤ max_payload
    → length sent + length piece ≤ length (sent ++ free)
    → (hand_over
        (sending sent (piece ++ []) spare id index limit)
        (receiving sent free active)
        out
        m
        now_ms).2
      ≡ some (ok (some (sent ++ piece)))
unfolding hand_over
hand_over-last sent piece spare free out active id index limit m now_ms h small one size lim cap_512
      wide two fits room =
    let whole = length-append sent piece in
    let nil = append-nil piece in
    let f = flags_lem index small in
    rw
      (
        fragment-piece sent piece [] spare out id index limit (rw nil (omega arith)) (rw nil fits)
            cap_512 (omega arith),
        nil,
        ← whole,
        eqb_refl (length (sent ++ piece)),
        take_value id (bit_or index 0x80) piece (drop (length piece + 2) out),
        receive-piece sent piece free active id index (bit_or index 0x80) true m now_ms h f.0
            (ground (arith, f.3)) one (omega arith) (room, inl refl),
      )
      refl

-- A value that does not complete the message: both sides stand behind it.
hand_over-next :
    (sent piece rest spare free out : List ℕ) (active : Option Active) (id index limit m now_ms : ℕ)
    → Awaits active id index now_ms sent
    → index < 127
    → 1 ≤ length piece
    → length piece ≡ limit - 2
    → 1 ≤ length rest
    → limit ≤ value_len m
    → limit ≤ 512
    → limit ≤ length out
    → length (sent ++ (piece ++ rest)) ≤ max_payload
    → length (sent ++ (piece ++ rest)) ≤ length (sent ++ free)
    → hand_over
        (sending sent (piece ++ rest) spare id index limit)
        (receiving sent free active)
        out
        m
        now_ms
      ≡ (
        sending (sent ++ piece) rest spare id (index + 1) limit,
        receiving (sent ++ piece) (drop (length piece) free) (next_active false id index now_ms),
        some (ok none),
      )
unfolding hand_over accepted
hand_over-next sent piece rest spare free out active id index limit m now_ms h small one size more
      lim cap_512 wide fits room =
    let whole = length-append sent (piece ++ rest) in
    let long = length-append piece rest in
    let f = flags_lem index (omega arith) in
    let ends : (length sent + length piece == length (sent ++ (piece ++ rest))) ≡ false =
      ground (arith, whole, long) in
    let below : leb 255 index ≡ false = ground arith in
    rw
      (
        fragment-piece sent piece rest spare out id index limit (omega (arith, long, size)) fits
            cap_512 (omega arith),
        ends,
        take_value id index piece (drop (length piece + 2) out),
        receive-piece sent piece free active id index index false m now_ms h f.1
            (ground (arith, f.2)) one (omega arith)
            (omega (arith, whole, long), inr (omega arith, omega (arith, whole, long))),
        below,
        ← length-append sent piece,
        ← append_assoc sent piece rest,
      )
      refl

until_message_done :
    (k : BleSender → BleReceiver → Option (List ℕ)) (h : Handed) (message : List ℕ)
    → h.2 ≡ some (ok (some message))
    → until_message k h ≡ some message
until_message_done k (s, r, answer) message e = rw e refl

value_512 : (limit m : ℕ) → limit ≤ value_len m → limit ≤ 512
unfolding value_len
value_512 limit m h = omega arith

deliver-rest :
    (fuel : ℕ) (sent rest spare free out : List ℕ) (active : Option Active)
    (id index limit m gap now_ms : ℕ)
    → Awaits active id index now_ms sent
    → 20 ≤ limit
    → limit ≤ value_len m
    → limit ≤ 512
    → limit ≤ length out
    → gap < ble_timeout_ms
    → 1 ≤ length rest
    → length (sent ++ rest) ≤ max_payload
    → length (sent ++ rest) ≤ length (sent ++ free)
    → index * 18 ≤ length sent
    → length rest ≤ fuel
    → deliver fuel
        (sending sent rest spare id index limit)
        (receiving sent free active)
        out
        m
        gap
        now_ms
      ≡ some (sent ++ rest)
unfolding deliver
deliver-rest zero sent rest spare free out active id index limit m gap now_ms h twenty lim cap_512
      wide soon some_left fits room counted enough =
    ground arith
deliver-rest (suc fuel) sent rest spare free out active id index limit m gap now_ms h twenty lim
      cap_512 wide soon some_left fits room counted enough =
    let whole = length-append sent rest in
    let nil = append-nil rest in
    elim (Bool-cases (leb (length rest) (limit - 2))) [
      | inl short ↦
          until_message_done (λ s' r'. deliver fuel s' r' out m gap (now_ms + gap))
            (hand_over (sending sent rest spare id index limit) (receiving sent free active) out m
              now_ms)
            (sent ++ rest)
            (rw nil at (
              hand_over-last sent rest spare free out active id index limit m now_ms h
                (omega (arith, whole)) some_left (ground arith) lim cap_512 wide (omega arith) fits
                (omega (arith, whole, room))))
      | inr long ↦
          let piece = take (limit - 2) rest in
          let later = drop (limit - 2) rest in
          let parts : piece ++ later ≡ rest = take-append-drop (limit - 2) rest in
          let size : length piece ≡ limit - 2 = ground (arith, length-take (limit - 2) rest) in
          let left : length later ≡ length rest - (limit - 2) = length-drop (limit - 2) rest in
          let more : limit - 2 < length rest = ground arith in
          let all : (sent ++ piece) ++ later ≡ sent ++ rest =
            append_assoc sent piece later ∙ ap (λ tail. sent ++ tail) parts in
          let step =
            hand_over-next sent piece later spare free out active id index limit m now_ms h
              (omega (arith, whole)) (omega (arith, size)) size (omega (arith, left, more)) lim
              cap_512 wide (rw parts fits) (rw parts room) in
          let now_whole = length-append sent piece in
          let free_left = length-drop (length piece) free in
          let all_free = length-append sent free in
          let still_free = length-append (sent ++ piece) (drop (length piece) free) in
          let go_on =
            deliver-rest fuel (sent ++ piece) later spare (drop (length piece) free) out
              (next_active false id index now_ms) id (index + 1) limit m gap (now_ms + gap)
              (refl, refl, omega arith, omega arith) twenty lim cap_512 wide soon
              (omega (arith, left, more)) (rw all fits)
              (rw all
                (omega (arith, whole, now_whole, size, free_left, all_free, still_free, room)))
              (omega (arith, now_whole, size, counted)) (omega (arith, left)) in
          rw (rw parts at step) (go_on ∙ ap some all)
    ]

at_rest :
    (bytes : List ℕ) (len : ℕ) (active : Option Active)
    → active ≡ none
    → len ≡ 0
    → record { bytes = bytes; len = len; active = active } ≡ receiving [] bytes none
at_rest bytes len active quiet start = rw (quiet, start) refl

-- A message of 1 to 1024 bytes enqueued on an idle sender with a limit of 20 or more that the MTU
-- carries, and handed over value by value to a receiver at rest, every value within the timeout:
-- it is accepted, and the receiver hands up exactly that message.
pub deliver-enqueue :
    (sender : BleSender) (receiver : BleReceiver) (message out : List ℕ) (limit m gap now_ms : ℕ)
    → sender.pending ≡ none
    → receiver.active ≡ none
    → receiver.len ≡ 0
    → length sender.bytes ≡ max_payload
    → length receiver.bytes ≡ max_payload
    → 1 ≤ length message
    → length message ≤ max_payload
    → 20 ≤ limit
    → limit ≤ value_len m
    → limit ≤ length out
    → gap < ble_timeout_ms
    → ((enqueue sender message limit).1 ≡ ok tt)
      × (deliver max_payload (enqueue sender message limit).0 receiver out m gap now_ms
          ≡ some message)
unfolding enqueue
deliver-enqueue sender receiver message out limit m gap now_ms idle quiet start wide_sender
      wide_receiver some_left fits twenty lim wide soon =
    let cap_512 : limit ≤ 512 = value_512 limit m lim in
    let whole = length-append message (drop (length message) sender.bytes) in
    let not_empty : (length message == 0) ≡ false = ground arith in
    let within : ltb max_payload (length message) ≡ false = ground arith in
    let room : ltb (length sender.bytes) (length message) ≡ false = ground arith in
    let ready = at_rest receiver.bytes receiver.len receiver.active quiet start in
    let done =
      deliver-rest max_payload [] message (drop (length message) sender.bytes) receiver.bytes out
        none sender.next_id 0 limit m gap now_ms (refl, refl) twenty lim cap_512 wide soon some_left
        fits (omega (arith, fits, wide_receiver)) (omega arith) (omega arith) in
    rw (idle, not_empty, within, room) (refl, rw ready done)
