-- ===== src/Ble/Receiver.antt =====
-- The receiver of crates/km43/src/ble.rs: its bounds, and what a lost transfer leaves.
use km.Prelude.{ℕ, ◌+◌, ◌≤◌, ◌≡◌, refl, ◌∙◌, arith, Bool, true, false, not, inl, inr}
use km.Prelude.{
  List, [], ◌∷◌, ◌++◌, length, length-append, take, drop, length-take, length-drop,
  length-replicate, Option, none, some, Result, ok, err, Bool-cases, ltb, leb, ◌==◌, bit_and, ◌||◌,
}
use km.Prelude.Bits.{bit_and-lt}
use km.Ble.Defs.{
  BleReceiver, Active, BleError, receive, append, store, expire, expired, forget_other, reset,
  answer, restart, append_data, append_value, in_sequence, other, max_payload, value_len,
  new_receiver, Appended,
}

-- The index that a transfer in progress expects has seven bits.
abbrev pub Expects : Option Active → Type 0
Expects none = Unit {0}
Expects (some a) = a.expected ≤ 127

abbrev pub IsReceiver : BleReceiver → Type 0
IsReceiver r = (length r.bytes ≡ max_payload) × (r.len ≤ max_payload) × Expects r.active

pub new_receiver-IsReceiver : IsReceiver new_receiver
unfolding new_receiver
new_receiver-IsReceiver = (length-replicate {A = ℕ} max_payload 0, omega arith, tt)

reset-IsReceiver : (r : BleReceiver) → IsReceiver r → IsReceiver (reset r)
unfolding reset
reset-IsReceiver r (width, fits, expects) = (width, omega arith, tt)

pub expire-IsReceiver : (r : BleReceiver) (now_ms : ℕ) → IsReceiver r → IsReceiver (expire r now_ms)
unfolding expire
expire-IsReceiver r now_ms h = elim (Bool-cases (expired r.active now_ms)) [
  | inl e ↦ rw e (reset-IsReceiver r h)
  | inr e ↦ rw e h
]

restart-IsReceiver : (a : Option Active) (r : BleReceiver) → IsReceiver r → IsReceiver (restart a r)
restart-IsReceiver none r (width, fits, expects) = (width, omega arith, expects)
restart-IsReceiver (some a) r h = h

stored_width :
    (bytes piece : List ℕ) (len : ℕ)
    → len + length piece ≤ length bytes
    → length (take len bytes ++ (piece ++ drop (len + length piece) bytes)) ≡ length bytes
stored_width bytes piece len h = omega (
  arith,
  length-append (take len bytes) (piece ++ drop (len + length piece) bytes),
  length-append piece (drop (len + length piece) bytes),
  length-take len bytes,
  length-drop (len + length piece) bytes,
)

store-IsReceiver :
    (r : BleReceiver) (id index : ℕ) (last : Bool) (piece : List ℕ) (now_ms : ℕ)
    → index ≤ 127
    → IsReceiver r
    → IsReceiver (store r id index last piece now_ms).0
unfolding store
store-IsReceiver r id index true piece now_ms seven h =
    elim (Bool-cases (ltb (length r.bytes) (r.len + length piece))) [
      | inl e ↦ rw e h
      | inr e ↦
          let room : r.len + length piece ≤ length r.bytes = ground arith in
          rw e (stored_width r.bytes piece r.len room ∙ h.0, omega (arith, room, h.0), tt)
    ]
store-IsReceiver r id index false piece now_ms seven h =
    elim (Bool-cases (index == 127 || leb max_payload (r.len + length piece))) [
      | inl e ↦ rw e h
      | inr e ↦
          let room : ltb (length r.bytes) (r.len + length piece) ≡ false = ground (arith, h.0) in
          let within : r.len + length piece ≤ length r.bytes = ground (arith, h.0) in
          rw (e, room)
            (
              stored_width r.bytes piece r.len within ∙ h.0,
              omega (arith, within, h.0),
              ground arith,
            )
    ]

-- The index has seven bits.
pub seven_bits : (flags : ℕ) → bit_and flags 0x7F ≤ 127
seven_bits flags = omega (arith, bit_and-lt 7 flags 0x7F (omega arith))

append_data-IsReceiver :
    (r : BleReceiver) (id index : ℕ) (last : Bool) (piece : List ℕ) (now_ms : ℕ)
    → index ≤ 127
    → IsReceiver r
    → IsReceiver (append_data r id index last piece now_ms).0
append_data-IsReceiver r id index last piece now_ms seven h =
    elim (Bool-cases (in_sequence r.active index)) [
      | inl e ↦ rw e (
          store-IsReceiver (restart r.active r) id index last piece now_ms seven
            (restart-IsReceiver r.active r h))
      | inr e ↦ rw e h
    ]

pub forget_other-IsReceiver :
    (r : BleReceiver) (id : ℕ) → IsReceiver r → IsReceiver (forget_other r id)
unfolding forget_other
forget_other-IsReceiver r id h = elim (Bool-cases (other r.active id)) [
  | inl e ↦ rw e (reset-IsReceiver r h)
  | inr e ↦ rw e h
]

append_value-IsReceiver :
    (r : BleReceiver) (value : List ℕ) (now_ms : ℕ)
    → IsReceiver r
    → IsReceiver (append_value r value now_ms).0
append_value-IsReceiver r [] now_ms h = h
append_value-IsReceiver r (id ∷ []) now_ms h = h
append_value-IsReceiver r (id ∷ flags ∷ piece) now_ms h =
    append_data-IsReceiver (forget_other r id) id (bit_and flags 0x7F)
      (not (bit_and flags 0x80 == 0)) piece now_ms (seven_bits flags)
      (forget_other-IsReceiver r id h)

append-IsReceiver :
    (r : BleReceiver) (value : List ℕ) (m now_ms : ℕ)
    → IsReceiver r
    → IsReceiver (append r value m now_ms).0
unfolding append
append-IsReceiver r value m now_ms h =
    elim (Bool-cases (ltb (length value) 3 || ltb (value_len m) (length value))) [
      | inl e ↦ rw e h
      | inr e ↦ rw e (append_value-IsReceiver r value now_ms h)
    ]

-- What an answer says of the receiver it leaves.
abbrev pub Answered : BleReceiver → Result BleError (Option (List ℕ)) → Type 0
Answered r (err why) = (r.active ≡ none) × (r.len ≡ 0)
Answered r (ok none) = Unit {0}
Answered r (ok (some message)) = length message ≤ max_payload

answer-IsReceiver :
    (a : Appended) → IsReceiver a.0 → IsReceiver (answer a).0 × Answered (answer a).0 (answer a).1
unfolding reset
answer-IsReceiver (r, ok true) (width, fits, expects) =
    ((width, fits, expects), omega (arith, length-take r.len r.bytes))
answer-IsReceiver (r, ok false) h = (h, tt)
answer-IsReceiver (r, err why) (width, fits, expects) = ((width, omega arith, tt), (refl, refl))

-- Any value, at any time, keeps the width of the receive buffer, the length within it and the
-- expected index within seven bits; a refused value leaves the receiver with no transfer and no
-- length, and a completed message is of at most 1024 bytes.
pub receive-IsReceiver :
    (r : BleReceiver) (value : List ℕ) (m now_ms : ℕ)
    → IsReceiver r
    → IsReceiver (receive r value m now_ms).0
      × Answered (receive r value m now_ms).0 (receive r value m now_ms).1
unfolding receive
receive-IsReceiver r value m now_ms h =
    answer-IsReceiver (append (expire r now_ms) value m now_ms)
      (append-IsReceiver (expire r now_ms) value m now_ms (expire-IsReceiver r now_ms h))
