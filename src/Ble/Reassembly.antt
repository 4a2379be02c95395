-- ===== src/Ble/Reassembly.antt =====
-- The receiver of crates/km43/src/ble.rs against a reassembler that keeps the bytes of one transfer.
use km.Prelude.{ℕ, ◌+◌, ◌≤◌, ◌≡◌, refl, ap, arith, Bool, true, false, not, inl, inr}
use km.Prelude.{
  List, [], ◌∷◌, ◌++◌, length, append_assoc, length-append, take, drop, length-take, take-append,
  Option, none, some, ok, Bool-cases, ltb, leb, ◌==◌, ◌&&◌, ◌||◌, bit_and, if◌then◌else◌,
}
use km.Ble.Defs.{
  BleReceiver, Active, receive, append, store, expire, expired, forget_other, reset, answer,
  append_data, max_payload, value_len,
}
use km.Ble.Receiver.{IsReceiver, expire-IsReceiver, receive-IsReceiver, seven_bits}
use km.Ble.Reassembler.{
  Transfer, alive, resumed, extended, indexed, reassembled, carries, held_by, held, view, Arrivals,
  receive_all, reassemble_all, fresh,
}

expire-held : (r : BleReceiver) (now_ms : ℕ) → held (expire r now_ms) ≡ alive (held r) now_ms
unfolding expire reset
expire-held r now_ms = by_active r.active
  where
    by_active :
        (a : Option Active)
        → held (
            if expired a now_ms
            then record r { active = none; len = 0 }
            else record r { active = a })
          ≡ alive (held_by a (take r.len r.bytes)) now_ms
    by_active none = refl
    by_active (some a) = elim (Bool-cases (expired (some a) now_ms)) [
      | inl e ↦
          let old : (leb a.last_ms now_ms && ltb now_ms (a.last_ms + 5000)) ≡ false =
            ground arith in
          rw (e, old) refl
      | inr e ↦
          let young : (leb a.last_ms now_ms && ltb now_ms (a.last_ms + 5000)) ≡ true =
            ground arith in
          rw (e, young) refl
    ]

-- What stands in the buffer after a piece is stored behind `len` bytes.
stored :
    (bytes piece : List ℕ) (len : ℕ)
    → len ≤ length bytes
    → take (len + length piece) (take len bytes ++ (piece ++ drop (len + length piece) bytes))
      ≡ take len bytes ++ piece
stored bytes piece len fits =
    let spare = drop (len + length piece) bytes in
    let size : length (take len bytes ++ piece) ≡ len + length piece =
      omega (arith, length-append (take len bytes) piece, length-take len bytes) in
    rw (← append_assoc (take len bytes) piece spare, ← size)
      (take-append (take len bytes ++ piece) _)

collected_length :
    (bytes piece : List ℕ) (len : ℕ)
    → len ≤ length bytes
    → length (take len bytes ++ piece) ≡ len + length piece
collected_length bytes piece len fits =
    omega (arith, length-append (take len bytes) piece, length-take len bytes)

-- The transfer that a receiver's bytes up to `len` make.
abbrev of_bytes : List ℕ → ℕ → ℕ → ℕ → ℕ → Transfer
of_bytes bytes len id index since = record {
  id = id;
  collected = take len bytes;
  next = index;
  since = since;
}

store-extended :
    (r : BleReceiver) (id index since : ℕ) (last : Bool) (piece : List ℕ) (now_ms : ℕ)
    → length r.bytes ≡ max_payload
    → r.len ≤ max_payload
    → index ≤ 127
    → view (answer (store r id index last piece now_ms))
      ≡ extended (of_bytes r.bytes r.len id index since) last piece now_ms
unfolding store reset
store-extended r id index since true piece now_ms width fits seven =
    let size = collected_length r.bytes piece r.len (omega arith) in
    elim (Bool-cases (ltb (length r.bytes) (r.len + length piece))) [
      | inl e ↦
          let over : leb (length (take r.len r.bytes ++ piece)) 1024 ≡ false =
            ground (arith, size) in
          rw (e, over) refl
      | inr e ↦
          let room : leb (length (take r.len r.bytes ++ piece)) 1024 ≡ true =
            ground (arith, size) in
          rw (e, room)
            (ap (λ (message : List ℕ). (none, ok (some message)))
              (stored r.bytes piece r.len (omega arith)))
    ]
store-extended r id index since false piece now_ms width fits seven =
    let size = collected_length r.bytes piece r.len (omega arith) in
    elim (Bool-cases (index == 127 || leb max_payload (r.len + length piece))) [
      | inl e ↦
          let barred : (ltb index 127 && ltb (length (take r.len r.bytes ++ piece)) 1024) ≡ false =
            ground (arith, size) in
          rw (e, barred) refl
      | inr e ↦
          let more : (ltb index 127 && ltb (length (take r.len r.bytes ++ piece)) 1024) ≡ true =
            ground (arith, size) in
          let room : ltb (length r.bytes) (r.len + length piece) ≡ false = ground arith in
          rw (e, more, room, stored r.bytes piece r.len (omega arith)) refl
    ]

append_data-fresh :
    (bytes : List ℕ) (len id index : ℕ) (last : Bool) (piece : List ℕ) (now_ms : ℕ)
    → length bytes ≡ max_payload
    → view (
        answer (
          append_data
            (record { bytes = bytes; len = len; active = none })
            id
            index
            last
            piece
            now_ms))
      ≡ indexed (fresh id now_ms) index last piece now_ms
unfolding reset
append_data-fresh bytes len id index last piece now_ms width = elim (Bool-cases (index == 0)) [
  | inl e ↦
      let first : index ≡ 0 = ground arith in
      rw first (
        store-extended (record { bytes = bytes; len = 0; active = none }) id 0 now_ms last piece
          now_ms width (omega arith) (omega arith))
  | inr e ↦ let later : (0 == index) ≡ false = ground arith in rw (e, later) refl
]

append_data-resumed :
    (bytes : List ℕ) (len id expected since index : ℕ) (last : Bool) (piece : List ℕ) (now_ms : ℕ)
    → length bytes ≡ max_payload
    → len ≤ max_payload
    → index ≤ 127
    → view (
        answer (
          append_data
            (record {
              bytes = bytes;
              len = len;
              active = some (record { id = id; expected = expected; last_ms = since });
            })
            id
            index
            last
            piece
            now_ms))
      ≡ indexed (of_bytes bytes len id expected since) index last piece now_ms
unfolding reset
append_data-resumed bytes len id expected since index last piece now_ms width fits seven =
    elim (Bool-cases (expected == index)) [
      | inl e ↦
          let next : expected ≡ index = ground arith in
          let self : (index == index) ≡ true = ground arith in
          let a : Active = record { id = id; expected = index; last_ms = since } in
          rw (next, self)
            (store-extended (record { bytes = bytes; len = len; active = some a }) id index since
              last piece now_ms width fits seven)
      | inr e ↦ rw e refl
    ]

-- A value of `id` behind what a receiver holds.
append_data-indexed :
    (bytes : List ℕ) (len : ℕ) (active : Option Active) (id index : ℕ) (last : Bool)
    (piece : List ℕ) (now_ms : ℕ)
    → length bytes ≡ max_payload
    → len ≤ max_payload
    → index ≤ 127
    → view (
        answer (
          append_data
            (forget_other (record { bytes = bytes; len = len; active = active }) id)
            id
            index
            last
            piece
            now_ms))
      ≡ indexed (resumed (held_by active (take len bytes)) id now_ms) index last piece now_ms
unfolding forget_other reset
append_data-indexed bytes len none id index last piece now_ms width fits seven =
    append_data-fresh bytes len id index last piece now_ms width
append_data-indexed bytes len (some a) id index last piece now_ms width fits seven =
    elim (Bool-cases (a.id == id)) [
      | inl e ↦
          let same : id ≡ a.id = ground arith in
          let self : (a.id == a.id) ≡ true = ground arith in
          rw (same, self)
            (append_data-resumed bytes len a.id a.expected a.last_ms index last piece now_ms width
              fits seven)
      | inr e ↦ rw e (append_data-fresh bytes 0 id index last piece now_ms width)
    ]

-- The length of a value, and what it holds.
append-reassembled :
    (r : BleReceiver) (value : List ℕ) (m now_ms : ℕ) (o : Option Transfer)
    → length r.bytes ≡ max_payload
    → r.len ≤ max_payload
    → held r ≡ alive o now_ms
    → view (answer (append r value m now_ms)) ≡ reassembled o value m now_ms
unfolding append reset value_len
append-reassembled r [] m now_ms o width fits same = refl
append-reassembled r (id ∷ []) m now_ms o width fits same = ground arith
append-reassembled r (id ∷ flags ∷ []) m now_ms o width fits same = ground arith
append-reassembled r (id ∷ flags ∷ byte ∷ piece) m now_ms o width fits same =
    let size = length (id ∷ flags ∷ byte ∷ piece) in
    elim (Bool-cases (carries m (length piece + 3))) [
      | inl e ↦
          let fine : (ltb size 3 || ltb (value_len m) size) ≡ false = ground arith in
          rw (e, fine, ← same)
            (append_data-indexed r.bytes r.len r.active id (bit_and flags 127)
              (not (bit_and flags 128 == 0)) (byte ∷ piece) now_ms width fits (seven_bits flags))
      | inr e ↦
          let barred : (ltb size 3 || ltb (value_len m) size) ≡ true = ground arith in
          rw (e, barred) refl
    ]

pub receive-reassembled :
    (r : BleReceiver) (value : List ℕ) (m now_ms : ℕ)
    → IsReceiver r
    → view (receive r value m now_ms) ≡ reassembled (held r) value m now_ms
unfolding receive
receive-reassembled r value m now_ms is =
    let (width, fits, expects) = expire-IsReceiver r now_ms is in
    append-reassembled (expire r now_ms) value m now_ms (held r) width fits (expire-held r now_ms)

-- Any values, each at any time, from a well-formed receiver: its answers, refusals included, are
-- those of a reassembler that keeps only the id, the bytes, the next index and the last time of
-- one transfer; it drops a transfer that is 5 s old, last heard later than now or of another id,
-- or that a refused value meets, takes only the next index, and completes the bytes of all values
-- of the transfer.
pub receive_all-reassembles :
    (r : BleReceiver) (m : ℕ) (arrivals : Arrivals)
    → IsReceiver r
    → receive_all r m arrivals ≡ reassemble_all (held r) m arrivals
receive_all-reassembles r m [] is = refl
receive_all-reassembles r m ((value, now_ms) ∷ arrivals) is =
    let (still, _) = receive-IsReceiver r value m now_ms is in
    rw
      (
        ← receive-reassembled r value m now_ms is,
        receive_all-reassembles (receive r value m now_ms).0 m arrivals still,
      )
      refl
