-- ===== src/Ble/Delivery.antt =====
-- A message cut into values by the sender of crates/km43/src/ble.rs arrives whole.
use km.Prelude.{
  ℕ, zero, suc, ◌+◌, ◌-◌, ◌≤◌, ◌<◌, ◌≡◌, ◌≢◌, refl, sym, ap, ◌∙◌, arith, min, Bool, true, false,
}
use km.Prelude.{
  List, ◌∷◌, ◌++◌, append_assoc, length, length-append, take, drop, take-append, drop-append,
}
use km.Prelude.{
  drop-drop, Option, none, some, Result, ok, err, bit_and, bit_or, ltb, ◌==◌, ◌&&◌, not, ◌⊎◌,
  if◌then◌else◌,
}
use km.Prelude.Bits.{all_below, all_below_sound}
use km.Ble.Defs.{
  BleReceiver, BleSender, BlePending, Active, BleError, receive, fragment, accepted, append,
  value_len, expire, store, offer, forget_other, max_payload, ble_timeout_ms,
}

-- The flags byte: the index below, the last flag on top.
flags_table :
    all_below 128 (λ i.
      bit_and (bit_or i 0x80) 0x7F == i
      && bit_and i 0x7F == i
      && bit_and i 0x80 == 0
      && not (bit_and (bit_or i 0x80) 0x80 == 0))
    ≡ true
unfolding all_below
flags_table = refl

pub flags_lem :
    (i : ℕ)
    → i < 128
    → (bit_and (bit_or i 0x80) 0x7F ≡ i)
      × (bit_and i 0x7F ≡ i)
      × (bit_and i 0x80 ≡ 0)
      × (bit_and (bit_or i 0x80) 0x80 ≢ 0)
flags_lem i h = ground (
  arith,
  all_below_sound 128
      (λ i.
        bit_and (bit_or i 0x80) 0x7F == i
        && bit_and i 0x7F == i
        && bit_and i 0x80 == 0
        && not (bit_and (bit_or i 0x80) 0x80 == 0))
      i flags_table h,
)

-- One value handed over: the sender's, received and then accepted.
abbrev pub Handed : Type 0
Handed = BleSender × BleReceiver × Option (Result BleError (Option (List ℕ)))

abbrev hand_value : BleSender → List ℕ → BleReceiver → ℕ → ℕ → Result BleError ℕ → Handed
hand_value s out r m now_ms (err why) = (s, r, none)
hand_value s out r m now_ms (ok size) =
    let (r', answer) = receive r (take size out) m now_ms in ((accepted s).0, r', some answer)

unfoldable pub hand_over : BleSender → BleReceiver → List ℕ → ℕ → ℕ → Handed
hand_over s r out m now_ms =
    let (s', out', size) = fragment s out in hand_value s' out' r m now_ms size

-- Values handed over every `gap` ms until one completes a message, or is refused.
abbrev pub until_message : (BleSender → BleReceiver → Option (List ℕ)) → Handed → Option (List ℕ)
until_message k (s, r, none) = none
until_message k (s, r, some (err why)) = none
until_message k (s, r, some (ok none)) = k s r
until_message k (s, r, some (ok (some message))) = some message

unfoldable pub deliver : ℕ → BleSender → BleReceiver → List ℕ → ℕ → ℕ → ℕ → Option (List ℕ)
deliver zero s r out m gap now_ms = none
deliver (suc fuel) s r out m gap now_ms =
    until_message (λ s' r'. deliver fuel s' r' out m gap (now_ms + gap))
      (hand_over s r out m now_ms)

-- Between two values: `sent` is received, `rest` is not yet sent.
abbrev pub sending : List ℕ → List ℕ → List ℕ → ℕ → ℕ → ℕ → BleSender
sending sent rest spare id index limit = record {
  bytes = (sent ++ rest) ++ spare;
  pending = some (record {
    len = length (sent ++ rest);
    offset = length sent;
    index = index;
    limit = limit;
    offered = none;
  });
  next_id = id;
}

-- The receiver in the middle of a transfer, or before its first value.
abbrev pub receiving : List ℕ → List ℕ → Option Active → BleReceiver
receiving sent free active = record { bytes = sent ++ free; len = length sent; active = active }

abbrev pub Awaits : Option Active → ℕ → ℕ → ℕ → List ℕ → Type 0
Awaits none id index now_ms sent = (index ≡ 0) × (length sent ≡ 0)
Awaits (some a) id index now_ms sent =
    (a.id ≡ id)
    × (a.expected ≡ index)
    × (a.last_ms ≤ now_ms)
    × (now_ms - a.last_ms < ble_timeout_ms)

drop_past : (sent free : List ℕ) (n : ℕ) → drop (length sent + n) (sent ++ free) ≡ drop n free
drop_past sent free n =
    sym (drop-drop n (length sent) (sent ++ free)) ∙ ap (drop n) (drop-append sent free)

abbrev pub next_active : Bool → ℕ → ℕ → ℕ → Option Active
next_active last id index now_ms =
    if last then none else some (record { id = id; expected = index + 1; last_ms = now_ms })

-- What a value may add: the last one fits, and any other leaves room and an index.
abbrev Room : Bool → ℕ → ℕ → List ℕ → List ℕ → Type 0
Room last index end sent free =
    (end ≤ length (sent ++ free)) × ((last ≡ true) ⊎ ((index < 127) × (end < max_payload)))

store-receiving :
    (sent piece free : List ℕ) (active : Option Active) (id index : ℕ) (last : Bool) (now_ms : ℕ)
    → Room last index (length sent + length piece) sent free
    → store (receiving sent free active) id index last piece now_ms ≡ (
      receiving (sent ++ piece) (drop (length piece) free) (next_active last id index now_ms),
      ok last,
    )
unfolding store
store-receiving sent piece free active id index last now_ms (room, more) = ground (
  arith,
  take-append sent free,
  drop_past sent free (length piece),
  append_assoc sent piece (drop (length piece) free),
  length-append sent piece,
)

-- A value in sequence lands behind what was received.
append-receiving :
    (sent piece free : List ℕ) (active : Option Active) (id index flags : ℕ) (last : Bool)
    (m now_ms : ℕ)
    → Awaits active id index now_ms sent
    → bit_and flags 0x7F ≡ index
    → not (bit_and flags 0x80 == 0) ≡ last
    → 1 ≤ length piece
    → length piece + 2 ≤ value_len m
    → Room last index (length sent + length piece) sent free
    → append (receiving sent free active) (id ∷ flags ∷ piece) m now_ms ≡ (
      receiving (sent ++ piece) (drop (length piece) free) (next_active last id index now_ms),
      ok last,
    )
unfolding append forget_other
append-receiving sent piece free none id index flags last m now_ms h i l one fits room =
    ground (arith, store-receiving sent piece free none id index last now_ms room)
append-receiving sent piece free (some a) id index flags last m now_ms h i l one fits room =
    ground (arith, store-receiving sent piece free (some a) id index last now_ms room)

expire-receiving :
    (sent free : List ℕ) (active : Option Active) (id index now_ms : ℕ)
    → Awaits active id index now_ms sent
    → expire (receiving sent free active) now_ms ≡ receiving sent free active
unfolding expire
expire-receiving sent free none id index now_ms h = ground arith
expire-receiving sent free (some a) id index now_ms h = ground arith

pub receive-piece :
    (sent piece free : List ℕ) (active : Option Active) (id index flags : ℕ) (last : Bool)
    (m now_ms : ℕ)
    → Awaits active id index now_ms sent
    → bit_and flags 0x7F ≡ index
    → not (bit_and flags 0x80 == 0) ≡ last
    → 1 ≤ length piece
    → length piece + 2 ≤ value_len m
    → Room last index (length sent + length piece) sent free
    → receive (receiving sent free active) (id ∷ flags ∷ piece) m now_ms ≡ (
      receiving (sent ++ piece) (drop (length piece) free) (next_active last id index now_ms),
      ok (if last then some (sent ++ piece) else none),
    )
unfolding receive
receive-piece sent piece free active id index flags true m now_ms h i l one fits room =
    rw
      (
        expire-receiving sent free active id index now_ms h,
        append-receiving sent piece free active id index flags true m now_ms h i l one fits room,
        take-append (sent ++ piece) (drop (length piece) free),
      )
      refl
receive-piece sent piece free active id index flags false m now_ms h i l one fits room =
    rw
      (
        expire-receiving sent free active id index now_ms h,
        append-receiving sent piece free active id index flags false m now_ms h i l one fits room,
      )
      refl

pub eqb_refl : (n : ℕ) → (n == n) ≡ true
eqb_refl n = ground arith

the_piece :
    (sent piece rest spare : List ℕ)
    → take
        (length sent + length piece - length sent)
        (drop (length sent) ((sent ++ (piece ++ rest)) ++ spare))
      ≡ piece
the_piece sent piece rest spare =
    let n : length sent + length piece - length sent ≡ length piece = omega arith in
    rw
      (
        n,
        append_assoc sent (piece ++ rest) spare,
        drop-append sent ((piece ++ rest) ++ spare),
        append_assoc piece rest spare,
      )
      (take-append piece (rest ++ spare))

-- The value that the sender offers: its id, its flags and the next piece of the message.
pub fragment-piece :
    (sent piece rest spare out : List ℕ) (id index limit : ℕ)
    → length piece ≡ min (limit - 2) (length (piece ++ rest))
    → length (sent ++ (piece ++ rest)) ≤ max_payload
    → limit ≤ 512
    → length piece + 2 ≤ length out
    → let s = sending sent (piece ++ rest) spare id index limit in
      let end = length sent + length piece in
      let p : BlePending = record {
        len = length (sent ++ (piece ++ rest));
        offset = length sent;
        index = index;
        limit = limit;
        offered = some end;
      } in
      fragment s out ≡ (
        record s { pending = some p },
        (id
              ∷ (if end == length (sent ++ (piece ++ rest)) then bit_or index 0x80 else index)
              ∷ piece)
            ++ drop (length piece + 2) out,
        ok (length piece + 2),
      )
unfolding fragment offer
fragment-piece sent piece rest spare out id index limit size capped lim fits =
    let whole = length-append sent (piece ++ rest) in
    let long = length-append piece rest in
    let end_eq : min (min 4294967295 (length sent + (limit - 2))) (length (sent ++ (piece ++ rest)))
        ≡ length sent + length piece =
      omega (arith, whole, long, size) in
    let whole_bytes = length-append (sent ++ (piece ++ rest)) spare in
    let not_back : ltb (length sent + length piece) (length sent) ≡ false = ground arith in
    let held : ltb (length ((sent ++ (piece ++ rest)) ++ spare)) (length sent + length piece)
        ≡ false =
      ground (arith, whole, long, whole_bytes) in
    let room : ltb (length out) (length piece + 2) ≡ false = ground arith in
    rw (end_eq, the_piece sent piece rest spare, not_back, held, room) refl

pub take_value :
    (id flags : ℕ) (piece after : List ℕ)
    → take (length piece + 2) ((id ∷ flags ∷ piece) ++ after) ≡ id ∷ flags ∷ piece
take_value id flags piece after =
    let n : length piece + 2 ≡ suc (suc (length piece)) = omega arith in
    rw n (take-append (id ∷ flags ∷ piece) after)
