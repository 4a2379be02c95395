-- ===== src/Ble/Reassembler.antt =====
-- A reassembler without buffers, for the receiver of crates/km43/src/ble.rs: its specification.
use km.Prelude.{ℕ, ◌+◌, Bool, true, false, not}
use km.Prelude.{
  List, [], ◌∷◌, ◌++◌, length, take, Option, none, some, Result, ok, err, ltb, leb, ◌==◌, ◌&&◌,
  bit_and, if◌then◌else◌,
}
use km.Ble.Defs.{BleReceiver, Active, BleError, bad_length, sequence, receive}

-- A transfer in progress: its id, the bytes of its values so far, the index that comes next, and
-- when the last value came.
pub record Transfer : Type 0 where
  pub id : ℕ
  pub collected : List ℕ
  pub next : ℕ
  pub since : ℕ

-- A transfer that has had no value yet.
abbrev pub fresh : ℕ → ℕ → Transfer
fresh id now_ms = record { id = id; collected = []; next = 0; since = now_ms }

-- Less than five seconds old, on a clock that did not go back.
abbrev pub alive : Option Transfer → ℕ → Option Transfer
alive none now_ms = none
alive (some t) now_ms = if leb t.since now_ms && ltb now_ms (t.since + 5000) then some t else none

-- The transfer that a value of `id` goes on with.
abbrev pub resumed : Option Transfer → ℕ → ℕ → Transfer
resumed none id now_ms = fresh id now_ms
resumed (some t) id now_ms = if t.id == id then t else fresh id now_ms

abbrev pub Outcome : Type 0
Outcome = Option Transfer × Result BleError (Option (List ℕ))

-- A value behind what was collected: a last one completes the message, if it is within 1024 bytes;
-- another leaves room for one byte and for one index at least.
abbrev pub extended : Transfer → Bool → List ℕ → ℕ → Outcome
extended t true piece now_ms =
    if leb (length (t.collected ++ piece)) 1024
    then (none, ok (some (t.collected ++ piece)))
    else (none, err bad_length)
extended t false piece now_ms =
    if ltb t.next 127 && ltb (length (t.collected ++ piece)) 1024
    then (
      some (record {
        id = t.id;
        collected = t.collected ++ piece;
        next = t.next + 1;
        since = now_ms;
      }),
      ok none,
    )
    else (none, err bad_length)

-- A value of an index: only the next one is taken.
abbrev pub indexed : Transfer → ℕ → Bool → List ℕ → ℕ → Outcome
indexed t index last piece now_ms =
    if t.next == index then extended t last piece now_ms else (none, err sequence)

-- A value of `size` bytes fits into 512 and, with three bytes about it, into the MTU.
abbrev pub carries : ℕ → ℕ → Bool
carries m size = leb size 512 && leb (size + 3) m

-- The specification: a value of three bytes at least that the MTU carries is an id, an index with
-- the flag of the last value, and a piece.
abbrev pub reassembled : Option Transfer → List ℕ → ℕ → ℕ → Outcome
reassembled o (id ∷ flags ∷ byte ∷ piece) m now_ms =
    if carries m (length piece + 3)
    then indexed (resumed (alive o now_ms) id now_ms) (bit_and flags 127)
        (not (bit_and flags 128 == 0)) (byte ∷ piece) now_ms
    else (none, err bad_length)
reassembled o value m now_ms = (none, err bad_length)

-- What a receiver holds of a transfer.
abbrev pub held_by : Option Active → List ℕ → Option Transfer
held_by none bytes = none
held_by (some a) bytes =
    some (record { id = a.id; collected = bytes; next = a.expected; since = a.last_ms })

abbrev pub held : BleReceiver → Option Transfer
held r = held_by r.active (take r.len r.bytes)

abbrev pub view : BleReceiver × Result BleError (Option (List ℕ)) → Outcome
view (r, result) = (held r, result)

-- Values one after another, each with the time at which it comes.
abbrev pub Arrivals : Type 0
Arrivals = List (List ℕ × ℕ)

abbrev pub receive_all : BleReceiver → ℕ → Arrivals → List (Result BleError (Option (List ℕ)))
receive_all r m [] = []
receive_all r m ((value, now_ms) ∷ arrivals) =
    let (r', answers) = receive r value m now_ms in answers ∷ receive_all r' m arrivals

abbrev pub reassemble_all :
    Option Transfer → ℕ → Arrivals → List (Result BleError (Option (List ℕ)))
reassemble_all o m [] = []
reassemble_all o m ((value, now_ms) ∷ arrivals) =
    let (o', answers) = reassembled o value m now_ms in answers ∷ reassemble_all o' m arrivals
