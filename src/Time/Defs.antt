-- ===== src/Time/Defs.antt =====
-- The definitions of crates/km43/src/time.rs.
use km.Prelude.{ℕ, List, Option, none, some, ◌==◌, if◌then◌else◌, Result, ok, err, ℤ, pos, negsuc}
use km.Cbor.Types.{CborError, Act, ◌>>◌}
use km.Cbor.Bytes.{CborReader}
use km.Cbor.Reader.{u64, u8, skip}
use km.Cbor.Writer.{CborWriter, map as write_map, key as write_key, u64 as write_u64}
use km.Body.{Step, ◌>>=◌, done, given, on, required, once, read_body, write_body, and_then}

pub data TimeKey : Type 0 where
  at : TimeKey

pub data TimeAckKey : Type 0 where
  outcome at : TimeAckKey

pub data TimeBodyKey : Type 0 where
  operation : TimeKey → TimeBodyKey
  ack : TimeAckKey → TimeBodyKey

pub data TimeError : Type 0 where
  missing duplicate : TimeBodyKey → TimeError
  unknown_outcome : ℕ → TimeError
  accepted_without_clock : TimeError
  cbor : CborError → TimeError

-- `Time`, the outcomes that the registry allocates.
pub data Outcome : Type 0 where
  accepted rejected unauthorised needs_button : Outcome

-- `Time as u64` and `Time::try_from`.
abbrev pub outcome_number : Outcome → ℕ
outcome_number accepted = 1
outcome_number rejected = 2
outcome_number unauthorised = 3
outcome_number needs_button = 4

unfoldable pub outcome_of : ℕ → Result TimeError Outcome
outcome_of n =
    if n == 1
    then ok accepted
    else if n == 2
    then ok rejected
    else if n == 3
    then ok unauthorised
    else if n == 4
    then ok needs_button
    else err (unknown_outcome n)

abbrev pub time_key_of : ℤ → Option TimeKey
time_key_of (pos n) = if n == 1 then some TimeKey.at else none
time_key_of (negsuc n) = none

abbrev pub time_key_number : TimeKey → ℤ
time_key_number TimeKey.at = pos 1

abbrev pub time_ack_key_of : ℤ → Option TimeAckKey
time_ack_key_of (pos n) =
    if n == 1 then some outcome else if n == 2 then some TimeAckKey.at else none
time_ack_key_of (negsuc n) = none

abbrev pub time_ack_key_number : TimeAckKey → ℤ
time_ack_key_number outcome = pos 1
time_ack_key_number TimeAckKey.at = pos 2

pub record TimeOperation : Type 0 where
  pub at : ℕ

-- `TimeOperation::encode`.
unfoldable pub encode : TimeOperation → List ℕ → List ℕ × Result TimeError ℕ
unfolding write_body write_map write_key write_u64
encode o = write_body cbor (do write_map 1; write_key (time_key_number TimeKey.at); write_u64 o.at)

abbrev pub time_pair : Option TimeKey → Option ℕ → Step TimeError CborReader (Option ℕ)
time_pair (some TimeKey.at) slot = do
  value ← on cbor u64
  given (once (duplicate (operation TimeKey.at)) slot value)
time_pair none slot = do skipped ← on cbor skip; done slot

-- `TimeOperation::decode`.
unfoldable pub decode : List ℕ → Result TimeError TimeOperation
unfolding read_body
decode payload =
    and_then (read_body cbor (λ number. time_pair (time_key_of number)) none payload) (λ slot.
      and_then (required (missing (operation TimeKey.at)) slot)
        (λ moment. ok (record { at = moment })))

pub record TimeAck : Type 0 where
  pub outcome : Outcome
  pub at : Option ℕ

-- `TimeAck::new`.
unfoldable pub new_ack : Outcome → Option ℕ → Result TimeError TimeAck
new_ack accepted none = err accepted_without_clock
new_ack accepted (some clock) = ok (record { outcome = accepted; at = some clock })
new_ack rejected clock = ok (record { outcome = rejected; at = clock })
new_ack unauthorised clock = ok (record { outcome = unauthorised; at = clock })
new_ack needs_button clock = ok (record { outcome = needs_button; at = clock })

abbrev write_outcome : Outcome → Act CborWriter (Unit {0})
unfolding write_key write_u64
write_outcome o = do
  write_key (time_ack_key_number TimeAckKey.outcome)
  write_u64 (outcome_number o)

-- The map of an acknowledgement, with one pair or two.
abbrev pub write_ack : Outcome → Option ℕ → Act CborWriter (Unit {0})
unfolding write_map write_key write_u64
write_ack o none = do write_map 1; write_outcome o
write_ack o (some clock) = do
  write_map 2
  write_outcome o
  write_key (time_ack_key_number TimeAckKey.at)
  write_u64 clock

-- `TimeAck::encode`.
unfoldable pub encode_ack : TimeAck → List ℕ → List ℕ × Result TimeError ℕ
unfolding write_body
encode_ack a = write_body cbor (write_ack a.outcome a.at)

-- What has arrived of an acknowledgement: its outcome and its clock.
abbrev pub TimeAckSlots : Type 0
TimeAckSlots = Option Outcome × Option ℕ

abbrev pub time_ack_pair : Option TimeAckKey → TimeAckSlots → Step TimeError CborReader TimeAckSlots
time_ack_pair (some TimeAckKey.outcome) (held, clock) = do
  number ← on cbor u8
  value ← given (outcome_of number)
  slot ← given (once (duplicate (ack TimeAckKey.outcome)) held value)
  done (slot, clock)
time_ack_pair (some TimeAckKey.at) (held, clock) = do
  value ← on cbor u64
  slot ← given (once (duplicate (ack TimeAckKey.at)) clock value)
  done (held, slot)
time_ack_pair none slots = do skipped ← on cbor skip; done slots

-- The end of `TimeAck::decode`.
abbrev pub finish_ack : TimeAckSlots → Result TimeError TimeAck
finish_ack (held, clock) =
    and_then (required (missing (ack TimeAckKey.outcome)) held) (λ value. new_ack value clock)

-- `TimeAck::decode`.
unfoldable pub decode_ack : List ℕ → Result TimeError TimeAck
unfolding read_body
decode_ack payload =
    and_then
      (read_body cbor (λ number. time_ack_pair (time_ack_key_of number)) (none, none) payload)
      finish_ack
