-- ===== src/Subscribe/Defs.antt =====
-- The definitions of crates/km43/src/subscribe.rs. A `LogSeq` is the number that it holds.
use km.Prelude.{
  ℕ, ◌+◌, List, Option, none, some, Bool, false, ◌&&◌, ◌||◌, ltb, leb, ◌==◌, if◌then◌else◌,
}
use km.Prelude.{Result, ok, err, ℤ, pos, negsuc}
use km.Cbor.Types.{CborError, ◌>>◌}
use km.Cbor.Bytes.{CborReader}
use km.Cbor.Reader.{u64, bool, skip}
use km.Cbor.Writer.{map as write_map, key as write_key, u64 as write_u64, bool as write_bool}
use km.Body.{Step, ◌>>=◌, done, given, on, required, once, read_body, write_body, and_then}

pub data SubscribeKey : Type 0 where
  from_seq : SubscribeKey

pub data AckKey : Type 0 where
  accepted_from_seq oldest_seq current_seq gap : AckKey

pub data SubscribeBodyKey : Type 0 where
  request : SubscribeKey → SubscribeBodyKey
  ack : AckKey → SubscribeBodyKey

pub data SubscribeError : Type 0 where
  missing duplicate : SubscribeBodyKey → SubscribeError
  zero_is_not_a_position oldest_past_newest log_at_the_ceiling : SubscribeError
  cbor : CborError → SubscribeError

-- `SubscribeKey::of` and `number`.
abbrev pub subscribe_key_of : ℤ → Option SubscribeKey
subscribe_key_of (pos n) = if n == 1 then some from_seq else none
subscribe_key_of (negsuc n) = none

abbrev pub subscribe_key_number : SubscribeKey → ℤ
subscribe_key_number from_seq = pos 1

-- `AckKey::of` and `number`.
abbrev pub ack_key_of : ℤ → Option AckKey
ack_key_of (pos n) =
    if n == 1
    then some accepted_from_seq
    else if n == 2
    then some oldest_seq
    else if n == 3
    then some current_seq
    else if n == 4
    then some gap
    else none
ack_key_of (negsuc n) = none

abbrev pub ack_key_number : AckKey → ℤ
ack_key_number accepted_from_seq = pos 1
ack_key_number oldest_seq = pos 2
ack_key_number current_seq = pos 3
ack_key_number gap = pos 4

pub data Replay : Type 0 where
  live_only : Replay
  from : ℕ → Replay

-- `Replay::wire` and `Replay::of`.
abbrev pub wire : Replay → ℕ
wire live_only = 0
wire (from at) = at

abbrev pub replay_of : ℕ → Replay
replay_of raw = if raw == 0 then live_only else from raw

pub record LogExtent : Type 0 where
  pub oldest : ℕ
  pub newest : ℕ

-- `LogExtent::empty` and `LogExtent::holding`.
abbrev pub empty_log : LogExtent
empty_log = record { oldest = 0; newest = 0 }

unfoldable pub holding : ℕ → ℕ → Result SubscribeError LogExtent
holding oldest newest =
    if oldest == 0 || newest == 0
    then err zero_is_not_a_position
    else if ltb newest oldest
    then err oldest_past_newest
    else ok (record { oldest = oldest; newest = newest })

pub record Subscribe : Type 0 where
  pub replay : Replay

-- `Subscribe::encode`.
unfoldable pub encode : Subscribe → List ℕ → List ℕ × Result SubscribeError ℕ
unfolding write_body write_map write_key write_u64
encode s =
    write_body cbor
      (do write_map 1; write_key (subscribe_key_number from_seq); write_u64 (wire s.replay))

-- A repeat is refused before its value is read.
abbrev pub take_from_seq : Option ℕ → Step SubscribeError CborReader (Option ℕ)
take_from_seq (some held) = given (err (duplicate (request from_seq)))
take_from_seq none = do raw ← on cbor u64; done (some raw)

abbrev pub subscribe_pair :
    Option SubscribeKey → Option ℕ → Step SubscribeError CborReader (Option ℕ)
subscribe_pair (some from_seq) slot = take_from_seq slot
subscribe_pair none slot = do skipped ← on cbor skip; done slot

-- `Subscribe::decode`.
unfoldable pub decode : List ℕ → Result SubscribeError Subscribe
unfolding read_body
decode payload =
    and_then (read_body cbor (λ number. subscribe_pair (subscribe_key_of number)) none payload)
      (λ slot.
        and_then (required (missing (request from_seq)) slot)
          (λ raw. ok (record { replay = replay_of raw })))

pub record SubscribeAck : Type 0 where
  pub accepted_from_seq : ℕ
  pub extent : LogExtent
  pub gap : Bool

abbrev pub u64_max : ℕ
u64_max = 18446744073709551615

abbrev pub answer_replay : Replay → LogExtent → Result SubscribeError SubscribeAck
answer_replay live_only log =
    if leb u64_max log.newest
    then err log_at_the_ceiling
    else ok (record { accepted_from_seq = log.newest + 1; extent = log; gap = false })
answer_replay (from at) log = ok (record {
  accepted_from_seq = if ltb at log.oldest then log.oldest else at;
  extent = log;
  gap = ltb at log.oldest;
})

-- `SubscribeAck::answer`.
unfoldable pub answer : Subscribe → LogExtent → Result SubscribeError SubscribeAck
answer asked log = answer_replay asked.replay log

-- `SubscribeAck::encode`.
unfoldable pub encode_ack : SubscribeAck → List ℕ → List ℕ × Result SubscribeError ℕ
unfolding write_body write_map write_key write_u64 write_bool
encode_ack a = write_body cbor (do
  write_map 4
  write_key (ack_key_number AckKey.accepted_from_seq)
  write_u64 a.accepted_from_seq
  write_key (ack_key_number oldest_seq)
  write_u64 a.extent.oldest
  write_key (ack_key_number current_seq)
  write_u64 a.extent.newest
  write_key (ack_key_number AckKey.gap)
  write_bool a.gap)

pub record AckSlots : Type 0 where
  pub accepted : Option ℕ
  pub oldest : Option ℕ
  pub current : Option ℕ
  pub gap : Option Bool

abbrev pub empty_slots : AckSlots
empty_slots = record { accepted = none; oldest = none; current = none; gap = none }

-- `AckSlots::fill`.
unfoldable pub fill : AckKey → AckSlots → Step SubscribeError CborReader AckSlots
fill AckKey.accepted_from_seq slots = do
  value ← on cbor u64
  slot ← given (once (duplicate (ack AckKey.accepted_from_seq)) slots.accepted value)
  done (record slots { accepted = slot })
fill oldest_seq slots = do
  value ← on cbor u64
  slot ← given (once (duplicate (ack oldest_seq)) slots.oldest value)
  done (record slots { oldest = slot })
fill current_seq slots = do
  value ← on cbor u64
  slot ← given (once (duplicate (ack current_seq)) slots.current value)
  done (record slots { current = slot })
fill AckKey.gap slots = do
  value ← on cbor bool
  slot ← given (once (duplicate (ack AckKey.gap)) slots.gap value)
  done (record slots { gap = slot })

abbrev pub ack_pair : Option AckKey → AckSlots → Step SubscribeError CborReader AckSlots
unfolding fill
ack_pair (some key) slots = fill key slots
ack_pair none slots = do skipped ← on cbor skip; done slots

-- The extent that two positions name: two zeros are a log that holds nothing.
unfoldable pub extent_of : ℕ → ℕ → Result SubscribeError LogExtent
unfolding holding
extent_of oldest current =
    if oldest == 0 && current == 0 then ok empty_log else holding oldest current

-- `AckSlots::complete`.
unfoldable pub complete : AckSlots → Result SubscribeError SubscribeAck
complete slots =
    and_then (required (missing (ack AckKey.accepted_from_seq)) slots.accepted) (λ accepted.
      and_then (required (missing (ack oldest_seq)) slots.oldest) (λ oldest.
        and_then (required (missing (ack current_seq)) slots.current) (λ current.
          and_then (required (missing (ack AckKey.gap)) slots.gap) (λ behind.
            and_then (extent_of oldest current) (λ extent.
              ok (record { accepted_from_seq = accepted; extent = extent; gap = behind }))))))

-- `SubscribeAck::decode`.
unfoldable pub decode_ack : List ℕ → Result SubscribeError SubscribeAck
unfolding read_body complete
decode_ack payload =
    and_then (read_body cbor (λ number. ack_pair (ack_key_of number)) empty_slots payload) complete
