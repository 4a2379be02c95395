-- ===== src/Link/Bodies.antt =====
-- The heartbeat of crates/km43/src/linklocal.rs, and the pairing-window report and its
-- acknowledgement (pairing_window.rs). A `NonZeroU64` is the number that it holds.
use km.Prelude.{ℕ, List, Option, none, ltb, ◌==◌, if◌then◌else◌, ℤ, pos, negsuc, Result, ok, err}
use km.Cbor.Types.{Act, ◌>>◌, destination_too_small}
use km.Cbor.Bytes.{CborReader}
use km.Cbor.Reader.{u64, u32, u8, skip}
use km.Cbor.Writer.{CborWriter, key as write_key, u64 as write_u64}
use km.Body.{
  Step, ◌>>=◌, done, given, on, required, once, read_pairs, finish_body, finish_written, and_then,
}
use km.Envelope.Defs.{LinkHeader, LinkEnvelope, EnvelopeError, write_link}
use km.Link.Types.{
  LinkError, LinkField, missing, duplicate, uptime, conns, pairing_revision,
  pairing_window_too_long, zero_pairing_revision, cbor,
}

-- A body behind its header: the destination, and the length.
abbrev pub write_behind :
    Act CborWriter (Unit {0})
    → CborWriter × Result EnvelopeError (Unit {0})
    → List ℕ × Result LinkError ℕ
write_behind m (w, err why) = (w.dst, err (cbor destination_too_small))
write_behind m (w, ok _) = finish_written cbor (m w)

pub record Heartbeat : Type 0 where
  pub uptime_s : ℕ
  pub conns : ℕ

-- `Heartbeat::write`.
unfoldable pub write_heartbeat : Heartbeat → LinkHeader → List ℕ → List ℕ × Result LinkError ℕ
write_heartbeat b h dst =
    write_behind (do write_key (pos 1); write_u64 b.uptime_s; write_key (pos 2); write_u64 b.conns)
      (write_link h 2 dst)

abbrev pub HeartbeatSlots : Type 0
HeartbeatSlots = Option ℕ × Option ℕ

abbrev pub take_uptime : HeartbeatSlots → Step LinkError CborReader HeartbeatSlots
take_uptime (held, count) = do
  value ← on cbor u32
  slot ← given (once (duplicate uptime) held value)
  done (slot, count)

abbrev pub take_conns : HeartbeatSlots → Step LinkError CborReader HeartbeatSlots
take_conns (held, count) = do
  value ← on cbor u8
  slot ← given (once (duplicate conns) count value)
  done (held, slot)

abbrev pub skip_value : {T : Type 0} → T → Step LinkError CborReader T
skip_value slots = do skipped ← on cbor skip; done slots

abbrev pub heartbeat_pair : ℤ → HeartbeatSlots → Step LinkError CborReader HeartbeatSlots
heartbeat_pair (pos n) = if n == 1 then take_uptime else if n == 2 then take_conns else skip_value
heartbeat_pair (negsuc n) = skip_value

-- `Heartbeat::decode`, of the envelope and the reader that stands inside its body.
unfoldable pub decode_heartbeat : CborReader → LinkEnvelope → Result LinkError Heartbeat
unfolding read_pairs
decode_heartbeat r envelope =
    and_then (finish_body cbor (read_pairs cbor heartbeat_pair envelope.keys (none, none) r))
      (λ slots. and_then (required (missing uptime) slots.0) (λ up.
        and_then (required (missing conns) slots.1)
          (λ count. ok (record { uptime_s = up; conns = count }))))

abbrev pub max_pairing_window_ms : ℕ
max_pairing_window_ms = 120000

pub record PairingWindowNotice : Type 0 where
  pub revision : ℕ
  pub remaining_ms : ℕ

-- `PairingWindowNotice::new`.
unfoldable pub new_notice : ℕ → ℕ → Result LinkError PairingWindowNotice
new_notice revision remaining =
    if ltb max_pairing_window_ms remaining
    then err (pairing_window_too_long remaining)
    else ok (record { revision = revision; remaining_ms = remaining })

-- `PairingWindowNotice::write`.
unfoldable pub write_notice :
    PairingWindowNotice → LinkHeader → List ℕ → List ℕ × Result LinkError ℕ
write_notice b h dst =
    write_behind
      (do write_key (pos 1); write_u64 b.revision; write_key (pos 2); write_u64 b.remaining_ms)
      (write_link h 2 dst)

abbrev pub NoticeSlots : Type 0
NoticeSlots = Option ℕ × Option ℕ

-- `NonZeroU64::new`.
abbrev pub non_zero : ℕ → Result LinkError ℕ
non_zero n = if n == 0 then err zero_pairing_revision else ok n

abbrev pub take_revision : NoticeSlots → Step LinkError CborReader NoticeSlots
take_revision (held, remaining) = do
  raw ← on cbor u64
  value ← given (non_zero raw)
  slot ← given (once (duplicate pairing_revision) held value)
  done (slot, remaining)

abbrev pub take_remaining : NoticeSlots → Step LinkError CborReader NoticeSlots
take_remaining (held, remaining) = do
  value ← on cbor u32
  slot ← given (once (duplicate LinkField.remaining_ms) remaining value)
  done (held, slot)

abbrev pub notice_pair : ℤ → NoticeSlots → Step LinkError CborReader NoticeSlots
notice_pair (pos n) =
    if n == 1 then take_revision else if n == 2 then take_remaining else skip_value
notice_pair (negsuc n) = skip_value

abbrev pub notice_from : NoticeSlots → Result LinkError PairingWindowNotice
notice_from (held, remaining) = and_then (required (missing pairing_revision) held) (λ revision.
    and_then (required (missing LinkField.remaining_ms) remaining)
      (λ left. new_notice revision left))

-- `PairingWindowNotice::decode`.
unfoldable pub decode_notice : CborReader → LinkEnvelope → Result LinkError PairingWindowNotice
unfolding read_pairs
decode_notice r envelope =
    and_then (finish_body cbor (read_pairs cbor notice_pair envelope.keys (none, none) r))
      notice_from

pub record PairingWindowAck : Type 0 where
  pub revision : ℕ

-- `PairingWindowAck::write`.
unfoldable pub write_ack : PairingWindowAck → LinkHeader → List ℕ → List ℕ × Result LinkError ℕ
write_ack b h dst = write_behind (do write_key (pos 1); write_u64 b.revision) (write_link h 1 dst)

abbrev pub take_ack_revision : Option ℕ → Step LinkError CborReader (Option ℕ)
take_ack_revision held = do
  raw ← on cbor u64
  value ← given (non_zero raw)
  given (once (duplicate pairing_revision) held value)

abbrev pub ack_pair : ℤ → Option ℕ → Step LinkError CborReader (Option ℕ)
ack_pair (pos n) = if n == 1 then take_ack_revision else skip_value
ack_pair (negsuc n) = skip_value

-- `PairingWindowAck::decode`.
unfoldable pub decode_ack : CborReader → LinkEnvelope → Result LinkError PairingWindowAck
unfolding read_pairs
decode_ack r envelope =
    and_then (finish_body cbor (read_pairs cbor ack_pair envelope.keys none r)) (λ held.
      and_then (required (missing pairing_revision) held)
        (λ revision. ok (record { revision = revision })))
