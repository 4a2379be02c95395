-- ===== src/Link/Examples.antt =====
-- Link-local frames at concrete inputs.
use km.Prelude.{ℕ, ◌≡◌, refl, arith, List, [], ◌∷◌, take, replicate, some, ok}
use km.Cbor.Nest
use km.Cbor.Nest.{settled_depth}
use km.Cbor.Bytes
use km.Cbor.Heads
use km.Cbor.Reader
use km.Cbor.Utf8.{is_utf8}
use km.Cbor.Writer
use km.Body
use km.Envelope.LinkKinds.{LinkMessageType}
use km.Envelope.Codes.{wrong_side}
use km.Envelope.Defs
use km.Envelope.Defs.{LinkHeader, SessionId, unassigned, assigned, decode_link}
use km.Link.Intake.{act, refuse, controller, comms, arriving, link_type_of}
use km.Link.Bodies.{PairingWindowNotice, write_notice, decode_notice, decode_heartbeat}
use km.Link.Connections.{ClientUp, write_client_up, decode_client_up}
use km.Link.Reasons.{LinkTransport, TimeOffer}
use km.Link.Types.{unknown_outcome}
use km.Link.Outcomes
use km.Link.Verdicts.{decode_time_verdict}
use km.Prelude.{err}
use km.Link.Arriving.{Outcome, arriving-Outcome}
use km.Link.Wire.{notice_round_trip, body_of}

-- The report goes to the comms processor, its acknowledgement to the controller.
report_arrives : arriving 0x69 comms unassigned ≡ act LinkMessageType.pairing_window
unfolding arriving link_type_of
report_arrives = refl

report_turned : arriving 0x69 controller unassigned ≡ refuse wrong_side
unfolding arriving link_type_of
report_turned = refl

arriving-Outcome_example :
    Outcome 0xE9 controller (assigned 4) (arriving 0xE9 controller (assigned 4))
arriving-Outcome_example = arriving-Outcome 0xE9 controller (assigned 4) (omega arith)

abbrev link_header : LinkHeader
link_header = record { kind = LinkMessageType.pairing_window; session = unassigned; req_id = 7 }

abbrev short_window : PairingWindowNotice
short_window = record { revision = 3; remaining_ms = 1000 }

abbrev notice_bytes : List ℕ
notice_bytes = 0x84 ∷ 0x18 ∷ 0x69 ∷ 0 ∷ 7 ∷ 0xA2 ∷ 1 ∷ 3 ∷ 2 ∷ 0x19 ∷ 3 ∷ 0xE8 ∷ []

write_short : write_notice short_window link_header (replicate 12 0) ≡ (notice_bytes, ok 12)
unfolding write_notice Defs.write_link Defs.write_scalars Writer.map Writer.array Writer.key
    Writer.u64 Writer.finish Writer.new Writer.head Writer.ensure Writer.emit Writer.open_item
    Nest.settle Nest.at_key Nest.count_item Nest.has_room Nest.push Nest.take_key Nest.new_nest
    settled_depth
write_short = refl

notice_round_trip_example :
    body_of decode_notice (decode_link (take 12 notice_bytes)) ≡ some (ok short_window)
notice_round_trip_example =
    notice_round_trip short_window link_header (replicate 12 0) notice_bytes 12 (omega arith)
      (tt, omega arith) (omega arith) (omega arith) (omega arith) write_short

-- The same pairs are a heartbeat, if `conns` fits a byte.
heartbeat_read :
    body_of decode_heartbeat (decode_link (0x84 ∷ 0x18 ∷ 0x61 ∷ 0 ∷ 7 ∷ 0xA2 ∷ 1 ∷ 3 ∷ 2 ∷ 4 ∷ []))
    ≡ some (ok (record { uptime_s = 3; conns = 4 }))
unfolding decode_heartbeat decode_link Defs.open_envelope Defs.read_link Body.read_pairs
    Reader.array Reader.map Reader.key Reader.u64 Reader.u8 Reader.u16 Reader.u32 Reader.skip
    Reader.finish Reader.head Heads.head_with Heads.skip_with Heads.walk Heads.walk_from
    Heads.settle_skipped Bytes.decode Bytes.argument Bytes.take_bytes Bytes.length_of Bytes.count
    Bytes.simple Nest.settle Nest.at_key Nest.count_item Nest.push Nest.read_key Nest.new_nest
    settled_depth is_utf8
heartbeat_read = refl

-- A transport that came up, written and read back; and one whose handle is 0, refused.
abbrev came_up : ClientUp
came_up = record { conn = 258; transport = LinkTransport.wifi_local; peer = 97 ∷ 98 ∷ [] }

abbrev up_bytes : List ℕ
up_bytes = 0x84 ∷ 0x18 ∷ 0x69 ∷ 0 ∷ 7 ∷ 0xA3 ∷ 1 ∷ 0x19 ∷ 1 ∷ 2 ∷ 2 ∷ 2 ∷ 3 ∷ 0x62 ∷ 97 ∷ 98 ∷ []

write_up : write_client_up came_up link_header (replicate 16 0) ≡ (up_bytes, ok 16)
unfolding write_client_up Defs.write_link Defs.write_scalars Writer.map Writer.array Writer.key
    Writer.u64 Writer.text Writer.finish Writer.new Writer.head Writer.ensure Writer.emit
    Writer.open_item Nest.settle Nest.at_key Nest.count_item Nest.has_room Nest.push Nest.take_key
    Nest.new_nest settled_depth
write_up = refl

read_up : body_of decode_client_up (decode_link up_bytes) ≡ some (ok came_up)
unfolding decode_client_up decode_link Defs.open_envelope Defs.read_link Body.read_pairs
    Reader.array Reader.map Reader.key Reader.u64 Reader.u8 Reader.u16 Reader.u32 Reader.text
    Reader.skip Reader.finish Reader.head Heads.head_with Heads.skip_with Heads.walk Heads.walk_from
    Heads.settle_skipped Bytes.decode Bytes.argument Bytes.take_bytes Bytes.length_of Bytes.count
    Bytes.simple Nest.settle Nest.at_key Nest.count_item Nest.push Nest.read_key Nest.new_nest
    settled_depth is_utf8
read_up = refl

-- A withdrawn outcome of a time offer is refused, an allocated one read.
verdict_read :
    body_of decode_time_verdict (decode_link (0x84 ∷ 0x18 ∷ 0xE6 ∷ 0 ∷ 7 ∷ 0xA1 ∷ 1 ∷ 4 ∷ []))
    ≡ some (ok (record { outcome = TimeOffer.refused_step_too_large }))
unfolding decode_time_verdict Outcomes.outcome decode_link Defs.open_envelope Defs.read_link
    Body.read_pairs Reader.array Reader.map Reader.key Reader.u64 Reader.u8 Reader.u16 Reader.u32
    Reader.text Reader.skip Reader.finish Reader.head Heads.head_with Heads.skip_with Heads.walk
    Heads.walk_from Heads.settle_skipped Bytes.decode Bytes.argument Bytes.take_bytes
    Bytes.length_of Bytes.count Bytes.simple Nest.settle Nest.at_key Nest.count_item Nest.push
    Nest.read_key Nest.new_nest settled_depth is_utf8
verdict_read = refl

verdict_refused :
    body_of decode_time_verdict (decode_link (0x84 ∷ 0x18 ∷ 0xE6 ∷ 0 ∷ 7 ∷ 0xA1 ∷ 1 ∷ 3 ∷ []))
    ≡ some (err (unknown_outcome 3))
unfolding decode_time_verdict Outcomes.outcome decode_link Defs.open_envelope Defs.read_link
    Body.read_pairs Reader.array Reader.map Reader.key Reader.u64 Reader.u8 Reader.u16 Reader.u32
    Reader.text Reader.skip Reader.finish Reader.head Heads.head_with Heads.skip_with Heads.walk
    Heads.walk_from Heads.settle_skipped Bytes.decode Bytes.argument Bytes.take_bytes
    Bytes.length_of Bytes.count Bytes.simple Nest.settle Nest.at_key Nest.count_item Nest.push
    Nest.read_key Nest.new_nest settled_depth is_utf8
verdict_refused = refl
