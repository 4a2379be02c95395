-- ===== src/Envelope/Examples.antt =====
-- Envelopes at concrete inputs.
use km.Prelude.{
  ℕ, ◌+◌, ◌≤◌, ◌≡◌, ◌≢◌, ◌↔◌, ◌⊎◌, refl, arith, List, [], ◌∷◌, ok, some, true, replicate,
}
use km.Cbor.Nest
use km.Cbor.Nest.{settled_depth}
use km.Cbor.Bytes
use km.Cbor.Heads
use km.Cbor.Reader
use km.Cbor.Utf8.{is_utf8}
use km.Cbor.Writer
use km.Envelope.Kinds.{MessageType, type_number, type_of}
use km.Envelope.Defs
use km.Envelope.Defs.{Header, assigned, client_type, is_response, is_link_local}
use km.Envelope.Admission.{admits, not_a_request}
use km.Envelope.Routing.{
  addressed, a_frame_that_did_not_parse, a_pre_session_request, addressed_before_hello,
}
use km.Envelope.Opcodes.{
  Names, client_type-Names, client_type-type_number, admits-is_response, admits_answered,
  is_link_local-range,
}

abbrev asked : Header
asked = record { kind = MessageType.readings; session = assigned 7; req_id = 300 }

abbrev asked_bytes : List ℕ
asked_bytes = 0x84 ∷ 0x0E ∷ 7 ∷ 0x19 ∷ 1 ∷ 44 ∷ 0xA0 ∷ []

write-asked : (Defs.write asked 0 (replicate 7 0)).0.dst ≡ asked_bytes
unfolding Defs.write Defs.write_scalars Writer.map Writer.array Writer.u64 Writer.new Writer.head
    Writer.ensure Writer.emit Writer.open_item Nest.settle Nest.at_key Nest.count_item Nest.has_room
    Nest.push Nest.new_nest settled_depth
write-asked = refl

decode-asked : (Defs.decode asked_bytes).1 ≡ ok (record { header = asked; keys = 0 })
unfolding Defs.decode Defs.open_envelope Defs.read client_type type_of Reader.array Reader.map
    Reader.u64 Reader.u8 Reader.u16 Reader.u32 Reader.head Heads.head_with Heads.settle_skipped
    Bytes.decode Bytes.argument Bytes.take_bytes Bytes.length_of Bytes.count Bytes.simple
    Nest.settle Nest.at_key Nest.count_item Nest.push Nest.read_key Nest.new_nest settled_depth
    is_utf8
decode-asked = refl

-- The byte of `Heartbeat` is the link's.
client_type-Names_example : Names 0x61 (client_type 0x61)
client_type-Names_example = client_type-Names 0x61 (omega arith)

client_type-type_number_example :
    client_type (type_number MessageType.readings) ≡ ok MessageType.readings
client_type-type_number_example = client_type-type_number MessageType.readings

admits-is_response_example : (admits MessageType.event_response ≡ not_a_request) ↔ (
    (is_response (type_number MessageType.event_response) ≡ true)
    ⊎ (type_number MessageType.event_response ≡ 4))
admits-is_response_example = admits-is_response MessageType.event_response

admits_answered_example :
    (answer : MessageType) × (type_of (type_number MessageType.hello + 0x80) ≡ some answer)
    × (admits answer ≡ not_a_request)
admits_answered_example = admits_answered MessageType.hello (λ e. grind arith)

is_link_local-range_example :
    (is_link_local 0xE1 ≡ true)
    ↔ (((0x60 ≤ 0xE1) × (0xE1 ≤ 0x7E)) ⊎ ((0xE0 ≤ 0xE1) × (0xE1 ≤ 0xFE)))
is_link_local-range_example = is_link_local-range 0xE1 (omega arith)

addressed_before_hello_example :
    ((addressed (a_pre_session_request 3 9)).session ≡ assigned 3)
    × ((addressed (a_pre_session_request 3 9)).session
        ≢ (addressed (a_frame_that_did_not_parse 3)).session)
addressed_before_hello_example = addressed_before_hello 3 3 9 refl
