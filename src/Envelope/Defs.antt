-- ===== src/Envelope/Defs.antt =====
-- The definitions of crates/km43/src/envelope.rs. A `NonZeroU16` and a `ReqId` are the numbers that
-- they hold.
use km.Prelude.{
  ℕ, List, Option, none, some, Bool, ◌&&◌, not, leb, ◌==◌, if◌then◌else◌, bit_and, Result, ok, err,
}
use km.Cbor.Types.{CborError, ◌>>◌}
use km.Cbor.Bytes.{CborReader, new as new_reader}
use km.Cbor.Reader.{array, u8, u16, u32, map}
use km.Cbor.Writer.{
  CborWriter, new as new_writer, array as write_array, u64 as write_u64, map as write_map,
}
use km.Body.{Step, ◌>>=◌, done, given, on, failed_as}
use km.Envelope.Kinds.{MessageType, type_number, type_of}
use km.Envelope.Codes.{
  ErrorCode, LinkErrorCode, error_number, link_error_number, malformed_frame, unknown_message_type,
  link_type_on_client_transport,
}
use km.Envelope.LinkKinds.{LinkMessageType, link_number}

pub data EnvelopeError : Type 0 where
  wrong_length : EnvelopeError
  unknown_type link_local_type : ℕ → EnvelopeError
  cbor : CborError → EnvelopeError

-- `ELEMENTS`.
abbrev pub elements : ℕ
elements = 4

-- `Opcode::is_response`, on the byte of an `Opcode`.
abbrev pub is_response : ℕ → Bool
is_response opcode = not (bit_and opcode 0x80 == 0)

-- `Opcode::is_link_local`: the byte without its response bit is in the link's range.
abbrev pub is_link_local : ℕ → Bool
is_link_local opcode = let asked = bit_and opcode 0x7F in leb 0x60 asked && leb asked 0x7E

abbrev pub named_type : ℕ → Option MessageType → Result EnvelopeError MessageType
named_type opcode none = err (unknown_type opcode)
named_type opcode (some kind) = ok kind

-- `Opcode::client_type`.
unfoldable pub client_type : ℕ → Result EnvelopeError MessageType
unfolding type_of
client_type opcode =
    if is_link_local opcode
    then err (link_local_type opcode)
    else named_type opcode (type_of opcode)

pub data SessionId : Type 0 where
  unassigned : SessionId
  assigned : ℕ → SessionId

-- `SessionId::from` and `u16::from`.
abbrev pub session_of : ℕ → SessionId
session_of raw = if raw == 0 then unassigned else assigned raw

abbrev pub session_number : SessionId → ℕ
session_number unassigned = 0
session_number (assigned raw) = raw

pub record Header : Type 0 where
  pub kind : MessageType
  pub session : SessionId
  pub req_id : ℕ

-- `Header::write_scalars`: the writer, standing at the body's first key.
unfoldable pub write_scalars :
    ℕ → SessionId → ℕ → ℕ → List ℕ → CborWriter × Result EnvelopeError (Unit {0})
unfolding write_array write_u64 write_map new_writer
write_scalars opcode session req_id keys dst = failed_as cbor (
    (do
      write_array elements
      write_u64 opcode
      write_u64 (session_number session)
      write_u64 req_id
      write_map keys)
      (new_writer dst))

-- `Header::write`.
unfoldable pub write : Header → ℕ → List ℕ → CborWriter × Result EnvelopeError (Unit {0})
unfolding write_scalars
write h keys dst = write_scalars (type_number h.kind) h.session h.req_id keys dst

pub record LinkHeader : Type 0 where
  pub kind : LinkMessageType
  pub session : SessionId
  pub req_id : ℕ

-- `LinkHeader::write`.
unfoldable pub write_link : LinkHeader → ℕ → List ℕ → CborWriter × Result EnvelopeError (Unit {0})
unfolding write_scalars
write_link h keys dst = write_scalars (link_number h.kind) h.session h.req_id keys dst

abbrev pub need_four : ℕ → Result EnvelopeError (Unit {0})
need_four count = if count == elements then ok tt else err wrong_length

-- `FourElements::open`.
unfoldable pub open_envelope : Step EnvelopeError CborReader (Unit {0})
unfolding array
open_envelope = do count ← on cbor array; given (need_four count)

-- The scalars behind the type, and the pairs of the body map.
abbrev pub Scalars : Type 0
Scalars = SessionId × ℕ × ℕ

abbrev pub after_type : Step EnvelopeError CborReader Scalars
unfolding u16 u32 map
after_type = do
  session ← on cbor u16
  req_id ← on cbor u32
  keys ← on cbor map
  done (session_of session, req_id, keys)

pub record Envelope : Type 0 where
  pub header : Header
  pub keys : ℕ

-- `FourElements::read`. The reader that is left stands inside the body.
unfoldable pub read : Step EnvelopeError CborReader Envelope
unfolding u8 client_type
read = do
  opcode ← on cbor u8
  kind ← given (client_type opcode)
  scalars ← after_type
  done (record {
    header = record { kind = kind; session = scalars.0; req_id = scalars.1 };
    keys = scalars.2;
  })

-- `Envelope::decode`.
unfoldable pub decode : List ℕ → CborReader × Result EnvelopeError Envelope
unfolding open_envelope read
decode bytes = (do opened ← open_envelope; read) (new_reader bytes)

pub record LinkEnvelope : Type 0 where
  pub opcode : ℕ
  pub session : SessionId
  pub req_id : ℕ
  pub keys : ℕ

-- `FourElements::read_link`, with `scalars`.
unfoldable pub read_link : Step EnvelopeError CborReader LinkEnvelope
unfolding u8
read_link = do
  opcode ← on cbor u8
  scalars ← after_type
  done (record { opcode = opcode; session = scalars.0; req_id = scalars.1; keys = scalars.2 })

-- `LinkEnvelope::decode`.
unfoldable pub decode_link : List ℕ → CborReader × Result EnvelopeError LinkEnvelope
unfolding open_envelope read_link
decode_link bytes = (do opened ← open_envelope; read_link) (new_reader bytes)

pub data Refusal : Type 0 where
  client : ErrorCode → Refusal
  link_local : LinkErrorCode → Refusal

-- `Refusal::code`.
abbrev pub code : Refusal → ℕ
code (client c) = error_number c
code (link_local c) = link_error_number c

-- `EnvelopeError::refusal`.
abbrev pub refusal : EnvelopeError → Refusal
refusal wrong_length = client malformed_frame
refusal (cbor why) = client malformed_frame
refusal (unknown_type opcode) = client unknown_message_type
refusal (link_local_type opcode) = link_local link_type_on_client_transport
