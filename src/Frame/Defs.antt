-- ===== src/Frame/Defs.antt =====
-- The definitions of crates/km43/src/frame.rs. A method of `&mut self` returns the new record, and
-- a buffer that the caller lends is returned beside the result.
use km.Prelude.{ℕ, ◌+◌, ◌-◌, ◌*◌, ◌/◌, ◌%◌, min, Bool, true, false, List, [], ◌∷◌, ◌++◌}
use km.Prelude.{Option, none, some, ltb, leb, ◌==◌, if◌then◌else◌, not, ◌&&◌}
use km.Prelude.{length, set, take, drop, replicate, sat_add, usize_max, Result, ok, err}
use km.Cobs.Defs.{CobsError, destination_too_small, max_encoded_len, encode, decode}
use km.Crc.Defs.{crc16}

abbrev pub delimiter : ℕ
delimiter = 0

abbrev pub max_payload : ℕ
max_payload = 1024

abbrev pub crc_bytes : ℕ
crc_bytes = 2

abbrev pub max_frame : ℕ
max_frame = 1032

abbrev pub max_encoded : ℕ
max_encoded = max_frame - 1

abbrev pub max_decoded : ℕ
max_decoded = max_payload + crc_bytes

unfoldable pub max_frame_len : ℕ → ℕ
max_frame_len payload = sat_add (max_encoded_len (sat_add payload crc_bytes)) 1

pub data FrameError : Type 0 where
  payload_too_long no_room frame_too_long missing_crc bad_crc : FrameError
  cobs : CobsError → FrameError

-- The `match` of `map_err`, with what a full destination means to the caller.
abbrev pub of_cobs : FrameError → CobsError → FrameError
of_cobs full destination_too_small = full
of_cobs full why = cobs why

-- `u16::to_le_bytes` and `u16::from_le_bytes`.
abbrev pub to_le_bytes : ℕ → List ℕ
to_le_bytes crc = (crc % 256) ∷ (crc / 256 % 256) ∷ []

abbrev pub from_le_bytes : ℕ → ℕ → ℕ
from_le_bytes low high = low + 256 * high

-- `for (slot, &byte) in body.iter_mut().zip(bytes) { *slot = byte; }`.
unfoldable pub overwrite : List ℕ → List ℕ → List ℕ
overwrite [] slots = slots
overwrite (byte ∷ bytes) [] = []
overwrite (byte ∷ bytes) (slot ∷ slots) = byte ∷ overwrite bytes slots

-- `FrameWriter`: its scratch, `MAX_DECODED` bytes wide.
pub record FrameWriter : Type 0 where
  pub body : List ℕ

-- The writer, the destination, and the result.
abbrev pub Written : Type 0
Written = FrameWriter × List ℕ × Result FrameError ℕ

-- Behind the encoding goes the delimiter.
unfoldable pub delimit : FrameWriter → List ℕ × Result CobsError ℕ → Written
delimit w (dst, err why) = (w, dst, err (of_cobs no_room why))
delimit w (dst, ok encoded) =
    if ltb encoded (length dst)
    then (w, set dst encoded delimiter, ok (sat_add encoded 1))
    else (w, dst, err no_room)

-- `FrameWriter::write`.
unfoldable pub write : FrameWriter → List ℕ → List ℕ → Written
unfolding delimit
write w payload dst =
    let end = length payload + crc_bytes in
    if ltb usize_max end
    then (w, dst, err payload_too_long)
    else if ltb (length dst) (max_frame_len (length payload))
    then (w, dst, err no_room)
    else if ltb (length w.body) end
    then (w, dst, err payload_too_long)
    else (let body = overwrite (payload ++ to_le_bytes (crc16 payload)) w.body in
        delimit (record { body = body }) (encode (take end body) dst))

pub data Received : Type 0 where
  nothing : Received
  frame : List ℕ → Received
  dropped : FrameError → Received
  abandoned : Received

pub record FrameReader : Type 0 where
  pub encoded : List ℕ
  pub at : ℕ
  pub overlong : Bool
  pub decoded : List ℕ
  pub waiting : ℕ

abbrev pub incomplete_after_ms : ℕ
incomplete_after_ms = 50

-- `FrameReader::hold`.
unfoldable pub hold : FrameReader → ℕ → FrameReader
hold r byte =
    if ltb r.at (length r.encoded)
    then record r { encoded = set r.encoded r.at byte; at = sat_add r.at 1 }
    else record r { overlong = true }

-- The pattern `(envelope, &[low, high])`, and the comparison behind it.
unfoldable pub check_crc : List ℕ → List ℕ → Result FrameError (List ℕ)
check_crc envelope (low ∷ high ∷ []) =
    if crc16 envelope == from_le_bytes low high then ok envelope else err bad_crc
check_crc envelope crc = err missing_crc

-- `self.decoded.get(..filled).and_then(|frame| frame.split_at_checked(envelope_len))`.
unfoldable pub open_frame : List ℕ → ℕ → Result FrameError (List ℕ)
open_frame decoded filled =
    if ltb (length decoded) filled
    then err missing_crc
    else check_crc (take (filled - crc_bytes) (take filled decoded))
        (drop (filled - crc_bytes) (take filled decoded))

abbrev pub opened : List ℕ × Result CobsError ℕ → List ℕ × Result FrameError (List ℕ)
opened (decoded, err why) = (decoded, err (of_cobs payload_too_long why))
opened (decoded, ok filled) = (decoded, open_frame decoded filled)

-- `FrameReader::take`: the decode buffer afterwards, and the envelope.
unfoldable pub take_frame : FrameReader → ℕ → List ℕ × Result FrameError (List ℕ)
take_frame r len =
    if ltb (length r.encoded) len
    then (r.decoded, err frame_too_long)
    else opened (decode (take len r.encoded) r.decoded)

abbrev pub received : Result FrameError (List ℕ) → Received
received (ok envelope) = frame envelope
received (err why) = dropped why

abbrev pub hand_up : FrameReader → List ℕ × Result FrameError (List ℕ) → FrameReader × Received
hand_up r (decoded, result) = (record r { decoded = decoded }, received result)

-- What `push` does with a delimiter.
unfoldable pub end_run : FrameReader → FrameReader × Received
end_run r =
    let r' = record r { waiting = 0; at = 0; overlong = false } in
    if r.overlong
    then (r', dropped frame_too_long)
    else if r.at == 0
    then (r', nothing)
    else hand_up r' (take_frame r' r.at)

-- `FrameReader::push`.
unfoldable pub push : FrameReader → ℕ → FrameReader × Received
push r byte = if not (byte == delimiter) then (hold r byte, nothing) else end_run r

-- `FrameReader::discard`.
unfoldable pub discard : FrameReader → FrameReader
discard r = record r { at = 0; overlong = false; waiting = 0 }

-- `FrameReader::tick`; `waiting` is a `u32` that saturates.
unfoldable pub tick : FrameReader → Option ℕ → ℕ → FrameReader × Received
tick r none since_ms =
    let r' = record r { waiting = min 4294967295 (r.waiting + since_ms) } in
    if ltb 0 r'.at && leb incomplete_after_ms r'.waiting
    then (discard r', abandoned)
    else (r', nothing)
tick r (some byte) since_ms = push (record r { waiting = 0 }) byte

-- `FrameWriter::new` and `FrameReader::new`.
unfoldable pub new_writer : FrameWriter
new_writer = record { body = replicate max_decoded 0 }

unfoldable pub new_reader : FrameReader
new_reader = record {
  encoded = replicate max_encoded 0;
  at = 0;
  overlong = false;
  decoded = replicate max_decoded 0;
  waiting = 0;
}
