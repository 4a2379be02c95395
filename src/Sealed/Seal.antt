-- ===== src/Sealed/Seal.antt =====
-- `Direction`, and the two sealers of crates/km43/src/sealed.rs.
use km.Prelude.{
  ℕ, ◌+◌, ◌-◌, List, ◌∷◌, ◌++◌, take, drop, length, Bool, true, false, not, ◌&&◌, Option, none,
  some, leb, ltb, ◌==◌, if◌then◌else◌, usize_max, Result, ok, err,
}
use km.Cbor.Types.{CborError, Act, ◌>>=◌, ◌>>◌, pure}
use km.Cbor.Writer.{
  CborWriter, bytes_to_fill, be_bytes, finish as finish_writer, key as write_key, u64 as write_u64,
}
use km.Envelope.Kinds.{MessageType, type_number}
use km.Envelope.Defs.{Header, SessionId, EnvelopeError, session_number, write as write_header}
use km.Sealed.Types.{
  SealError, SealedKey, NoiseError, sealed_key_number, not_sealed, event_carries_req_id, exhausted,
  too_large_to_write, unopened,
}
use km.Sealed.Cipher.{Aead, tag_bytes, seal_in_place}

pub data Direction : Type 0 where
  request controller : Direction

-- `Direction::of`.
abbrev pub direction_of : MessageType → Option Direction
direction_of MessageType.subscribe = some request
direction_of MessageType.read_log = some request
direction_of MessageType.get_config = some request
direction_of MessageType.set_config = some request
direction_of MessageType.command = some request
direction_of MessageType.firmware = some request
direction_of MessageType.time = some request
direction_of MessageType.goodbye = some request
direction_of MessageType.inventory = some request
direction_of MessageType.readings = some request
direction_of MessageType.concerns = some request
direction_of MessageType.history = some request
direction_of MessageType.wifi_scan = some request
direction_of MessageType.wifi_status = some request
direction_of MessageType.vouch = some request
direction_of MessageType.clients = some request
direction_of MessageType.invite = some request
direction_of MessageType.approve = some request
direction_of MessageType.remove = some request
direction_of MessageType.enrol_response = some controller
direction_of MessageType.subscribe_response = some controller
direction_of MessageType.event_response = some controller
direction_of MessageType.read_log_response = some controller
direction_of MessageType.get_config_response = some controller
direction_of MessageType.set_config_response = some controller
direction_of MessageType.command_response = some controller
direction_of MessageType.firmware_response = some controller
direction_of MessageType.time_response = some controller
direction_of MessageType.goodbye_response = some controller
direction_of MessageType.inventory_response = some controller
direction_of MessageType.readings_response = some controller
direction_of MessageType.concerns_response = some controller
direction_of MessageType.history_response = some controller
direction_of MessageType.wifi_scan_response = some controller
direction_of MessageType.wifi_status_response = some controller
direction_of MessageType.vouch_response = some controller
direction_of MessageType.clients_response = some controller
direction_of MessageType.invite_response = some controller
direction_of MessageType.approve_response = some controller
direction_of MessageType.remove_response = some controller
direction_of MessageType.error_response = some controller
direction_of MessageType.discover = none
direction_of MessageType.discover_response = none
direction_of MessageType.hello = none
direction_of MessageType.hello_response = none
direction_of MessageType.pair = none
direction_of MessageType.pair_response = none
direction_of MessageType.enrol = none

abbrev pub is_event : MessageType → Bool
is_event MessageType.event_response = true
is_event _ = false

abbrev pub checked_event : Header → Option Direction → Result SealError Direction
checked_event h none = err (not_sealed h.kind)
checked_event h (some direction) =
    if is_event h.kind && not (h.req_id == 0)
    then err (event_carries_req_id h.req_id)
    else ok direction

-- `Direction::check`.
unfoldable pub check : Header → Result SealError Direction
check h = checked_event h (direction_of h.kind)

-- The associated data: the envelope's scalars, big-endian.
abbrev pub ad : Header → List ℕ
ad h = (type_number h.kind ∷ be_bytes 2 (session_number h.session)) ++ be_bytes 4 h.req_id

abbrev pub last_nonce : ℕ
last_nonce = 18446744073709551615

abbrev pub write_nonce : Option ℕ → Act CborWriter (Unit {0})
write_nonce none = pure tt
write_nonce (some value) = do write_key (sealed_key_number SealedKey.nonce); write_u64 value

-- The body map, with room for the ciphertext and its tag.
abbrev pub write_pairs : ℕ → Option ℕ → Act CborWriter (ℕ × ℕ)
write_pairs sealed_len carried = do
  write_key (sealed_key_number SealedKey.sealed)
  range ← bytes_to_fill sealed_len
  write_nonce carried
  pure range

-- The ciphertext and the tag, where they were reserved.
abbrev pub filled_by :
    List ℕ
    → ℕ
    → ℕ
    → ℕ
    → List ℕ × List ℕ × Result NoiseError (Unit {0})
    → List ℕ × Result SealError ℕ
filled_by dst start end len (body, tag, ok _) =
    (take start dst ++ (body ++ (tag ++ drop end dst)), ok len)
filled_by dst start end len (body, tag, err why) =
    (take start dst ++ (body ++ (tag ++ drop end dst)), err (unopened why))

abbrev pub fill_range :
    Aead
    → List ℕ
    → Header
    → ℕ
    → List ℕ
    → ℕ
    → ℕ
    → List ℕ × Result CborError ℕ
    → List ℕ × Result SealError ℕ
fill_range a key h nonce inner start end (dst, err why) = (dst, err too_large_to_write)
fill_range a key h nonce inner start end (dst, ok len) =
    if not (leb start end && leb end (length dst))
    then (dst, err too_large_to_write)
    else if ltb (end - start) (length inner)
    then (dst, err too_large_to_write)
    else filled_by dst start end len
        (seal_in_place a key nonce (ad h) inner (drop (start + length inner) (take end dst)))

abbrev pub after_pairs :
    Aead
    → List ℕ
    → Header
    → ℕ
    → List ℕ
    → CborWriter × Result CborError (ℕ × ℕ)
    → List ℕ × Result SealError ℕ
after_pairs a key h nonce inner (w, err why) = (w.dst, err too_large_to_write)
after_pairs a key h nonce inner (w, ok (start, end)) =
    fill_range a key h nonce inner start end (finish_writer w)

abbrev pub after_header :
    Aead
    → List ℕ
    → Header
    → ℕ
    → Option ℕ
    → List ℕ
    → CborWriter × Result EnvelopeError (Unit {0})
    → List ℕ × Result SealError ℕ
after_header a key h nonce carried inner (w, err why) = (w.dst, err too_large_to_write)
after_header a key h nonce carried inner (w, ok _) =
    after_pairs a key h nonce inner (write_pairs (length inner + tag_bytes) carried w)

abbrev pub pairs_of : Option ℕ → ℕ
pairs_of none = 1
pairs_of (some value) = 2

-- The free function `write`: the destination, and the length of the envelope.
unfoldable pub write :
    Aead → List ℕ → Header → ℕ → Option ℕ → List ℕ → List ℕ → List ℕ × Result SealError ℕ
write a key h nonce carried inner dst =
    if ltb usize_max (length inner + tag_bytes)
    then (dst, err too_large_to_write)
    else after_header a key h nonce carried inner (write_header h (pairs_of carried) dst)

pub record RequestSealer : Type 0 where
  pub key : List ℕ
  pub next : ℕ

abbrev pub with_req_id : ℕ → List ℕ × Result SealError ℕ → List ℕ × Result SealError (ℕ × ℕ)
with_req_id req_id (dst, ok len) = (dst, ok (req_id, len))
with_req_id req_id (dst, err why) = (dst, err why)

abbrev pub seal_as :
    Aead
    → RequestSealer
    → Option Direction
    → MessageType
    → SessionId
    → List ℕ
    → List ℕ
    → RequestSealer × List ℕ × Result SealError (ℕ × ℕ)
seal_as a s (some request) kind session inner dst =
    let h : Header = record { kind = kind; session = session; req_id = s.next } in
    let (after, result) = with_req_id s.next (write a s.key h s.next none inner dst) in
    if s.next == 4294967295
    then (s, dst, err exhausted)
    else (record s { next = s.next + 1 }, after, result)
seal_as a s (some controller) kind session inner dst = (s, dst, err (not_sealed kind))
seal_as a s none kind session inner dst = (s, dst, err (not_sealed kind))

-- `RequestSealer::seal`: the sealer, the destination, and the `req_id` with the length.
unfoldable pub seal_request :
    Aead
    → RequestSealer
    → MessageType
    → SessionId
    → List ℕ
    → List ℕ
    → RequestSealer × List ℕ × Result SealError (ℕ × ℕ)
seal_request a s kind session inner dst = seal_as a s (direction_of kind) kind session inner dst

pub record ControllerSealer : Type 0 where
  pub key : List ℕ
  pub next : ℕ

abbrev pub seal_from :
    Aead
    → ControllerSealer
    → Result SealError Direction
    → Header
    → List ℕ
    → List ℕ
    → ControllerSealer × List ℕ × Result SealError ℕ
seal_from a s (err why) h inner dst = (s, dst, err why)
seal_from a s (ok request) h inner dst = (s, dst, err (not_sealed h.kind))
seal_from a s (ok controller) h inner dst =
    let (after, result) = write a s.key h s.next (some s.next) inner dst in
    if s.next == last_nonce
    then (s, dst, err exhausted)
    else (record s { next = s.next + 1 }, after, result)

-- `ControllerSealer::seal`. `saturating_add` never saturates: the next nonce is below the last.
unfoldable pub seal_response :
    Aead
    → ControllerSealer
    → Header
    → List ℕ
    → List ℕ
    → ControllerSealer × List ℕ × Result SealError ℕ
seal_response a s h inner dst = seal_from a s (check h) h inner dst
