-- ===== src/Link/Wire.antt =====
-- The bodies of crates/km43/src/pairing_window.rs, whole envelopes of them written and read back.
use km.Prelude.{
  Option, some, none, ℕ, ◌≤◌, ◌≡◌, refl, ap, ◌∙◌, arith, false, List, [], ◌∷◌, ◌++◌, length, take,
  isize_max, u64_max, ltb, ◌==◌, Result, ok, err, pos,
}
use km.Cbor.Types.{CborError, Act, ◌>>◌, bind_on}
use km.Cbor.Bytes
use km.Cbor.Bytes.{CborReader}
use km.Cbor.Reader
use km.Cbor.Writer
use km.Cbor.Writer.{CborWriter}
use km.Cbor.Calls.{Call, call}
use km.Cbor.Trace.{AreCalls, Heads}
use km.Body
use km.Body.{write_body, finish_written, failed_as}
use km.Body.Wire.{joined, grouped, write_body-Heads}
use km.Envelope.LinkKinds.{LinkMessageType, link_number}
use km.Envelope.Defs
use km.Envelope.Defs.{
  LinkHeader, LinkEnvelope, EnvelopeError, SessionId, unassigned, assigned, session_number,
  session_of, write_link, decode_link,
}
use km.Link.Types.{LinkError, cbor}
use km.Link.Bodies.{
  PairingWindowNotice, max_pairing_window_ms, new_notice, write_notice, decode_notice, write_behind,
}

-- A header whose fields are within the Rust types, its session a handle that is not zero.
abbrev pub IsSession : SessionId → Type 0
IsSession unassigned = Unit {0}
IsSession (assigned raw) = (1 ≤ raw) × (raw ≤ 65535)

abbrev pub IsHeader : LinkHeader → Type 0
IsHeader h = IsSession h.session × (h.req_id ≤ 4294967295)

abbrev header_calls : LinkHeader → ℕ → List Call
header_calls h keys =
    Call.u64 (link_number h.kind)
    ∷ Call.u64 (session_number h.session)
    ∷ Call.u64 h.req_id
    ∷ Call.map keys
    ∷ []

joined-append :
    (c d : Call) (cs ds : List Call) → joined c (cs ++ (d ∷ ds)) ≡ joined c cs >> joined d ds
joined-append c d [] ds = refl
joined-append c d (e ∷ cs) ds =
    ap (λ k. call c >> k) (joined-append e d cs ds) ∙ grouped (call c) (joined e cs) (joined d ds)

-- A body behind its header is one chain of calls, of which only the refusal of the header differs.
behind :
    (s : CborWriter × Result CborError (Unit {0})) (m : Act CborWriter (Unit {0})) (dst : List ℕ)
    (n : ℕ)
    → write_behind m (failed_as EnvelopeError.cbor s) ≡ (dst, ok n)
    → finish_written cbor (bind_on s (λ _. m)) ≡ (dst, ok n)
behind (w, ok _) m dst n e = e
behind (w, err why) m dst n e = absurd (grind (arith, ap (λ p. p.1) e))

-- The heads of an envelope that was written.
envelope-Heads :
    (h : LinkHeader) (keys : ℕ) (d : Call) (ds : List Call) (dst dst' : List ℕ) (n : ℕ)
    → length dst ≤ isize_max
    → AreCalls (Call.array 4 ∷ (header_calls h keys ++ (d ∷ ds)))
    → write_behind (joined d ds) (write_link h keys dst) ≡ (dst', ok n)
    → (r : CborReader) × Heads
        (Bytes.new (take n dst'))
        (Call.array 4 ∷ (header_calls h keys ++ (d ∷ ds)))
        r
      × (Reader.finish r ≡ ok tt)
unfolding write_link Defs.write_scalars call write_body
envelope-Heads h keys d ds dst dst' n small fits e =
    let start = Writer.new dst in
    let first = joined (Call.array 4) (header_calls h keys) in
    write_body-Heads cbor (Call.array 4) (header_calls h keys ++ (d ∷ ds)) dst dst' n small fits (
      ap (λ m. finish_written cbor (m (Writer.new dst)))
        (joined-append (Call.array 4) d (header_calls h keys) ds)
      ∙ behind (first start) (joined d ds) dst' n e)

-- What a decoder of a body makes of an envelope that was read, or of one that was not.
abbrev pub body_of :
    {A : Type 0}
    → (CborReader → LinkEnvelope → Result LinkError A)
    → CborReader × Result EnvelopeError LinkEnvelope
    → Option (Result LinkError A)
body_of decode_body (r, ok envelope) = some (decode_body r envelope)
body_of decode_body (r, err why) = none

kind-byte :
    (kind : LinkMessageType) → (ltb 255 (link_number kind) ≡ false) × (link_number kind ≤ u64_max)
kind-byte LinkMessageType.link_up = (refl, omega arith)
kind-byte LinkMessageType.link_up_ack = (refl, omega arith)
kind-byte LinkMessageType.heartbeat = (refl, omega arith)
kind-byte LinkMessageType.heartbeat_ack = (refl, omega arith)
kind-byte LinkMessageType.client_connected = (refl, omega arith)
kind-byte LinkMessageType.client_connected_ack = (refl, omega arith)
kind-byte LinkMessageType.client_disconnected = (refl, omega arith)
kind-byte LinkMessageType.client_disconnected_ack = (refl, omega arith)
kind-byte LinkMessageType.close_connection = (refl, omega arith)
kind-byte LinkMessageType.close_connection_ack = (refl, omega arith)
kind-byte LinkMessageType.net_config = (refl, omega arith)
kind-byte LinkMessageType.net_config_ack = (refl, omega arith)
kind-byte LinkMessageType.time_offer = (refl, omega arith)
kind-byte LinkMessageType.time_offer_ack = (refl, omega arith)
kind-byte LinkMessageType.comms_release = (refl, omega arith)
kind-byte LinkMessageType.comms_release_ack = (refl, omega arith)
kind-byte LinkMessageType.enter_download = (refl, omega arith)
kind-byte LinkMessageType.enter_download_ack = (refl, omega arith)
kind-byte LinkMessageType.pairing_window = (refl, omega arith)
kind-byte LinkMessageType.pairing_window_ack = (refl, omega arith)
kind-byte LinkMessageType.wifi_scan = (refl, omega arith)
kind-byte LinkMessageType.wifi_scan_ack = (refl, omega arith)
kind-byte LinkMessageType.wifi_scan_result = (refl, omega arith)
kind-byte LinkMessageType.wifi_scan_result_ack = (refl, omega arith)
kind-byte LinkMessageType.wifi_state = (refl, omega arith)
kind-byte LinkMessageType.wifi_state_ack = (refl, omega arith)

session-u16 : (s : SessionId) → IsSession s → ltb 65535 (session_number s) ≡ false
session-u16 unassigned h = refl
session-u16 (assigned raw) (low, high) = ground arith

session_of-session_number : (s : SessionId) → IsSession s → session_of (session_number s) ≡ s
session_of-session_number unassigned h = refl
session_of-session_number (assigned raw) (low, high) =
    let some_at : raw == 0 ≡ false = ground arith in rw some_at refl

session-u64 : (s : SessionId) → IsSession s → session_number s ≤ u64_max
session-u64 unassigned h = omega arith
session-u64 (assigned raw) (low, high) = omega arith

-- A pairing-window report with a revision from 1 and at most the longest window, under any header
-- of its types, written into a destination of at most isize::MAX bytes: the decoder of the
-- envelope and the decoder of the report read the envelope back as that report.
pub notice_round_trip :
    (b : PairingWindowNotice) (h : LinkHeader) (dst dst' : List ℕ) (n : ℕ)
    → length dst ≤ isize_max
    → IsHeader h
    → 1 ≤ b.revision
    → b.revision ≤ u64_max
    → b.remaining_ms ≤ max_pairing_window_ms
    → write_notice b h dst ≡ (dst', ok n)
    → body_of decode_notice (decode_link (take n dst')) ≡ some (ok b)
unfolding write_notice decode_notice decode_link Defs.open_envelope Defs.read_link new_notice
    Body.read_pairs call Reader.array Reader.map Reader.key Reader.u64 Reader.u32 Reader.u16
    Reader.u8
notice_round_trip b h dst dst' n small (session, req) low high short e =
    let kind = kind-byte h.kind in
    let rest = Call.u64 b.revision ∷ Call.key (pos 2) ∷ Call.u64 b.remaining_ms ∷ [] in
    let fits : AreCalls (Call.array 4 ∷ (header_calls h 2 ++ (Call.key (pos 1) ∷ rest))) = (
      omega arith,
      (
        kind.1,
        (
          session-u64 h.session session,
          (omega arith, (omega arith, (omega arith, (high, (omega arith, (omega arith, tt)))))),
        ),
      ),
    ) in
    let (
      r,
      (_, e1, (_, e2, (_, e3, (_, e4, (_, e5, (_, e6, (_, e7, (_, e8, (_, e9, same))))))))),
      fin,
    ) =
      envelope-Heads h 2 (Call.key (pos 1)) rest dst dst' n small fits e in
    let narrow : ltb 4294967295 h.req_id ≡ false = ground arith in
    let brief : ltb 4294967295 b.remaining_ms ≡ false = ground arith in
    let some_at : b.revision == 0 ≡ false = ground arith in
    let within : ltb max_pairing_window_ms b.remaining_ms ≡ false = ground arith in
    rw
      (
        e1,
        e2,
        kind.0,
        e3,
        session-u16 h.session session,
        e4,
        narrow,
        e5,
        e6,
        e7,
        some_at,
        e8,
        e9,
        brief,
        same,
        fin,
        within,
      )
      refl
