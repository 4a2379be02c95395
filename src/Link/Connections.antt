-- ===== src/Link/Connections.antt =====
-- The bodies about connections in crates/km43/src/linklocal.rs: `ClientUp`, `ClientDown`
-- and `CloseConnections`.
use km.Prelude.{ℕ, List, Bool, Option, none, ◌==◌, if◌then◌else◌, ℤ, pos, negsuc, Result, ok, err}
use km.Cbor.Types.{◌>>◌}
use km.Cbor.Bytes.{CborReader}
use km.Cbor.Reader.{u16, u8, text}
use km.Cbor.Writer.{key as write_key, u64 as write_u64, text as write_text}
use km.Body.{Step, ◌>>=◌, done, given, on, required, once, read_pairs, finish_body, and_then}
use km.Envelope.Defs.{LinkHeader, LinkEnvelope, write_link}
use km.Link.Types.{
  LinkError, LinkField, missing, duplicate, cbor, no_such_connection, unknown_transport,
  unknown_reason,
}
use km.Link.Reasons.{
  LinkTransport, DisconnectReason, CloseReason, link_transport_number, link_transport_of,
  disconnect_reason_number, disconnect_reason_of, close_reason_number, close_reason_of,
}
use km.Link.Bodies.{write_behind, skip_value}

-- A number that an enumeration names, or the refusal of that number.
abbrev pub named : {A : Type 0} → (ℕ → LinkError) → (ℕ → Option A) → ℕ → Result LinkError A
named unknown of raw = required (unknown raw) (of raw)

pub record ClientUp : Type 0 where
  pub conn : ℕ
  pub transport : LinkTransport
  pub peer : List ℕ

-- `ClientUp::write`.
unfoldable pub write_client_up : ClientUp → LinkHeader → List ℕ → List ℕ × Result LinkError ℕ
write_client_up b h dst =
    if b.conn == 0
    then (dst, err no_such_connection)
    else write_behind
        (do
          write_key (pos 1)
          write_u64 b.conn
          write_key (pos 2)
          write_u64 (link_transport_number b.transport)
          write_key (pos 3)
          write_text b.peer)
        (write_link h 3 dst)

pub record ClientUpSlots : Type 0 where
  pub conn : Option ℕ
  pub transport : Option LinkTransport
  pub peer : Option (List ℕ)

abbrev pub take_conn : ClientUpSlots → Step LinkError CborReader ClientUpSlots
take_conn s = do
  value ← on cbor u16
  slot ← given (once (duplicate LinkField.conn) s.conn value)
  done (record s { conn = slot })

abbrev pub take_transport : ClientUpSlots → Step LinkError CborReader ClientUpSlots
take_transport s = do
  raw ← on cbor u8
  kind ← given (named unknown_transport link_transport_of raw)
  slot ← given (once (duplicate LinkField.transport) s.transport kind)
  done (record s { transport = slot })

abbrev pub take_peer : ClientUpSlots → Step LinkError CborReader ClientUpSlots
take_peer s = do
  value ← on cbor text
  slot ← given (once (duplicate LinkField.peer) s.peer value)
  done (record s { peer = slot })

abbrev pub client_up_pair : ℤ → ClientUpSlots → Step LinkError CborReader ClientUpSlots
client_up_pair (pos n) =
    if n == 1
    then take_conn
    else if n == 2
    then take_transport
    else if n == 3
    then take_peer
    else skip_value
client_up_pair (negsuc n) = skip_value

-- A handle of 0 names no connection.
abbrev pub named_conn : ℕ → Result LinkError ℕ
named_conn conn = if conn == 0 then err no_such_connection else ok conn

abbrev pub client_up_from : ClientUpSlots → Result LinkError ClientUp
client_up_from s = and_then (required (missing LinkField.conn) s.conn) (λ raw.
    and_then (named_conn raw) (λ conn.
      and_then (required (missing LinkField.transport) s.transport) (λ transport.
        and_then (required (missing LinkField.peer) s.peer)
          (λ peer. ok (record { conn = conn; transport = transport; peer = peer })))))

-- `ClientUp::decode`.
unfoldable pub decode_client_up : CborReader → LinkEnvelope → Result LinkError ClientUp
unfolding read_pairs
decode_client_up r envelope =
    and_then
      (finish_body cbor (
        read_pairs cbor client_up_pair envelope.keys
          (record { conn = none; transport = none; peer = none }) r))
      client_up_from

pub record ClientDown : Type 0 where
  pub conn : ℕ
  pub reason : DisconnectReason

-- `ClientDown::write`.
unfoldable pub write_client_down : ClientDown → LinkHeader → List ℕ → List ℕ × Result LinkError ℕ
write_client_down b h dst =
    if b.conn == 0
    then (dst, err no_such_connection)
    else write_behind
        (do
          write_key (pos 1)
          write_u64 b.conn
          write_key (pos 2)
          write_u64 (disconnect_reason_number b.reason))
        (write_link h 2 dst)

abbrev pub ClientDownSlots : Type 0
ClientDownSlots = Option ℕ × Option DisconnectReason

abbrev pub client_down_conn : ClientDownSlots → Step LinkError CborReader ClientDownSlots
client_down_conn (first, second) = do
  value ← on cbor u16
  slot ← given (once (duplicate LinkField.conn) first value)
  done (slot, second)

abbrev pub client_down_reason : ClientDownSlots → Step LinkError CborReader ClientDownSlots
client_down_reason (first, second) = do
  raw ← on cbor u8
  value ← given (named unknown_reason disconnect_reason_of raw)
  slot ← given (once (duplicate LinkField.reason) second value)
  done (first, slot)

abbrev pub client_down_pair : ℤ → ClientDownSlots → Step LinkError CborReader ClientDownSlots
client_down_pair (pos n) =
    if n == 1 then client_down_conn else if n == 2 then client_down_reason else skip_value
client_down_pair (negsuc n) = skip_value

abbrev pub client_down_from : ClientDownSlots → Result LinkError ClientDown
client_down_from (first, second) = and_then (required (missing LinkField.conn) first) (λ one.
    and_then (named_conn one) (λ held.
      and_then (required (missing LinkField.reason) second)
        (λ two. ok (record { conn = held; reason = two }))))

-- `ClientDown::decode`.
unfoldable pub decode_client_down : CborReader → LinkEnvelope → Result LinkError ClientDown
unfolding read_pairs
decode_client_down r envelope =
    and_then (finish_body cbor (read_pairs cbor client_down_pair envelope.keys (none, none) r))
      client_down_from

pub record CloseConnections : Type 0 where
  pub conn : ℕ
  pub reason : CloseReason

-- `CloseConnections::write`.
unfoldable pub write_close_connections :
    CloseConnections → LinkHeader → List ℕ → List ℕ × Result LinkError ℕ
write_close_connections b h dst =
    write_behind
      (do
        write_key (pos 1)
        write_u64 b.conn
        write_key (pos 2)
        write_u64 (close_reason_number b.reason))
      (write_link h 2 dst)

abbrev pub CloseConnectionsSlots : Type 0
CloseConnectionsSlots = Option ℕ × Option CloseReason

abbrev pub close_connections_conn :
    CloseConnectionsSlots → Step LinkError CborReader CloseConnectionsSlots
close_connections_conn (first, second) = do
  value ← on cbor u16
  slot ← given (once (duplicate LinkField.conn) first value)
  done (slot, second)

abbrev pub close_connections_reason :
    CloseConnectionsSlots → Step LinkError CborReader CloseConnectionsSlots
close_connections_reason (first, second) = do
  raw ← on cbor u8
  value ← given (named unknown_reason close_reason_of raw)
  slot ← given (once (duplicate LinkField.reason) second value)
  done (first, slot)

abbrev pub close_connections_pair :
    ℤ → CloseConnectionsSlots → Step LinkError CborReader CloseConnectionsSlots
close_connections_pair (pos n) =
    if n == 1
    then close_connections_conn
    else if n == 2
    then close_connections_reason
    else skip_value
close_connections_pair (negsuc n) = skip_value

abbrev pub close_connections_from : CloseConnectionsSlots → Result LinkError CloseConnections
close_connections_from (first, second) = and_then (required (missing LinkField.conn) first) (λ one.
    and_then (required (missing LinkField.reason) second)
      (λ two. ok (record { conn = one; reason = two })))

-- `CloseConnections::decode`.
unfoldable pub decode_close_connections :
    CborReader → LinkEnvelope → Result LinkError CloseConnections
unfolding read_pairs
decode_close_connections r envelope =
    and_then
      (finish_body cbor (read_pairs cbor close_connections_pair envelope.keys (none, none) r))
      close_connections_from

-- `CloseConnections::is_every_connection`.
abbrev pub is_every_connection : CloseConnections → Bool
is_every_connection b = b.conn == 0
