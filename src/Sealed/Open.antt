-- ===== src/Sealed/Open.antt =====
-- `Opener`, `Sealed` and the channels of crates/km43/src/sealed.rs.
use km.Prelude.{
  ℕ, ◌+◌, ◌-◌, List, ◌++◌, take, drop, length, replicate, Option, none, some, ltb, ◌==◌,
  if◌then◌else◌, ℤ, Result, ok, err,
}
use km.Cbor.Bytes.{CborReader}
use km.Cbor.Reader.{bytes as read_bytes, u64}
use km.Body.{Step, ◌>>=◌, done, given, on, required, once, read_pairs, finish_body, and_then}
use km.Envelope.Defs.{Header, Envelope}
use km.Sealed.Types.{
  SealError, SealedKey, sealed_key_of, cbor, duplicate, missing, unknown_key, unopened, reserved,
  truncated, NoiseError,
}
use km.Sealed.Window
use km.Sealed.Window.{Window, admits, accept}
use km.Sealed.Cipher.{Aead, tag_bytes, open_in_place}
use km.Sealed.Seal.{
  Direction, request, controller, check, ad, last_nonce, RequestSealer, ControllerSealer,
}

pub record Opener : Type 0 where
  pub key : List ℕ
  pub window : Window

-- `Opener::new`.
abbrev pub new_opener : List ℕ → ℕ → Opener
new_opener key span = record { key = key; window = Window.new span }

abbrev pub max_replay_window : ℕ
max_replay_window = 64

abbrev pub max_inflight : ℕ
max_inflight = 4

pub record ClientChannel : Type 0 where
  pub tx : RequestSealer
  pub rx : Opener

-- `ClientChannel::new`.
abbrev pub client_channel : List ℕ → List ℕ → ClientChannel
client_channel send receive = record {
  tx = record { key = send; next = 1 };
  rx = new_opener receive max_replay_window;
}

pub record ControllerChannel : Type 0 where
  pub tx : ControllerSealer
  pub rx : Opener

-- `ControllerChannel::new`.
abbrev pub controller_channel : List ℕ → List ℕ → ControllerChannel
controller_channel send receive = record {
  tx = record { key = send; next = 0 };
  rx = new_opener receive (max_inflight + 1);
}

pub record Sealed : Type 0 where
  pub header : Header
  pub nonce : ℕ
  pub ciphertext : List ℕ

-- What has arrived of a sealed body: its nonce and its ciphertext.
abbrev pub SealedSlots : Type 0
SealedSlots = Option ℕ × Option (List ℕ)

abbrev pub take_nonce : Direction → ℤ → SealedSlots → Step SealError CborReader SealedSlots
take_nonce request number slots = given (err (unknown_key number))
take_nonce controller number (held, text) = do
  value ← on cbor u64
  slot ← given (once (duplicate SealedKey.nonce) held value)
  done (slot, text)

abbrev pub sealed_pair :
    Direction → ℤ → Option SealedKey → SealedSlots → Step SealError CborReader SealedSlots
sealed_pair direction number none slots = given (err (unknown_key number))
sealed_pair direction number (some SealedKey.sealed) (held, text) = do
  value ← on cbor read_bytes
  slot ← given (once (duplicate SealedKey.sealed) text value)
  done (held, slot)
sealed_pair direction number (some SealedKey.nonce) slots = take_nonce direction number slots

abbrev pub nonce_for : Direction → Header → Option ℕ → Result SealError ℕ
nonce_for request h held = ok h.req_id
nonce_for controller h held = required (missing SealedKey.nonce) held

abbrev pub sealed_from : Header → Direction → SealedSlots → Result SealError Sealed
sealed_from h direction (held, text) = and_then (nonce_for direction h held) (λ nonce_found.
    and_then (required (missing SealedKey.sealed) text)
      (λ raw. ok (record { header = h; nonce = nonce_found; ciphertext = raw })))

-- `Sealed::decode`, of the envelope and the reader that stands inside its body.
unfoldable pub decode : CborReader → Envelope → Result SealError Sealed
unfolding check read_pairs
decode r envelope = and_then (check envelope.header) (λ direction.
    and_then
      (finish_body cbor (
        read_pairs cbor (λ number. sealed_pair direction number (sealed_key_of number))
          envelope.keys (none, none) r))
      (sealed_from envelope.header direction))

pub record Opened : Type 0 where
  pub header : Header
  pub inner : List ℕ

abbrev pub opened_by :
    Sealed
    → Opener
    → ℕ
    → List ℕ
    → Result NoiseError (List ℕ)
    → Opener × List ℕ × Result SealError Opened
opened_by s rx body_len dst (err why) =
    (rx, replicate body_len 0 ++ drop body_len dst, err (unopened why))
opened_by s rx body_len dst (ok plain) = (
  record rx { window = accept rx.window s.nonce },
  plain ++ drop body_len dst,
  ok (record { header = s.header; inner = plain }),
)

abbrev pub open_admitted :
    Aead
    → Sealed
    → Opener
    → List ℕ
    → Result SealError (Unit {0})
    → Opener × List ℕ × Result SealError Opened
open_admitted a s rx dst (err why) = (rx, dst, err why)
open_admitted a s rx dst (ok _) =
    let body_len = length s.ciphertext - tag_bytes in
    if ltb (length s.ciphertext) tag_bytes
    then (rx, dst, err (unopened truncated))
    else if ltb (length dst) body_len
    then (rx, dst, err SealError.destination_too_small)
    else opened_by s rx body_len dst (
        open_in_place a rx.key s.nonce (ad s.header) (take body_len s.ciphertext)
          (drop body_len s.ciphertext))

-- `Sealed::open`: the opener, the destination, and the body.
unfoldable pub open_sealed :
    Aead → Sealed → Opener → List ℕ → Opener × List ℕ × Result SealError Opened
open_sealed a s rx dst =
    if s.nonce == last_nonce
    then (rx, dst, err reserved)
    else open_admitted a s rx dst (admits rx.window s.nonce)
