-- ===== src/Sealed/Types.antt =====
-- The keys of a sealed body, and the refusals of crates/km43/src/sealed.rs.
use km.Prelude.{ℕ, ℤ, pos, negsuc, Option, none, some, Bool, true, false, ◌==◌, if◌then◌else◌}
use km.Cbor.Types.{CborError}
use km.Envelope.Kinds.{MessageType}
use km.Envelope.Codes.{authentication_failed, malformed_frame, payload_too_large, session_expired}
use km.Envelope.Defs.{Refusal, client}

-- `NoiseError` of noise.rs.
pub data NoiseError : Type 0 where
  truncated decrypt low_order_point nonce_exhausted destination_too_small : NoiseError

pub data SealedKey : Type 0 where
  sealed nonce : SealedKey

-- `SealedKey::of` and `number`.
abbrev pub sealed_key_of : ℤ → Option SealedKey
sealed_key_of (pos n) = if n == 1 then some sealed else if n == 2 then some nonce else none
sealed_key_of (negsuc n) = none

abbrev pub sealed_key_number : SealedKey → ℤ
sealed_key_number sealed = pos 1
sealed_key_number nonce = pos 2

pub data SealError : Type 0 where
  unknown_key : ℤ → SealError
  duplicate missing : SealedKey → SealError
  not_sealed : MessageType → SealError
  event_carries_req_id : ℕ → SealError
  replayed too_old : ℕ → SealError
  reserved : SealError
  unopened : NoiseError → SealError
  exhausted destination_too_small too_large_to_write : SealError
  cbor : CborError → SealError

-- `SealError::refusal`.
abbrev pub refusal : SealError → Option Refusal
refusal (missing sealed) = some (client authentication_failed)
refusal (unopened why) = some (client authentication_failed)
refusal (missing nonce) = some (client malformed_frame)
refusal (unknown_key number) = some (client malformed_frame)
refusal (duplicate key) = some (client malformed_frame)
refusal (not_sealed kind) = some (client malformed_frame)
refusal (event_carries_req_id req_id) = some (client malformed_frame)
refusal (cbor why) = some (client malformed_frame)
refusal too_large_to_write = some (client payload_too_large)
refusal SealError.destination_too_small = some (client payload_too_large)
refusal exhausted = some (client session_expired)
refusal (replayed n) = none
refusal (too_old n) = none
refusal reserved = none

-- `SealError::counts`.
abbrev pub counts : SealError → Bool
counts (missing sealed) = true
counts (unopened why) = true
counts _ = false
