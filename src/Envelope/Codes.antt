-- ===== src/Envelope/Codes.antt =====
-- The error codes of crates/km43/src/generated.rs.
use km.Prelude.{ℕ}

pub data ErrorCode : Type 0 where
  malformed_frame unknown_message_type protocol_major_mismatch hello_required_first : ErrorCode
  payload_too_large unknown_section busy_retry session_table_full session_expired : ErrorCode
  authentication_failed unknown_client stale_challenge_reconnect_and_retry : ErrorCode
  challenge_unavailable unsupported_suite role_not_permitted : ErrorCode

-- `ErrorCode as u16`.
abbrev pub error_number : ErrorCode → ℕ
error_number ErrorCode.malformed_frame = 0x1
error_number ErrorCode.unknown_message_type = 0x2
error_number ErrorCode.protocol_major_mismatch = 0x3
error_number ErrorCode.hello_required_first = 0x4
error_number ErrorCode.payload_too_large = 0x5
error_number ErrorCode.unknown_section = 0x6
error_number ErrorCode.busy_retry = 0x7
error_number ErrorCode.session_table_full = 0x8
error_number ErrorCode.session_expired = 0x9
error_number ErrorCode.authentication_failed = 0xa
error_number ErrorCode.unknown_client = 0xc
error_number ErrorCode.stale_challenge_reconnect_and_retry = 0xe
error_number ErrorCode.challenge_unavailable = 0x12
error_number ErrorCode.unsupported_suite = 0x13
error_number ErrorCode.role_not_permitted = 0x14

pub data LinkErrorCode : Type 0 where
  wrong_side link_type_on_client_transport before_link_up unknown_handle : LinkErrorCode
  connection_table_full link_major_mismatch too_many_outstanding non_zero_session : LinkErrorCode
  no_authorisation : LinkErrorCode

-- `LinkErrorCode as u16`.
abbrev pub link_error_number : LinkErrorCode → ℕ
link_error_number LinkErrorCode.wrong_side = 0x100
link_error_number LinkErrorCode.link_type_on_client_transport = 0x101
link_error_number LinkErrorCode.before_link_up = 0x102
link_error_number LinkErrorCode.unknown_handle = 0x103
link_error_number LinkErrorCode.connection_table_full = 0x104
link_error_number LinkErrorCode.link_major_mismatch = 0x105
link_error_number LinkErrorCode.too_many_outstanding = 0x106
link_error_number LinkErrorCode.non_zero_session = 0x107
link_error_number LinkErrorCode.no_authorisation = 0x108
