-- ===== src/Link/Types.antt =====
-- The fields and refusals of crates/km43/src/linklocal.rs.
use km.Prelude.{ℕ}
use km.Cbor.Types.{CborError}
use km.Link.WifiError.{WifiError}

pub data LinkField : Type 0 where
  protocol_major protocol_minor role fw boot_id hw net_version device_id net_origin : LinkField
  conn uptime conns transport peer reason outcome closed op ssid psk country hostname : LinkField
  origin unix_ms source accuracy_ms server release_version image_len digest bytes_have : LinkField
  pairing_revision remaining_ms : LinkField

pub data LinkError : Type 0 where
  missing duplicate not_a_version : LinkField → LinkError
  unknown_role unknown_transport unknown_reason unknown_outcome unknown_op unknown_source :
      ℕ → LinkError
  too_long : LinkField → ℕ → LinkError
  net_version_from_controller device_id_from_comms net_origin_from_controller : LinkError
  net_origin_without_version no_such_connection clear_carried_credentials : LinkError
  zero_network_version unwritten_clear_carried_metadata unwritten_clear_carried_origin : LinkError
  origin_not_eight passphrase_length country_not_two_bytes digest_not_sha256 : ℕ → LinkError
  device_id_not_sixteen pairing_window_too_long : ℕ → LinkError
  zero_pairing_revision : LinkError
  cbor : CborError → LinkError
  wifi : WifiError → LinkError
