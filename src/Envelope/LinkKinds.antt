-- ===== src/Envelope/LinkKinds.antt =====
-- The link-local message types of crates/km43/src/generated.rs.
use km.Prelude.{ℕ}

pub data LinkMessageType : Type 0 where
  link_up link_up_ack heartbeat heartbeat_ack client_connected client_connected_ack :
      LinkMessageType
  client_disconnected client_disconnected_ack close_connection close_connection_ack :
      LinkMessageType
  net_config net_config_ack time_offer time_offer_ack comms_release comms_release_ack :
      LinkMessageType
  enter_download enter_download_ack pairing_window pairing_window_ack wifi_scan : LinkMessageType
  wifi_scan_ack wifi_scan_result wifi_scan_result_ack wifi_state wifi_state_ack : LinkMessageType

-- `LinkMessageType as u8`.
abbrev pub link_number : LinkMessageType → ℕ
link_number LinkMessageType.link_up = 0x60
link_number LinkMessageType.link_up_ack = 0xe0
link_number LinkMessageType.heartbeat = 0x61
link_number LinkMessageType.heartbeat_ack = 0xe1
link_number LinkMessageType.client_connected = 0x62
link_number LinkMessageType.client_connected_ack = 0xe2
link_number LinkMessageType.client_disconnected = 0x63
link_number LinkMessageType.client_disconnected_ack = 0xe3
link_number LinkMessageType.close_connection = 0x64
link_number LinkMessageType.close_connection_ack = 0xe4
link_number LinkMessageType.net_config = 0x65
link_number LinkMessageType.net_config_ack = 0xe5
link_number LinkMessageType.time_offer = 0x66
link_number LinkMessageType.time_offer_ack = 0xe6
link_number LinkMessageType.comms_release = 0x67
link_number LinkMessageType.comms_release_ack = 0xe7
link_number LinkMessageType.enter_download = 0x68
link_number LinkMessageType.enter_download_ack = 0xe8
link_number LinkMessageType.pairing_window = 0x69
link_number LinkMessageType.pairing_window_ack = 0xe9
link_number LinkMessageType.wifi_scan = 0x6a
link_number LinkMessageType.wifi_scan_ack = 0xea
link_number LinkMessageType.wifi_scan_result = 0x6b
link_number LinkMessageType.wifi_scan_result_ack = 0xeb
link_number LinkMessageType.wifi_state = 0x6c
link_number LinkMessageType.wifi_state_ack = 0xec
