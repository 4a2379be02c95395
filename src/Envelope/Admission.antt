-- ===== src/Envelope/Admission.antt =====
-- The definitions of crates/km43/src/admission.rs.
use km.Envelope.Kinds.{MessageType}

pub data Admits : Type 0 where
  without_session only_with_session not_a_request : Admits

-- `MessageType::admits`.
abbrev pub admits : MessageType → Admits
admits MessageType.discover = without_session
admits MessageType.hello = without_session
admits MessageType.pair = without_session
admits MessageType.enrol = without_session
admits MessageType.subscribe = only_with_session
admits MessageType.read_log = only_with_session
admits MessageType.get_config = only_with_session
admits MessageType.set_config = only_with_session
admits MessageType.command = only_with_session
admits MessageType.firmware = only_with_session
admits MessageType.time = only_with_session
admits MessageType.goodbye = only_with_session
admits MessageType.inventory = only_with_session
admits MessageType.readings = only_with_session
admits MessageType.concerns = only_with_session
admits MessageType.history = only_with_session
admits MessageType.wifi_scan = only_with_session
admits MessageType.wifi_status = only_with_session
admits MessageType.vouch = only_with_session
admits MessageType.clients = only_with_session
admits MessageType.invite = only_with_session
admits MessageType.approve = only_with_session
admits MessageType.remove = only_with_session
admits MessageType.discover_response = not_a_request
admits MessageType.hello_response = not_a_request
admits MessageType.subscribe_response = not_a_request
admits MessageType.event_response = not_a_request
admits MessageType.read_log_response = not_a_request
admits MessageType.get_config_response = not_a_request
admits MessageType.set_config_response = not_a_request
admits MessageType.command_response = not_a_request
admits MessageType.firmware_response = not_a_request
admits MessageType.time_response = not_a_request
admits MessageType.pair_response = not_a_request
admits MessageType.enrol_response = not_a_request
admits MessageType.goodbye_response = not_a_request
admits MessageType.inventory_response = not_a_request
admits MessageType.readings_response = not_a_request
admits MessageType.concerns_response = not_a_request
admits MessageType.history_response = not_a_request
admits MessageType.wifi_scan_response = not_a_request
admits MessageType.wifi_status_response = not_a_request
admits MessageType.vouch_response = not_a_request
admits MessageType.clients_response = not_a_request
admits MessageType.invite_response = not_a_request
admits MessageType.approve_response = not_a_request
admits MessageType.remove_response = not_a_request
admits MessageType.error_response = not_a_request
