-- ===== src/Envelope/Kinds.antt =====
-- The message types of crates/km43/src/generated.rs.
use km.Prelude.{ℕ, Option, none, some, ◌==◌, if◌then◌else◌}

pub data MessageType : Type 0 where
  discover discover_response hello hello_response subscribe subscribe_response : MessageType
  event_response read_log read_log_response get_config get_config_response set_config : MessageType
  set_config_response command command_response firmware firmware_response time : MessageType
  time_response pair pair_response goodbye goodbye_response inventory inventory_response :
      MessageType
  readings readings_response concerns concerns_response history history_response wifi_scan :
      MessageType
  wifi_scan_response wifi_status wifi_status_response enrol enrol_response vouch : MessageType
  vouch_response invite invite_response approve approve_response remove remove_response :
      MessageType
  clients clients_response error_response : MessageType

-- `MessageType as u8` and `MessageType::try_from`.
abbrev pub type_number : MessageType → ℕ
type_number MessageType.discover = 0x0
type_number MessageType.discover_response = 0x80
type_number MessageType.hello = 0x1
type_number MessageType.hello_response = 0x81
type_number MessageType.subscribe = 0x3
type_number MessageType.subscribe_response = 0x83
type_number MessageType.event_response = 0x4
type_number MessageType.read_log = 0x5
type_number MessageType.read_log_response = 0x85
type_number MessageType.get_config = 0x6
type_number MessageType.get_config_response = 0x86
type_number MessageType.set_config = 0x7
type_number MessageType.set_config_response = 0x87
type_number MessageType.command = 0x8
type_number MessageType.command_response = 0x88
type_number MessageType.firmware = 0x9
type_number MessageType.firmware_response = 0x89
type_number MessageType.time = 0xa
type_number MessageType.time_response = 0x8a
type_number MessageType.pair = 0xb
type_number MessageType.pair_response = 0x8b
type_number MessageType.goodbye = 0xc
type_number MessageType.goodbye_response = 0x8c
type_number MessageType.inventory = 0xd
type_number MessageType.inventory_response = 0x8d
type_number MessageType.readings = 0xe
type_number MessageType.readings_response = 0x8e
type_number MessageType.concerns = 0xf
type_number MessageType.concerns_response = 0x8f
type_number MessageType.history = 0x10
type_number MessageType.history_response = 0x90
type_number MessageType.wifi_scan = 0x11
type_number MessageType.wifi_scan_response = 0x91
type_number MessageType.wifi_status = 0x12
type_number MessageType.wifi_status_response = 0x92
type_number MessageType.enrol = 0x13
type_number MessageType.enrol_response = 0x93
type_number MessageType.vouch = 0x14
type_number MessageType.vouch_response = 0x94
type_number MessageType.invite = 0x15
type_number MessageType.invite_response = 0x95
type_number MessageType.approve = 0x16
type_number MessageType.approve_response = 0x96
type_number MessageType.remove = 0x17
type_number MessageType.remove_response = 0x97
type_number MessageType.clients = 0x18
type_number MessageType.clients_response = 0x98
type_number MessageType.error_response = 0xff

unfoldable pub type_of : ℕ → Option MessageType
type_of v =
    if v == 0x0
    then some MessageType.discover
    else if v == 0x80
    then some MessageType.discover_response
    else if v == 0x1
    then some MessageType.hello
    else if v == 0x81
    then some MessageType.hello_response
    else if v == 0x3
    then some MessageType.subscribe
    else if v == 0x83
    then some MessageType.subscribe_response
    else if v == 0x4
    then some MessageType.event_response
    else if v == 0x5
    then some MessageType.read_log
    else if v == 0x85
    then some MessageType.read_log_response
    else if v == 0x6
    then some MessageType.get_config
    else if v == 0x86
    then some MessageType.get_config_response
    else if v == 0x7
    then some MessageType.set_config
    else if v == 0x87
    then some MessageType.set_config_response
    else if v == 0x8
    then some MessageType.command
    else if v == 0x88
    then some MessageType.command_response
    else if v == 0x9
    then some MessageType.firmware
    else if v == 0x89
    then some MessageType.firmware_response
    else if v == 0xa
    then some MessageType.time
    else if v == 0x8a
    then some MessageType.time_response
    else if v == 0xb
    then some MessageType.pair
    else if v == 0x8b
    then some MessageType.pair_response
    else if v == 0xc
    then some MessageType.goodbye
    else if v == 0x8c
    then some MessageType.goodbye_response
    else if v == 0xd
    then some MessageType.inventory
    else if v == 0x8d
    then some MessageType.inventory_response
    else if v == 0xe
    then some MessageType.readings
    else if v == 0x8e
    then some MessageType.readings_response
    else if v == 0xf
    then some MessageType.concerns
    else if v == 0x8f
    then some MessageType.concerns_response
    else if v == 0x10
    then some MessageType.history
    else if v == 0x90
    then some MessageType.history_response
    else if v == 0x11
    then some MessageType.wifi_scan
    else if v == 0x91
    then some MessageType.wifi_scan_response
    else if v == 0x12
    then some MessageType.wifi_status
    else if v == 0x92
    then some MessageType.wifi_status_response
    else if v == 0x13
    then some MessageType.enrol
    else if v == 0x93
    then some MessageType.enrol_response
    else if v == 0x14
    then some MessageType.vouch
    else if v == 0x94
    then some MessageType.vouch_response
    else if v == 0x15
    then some MessageType.invite
    else if v == 0x95
    then some MessageType.invite_response
    else if v == 0x16
    then some MessageType.approve
    else if v == 0x96
    then some MessageType.approve_response
    else if v == 0x17
    then some MessageType.remove
    else if v == 0x97
    then some MessageType.remove_response
    else if v == 0x18
    then some MessageType.clients
    else if v == 0x98
    then some MessageType.clients_response
    else if v == 0xff
    then some MessageType.error_response
    else none
