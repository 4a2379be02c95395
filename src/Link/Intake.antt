-- ===== src/Link/Intake.antt =====
-- Which link-local frames are acted on (crates/km43/src/linklocal.rs, and the tables of generated.rs).
use km.Prelude.{
  ℕ, Bool, true, false, not, Option, none, some, ◌==◌, if◌then◌else◌, bit_and, Result, ok, err,
}
use km.Envelope.LinkKinds.{LinkMessageType, link_number}
use km.Envelope.Codes.{LinkErrorCode, wrong_side, non_zero_session}
use km.Envelope.Defs.{SessionId, unassigned, assigned}
use km.Link.Types.{LinkError, unknown_role}

-- `LinkMessageType::try_from`.
unfoldable pub link_type_of : ℕ → Option LinkMessageType
link_type_of n =
    if n == 0x60
    then some LinkMessageType.link_up
    else if n == 0xe0
    then some LinkMessageType.link_up_ack
    else if n == 0x61
    then some LinkMessageType.heartbeat
    else if n == 0xe1
    then some LinkMessageType.heartbeat_ack
    else if n == 0x62
    then some LinkMessageType.client_connected
    else if n == 0xe2
    then some LinkMessageType.client_connected_ack
    else if n == 0x63
    then some LinkMessageType.client_disconnected
    else if n == 0xe3
    then some LinkMessageType.client_disconnected_ack
    else if n == 0x64
    then some LinkMessageType.close_connection
    else if n == 0xe4
    then some LinkMessageType.close_connection_ack
    else if n == 0x65
    then some LinkMessageType.net_config
    else if n == 0xe5
    then some LinkMessageType.net_config_ack
    else if n == 0x66
    then some LinkMessageType.time_offer
    else if n == 0xe6
    then some LinkMessageType.time_offer_ack
    else if n == 0x67
    then some LinkMessageType.comms_release
    else if n == 0xe7
    then some LinkMessageType.comms_release_ack
    else if n == 0x68
    then some LinkMessageType.enter_download
    else if n == 0xe8
    then some LinkMessageType.enter_download_ack
    else if n == 0x69
    then some LinkMessageType.pairing_window
    else if n == 0xe9
    then some LinkMessageType.pairing_window_ack
    else if n == 0x6a
    then some LinkMessageType.wifi_scan
    else if n == 0xea
    then some LinkMessageType.wifi_scan_ack
    else if n == 0x6b
    then some LinkMessageType.wifi_scan_result
    else if n == 0xeb
    then some LinkMessageType.wifi_scan_result_ack
    else if n == 0x6c
    then some LinkMessageType.wifi_state
    else if n == 0xec
    then some LinkMessageType.wifi_state_ack
    else none

pub data LinkDirection : Type 0 where
  either comms_to_controller controller_to_comms : LinkDirection

-- `LinkMessageType::direction`.
abbrev pub direction : LinkMessageType → LinkDirection
direction LinkMessageType.link_up = either
direction LinkMessageType.link_up_ack = either
direction LinkMessageType.heartbeat = either
direction LinkMessageType.heartbeat_ack = either
direction LinkMessageType.client_connected = comms_to_controller
direction LinkMessageType.client_connected_ack = comms_to_controller
direction LinkMessageType.client_disconnected = comms_to_controller
direction LinkMessageType.client_disconnected_ack = comms_to_controller
direction LinkMessageType.close_connection = controller_to_comms
direction LinkMessageType.close_connection_ack = controller_to_comms
direction LinkMessageType.net_config = controller_to_comms
direction LinkMessageType.net_config_ack = controller_to_comms
direction LinkMessageType.time_offer = comms_to_controller
direction LinkMessageType.time_offer_ack = comms_to_controller
direction LinkMessageType.comms_release = controller_to_comms
direction LinkMessageType.comms_release_ack = controller_to_comms
direction LinkMessageType.enter_download = controller_to_comms
direction LinkMessageType.enter_download_ack = controller_to_comms
direction LinkMessageType.pairing_window = controller_to_comms
direction LinkMessageType.pairing_window_ack = controller_to_comms
direction LinkMessageType.wifi_scan = controller_to_comms
direction LinkMessageType.wifi_scan_ack = controller_to_comms
direction LinkMessageType.wifi_scan_result = comms_to_controller
direction LinkMessageType.wifi_scan_result_ack = comms_to_controller
direction LinkMessageType.wifi_state = comms_to_controller
direction LinkMessageType.wifi_state_ack = comms_to_controller

pub data Side : Type 0 where
  controller comms : Side

-- `Side::number`, `Side::of` and `Side::other`.
abbrev pub side_number : Side → ℕ
side_number controller = 1
side_number comms = 2

abbrev pub side_of : ℕ → Result LinkError Side
side_of n = if n == 1 then ok controller else if n == 2 then ok comms else err (unknown_role n)

abbrev pub other : Side → Side
other controller = comms
other comms = controller

-- `Side::starting`.
abbrev pub starting : LinkDirection → Option Side
starting either = none
starting comms_to_controller = some comms
starting controller_to_comms = some controller

-- `==` on sides.
abbrev pub same_side : Side → Side → Bool
same_side controller controller = true
same_side comms comms = true
same_side controller comms = false
same_side comms controller = false

pub data Intake : Type 0 where
  act : LinkMessageType → Intake
  refuse : LinkErrorCode → Intake

-- `is_ack`.
abbrev pub is_ack : LinkMessageType → Bool
is_ack kind = not (bit_and (link_number kind) 0x80 == 0)

abbrev pub permitted_from : Bool → Side → Option Side → Bool
permitted_from ack at none = true
permitted_from ack at (some started) =
    if ack then same_side at started else same_side at (other started)

-- `permitted`.
abbrev pub permitted : LinkMessageType → Side → Bool
permitted kind at = permitted_from (is_ack kind) at (starting (direction kind))

abbrev pub is_none : SessionId → Bool
is_none unassigned = true
is_none (assigned raw) = false

abbrev pub arriving_as : Option LinkMessageType → Side → SessionId → Intake
arriving_as none at session = refuse wrong_side
arriving_as (some kind) at session =
    if not (permitted kind at)
    then refuse wrong_side
    else if not (is_none session)
    then refuse non_zero_session
    else act kind

-- `arriving`.
unfoldable pub arriving : ℕ → Side → SessionId → Intake
unfolding link_type_of
arriving opcode at session = arriving_as (link_type_of opcode) at session

-- `LinkErrorCode::reaches_a_client`.
abbrev pub reaches_a_client : LinkErrorCode → Bool
reaches_a_client LinkErrorCode.link_type_on_client_transport = true
reaches_a_client LinkErrorCode.before_link_up = true
reaches_a_client LinkErrorCode.unknown_handle = true
reaches_a_client _ = false
