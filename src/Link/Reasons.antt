-- ===== src/Link/Reasons.antt =====
-- The reasons, transports and outcomes of the link's bodies (crates/km43/src/generated.rs).
use km.Prelude.{ℕ, Option, none, some, ◌==◌, if◌then◌else◌}

pub data LinkTransport : Type 0 where
  ble wifi_local cloud usb : LinkTransport

-- `LinkTransport as u8` and `LinkTransport::try_from`.
abbrev pub link_transport_number : LinkTransport → ℕ
link_transport_number LinkTransport.ble = 0x1
link_transport_number LinkTransport.wifi_local = 0x2
link_transport_number LinkTransport.cloud = 0x3
link_transport_number LinkTransport.usb = 0x4

abbrev pub link_transport_of : ℕ → Option LinkTransport
link_transport_of n =
    if n == 0x1
    then some LinkTransport.ble
    else if n == 0x2
    then some LinkTransport.wifi_local
    else if n == 0x3
    then some LinkTransport.cloud
    else if n == 0x4
    then some LinkTransport.usb
    else none

pub data DisconnectReason : Type 0 where
  closed_by_client transport_error idle_timeout closed_by_comms : DisconnectReason

-- `DisconnectReason as u8` and `DisconnectReason::try_from`.
abbrev pub disconnect_reason_number : DisconnectReason → ℕ
disconnect_reason_number DisconnectReason.closed_by_client = 0x1
disconnect_reason_number DisconnectReason.transport_error = 0x2
disconnect_reason_number DisconnectReason.idle_timeout = 0x3
disconnect_reason_number DisconnectReason.closed_by_comms = 0x4

abbrev pub disconnect_reason_of : ℕ → Option DisconnectReason
disconnect_reason_of n =
    if n == 0x1
    then some DisconnectReason.closed_by_client
    else if n == 0x2
    then some DisconnectReason.transport_error
    else if n == 0x3
    then some DisconnectReason.idle_timeout
    else if n == 0x4
    then some DisconnectReason.closed_by_comms
    else none

pub data CloseReason : Type 0 where
  session_expired shedding authentication_failures resync : CloseReason

-- `CloseReason as u8` and `CloseReason::try_from`.
abbrev pub close_reason_number : CloseReason → ℕ
close_reason_number CloseReason.session_expired = 0x1
close_reason_number CloseReason.shedding = 0x2
close_reason_number CloseReason.authentication_failures = 0x3
close_reason_number CloseReason.resync = 0x4

abbrev pub close_reason_of : ℕ → Option CloseReason
close_reason_of n =
    if n == 0x1
    then some CloseReason.session_expired
    else if n == 0x2
    then some CloseReason.shedding
    else if n == 0x3
    then some CloseReason.authentication_failures
    else if n == 0x4
    then some CloseReason.resync
    else none

pub data DownloadReason : Type 0 where
  bench recovery : DownloadReason

-- `DownloadReason as u8` and `DownloadReason::try_from`.
abbrev pub download_reason_number : DownloadReason → ℕ
download_reason_number DownloadReason.bench = 0x1
download_reason_number DownloadReason.recovery = 0x2

abbrev pub download_reason_of : ℕ → Option DownloadReason
download_reason_of n =
    if n == 0x1
    then some DownloadReason.bench
    else if n == 0x2
    then some DownloadReason.recovery
    else none

pub data ClientConnected : Type 0 where
  accepted refused_table_full refused_handle_in_use refused_link_not_up : ClientConnected

-- `ClientConnected as u8` and `ClientConnected::try_from`.
abbrev pub client_connected_number : ClientConnected → ℕ
client_connected_number ClientConnected.accepted = 0x1
client_connected_number ClientConnected.refused_table_full = 0x2
client_connected_number ClientConnected.refused_handle_in_use = 0x3
client_connected_number ClientConnected.refused_link_not_up = 0x4

abbrev pub client_connected_of : ℕ → Option ClientConnected
client_connected_of n =
    if n == 0x1
    then some ClientConnected.accepted
    else if n == 0x2
    then some ClientConnected.refused_table_full
    else if n == 0x3
    then some ClientConnected.refused_handle_in_use
    else if n == 0x4
    then some ClientConnected.refused_link_not_up
    else none

pub data ClientDisconnected : Type 0 where
  released unknown_handle : ClientDisconnected

-- `ClientDisconnected as u8` and `ClientDisconnected::try_from`.
abbrev pub client_disconnected_number : ClientDisconnected → ℕ
client_disconnected_number ClientDisconnected.released = 0x1
client_disconnected_number ClientDisconnected.unknown_handle = 0x2

abbrev pub client_disconnected_of : ℕ → Option ClientDisconnected
client_disconnected_of n =
    if n == 0x1
    then some ClientDisconnected.released
    else if n == 0x2
    then some ClientDisconnected.unknown_handle
    else none

pub data CloseConnection : Type 0 where
  closed unknown_handle : CloseConnection

-- `CloseConnection as u8` and `CloseConnection::try_from`.
abbrev pub close_connection_number : CloseConnection → ℕ
close_connection_number CloseConnection.closed = 0x1
close_connection_number CloseConnection.unknown_handle = 0x2

abbrev pub close_connection_of : ℕ → Option CloseConnection
close_connection_of n =
    if n == 0x1
    then some CloseConnection.closed
    else if n == 0x2
    then some CloseConnection.unknown_handle
    else none

pub data TimeOffer : Type 0 where
  accepted refused_implausible refused_step_too_large refused_rate_limited : TimeOffer

-- `TimeOffer as u8` and `TimeOffer::try_from`.
abbrev pub time_offer_number : TimeOffer → ℕ
time_offer_number TimeOffer.accepted = 0x1
time_offer_number TimeOffer.refused_implausible = 0x2
time_offer_number TimeOffer.refused_step_too_large = 0x4
time_offer_number TimeOffer.refused_rate_limited = 0x5

abbrev pub time_offer_of : ℕ → Option TimeOffer
time_offer_of n =
    if n == 0x1
    then some TimeOffer.accepted
    else if n == 0x2
    then some TimeOffer.refused_implausible
    else if n == 0x4
    then some TimeOffer.refused_step_too_large
    else if n == 0x5
    then some TimeOffer.refused_rate_limited
    else none

pub data EnterDownload : Type 0 where
  entering refused_outside_window : EnterDownload

-- `EnterDownload as u8` and `EnterDownload::try_from`.
abbrev pub enter_download_number : EnterDownload → ℕ
enter_download_number EnterDownload.entering = 0x1
enter_download_number EnterDownload.refused_outside_window = 0x2

abbrev pub enter_download_of : ℕ → Option EnterDownload
enter_download_of n =
    if n == 0x1
    then some EnterDownload.entering
    else if n == 0x2
    then some EnterDownload.refused_outside_window
    else none
