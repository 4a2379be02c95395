-- ===== src/Link/WifiError.antt =====
-- The refusals of crates/km43/src/wifi.rs, which the link's refusals carry.
use km.Prelude.{ℕ, ℤ}
use km.Cbor.Types.{CborError}

pub data WifiField : Type 0 where
  refresh scan refused age_ms aps unlisted ssid rssi security band channel section : WifiField
  version state reason ipv4 outcome : WifiField

pub data WifiError : Type 0 where
  missing duplicate : WifiField → WifiError
  unallocated : WifiField → ℕ → WifiError
  ssid_length channel_out_of_range too_many_access_points ipv4_length : ℕ → WifiError
  rssi_out_of_range : ℤ → WifiError
  out_of_order ssid_repeated list_incomplete refused_while_running : WifiError
  scan_state_disagrees joining_is_not_recorded report_incomplete reason_disagrees : WifiError
  address_disagrees zero_scan : WifiError
  cbor : CborError → WifiError
