-- ===== src/Envelope/EveryKind.antt =====
-- Tests run on every message type of crates/km43/src/generated.rs.
use km.Prelude.{◌<◌, ◌≡◌, refl, arith, Bool, true, Option, none, some}
use km.Prelude.Bits.{all_below, all_below_sound}
use km.Envelope.Kinds.{MessageType, type_number, type_of}

pub type_of-type_number : (kind : MessageType) → type_of (type_number kind) ≡ some kind
unfolding type_of
type_of-type_number MessageType.discover = refl
type_of-type_number MessageType.discover_response = refl
type_of-type_number MessageType.hello = refl
type_of-type_number MessageType.hello_response = refl
type_of-type_number MessageType.subscribe = refl
type_of-type_number MessageType.subscribe_response = refl
type_of-type_number MessageType.event_response = refl
type_of-type_number MessageType.read_log = refl
type_of-type_number MessageType.read_log_response = refl
type_of-type_number MessageType.get_config = refl
type_of-type_number MessageType.get_config_response = refl
type_of-type_number MessageType.set_config = refl
type_of-type_number MessageType.set_config_response = refl
type_of-type_number MessageType.command = refl
type_of-type_number MessageType.command_response = refl
type_of-type_number MessageType.firmware = refl
type_of-type_number MessageType.firmware_response = refl
type_of-type_number MessageType.time = refl
type_of-type_number MessageType.time_response = refl
type_of-type_number MessageType.pair = refl
type_of-type_number MessageType.pair_response = refl
type_of-type_number MessageType.goodbye = refl
type_of-type_number MessageType.goodbye_response = refl
type_of-type_number MessageType.inventory = refl
type_of-type_number MessageType.inventory_response = refl
type_of-type_number MessageType.readings = refl
type_of-type_number MessageType.readings_response = refl
type_of-type_number MessageType.concerns = refl
type_of-type_number MessageType.concerns_response = refl
type_of-type_number MessageType.history = refl
type_of-type_number MessageType.history_response = refl
type_of-type_number MessageType.wifi_scan = refl
type_of-type_number MessageType.wifi_scan_response = refl
type_of-type_number MessageType.wifi_status = refl
type_of-type_number MessageType.wifi_status_response = refl
type_of-type_number MessageType.enrol = refl
type_of-type_number MessageType.enrol_response = refl
type_of-type_number MessageType.vouch = refl
type_of-type_number MessageType.vouch_response = refl
type_of-type_number MessageType.invite = refl
type_of-type_number MessageType.invite_response = refl
type_of-type_number MessageType.approve = refl
type_of-type_number MessageType.approve_response = refl
type_of-type_number MessageType.remove = refl
type_of-type_number MessageType.remove_response = refl
type_of-type_number MessageType.clients = refl
type_of-type_number MessageType.clients_response = refl
type_of-type_number MessageType.error_response = refl

abbrev pub on_kind : (MessageType → Bool) → Option MessageType → Bool
on_kind p none = true
on_kind p (some kind) = p kind

-- A test on the kinds is run on the bytes that name them.
pub every_kind :
    (p : MessageType → Bool)
    → all_below 256 (λ b. on_kind p (type_of b)) ≡ true
    → (kind : MessageType) → type_number kind < 256
    → p kind ≡ true
every_kind p table kind small =
    rw (type_of-type_number kind) at
      (all_below_sound 256 (λ b. on_kind p (type_of b)) (type_number kind) table small)

pub type_number-lt : (kind : MessageType) → type_number kind < 256
type_number-lt MessageType.discover = omega arith
type_number-lt MessageType.discover_response = omega arith
type_number-lt MessageType.hello = omega arith
type_number-lt MessageType.hello_response = omega arith
type_number-lt MessageType.subscribe = omega arith
type_number-lt MessageType.subscribe_response = omega arith
type_number-lt MessageType.event_response = omega arith
type_number-lt MessageType.read_log = omega arith
type_number-lt MessageType.read_log_response = omega arith
type_number-lt MessageType.get_config = omega arith
type_number-lt MessageType.get_config_response = omega arith
type_number-lt MessageType.set_config = omega arith
type_number-lt MessageType.set_config_response = omega arith
type_number-lt MessageType.command = omega arith
type_number-lt MessageType.command_response = omega arith
type_number-lt MessageType.firmware = omega arith
type_number-lt MessageType.firmware_response = omega arith
type_number-lt MessageType.time = omega arith
type_number-lt MessageType.time_response = omega arith
type_number-lt MessageType.pair = omega arith
type_number-lt MessageType.pair_response = omega arith
type_number-lt MessageType.goodbye = omega arith
type_number-lt MessageType.goodbye_response = omega arith
type_number-lt MessageType.inventory = omega arith
type_number-lt MessageType.inventory_response = omega arith
type_number-lt MessageType.readings = omega arith
type_number-lt MessageType.readings_response = omega arith
type_number-lt MessageType.concerns = omega arith
type_number-lt MessageType.concerns_response = omega arith
type_number-lt MessageType.history = omega arith
type_number-lt MessageType.history_response = omega arith
type_number-lt MessageType.wifi_scan = omega arith
type_number-lt MessageType.wifi_scan_response = omega arith
type_number-lt MessageType.wifi_status = omega arith
type_number-lt MessageType.wifi_status_response = omega arith
type_number-lt MessageType.enrol = omega arith
type_number-lt MessageType.enrol_response = omega arith
type_number-lt MessageType.vouch = omega arith
type_number-lt MessageType.vouch_response = omega arith
type_number-lt MessageType.invite = omega arith
type_number-lt MessageType.invite_response = omega arith
type_number-lt MessageType.approve = omega arith
type_number-lt MessageType.approve_response = omega arith
type_number-lt MessageType.remove = omega arith
type_number-lt MessageType.remove_response = omega arith
type_number-lt MessageType.clients = omega arith
type_number-lt MessageType.clients_response = omega arith
type_number-lt MessageType.error_response = omega arith
