-- ===== src/Link/Arriving.antt =====
-- Which frames `arriving` of crates/km43/src/linklocal.rs acts on.
use km.Prelude.{
  ℕ, ◌-◌, ◌<◌, ◌≡◌, ◌≢◌, ◌⊎◌, refl, sym, ap, ◌∙◌, arith, Bool, true, false, not, ◌&&◌, ◌||◌, leb,
  List, [], ◌∷◌, Option, none, some, Bool-cases, inl, inr, if◌then◌else◌, ◌==◌, ==_iff,
}
use km.Prelude.Bits.{all_below, all_below_sound}
use km.Envelope.LinkKinds.{LinkMessageType, link_number}
use km.Envelope.Codes.{wrong_side, non_zero_session}
use km.Envelope.Defs.{SessionId, unassigned, assigned}
use km.Link.Intake.{
  Intake, act, refuse, Side, controller, comms, other, arriving, arriving_as, link_type_of,
  permitted, is_none,
}

link_type_of-link_number : (kind : LinkMessageType) → link_type_of (link_number kind) ≡ some kind
unfolding link_type_of
link_type_of-link_number LinkMessageType.link_up = refl
link_type_of-link_number LinkMessageType.link_up_ack = refl
link_type_of-link_number LinkMessageType.heartbeat = refl
link_type_of-link_number LinkMessageType.heartbeat_ack = refl
link_type_of-link_number LinkMessageType.client_connected = refl
link_type_of-link_number LinkMessageType.client_connected_ack = refl
link_type_of-link_number LinkMessageType.client_disconnected = refl
link_type_of-link_number LinkMessageType.client_disconnected_ack = refl
link_type_of-link_number LinkMessageType.close_connection = refl
link_type_of-link_number LinkMessageType.close_connection_ack = refl
link_type_of-link_number LinkMessageType.net_config = refl
link_type_of-link_number LinkMessageType.net_config_ack = refl
link_type_of-link_number LinkMessageType.time_offer = refl
link_type_of-link_number LinkMessageType.time_offer_ack = refl
link_type_of-link_number LinkMessageType.comms_release = refl
link_type_of-link_number LinkMessageType.comms_release_ack = refl
link_type_of-link_number LinkMessageType.enter_download = refl
link_type_of-link_number LinkMessageType.enter_download_ack = refl
link_type_of-link_number LinkMessageType.pairing_window = refl
link_type_of-link_number LinkMessageType.pairing_window_ack = refl
link_type_of-link_number LinkMessageType.wifi_scan = refl
link_type_of-link_number LinkMessageType.wifi_scan_ack = refl
link_type_of-link_number LinkMessageType.wifi_scan_result = refl
link_type_of-link_number LinkMessageType.wifi_scan_result_ack = refl
link_type_of-link_number LinkMessageType.wifi_state = refl
link_type_of-link_number LinkMessageType.wifi_state_ack = refl

-- Every byte, by evaluation: the type that it names has its number.
abbrev numbered : ℕ → Option LinkMessageType → Bool
numbered n none = true
numbered n (some kind) = link_number kind == n

every_byte : all_below 256 (λ n. numbered n (link_type_of n)) ≡ true
unfolding all_below link_type_of
every_byte = refl

-- The acknowledgement of a request, and the request of an acknowledgement.
abbrev pub partner : LinkMessageType → LinkMessageType
partner LinkMessageType.link_up = LinkMessageType.link_up_ack
partner LinkMessageType.link_up_ack = LinkMessageType.link_up
partner LinkMessageType.heartbeat = LinkMessageType.heartbeat_ack
partner LinkMessageType.heartbeat_ack = LinkMessageType.heartbeat
partner LinkMessageType.client_connected = LinkMessageType.client_connected_ack
partner LinkMessageType.client_connected_ack = LinkMessageType.client_connected
partner LinkMessageType.client_disconnected = LinkMessageType.client_disconnected_ack
partner LinkMessageType.client_disconnected_ack = LinkMessageType.client_disconnected
partner LinkMessageType.close_connection = LinkMessageType.close_connection_ack
partner LinkMessageType.close_connection_ack = LinkMessageType.close_connection
partner LinkMessageType.net_config = LinkMessageType.net_config_ack
partner LinkMessageType.net_config_ack = LinkMessageType.net_config
partner LinkMessageType.time_offer = LinkMessageType.time_offer_ack
partner LinkMessageType.time_offer_ack = LinkMessageType.time_offer
partner LinkMessageType.comms_release = LinkMessageType.comms_release_ack
partner LinkMessageType.comms_release_ack = LinkMessageType.comms_release
partner LinkMessageType.enter_download = LinkMessageType.enter_download_ack
partner LinkMessageType.enter_download_ack = LinkMessageType.enter_download
partner LinkMessageType.pairing_window = LinkMessageType.pairing_window_ack
partner LinkMessageType.pairing_window_ack = LinkMessageType.pairing_window
partner LinkMessageType.wifi_scan = LinkMessageType.wifi_scan_ack
partner LinkMessageType.wifi_scan_ack = LinkMessageType.wifi_scan
partner LinkMessageType.wifi_scan_result = LinkMessageType.wifi_scan_result_ack
partner LinkMessageType.wifi_scan_result_ack = LinkMessageType.wifi_scan_result
partner LinkMessageType.wifi_state = LinkMessageType.wifi_state_ack
partner LinkMessageType.wifi_state_ack = LinkMessageType.wifi_state

crosses :
    (kind : LinkMessageType) (at : Side) → permitted (partner kind) (other at) ≡ permitted kind at
crosses LinkMessageType.link_up controller = refl
crosses LinkMessageType.link_up comms = refl
crosses LinkMessageType.link_up_ack controller = refl
crosses LinkMessageType.link_up_ack comms = refl
crosses LinkMessageType.heartbeat controller = refl
crosses LinkMessageType.heartbeat comms = refl
crosses LinkMessageType.heartbeat_ack controller = refl
crosses LinkMessageType.heartbeat_ack comms = refl
crosses LinkMessageType.client_connected controller = refl
crosses LinkMessageType.client_connected comms = refl
crosses LinkMessageType.client_connected_ack controller = refl
crosses LinkMessageType.client_connected_ack comms = refl
crosses LinkMessageType.client_disconnected controller = refl
crosses LinkMessageType.client_disconnected comms = refl
crosses LinkMessageType.client_disconnected_ack controller = refl
crosses LinkMessageType.client_disconnected_ack comms = refl
crosses LinkMessageType.close_connection controller = refl
crosses LinkMessageType.close_connection comms = refl
crosses LinkMessageType.close_connection_ack controller = refl
crosses LinkMessageType.close_connection_ack comms = refl
crosses LinkMessageType.net_config controller = refl
crosses LinkMessageType.net_config comms = refl
crosses LinkMessageType.net_config_ack controller = refl
crosses LinkMessageType.net_config_ack comms = refl
crosses LinkMessageType.time_offer controller = refl
crosses LinkMessageType.time_offer comms = refl
crosses LinkMessageType.time_offer_ack controller = refl
crosses LinkMessageType.time_offer_ack comms = refl
crosses LinkMessageType.comms_release controller = refl
crosses LinkMessageType.comms_release comms = refl
crosses LinkMessageType.comms_release_ack controller = refl
crosses LinkMessageType.comms_release_ack comms = refl
crosses LinkMessageType.enter_download controller = refl
crosses LinkMessageType.enter_download comms = refl
crosses LinkMessageType.enter_download_ack controller = refl
crosses LinkMessageType.enter_download_ack comms = refl
crosses LinkMessageType.pairing_window controller = refl
crosses LinkMessageType.pairing_window comms = refl
crosses LinkMessageType.pairing_window_ack controller = refl
crosses LinkMessageType.pairing_window_ack comms = refl
crosses LinkMessageType.wifi_scan controller = refl
crosses LinkMessageType.wifi_scan comms = refl
crosses LinkMessageType.wifi_scan_ack controller = refl
crosses LinkMessageType.wifi_scan_ack comms = refl
crosses LinkMessageType.wifi_scan_result controller = refl
crosses LinkMessageType.wifi_scan_result comms = refl
crosses LinkMessageType.wifi_scan_result_ack controller = refl
crosses LinkMessageType.wifi_scan_result_ack comms = refl
crosses LinkMessageType.wifi_state controller = refl
crosses LinkMessageType.wifi_state comms = refl
crosses LinkMessageType.wifi_state_ack controller = refl
crosses LinkMessageType.wifi_state_ack comms = refl

-- The requests that the controller starts, and those that the comms processor does.
abbrev pub of_controller : List ℕ
of_controller = 0x60 ∷ 0x61 ∷ 0x64 ∷ 0x65 ∷ 0x67 ∷ 0x68 ∷ 0x69 ∷ 0x6A ∷ []

abbrev pub of_comms : List ℕ
of_comms = 0x60 ∷ 0x61 ∷ 0x62 ∷ 0x63 ∷ 0x66 ∷ 0x6B ∷ 0x6C ∷ []

abbrev pub one_of : ℕ → List ℕ → Bool
one_of n [] = false
one_of n (m ∷ ms) = n == m || one_of n ms

-- A side is due the requests that the other one starts, and the acknowledgements of its own.
abbrev pub due : Side → ℕ → Bool
due controller opcode =
    one_of opcode of_comms || (leb 0x80 opcode && one_of (opcode - 0x80) of_controller)
due comms opcode =
    one_of opcode of_controller || (leb 0x80 opcode && one_of (opcode - 0x80) of_comms)

abbrev taken : Side → Option LinkMessageType → Bool
taken at none = false
taken at (some kind) = permitted kind at

abbrev agree : Bool → Bool → Bool
agree true b = b
agree false b = not b

agree_eq : (a b : Bool) → agree a b ≡ true → a ≡ b
agree_eq true b e = sym e
agree_eq false true e = e
agree_eq false false e = refl

both_true : (a b : Bool) → (a && b) ≡ true → (a ≡ true) × (b ≡ true)
both_true true b e = (refl, e)
both_true false b e = absurd (ground (arith, e))

-- Every byte at either side, by evaluation.
due_table :
    all_below 256 (λ n.
      agree (due controller n) (taken controller (link_type_of n))
      && agree (due comms n) (taken comms (link_type_of n)))
    ≡ true
unfolding all_below link_type_of
due_table = refl

due-taken : (at : Side) (n : ℕ) → n < 256 → due at n ≡ taken at (link_type_of n)
due-taken at n byte =
    let both =
      both_true (agree (due controller n) (taken controller (link_type_of n)))
        (agree (due comms n) (taken comms (link_type_of n)))
        (all_below_sound 256
          (λ n.
            agree (due controller n) (taken controller (link_type_of n))
            && agree (due comms n) (taken comms (link_type_of n)))
          n due_table byte) in
    at_side at both
  where
    at_side :
        (at : Side)
        → (agree (due controller n) (taken controller (link_type_of n)) ≡ true)
          × (agree (due comms n) (taken comms (link_type_of n)) ≡ true)
        → due at n ≡ taken at (link_type_of n)
    at_side controller both = agree_eq (due controller n) (taken controller (link_type_of n)) both.0
    at_side comms both = agree_eq (due comms n) (taken comms (link_type_of n)) both.1

-- A frame that is acted on has the number of its type and no session, the side is due it, and the
-- other message of its exchange would be acted on at the other side. A refused one is not due at
-- this side, or is and bears a session.
abbrev pub Outcome : ℕ → Side → SessionId → Intake → Type 0
Outcome opcode at session (act kind) =
    (opcode ≡ link_number kind)
    × (session ≡ unassigned)
    × (due at opcode ≡ true)
    × (arriving (link_number (partner kind)) (other at) unassigned ≡ act (partner kind))
Outcome opcode at session (refuse code) =
    ((code ≡ wrong_side) × (due at opcode ≡ false))
    ⊎ ((code ≡ non_zero_session) × (due at opcode ≡ true) × (session ≢ unassigned))

known :
    (kind : LinkMessageType) (at : Side) (session : SessionId)
    → arriving (link_number kind) at session ≡ arriving_as (some kind) at session
unfolding arriving
known kind at session = ap (λ k. arriving_as k at session) (link_type_of-link_number kind)

acts :
    (kind : LinkMessageType) (at : Side)
    → permitted kind at ≡ true
    → arriving_as (some kind) at unassigned ≡ act kind
acts kind at e = rw e refl

session-Outcome :
    (opcode : ℕ) (kind : LinkMessageType) (at : Side) (session : SessionId)
    → numbered opcode (some kind) ≡ true
    → permitted kind at ≡ true
    → due at opcode ≡ true
    → Outcome opcode at session
        (if not (is_none session) then refuse non_zero_session else act kind)
session-Outcome opcode kind at unassigned number fine is_due = (
  sym ((==_iff (link_number kind) opcode).0 number),
  refl,
  is_due,
  known (partner kind) (other at) unassigned
      ∙ acts (partner kind) (other at) (crosses kind at ∙ fine),
)
session-Outcome opcode kind at (assigned raw) number fine is_due =
    inr (refl, is_due, λ e. absurd (grind (arith, e)))

as-Outcome :
    (opcode : ℕ) (found : Option LinkMessageType) (at : Side) (session : SessionId)
    → due at opcode ≡ taken at found
    → numbered opcode found ≡ true
    → Outcome opcode at session (arriving_as found at session)
as-Outcome opcode none at session is number = inl (refl, is)
as-Outcome opcode (some kind) at session is number = elim (Bool-cases (permitted kind at)) [
  | inr barred ↦ rw barred (inl (refl, is ∙ barred))
  | inl fine ↦ rw fine (session-Outcome opcode kind at session number fine (is ∙ fine))
]

-- Every byte, at either side, under any session: it is acted on just when it is the number of a
-- request that the other side starts, or of an acknowledgement of one that this side starts, and
-- bears no session, and then the other message of its exchange would be acted on at the other
-- side; else it is refused, as from the wrong side just when it is no such number, and for its
-- session otherwise.
pub arriving-Outcome :
    (opcode : ℕ) (at : Side) (session : SessionId)
    → opcode < 256
    → Outcome opcode at session (arriving opcode at session)
unfolding arriving
arriving-Outcome opcode at session byte =
    as-Outcome opcode (link_type_of opcode) at session (due-taken at opcode byte)
      (all_below_sound 256 (λ n. numbered n (link_type_of n)) opcode every_byte byte)
