-- ===== src/Ble/Defs.antt =====
-- The definitions of crates/km43/src/ble.rs.
use km.Prelude.{ℕ, ◌+◌, ◌-◌, min, Bool, true, false, List, ◌∷◌, ◌++◌}
use km.Prelude.{Option, none, some, ◌&&◌, ◌||◌, not, ltb, leb, ◌==◌, if◌then◌else◌, bit_and, bit_or}
use km.Prelude.{length, take, drop, replicate, sat_add, Result, ok, err}

abbrev pub ble_min_mtu : ℕ
ble_min_mtu = 23

abbrev pub ble_max_mtu : ℕ
ble_max_mtu = 517

abbrev pub ble_max_value : ℕ
ble_max_value = 512

abbrev pub ble_index_mask : ℕ
ble_index_mask = 0x7F

abbrev pub ble_last_flag : ℕ
ble_last_flag = 0x80

abbrev pub ble_timeout_ms : ℕ
ble_timeout_ms = 5000

abbrev pub max_payload : ℕ
max_payload = 1024

pub data BleError : Type 0 where
  mtu value_limit bad_length sequence busy buffer idle : BleError

-- `BleMtu` and `BleValueLimit` are the numbers that they hold; their constructors check them.
unfoldable pub new_mtu : ℕ → Result BleError ℕ
new_mtu n = if leb ble_min_mtu n && leb n ble_max_mtu then ok n else err mtu

unfoldable pub value_len : ℕ → ℕ
value_len n = min (n - 3) ble_max_value

unfoldable pub new_limit : ℕ → Result BleError ℕ
new_limit n = if leb (ble_min_mtu - 3) n && leb n ble_max_value then ok n else err value_limit

-- `BleMtu::select`.
unfoldable pub select : ℕ → ℕ → Result BleError ℕ
unfolding new_limit value_len
select m n = if ltb (value_len m) n then err value_limit else new_limit n

-- The transfer in progress: its id, the index expected next, and when the last value came.
pub record Active : Type 0 where
  pub id : ℕ
  pub expected : ℕ
  pub last_ms : ℕ

pub record BleReceiver : Type 0 where
  pub bytes : List ℕ
  pub len : ℕ
  pub active : Option Active

unfoldable pub new_receiver : BleReceiver
new_receiver = record { bytes = replicate max_payload 0; len = 0; active = none }

unfoldable pub reset : BleReceiver → BleReceiver
reset r = record r { active = none; len = 0 }

-- A clock that went back expires a transfer too.
abbrev pub expired : Option Active → ℕ → Bool
expired none now_ms = false
expired (some a) now_ms = ltb now_ms a.last_ms || leb ble_timeout_ms (now_ms - a.last_ms)

unfoldable pub expire : BleReceiver → ℕ → BleReceiver
unfolding reset
expire r now_ms = if expired r.active now_ms then reset r else r

-- A value of another transfer takes the place of the one in progress.
abbrev pub other : Option Active → ℕ → Bool
other none id = false
other (some a) id = not (a.id == id)

unfoldable pub forget_other : BleReceiver → ℕ → BleReceiver
unfolding reset
forget_other r id = if other r.active id then reset r else r

-- Whether `index` comes next.
abbrev pub in_sequence : Option Active → ℕ → Bool
in_sequence none index = index == 0
in_sequence (some a) index = a.expected == index

abbrev pub restart : Option Active → BleReceiver → BleReceiver
restart none r = record r { len = 0 }
restart (some a) r = r

abbrev pub Appended : Type 0
Appended = BleReceiver × Result BleError Bool

-- The bytes of a value in sequence.
unfoldable pub store : BleReceiver → ℕ → ℕ → Bool → List ℕ → ℕ → Appended
store r id index last data_bytes now_ms =
    let end = r.len + length data_bytes in
    if not last && (index == ble_index_mask || leb max_payload end)
    then (r, err bad_length)
    else if ltb (length r.bytes) end
    then (r, err bad_length)
    else (
      record {
        bytes = take r.len r.bytes ++ (data_bytes ++ drop end r.bytes);
        len = end;
        active =
            if last
            then none
            else some (record { id = id; expected = index + 1; last_ms = now_ms });
      },
      ok last,
    )

abbrev pub append_data : BleReceiver → ℕ → ℕ → Bool → List ℕ → ℕ → Appended
append_data r id index last data_bytes now_ms =
    if in_sequence r.active index
    then store (restart r.active r) id index last data_bytes now_ms
    else (r, err sequence)

abbrev pub append_value : BleReceiver → List ℕ → ℕ → Appended
append_value r (id ∷ flags ∷ data_bytes) now_ms =
    append_data (forget_other r id) id (bit_and flags ble_index_mask)
      (not (bit_and flags ble_last_flag == 0)) data_bytes now_ms
append_value r value now_ms = (r, err bad_length)

-- `BleReceiver::append`.
unfoldable pub append : BleReceiver → List ℕ → ℕ → ℕ → Appended
append r value m now_ms =
    if ltb (length value) 3 || ltb (value_len m) (length value)
    then (r, err bad_length)
    else append_value r value now_ms

abbrev pub answer : Appended → BleReceiver × Result BleError (Option (List ℕ))
answer (r, ok true) = (r, ok (some (take r.len r.bytes)))
answer (r, ok false) = (r, ok none)
answer (r, err why) = (reset r, err why)

-- `BleReceiver::receive`.
unfoldable pub receive :
    BleReceiver → List ℕ → ℕ → ℕ → BleReceiver × Result BleError (Option (List ℕ))
receive r value m now_ms = answer (append (expire r now_ms) value m now_ms)

pub record BlePending : Type 0 where
  pub len : ℕ
  pub offset : ℕ
  pub index : ℕ
  pub limit : ℕ
  pub offered : Option ℕ

pub record BleSender : Type 0 where
  pub bytes : List ℕ
  pub pending : Option BlePending
  pub next_id : ℕ

unfoldable pub new_sender : BleSender
new_sender = record { bytes = replicate max_payload 0; pending = none; next_id = 0 }

abbrev pub is_some {ℓ} : {A : Type ℓ} → Option A → Bool
is_some none = false
is_some (some a) = true

-- `BleSender::enqueue`.
unfoldable pub enqueue : BleSender → List ℕ → ℕ → BleSender × Result BleError (Unit {0})
enqueue s message limit =
    if is_some s.pending
    then (s, err busy)
    else if length message == 0 || ltb max_payload (length message)
    then (s, err bad_length)
    else if ltb (length s.bytes) (length message)
    then (s, err bad_length)
    else (
      record s {
        bytes = message ++ drop (length message) s.bytes;
        pending =
            some (record {
              len = length message;
              offset = 0;
              index = 0;
              limit = limit;
              offered = none;
            });
      },
      ok tt,
    )

-- The sender, the caller's buffer, and the length of the value in it.
abbrev pub Offered : Type 0
Offered = BleSender × List ℕ × Result BleError ℕ

-- The value from `offset` to `end`.
unfoldable pub offer : BleSender → BlePending → ℕ → List ℕ → Offered
offer s p end out =
    let data_bytes = take (end - p.offset) (drop p.offset s.bytes) in
    let size = length data_bytes + 2 in
    if ltb end p.offset || ltb (length s.bytes) end
    then (s, out, err bad_length)
    else if ltb (length out) size
    then (s, out, err buffer)
    else (
      record s { pending = some (record p { offered = some end }) },
      (s.next_id ∷ (if end == p.len then bit_or p.index ble_last_flag else p.index) ∷ data_bytes)
          ++ drop size out,
      ok size,
    )

abbrev pub fragment_pending : BleSender → Option BlePending → List ℕ → Offered
fragment_pending s none out = (s, out, err idle)
fragment_pending s (some p) out = offer s p (min (sat_add p.offset (p.limit - 2)) p.len) out

-- `BleSender::fragment`.
unfoldable pub fragment : BleSender → List ℕ → Offered
fragment s out = fragment_pending s s.pending out

abbrev pub accept_end : BleSender → BlePending → Option ℕ → BleSender × Result BleError (Unit {0})
accept_end s p none = (s, err idle)
accept_end s p (some end) =
    if end == p.len
    then (
      record s { pending = none; next_id = if leb 255 s.next_id then 0 else s.next_id + 1 },
      ok tt,
    )
    else if leb 255 p.index
    then (record s { pending = some (record p { offset = end; offered = none }) }, err sequence)
    else (
      record s { pending = some (record p { offset = end; index = p.index + 1; offered = none }) },
      ok tt,
    )

abbrev pub accept_pending : BleSender → Option BlePending → BleSender × Result BleError (Unit {0})
accept_pending s none = (s, err idle)
accept_pending s (some p) = accept_end s p p.offered

-- `BleSender::accepted`.
unfoldable pub accepted : BleSender → BleSender × Result BleError (Unit {0})
accepted s = accept_pending s s.pending

-- `BleSender::reset`.
unfoldable pub reset_sender : BleSender → BleSender
reset_sender s = record s { pending = none; next_id = 0 }
