-- ===== src/Cbor/Nest.antt =====
-- `Nest` of crates/km43/src/cbor.rs: the containers that a message is inside.
use km.Prelude.{ℕ, zero, suc, ◌+◌, ◌-◌, ◌%◌, Bool, true, false, List, Option, none, some, ◌&&◌, not}
use km.Prelude.{length, get_elem?, set, replicate, Result, ok, err, if◌then◌else◌, ltb, leb, ◌==◌}
use km.Cbor.Types.{
  CborError, KeyRank, Open, Unsettled, Nesting, Act, depth_exceeded, misplaced_key,
  keys_not_ascending,
}

abbrev pub max_depth : ℕ
max_depth = 8

pub record Nest : Type 0 where
  pub open_slots : List Open
  pub depth : ℕ
  pub deepest : ℕ

abbrev pub empty_slot : Open
empty_slot = record { kind = Nesting.array; remaining = 0; last_key = none; start = 0 }

unfoldable pub new_nest : Nest
new_nest = record { open_slots = replicate max_depth empty_slot; depth = 0; deepest = 0 }

-- `Nest::innermost`, at a given depth.
abbrev pub innermost_at : List Open → ℕ → Option Open
innermost_at slots zero = none
innermost_at slots (suc d) = get_elem? slots d

abbrev pub owes : Option Open → Bool
owes none = false
owes (some top) = not (top.remaining == 0)

-- The loop of `Nest::settle`: the depth that is left.
unfoldable pub settled_depth : List Open → ℕ → ℕ
settled_depth slots zero = 0
settled_depth slots (suc d) = elim (get_elem? slots d) [
  | none ↦ suc d
  | some top ↦ if top.remaining == 0 then settled_depth slots d else suc d
]

unfoldable pub settle : Nest → Nest
unfolding settled_depth
settle n = record n { depth = settled_depth n.open_slots n.depth }

abbrev pub is_map : Nesting → Bool
is_map Nesting.array = false
is_map Nesting.map = true

abbrev pub key_position : Option Open → Bool
key_position none = false
key_position (some top) = is_map top.kind && top.remaining % 2 == 0

-- `Nest::at_key`.
unfoldable pub at_key : Nest → Bool
at_key n = key_position (innermost_at n.open_slots n.depth)

abbrev pub count_at : Nest → ℕ → Option Open → Nest × Result CborError (Unit {0})
count_at n i none = (n, err depth_exceeded)
count_at n i (some top) = (
  record n { open_slots = set n.open_slots i (record top { remaining = top.remaining - 1 }) },
  ok tt,
)

abbrev pub count_below : Nest → ℕ → Nest × Result CborError (Unit {0})
count_below n zero = (n, ok tt)
count_below n (suc i) = count_at n i (get_elem? n.open_slots i)

-- `Nest::count_item`.
unfoldable pub count_item : Act Nest (Unit {0})
count_item n = count_below n n.depth

-- `Nest::has_room`.
unfoldable pub has_room : Nest → Bool
has_room n = ltb n.depth (length n.open_slots)

-- `Nest::push`.
unfoldable pub push : Nesting → ℕ → ℕ → Act Nest (Unit {0})
push kind items start n =
    if ltb n.depth (length n.open_slots)
    then (
      record {
        open_slots =
            set n.open_slots n.depth
              (record { kind = kind; remaining = items; last_key = none; start = start });
        depth = n.depth + 1;
        deepest = if ltb n.deepest (n.depth + 1) then n.depth + 1 else n.deepest;
      },
      ok tt,
    )
    else (n, err depth_exceeded)

-- The derived order of `KeyRank`: every unsigned key before every negative one.
abbrev pub key_le : KeyRank → KeyRank → Bool
key_le a b = sign_le a.negative b.negative (leb a.argument b.argument)
  where
    sign_le : Bool → Bool → Bool → Bool
    sign_le false true le = true
    sign_le true false le = false
    sign_le false false le = le
    sign_le true true le = le

abbrev pub exceeds : KeyRank → Option KeyRank → Bool
exceeds key none = true
exceeds key (some last) = not (key_le key last)

abbrev pub note_key : Nest → ℕ → Open → KeyRank → Nest
note_key n i top key = record n {
  open_slots = set n.open_slots i (record top { last_key = some key });
}

abbrev pub take_key_at : Nest → KeyRank → ℕ → Option Open → Nest × Result CborError (Unit {0})
take_key_at n key i none = (n, err depth_exceeded)
take_key_at n key i (some top) =
    if exceeds key top.last_key then (note_key n i top key, ok tt) else (n, err keys_not_ascending)

abbrev pub take_key_below : Nest → KeyRank → ℕ → Nest × Result CborError (Unit {0})
take_key_below n key zero = (n, err misplaced_key)
take_key_below n key (suc i) = take_key_at n key i (get_elem? n.open_slots i)

-- `Nest::take_key`.
unfoldable pub take_key : ℕ → Act Nest (Unit {0})
take_key key n = take_key_below n (record { negative = false; argument = key }) n.depth

abbrev pub read_key_at :
    Nest → KeyRank → ℕ → ℕ → Option Open → Nest × Result CborError (Option Unsettled)
read_key_at n key at i none = (n, err depth_exceeded)
read_key_at n key at i (some top) =
    if exceeds key top.last_key
    then (note_key n i top key, ok none)
    else (n, ok (some (record { key = key; from = top.start; to = at })))

abbrev pub read_key_below : Nest → KeyRank → ℕ → ℕ → Nest × Result CborError (Option Unsettled)
read_key_below n key at zero = (n, err misplaced_key)
read_key_below n key at (suc i) = read_key_at n key at i (get_elem? n.open_slots i)

-- `Nest::read_key`.
unfoldable pub read_key : KeyRank → ℕ → Act Nest (Option Unsettled)
read_key key at n = read_key_below n key at n.depth
