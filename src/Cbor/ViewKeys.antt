-- ===== src/Cbor/ViewKeys.antt =====
-- Keys of crates/km43/src/cbor.rs on the stack: `Nest::take_key` and `Nest::read_key`.
use km.Prelude.{ℕ, zero, suc, ◌≤◌, ◌≡◌, refl, ◌∙◌, arith, true, false}
use km.Prelude.{List, length, set, length-set, none, some, err}
use km.Cbor.Types.{Open, KeyRank, keys_not_ascending}
use km.Cbor.Nest.{Nest, take_key, read_key, exceeds, max_depth}
use km.Cbor.View.{levels, view, IsNest, get_some, levels-set_top, key_next, noted, ascends, Goes}

take-levels :
    (key d deepest : ℕ) (slots : List Open)
    → length slots ≡ max_depth
    → d ≤ max_depth
    → key_next (levels slots d) ≡ true
    → let rank : KeyRank = record { negative = false; argument = key } in
      ascends rank (levels slots d) ≡ true
      → Goes
          (take_key key (record { open_slots = slots; depth = d; deepest = deepest }))
          tt
          (noted rank (levels slots d))
unfolding take_key
take-levels key zero deepest slots h k at more = absurd (grind arith)
take-levels key (suc d) deepest slots h k at more =
    let (o, e) = get_some slots d (omega arith) in
    let rank : KeyRank = record { negative = false; argument = key } in
    let top = record o { last_key = some rank } in
    let higher : exceeds rank o.last_key ≡ true = rw e at more in
    (
      record { open_slots = set slots d top; depth = suc d; deepest = deepest },
      rw (e, higher) refl,
      (length-set slots d top ∙ h, k),
      rw e (levels-set_top slots d top (omega arith)),
    )

read-levels :
    (rank : KeyRank) (at d deepest : ℕ) (slots : List Open)
    → length slots ≡ max_depth
    → d ≤ max_depth
    → key_next (levels slots d) ≡ true
    → ascends rank (levels slots d) ≡ true
    → Goes
        (read_key rank at (record { open_slots = slots; depth = d; deepest = deepest }))
        none
        (noted rank (levels slots d))
unfolding read_key
read-levels rank at zero deepest slots h k key more = absurd (grind arith)
read-levels rank at (suc d) deepest slots h k key more =
    let (o, e) = get_some slots d (omega arith) in
    let top = record o { last_key = some rank } in
    let higher : exceeds rank o.last_key ≡ true = rw e at more in
    (
      record { open_slots = set slots d top; depth = suc d; deepest = deepest },
      rw (e, higher) refl,
      (length-set slots d top ∙ h, k),
      rw e (levels-set_top slots d top (omega arith)),
    )

-- A key above the last one is taken by the writer, and read with nothing left to settle.
pub take-view :
    (key : ℕ) (n : Nest)
    → IsNest n
    → key_next (view n) ≡ true
    → let rank : KeyRank = record { negative = false; argument = key } in
      ascends rank (view n) ≡ true → Goes (take_key key n) tt (noted rank (view n))
take-view key n (slots, depth) = take-levels key n.depth n.deepest n.open_slots slots depth

pub read-view :
    (rank : KeyRank) (at : ℕ) (n : Nest)
    → IsNest n
    → key_next (view n) ≡ true
    → ascends rank (view n) ≡ true
    → Goes (read_key rank at n) none (noted rank (view n))
read-view rank at n (slots, depth) = read-levels rank at n.depth n.deepest n.open_slots slots depth

refused-levels :
    (key d deepest : ℕ) (slots : List Open)
    → length slots ≡ max_depth
    → d ≤ max_depth
    → key_next (levels slots d) ≡ true
    → let rank : KeyRank = record { negative = false; argument = key } in
      ascends rank (levels slots d) ≡ false
      → let n : Nest = record { open_slots = slots; depth = d; deepest = deepest } in
        take_key key n ≡ (n, err keys_not_ascending)
unfolding take_key
refused-levels key zero deepest slots h k at less = absurd (grind arith)
refused-levels key (suc d) deepest slots h k at less =
    let (o, e) = get_some slots d (omega arith) in
    let rank : KeyRank = record { negative = false; argument = key } in
    let lower : exceeds rank o.last_key ≡ false = rw e at less in rw (e, lower) refl

pub take-refused :
    (key : ℕ) (n : Nest)
    → IsNest n
    → key_next (view n) ≡ true
    → let rank : KeyRank = record { negative = false; argument = key } in
      ascends rank (view n) ≡ false → take_key key n ≡ (n, err keys_not_ascending)
take-refused key n (slots, depth) = refused-levels key n.depth n.deepest n.open_slots slots depth
