-- ===== src/Cbor/Refines.antt =====
-- `Nest` of crates/km43/src/cbor.rs against a stack machine without slots, starts or high-water mark.
use km.Prelude.{
  ℕ, zero, suc, ◌%◌, ◌==◌, ◌≤◌, ◌<◌, ◌≡◌, refl, ◌∙◌, ap, sym, arith, Bool, true, false, Bool-cases,
  inl, inr,
}
use km.Prelude.{
  List, [], ◌∷◌, length, length-set, Option, none, some, Result, ok, err, ltb, if◌then◌else◌, ◌&&◌,
  ◌||◌,
}
use km.Cbor.Types.{
  CborError, Nesting, Open, KeyRank, Unsettled, keys_not_ascending, depth_exceeded, misplaced_key,
}
use km.Cbor.Nest
use km.Cbor.Nest.{Nest, exceeds, max_depth}
use km.Cbor.View.{
  Level, levels, view, IsNest, get_some, levels-set_top, key_next, counted, noted, opened, done,
  view-settle, at_key-view, count-view, push-view, depth-view,
}
use km.Cbor.Steps.{rank}

-- A call of a method of `Nest`.
pub data Op : Type 0 where
  settle at_key count_item has_room : Op
  push : Nesting → ℕ → ℕ → Op
  take_key : ℕ → Op
  read_key : KeyRank → ℕ → Op

-- What a caller learns from it. Where the repeated key has to be looked for is left out.
pub data Answer : Type 0 where
  nothing : Answer
  due : Bool → Answer
  refused : CborError → Answer
  unsettled : KeyRank → Answer

abbrev answered : Nest × Result CborError (Unit {0}) → Nest × Answer
answered (n, ok _) = (n, nothing)
answered (n, err why) = (n, refused why)

abbrev found : Nest × Result CborError (Option Unsettled) → Nest × Answer
found (n, ok none) = (n, nothing)
found (n, ok (some u)) = (n, unsettled u.key)
found (n, err why) = (n, refused why)

abbrev pub on_slots : Op → Nest → Nest × Answer
on_slots Op.settle n = (Nest.settle n, nothing)
on_slots Op.at_key n = (n, due (Nest.at_key n))
on_slots Op.has_room n = (n, due (Nest.has_room n))
on_slots Op.count_item n = answered (Nest.count_item n)
on_slots (Op.push kind items start) n = answered (Nest.push kind items start n)
on_slots (Op.take_key key) n = answered (Nest.take_key key n)
on_slots (Op.read_key rank at) n = found (Nest.read_key rank at n)

-- Every unsigned key comes before every negative one, and in each sign the smaller argument first.
abbrev pub before : KeyRank → KeyRank → Bool
before a b =
    if a.negative
    then b.negative && ltb a.argument b.argument
    else b.negative || ltb a.argument b.argument

-- A key above the last one of its map, if there was one: not the same one again.
abbrev pub above : Option KeyRank → KeyRank → Bool
above none key = true
above (some last) key = before last key

exceeds_lem : (key : KeyRank) (last : Option KeyRank) → exceeds key last ≡ above last key
exceeds_lem key none = refl
exceeds_lem key (some last) = signs key.negative last.negative key.argument last.argument
  where
    signs :
        (n m : Bool) (k l : ℕ)
        → exceeds
            (record { negative = n; argument = k })
            (some (record { negative = m; argument = l }))
          ≡ before (record { negative = m; argument = l }) (record { negative = n; argument = k })
    signs true true k l = ground arith
    signs true false k l = refl
    signs false true k l = refl
    signs false false k l = ground arith

-- A key is due in a map of which whole pairs are left.
abbrev pub pairs_left : Nesting → ℕ → Bool
pairs_left Nesting.array remaining = false
pairs_left Nesting.map remaining = remaining % 2 == 0

abbrev pub wants_key : List Level → Bool
wants_key [] = false
wants_key (l ∷ st) = pairs_left l.kind l.remaining

wants_key_lem : (st : List Level) → key_next st ≡ wants_key st
wants_key_lem [] = refl
wants_key_lem (l ∷ st) = kinds l.kind l.remaining
  where
    kinds :
        (kind : Nesting) (n : ℕ)
        → key_next (record { kind = kind; remaining = n; last_key = none } ∷ []) ≡ pairs_left kind n
    kinds Nesting.array n = refl
    kinds Nesting.map n = refl

-- A key on the innermost level, and what to answer when it is not above the last one.
abbrev key_on : KeyRank → Answer → List Level → List Level × Answer
key_on key low [] = ([], refused misplaced_key)
key_on key low (l ∷ st) =
    if above l.last_key key then (noted key (l ∷ st), nothing) else (l ∷ st, low)

-- The specification: the same call on a stack of levels.
abbrev pub on_stack : Op → List Level → List Level × Answer
on_stack Op.settle st = (done st, nothing)
on_stack Op.at_key st = (st, due (wants_key st))
on_stack Op.has_room st = (st, due (ltb (length st) max_depth))
on_stack Op.count_item st = (counted st, nothing)
on_stack (Op.push kind items start) st =
    if ltb (length st) max_depth
    then (opened kind items st, nothing)
    else (st, refused depth_exceeded)
on_stack (Op.take_key key) st = key_on (rank key) (refused keys_not_ascending) st
on_stack (Op.read_key key at) st = key_on key (unsettled key) st

-- The slots say what the stack says.
abbrev Agree : Nest × Answer → List Level × Answer → Type 0
Agree (n, a) (st, b) = IsNest n × (view n ≡ st) × (a ≡ b)

take-agrees :
    (key d deepest : ℕ) (slots : List Open)
    → length slots ≡ max_depth
    → d ≤ max_depth
    → Agree
        (answered (Nest.take_key key (record { open_slots = slots; depth = d; deepest = deepest })))
        (on_stack (Op.take_key key) (levels slots d))
unfolding Nest.take_key
take-agrees key zero deepest slots h k = ((h, k), refl, refl)
take-agrees key (suc d) deepest slots h k =
    let (o, e) = get_some slots d (omega arith) in
    let top = record o { last_key = some (rank key) } in
    let same = sym (exceeds_lem (rank key) o.last_key) in
    elim (Bool-cases (exceeds (rank key) o.last_key)) [
      | inl up ↦
          rw (e, up, same ∙ up)
            ((length-set slots d top ∙ h, k), levels-set_top slots d top (omega arith), refl)
      | inr low ↦ rw (e, low, same ∙ low) ((h, k), rw e refl, refl)
    ]

read-agrees :
    (key : KeyRank) (at d deepest : ℕ) (slots : List Open)
    → length slots ≡ max_depth
    → d ≤ max_depth
    → Agree
        (found (Nest.read_key key at (record { open_slots = slots; depth = d; deepest = deepest })))
        (on_stack (Op.read_key key at) (levels slots d))
unfolding Nest.read_key
read-agrees key at zero deepest slots h k = ((h, k), refl, refl)
read-agrees key at (suc d) deepest slots h k =
    let (o, e) = get_some slots d (omega arith) in
    let top = record o { last_key = some key } in
    let same = sym (exceeds_lem key o.last_key) in
    elim (Bool-cases (exceeds key o.last_key)) [
      | inl up ↦
          rw (e, up, same ∙ up)
            ((length-set slots d top ∙ h, k), levels-set_top slots d top (omega arith), refl)
      | inr low ↦ rw (e, low, same ∙ low) ((h, k), rw e refl, refl)
    ]

full :
    (kind : Nesting) (items start : ℕ) (n : Nest)
    → ltb n.depth (length n.open_slots) ≡ false
    → Nest.push kind items start n ≡ (n, err depth_exceeded)
unfolding Nest.push
full kind items start n none_left = rw none_left refl

push-agrees :
    (kind : Nesting) (items start : ℕ) (n : Nest)
    → IsNest n
    → Agree (answered (Nest.push kind items start n)) (on_stack (Op.push kind items start) (view n))
push-agrees kind items start n is = elim (Bool-cases (ltb n.depth (length n.open_slots))) [
  | inl room ↦
      let shallow : n.depth < max_depth = ground (arith, is.0) in
      let (n', pushes, is', viewed) = push-view kind items start n is shallow in
      let fits : ltb (length (view n)) max_depth ≡ true = ground (arith, depth-view n is) in
      rw (pushes, fits) (is', viewed, refl)
  | inr none_left ↦
      let tight : ltb (length (view n)) max_depth ≡ false = ground (arith, depth-view n is, is.0) in
      rw (full kind items start n none_left, tight) (is, refl, refl)
]

room-agrees : (n : Nest) → IsNest n → Nest.has_room n ≡ ltb (length (view n)) max_depth
unfolding Nest.has_room
room-agrees n is = rw (is.0, depth-view n is) refl

op-agrees : (op : Op) (n : Nest) → IsNest n → Agree (on_slots op n) (on_stack op (view n))
op-agrees Op.settle n is = let (is', viewed) = view-settle n is in (is', viewed, refl)
op-agrees Op.at_key n is = (is, refl, ap due (at_key-view n is ∙ wants_key_lem (view n)))
op-agrees Op.has_room n is = (is, refl, ap due (room-agrees n is))
op-agrees Op.count_item n is =
    let (n', counts, is', viewed) = count-view n is in rw counts (is', viewed, refl)
op-agrees (Op.push kind items start) n is = push-agrees kind items start n is
op-agrees (Op.take_key key) n (h, k) = take-agrees key n.depth n.deepest n.open_slots h k
op-agrees (Op.read_key key at) n (h, k) = read-agrees key at n.depth n.deepest n.open_slots h k

-- The answers to calls, one after another.
abbrev pub slots_answer : List Op → Nest → List Answer
slots_answer [] n = []
slots_answer (op ∷ ops) n = (on_slots op n).1 ∷ slots_answer ops (on_slots op n).0

abbrev pub stack_answers : List Op → List Level → List Answer
stack_answers [] st = []
stack_answers (op ∷ ops) st = (on_stack op st).1 ∷ stack_answers ops (on_stack op st).0

-- Any calls of the methods of a nest, in any order, refusals included, answer what the stack
-- machine answers that starts from the levels of that nest and takes a key only above the last
-- one of its map; of a key that may be a repeat the answer is compared, the range of bytes to
-- search for it is not.
pub slots_answer-refines :
    (ops : List Op) (n : Nest) → IsNest n → slots_answer ops n ≡ stack_answers ops (view n)
slots_answer-refines [] n is = refl
slots_answer-refines (op ∷ ops) n is =
    let (is', viewed, same) = op-agrees op n is in
    rw (same, slots_answer-refines ops (on_slots op n).0 is', viewed) refl
