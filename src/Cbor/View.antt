-- ===== src/Cbor/View.antt =====
-- `Nest` of crates/km43/src/cbor.rs as a stack: what its slots up to the depth say, innermost
-- first. Where a container starts, and how deep a walk went, is forgotten.
use km.Prelude.{
  ℕ, zero, suc, ◌+◌, ◌-◌, ◌%◌, ◌≤◌, ◌<◌, ◌≡◌, refl, ◌∙◌, ap, arith, Bool, true, false, ◌&&◌,
}
use km.Prelude.{
  List, [], ◌∷◌, length, get_elem?, set, length-set, Option, none, some, Result, ok, ltb, ◌==◌,
  if◌then◌else◌, Bool-cases, inl, inr,
}
use km.Cbor.Types.{CborError, Nesting, Open, KeyRank}
use km.Cbor.Nest.{Nest, settle, settled_depth, at_key, count_item, push, exceeds, is_map, max_depth}

pub record Level : Type 0 where
  pub kind : Nesting
  pub remaining : ℕ
  pub last_key : Option KeyRank

abbrev pub level : Open → Level
level o = record { kind = o.kind; remaining = o.remaining; last_key = o.last_key }

abbrev pub level_on : Option Open → List Level → List Level
level_on none st = st
level_on (some o) st = level o ∷ st

abbrev pub levels : List Open → ℕ → List Level
levels slots zero = []
levels slots (suc d) = level_on (get_elem? slots d) (levels slots d)

abbrev pub view : Nest → List Level
view n = levels n.open_slots n.depth

abbrev pub IsNest : Nest → Type 0
IsNest n = (length n.open_slots ≡ max_depth) × (n.depth ≤ max_depth)

get-set_ne :
    (slots : List Open) (i d : ℕ) (v : Open)
    → d < i
    → get_elem? (set slots i v) d ≡ get_elem? slots d
get-set_ne [] i d v h = refl
get-set_ne (x ∷ slots) zero d v h = absurd (omega arith)
get-set_ne (x ∷ slots) (suc i) zero v h = refl
get-set_ne (x ∷ slots) (suc i) (suc d) v h = get-set_ne slots i d v (omega arith)

get-set_self :
    (slots : List Open) (i : ℕ) (v : Open) → i < length slots → get_elem? (set slots i v) i ≡ some v
get-set_self [] i v h = absurd (omega arith)
get-set_self (x ∷ slots) zero v h = refl
get-set_self (x ∷ slots) (suc i) v h = get-set_self slots i v (omega arith)

pub get_some :
    (slots : List Open) (i : ℕ) → i < length slots → (o : Open) × (get_elem? slots i ≡ some o)
get_some [] i h = absurd (omega arith)
get_some (x ∷ slots) zero h = (x, refl)
get_some (x ∷ slots) (suc i) h = get_some slots i (omega arith)

pub levels-set :
    (slots : List Open) (i d : ℕ) (v : Open) → d ≤ i → levels (set slots i v) d ≡ levels slots d
levels-set slots i zero v h = refl
levels-set slots i (suc d) v h =
    rw (get-set_ne slots i d v (omega arith), levels-set slots i d v (omega arith)) refl

pub levels-set_top :
    (slots : List Open) (d : ℕ) (v : Open)
    → d < length slots
    → levels (set slots d v) (suc d) ≡ level v ∷ levels slots d
levels-set_top slots d v h =
    rw (get-set_self slots d v h, levels-set slots d d v (omega arith)) refl

length-levels : (slots : List Open) (d : ℕ) → d ≤ length slots → length (levels slots d) ≡ d
length-levels slots zero h = refl
length-levels slots (suc d) h =
    let (o, e) = get_some slots d (omega arith) in
    rw e (ap suc (length-levels slots d (omega arith)))

-- The operations on the stack.
unfoldable pub done : List Level → List Level
done [] = []
done (l ∷ st) = if l.remaining == 0 then done st else l ∷ st

abbrev pub key_next : List Level → Bool
key_next [] = false
key_next (l ∷ st) = is_map l.kind && l.remaining % 2 == 0

abbrev pub counted : List Level → List Level
counted [] = []
counted (l ∷ st) = record l { remaining = l.remaining - 1 } ∷ st

abbrev pub noted : KeyRank → List Level → List Level
noted key [] = []
noted key (l ∷ st) = record l { last_key = some key } ∷ st

abbrev pub ascends : KeyRank → List Level → Bool
ascends key [] = false
ascends key (l ∷ st) = exceeds key l.last_key

abbrev pub opened : Nesting → ℕ → List Level → List Level
opened kind items st = record { kind = kind; remaining = items; last_key = none } ∷ st

settled_top :
    (slots : List Open) (d : ℕ) (o : Open)
    → get_elem? slots d ≡ some o
    → settled_depth slots (suc d) ≡ (if o.remaining == 0 then settled_depth slots d else suc d)
unfolding settled_depth
settled_top slots d o e = ground (arith, e)

settled_levels :
    (slots : List Open) (d : ℕ)
    → d ≤ length slots
    → (levels slots (settled_depth slots d) ≡ done (levels slots d)) × (settled_depth slots d ≤ d)
unfolding done
settled_levels slots zero h = unfold settled_depth in (refl, omega arith)
settled_levels slots (suc d) h =
    let (o, e) = get_some slots d (omega arith) in
    let (rest, less) = settled_levels slots d (omega arith) in
    rw (e, settled_top slots d o e)
      (elim (Bool-cases (o.remaining == 0)) [
        | inl z ↦ rw z (rest, omega arith)
        | inr z ↦ rw (z, e) (refl, omega arith)
      ])

pub view-settle : (n : Nest) → IsNest n → IsNest (settle n) × (view (settle n) ≡ done (view n))
unfolding settle
view-settle n (slots, depth) =
    let (same, less) = settled_levels n.open_slots n.depth (omega arith) in
    ((slots, omega arith), same)

at_key-levels :
    (slots : List Open) (d deepest : ℕ)
    → d ≤ length slots
    → at_key (record { open_slots = slots; depth = d; deepest = deepest })
      ≡ key_next (levels slots d)
unfolding at_key
at_key-levels slots zero deepest h = refl
at_key-levels slots (suc d) deepest h = let (o, e) = get_some slots d (omega arith) in rw e refl

pub at_key-view : (n : Nest) → IsNest n → at_key n ≡ key_next (view n)
at_key-view n (slots, depth) = at_key-levels n.open_slots n.depth n.deepest (omega arith)

pub depth-view : (n : Nest) → IsNest n → length (view n) ≡ n.depth
depth-view n (slots, depth) = length-levels n.open_slots n.depth (omega arith)

-- An operation that answers, and the stack behind it.
abbrev pub Goes : {A : Type 0} → Nest × Result CborError A → A → List Level → Type 0
Goes s a st = (n : Nest) × (s ≡ (n, ok a)) × IsNest n × (view n ≡ st)

count-levels :
    (slots : List Open) (d deepest : ℕ)
    → length slots ≡ max_depth
    → d ≤ max_depth
    → Goes
        (count_item (record { open_slots = slots; depth = d; deepest = deepest }))
        tt
        (counted (levels slots d))
unfolding count_item
count-levels slots zero deepest h k = (_, refl, (h, k), refl)
count-levels slots (suc d) deepest h k =
    let (o, e) = get_some slots d (omega arith) in
    let top = record o { remaining = o.remaining - 1 } in
    (
      record { open_slots = set slots d top; depth = suc d; deepest = deepest },
      rw e refl,
      (length-set slots d top ∙ h, k),
      rw e (levels-set_top slots d top (omega arith)),
    )

pub count-view : (n : Nest) → IsNest n → Goes (count_item n) tt (counted (view n))
count-view n (slots, depth) = count-levels n.open_slots n.depth n.deepest slots depth

next : (d : ℕ) → d + 1 ≡ suc d
next d = omega arith

pub push-view :
    (kind : Nesting) (items start : ℕ) (n : Nest)
    → IsNest n
    → n.depth < max_depth
    → Goes (push kind items start n) tt (opened kind items (view n))
unfolding push
push-view kind items start n (slots, depth) room =
    let top : Open = record { kind = kind; remaining = items; last_key = none; start = start } in
    let here : ltb n.depth (length n.open_slots) ≡ true = ground arith in
    (
      record {
        open_slots = set n.open_slots n.depth top;
        depth = n.depth + 1;
        deepest = if ltb n.deepest (n.depth + 1) then n.depth + 1 else n.deepest;
      },
      rw here refl,
      (length-set n.open_slots n.depth top ∙ slots, omega arith),
      rw (next n.depth) (levels-set_top n.open_slots n.depth top (omega arith)),
    )
