-- ===== src/Cbor/Calls.antt =====
-- Calls of the writer of crates/km43/src/cbor.rs that write a value or open a container.
use km.Prelude.{
  ℕ, ◌+◌, ◌*◌, ◌≤◌, refl, arith, List, [], ◌∷◌, Bool, Bool-cases, inl, inr, not, ◌&&◌, ◌==◌, ok,
  err, ℤ, pos, negsuc,
}
use km.Prelude.{length, usize_max, ltb, if◌then◌else◌}
use km.Cbor.Types.{
  Major, width_of, width_bytes, Nesting, Act, ◌>>◌, pure, misplaced_key, trailing_item,
  depth_exceeded, destination_too_small, string_too_long,
}
use km.Cbor.Nest.{Nest, count_item, push, take_key, has_room, at_key}
use km.Cbor.Bytes.{max_string}
use km.Cbor.Writer
use km.Cbor.Writer.{
  CborWriter, ensure, emit, settle_nest, open_settled, open_item, need_room, need_pairs,
  need_key_position, i32_head, need_string, need_depth, walked_item, in_nest, on_nest, head_byte,
  tail_bytes,
}
use km.Cbor.Bounds.{Kept, Keeps, Kept-refl, Keeps-bind, Keeps-if, ensure-Keeps, emit-Keeps}

in_nest-Keeps : {A : Type 0} (m : Act Nest A) → Keeps (in_nest m)
in_nest-Keeps m w h = (refl, omega arith, h, refl)

open_settled-Keeps : Keeps open_settled
open_settled-Keeps w h = elim (Bool-cases (at_key w.nest)) [
  | inl e ↦ rw e (Kept-refl w h)
  | inr e ↦
      rw e (Keeps-if (λ w. w.nest.depth == 0 && not (w.next == 0)) (err trailing_item) (ok tt) w h)
]

-- A call, and the calls behind it.
pub Keeps-seq :
    {B : Type 0} (m : Act CborWriter (Unit {0})) (k : Act CborWriter B)
    → Keeps m
    → Keeps k
    → Keeps (m >> k)
Keeps-seq m k keeps_m keeps_k = Keeps-bind m (λ _. k) keeps_m (λ _. keeps_k)

pub open_item-Keeps : Keeps open_item
unfolding open_item
open_item-Keeps =
    Keeps-seq settle_nest open_settled (λ w h. (refl, omega arith, h, refl)) open_settled-Keeps

pub head-Keeps : (major : Major) (argument payload : ℕ) → Keeps (Writer.head major argument payload)
unfolding Writer.head
head-Keeps major argument payload =
    let size = width_bytes (width_of argument) + 1 + payload in
    let first = head_byte major argument ∷ [] in
    let tail = tail_bytes argument in
    Keeps-seq (ensure size) (emit first >> emit tail) (ensure-Keeps size)
      (Keeps-seq (emit first) (emit tail) (emit-Keeps first) (emit-Keeps tail))

pub counted-Keeps : Keeps (in_nest count_item)
counted-Keeps = in_nest-Keeps count_item

-- The head of an item, and the item counted.
abbrev item : Major → ℕ → ℕ → Act CborWriter (Unit {0}) → Act CborWriter (Unit {0})
item major argument payload k = Writer.head major argument payload >> k

item-Keeps :
    (major : Major) (argument payload : ℕ) (k : Act CborWriter (Unit {0}))
    → Keeps k
    → Keeps (Writer.head major argument payload >> k)
item-Keeps major argument payload k =
    Keeps-seq (Writer.head major argument payload) k (head-Keeps major argument payload)

u64-Keeps : (value : ℕ) → Keeps (Writer.u64 value)
unfolding Writer.u64
u64-Keeps value =
    Keeps-seq open_item (item Major.unsigned value 0 (in_nest count_item)) open_item-Keeps
      (item-Keeps Major.unsigned value 0 (in_nest count_item) counted-Keeps)

bool-Keeps : (value : Bool) → Keeps (Writer.bool value)
unfolding Writer.bool
bool-Keeps value =
    let byte = if value then 21 else 20 in
    Keeps-seq open_item (item Major.simple byte 0 (in_nest count_item)) open_item-Keeps
      (item-Keeps Major.simple byte 0 (in_nest count_item) counted-Keeps)

i32_head-Keeps : (value : ℤ) → Keeps (i32_head value)
i32_head-Keeps (pos n) = head-Keeps Major.unsigned n 0
i32_head-Keeps (negsuc n) = head-Keeps Major.negative n 0

i32-Keeps : (value : ℤ) → Keeps (Writer.i32 value)
unfolding Writer.i32
i32-Keeps value =
    Keeps-seq open_item (i32_head value >> in_nest count_item) open_item-Keeps
      (Keeps-seq (i32_head value) (in_nest count_item) (i32_head-Keeps value) counted-Keeps)

bytes-Keeps : (value : List ℕ) → Keeps (Writer.bytes value)
unfolding Writer.bytes
bytes-Keeps value =
    let size = length value in
    let k = emit value >> in_nest count_item in
    Keeps-seq open_item (item Major.bytes size size k) open_item-Keeps (
      item-Keeps Major.bytes size size k
        (Keeps-seq (emit value) (in_nest count_item) (emit-Keeps value) counted-Keeps))

need_string-Keeps : (raw : List ℕ) → Keeps (need_string raw)
need_string-Keeps raw = Keeps-if (λ _. ltb max_string (length raw)) (err string_too_long) (ok tt)

text-Keeps : (raw : List ℕ) → Keeps (Writer.text raw)
unfolding Writer.text
text-Keeps raw =
    let size = length raw in
    let k = emit raw >> in_nest count_item in
    Keeps-seq open_item (need_string raw >> item Major.text size size k) open_item-Keeps (
      Keeps-seq (need_string raw) (item Major.text size size k) (need_string-Keeps raw) (
        item-Keeps Major.text size size k
          (Keeps-seq (emit raw) (in_nest count_item) (emit-Keeps raw) counted-Keeps)))

need_room-Keeps : Keeps need_room
need_room-Keeps = Keeps-if (λ w. has_room w.nest) (ok tt) (err depth_exceeded)

array-Keeps : (len : ℕ) → Keeps (Writer.array len)
unfolding Writer.array
array-Keeps len =
    let opened = in_nest (push Nesting.array len 0) in
    let k = in_nest count_item >> opened in
    Keeps-seq open_item (need_room >> item Major.array len 0 k) open_item-Keeps (
      Keeps-seq need_room (item Major.array len 0 k) need_room-Keeps (
        item-Keeps Major.array len 0 k (
          Keeps-seq (in_nest count_item) opened counted-Keeps
            (in_nest-Keeps (push Nesting.array len 0)))))

need_pairs-Keeps : (pairs : ℕ) → Keeps (need_pairs pairs)
need_pairs-Keeps pairs =
    Keeps-if (λ _. ltb usize_max (pairs * 2)) (err destination_too_small) (ok tt)

map-Keeps : (pairs : ℕ) → Keeps (Writer.map pairs)
unfolding Writer.map
map-Keeps pairs =
    let opened = in_nest (push Nesting.map (pairs * 2) 0) in
    let k = in_nest count_item >> opened in
    Keeps-seq open_item (need_room >> (need_pairs pairs >> item Major.map pairs 0 k))
      open_item-Keeps
      (Keeps-seq need_room (need_pairs pairs >> item Major.map pairs 0 k) need_room-Keeps (
        Keeps-seq (need_pairs pairs) (item Major.map pairs 0 k) (need_pairs-Keeps pairs) (
          item-Keeps Major.map pairs 0 k (
            Keeps-seq (in_nest count_item) opened counted-Keeps
              (in_nest-Keeps (push Nesting.map (pairs * 2) 0))))))

need_key_position-Keeps : Keeps need_key_position
need_key_position-Keeps = Keeps-if (λ w. at_key w.nest) (ok tt) (err misplaced_key)

key-Keeps : (value : ℤ) → Keeps (Writer.key value)
unfolding Writer.key
key-Keeps (negsuc n) = λ w h. Kept-refl w h
key-Keeps (pos n) =
    let k = item Major.unsigned n 0 (in_nest count_item) in
    Keeps-seq settle_nest (need_key_position >> (in_nest (take_key n) >> k))
      (λ w h. (refl, omega arith, h, refl))
      (Keeps-seq need_key_position (in_nest (take_key n) >> k) need_key_position-Keeps (
        Keeps-seq (in_nest (take_key n)) k (in_nest-Keeps (take_key n))
          (item-Keeps Major.unsigned n 0 (in_nest count_item) counted-Keeps)))

-- A call of the writer that writes a value, or a head.
pub data Call : Type 0 where
  array map u64 : ℕ → Call
  key i32 : ℤ → Call
  bool : Bool → Call
  bytes text : List ℕ → Call

unfoldable pub call : Call → Act CborWriter (Unit {0})
unfolding Writer.array Writer.map Writer.u64 Writer.key Writer.i32 Writer.bool Writer.bytes
    Writer.text
call (Call.array len) = Writer.array len
call (Call.map pairs) = Writer.map pairs
call (Call.u64 value) = Writer.u64 value
call (Call.key value) = Writer.key value
call (Call.i32 value) = Writer.i32 value
call (Call.bool value) = Writer.bool value
call (Call.bytes value) = Writer.bytes value
call (Call.text raw) = Writer.text raw

unfoldable pub calls : List Call → Act CborWriter (Unit {0})
calls [] = pure tt
calls (c ∷ cs) = call c >> calls cs

pub call-Keeps : (c : Call) → Keeps (call c)
unfolding call
call-Keeps (Call.array len) = array-Keeps len
call-Keeps (Call.map pairs) = map-Keeps pairs
call-Keeps (Call.u64 value) = u64-Keeps value
call-Keeps (Call.key value) = key-Keeps value
call-Keeps (Call.i32 value) = i32-Keeps value
call-Keeps (Call.bool value) = bool-Keeps value
call-Keeps (Call.bytes value) = bytes-Keeps value
call-Keeps (Call.text raw) = text-Keeps raw

-- Any of these calls, one after another.
pub calls-Keeps : (cs : List Call) (w : CborWriter) → w.next ≤ length w.dst → Kept w (calls cs w).0
unfolding calls
calls-Keeps [] w h = Kept-refl w h
calls-Keeps (c ∷ cs) w h = Keeps-seq (call c) (calls cs) (call-Keeps c) (calls-Keeps cs) w h
