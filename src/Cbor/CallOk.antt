-- ===== src/Cbor/CallOk.antt =====
-- A successful call of the writer of crates/km43/src/cbor.rs, as bytes and a step of the stack.
use km.Prelude.{ℕ, ◌≤◌, ◌≡◌, ap, ◌∙◌, false}
use km.Prelude.{List, [], ◌++◌, append-nil, length, ok}
use km.Cbor.Types.{Major, Act, ◌>>◌}
use km.Cbor.Nest.{settle, count_item}
use km.Cbor.Writer
use km.Cbor.Writer.{
  CborWriter, emit, in_nest, open_item, settle_nest, need_room, need_pairs, need_string,
  need_key_position, i32_head,
}
use km.Cbor.View.{Level, view, IsNest, done, key_next, counted, view-settle, count-view}
use km.Cbor.Steps.{head_bytes, ItemAt}
use km.Cbor.Wrote.{Adds, Adds-trans, seq_ok, emit_ok, head_ok, open_item_ok, in_nest_ok}

-- A writer that a caller may hold.
abbrev pub IsWriter : CborWriter → Type 0
IsWriter w = IsNest w.nest × (w.next ≤ length w.dst)

-- From `w` to `v`: the bytes between, and the stack of `v`.
abbrev pub Puts : CborWriter → CborWriter → List ℕ → List Level → Type 0
Puts w v bytes st = Adds w v bytes × IsNest v.nest × (view v.nest ≡ st)

-- The head of an item on a settled writer, then what may follow it, then the count.
pub counted_ok :
    (w v : CborWriter)
    → IsWriter w
    → in_nest count_item w ≡ (v, ok tt)
    → Puts w v [] (counted (view w.nest))
counted_ok w v (n, h) e =
    in_nest_ok count_item w v (counted (view w.nest)) h (count-view w.nest n) e

pub Adds-nil : (w v : CborWriter) (a : List ℕ) → Adds w v (a ++ []) → Adds w v a
Adds-nil w v a h = rw (append-nil a) at h

pub head-counted_ok :
    (major : Major) (argument payload : ℕ) (w v : CborWriter)
    → IsWriter w
    → (Writer.head major argument payload >> in_nest count_item) w ≡ (v, ok tt)
    → Puts w v (head_bytes major argument) (counted (view w.nest))
head-counted_ok major argument payload w v (n, h) e =
    let (u, e1, e2) = seq_ok (Writer.head major argument payload) (in_nest count_item) w v e in
    let (a, same) = head_ok major argument payload w u h e1 in
    let (b, is, viewed) = counted_ok u v (rw same n, a.2) e2 in
    (
      Adds-nil w v (head_bytes major argument)
          (Adds-trans w u v (head_bytes major argument) [] a b),
      is,
      viewed ∙ ap (λ n. counted (view n)) same,
    )

-- The same, with the bytes of a string between.
pub string_counted_ok :
    (major : Major) (argument payload : ℕ) (raw : List ℕ) (w v : CborWriter)
    → IsWriter w
    → (Writer.head major argument payload >> (emit raw >> in_nest count_item)) w ≡ (v, ok tt)
    → Puts w v (head_bytes major argument ++ raw) (counted (view w.nest))
string_counted_ok major argument payload raw w v (n, h) e =
    let (u, e1, rest) =
      seq_ok (Writer.head major argument payload) (emit raw >> in_nest count_item) w v e in
    let (a, same) = head_ok major argument payload w u h e1 in
    let (x, e2, e3) = seq_ok (emit raw) (in_nest count_item) u v rest in
    let (b, same') = emit_ok raw u x (a.2) e2 in
    let (c, is, viewed) = counted_ok x v (rw (same', same) n, b.2) e3 in
    let whole = Adds-trans w u x (head_bytes major argument) raw a b in
    (
      Adds-nil w v (head_bytes major argument ++ raw)
          (Adds-trans w x v (head_bytes major argument ++ raw) [] whole c),
      is,
      viewed ∙ ap (λ n. counted (view n)) (same' ∙ same),
    )

-- `open_item`, and what stands behind it on the settled writer.
abbrev pub Settled : CborWriter → CborWriter
Settled w = record w { nest = settle w.nest }

pub opened_item_ok :
    (k : Act CborWriter (Unit {0})) (w v : CborWriter)
    → IsWriter w
    → (open_item >> k) w ≡ (v, ok tt)
    → (k (Settled w) ≡ (v, ok tt)) × (key_next (done (view w.nest)) ≡ false)
opened_item_ok k w v (n, h) e =
    let (u, e1, e2) = seq_ok open_item k w v e in
    let (same, item) = open_item_ok w u n e1 in (ap k same ∙ e2, item)

pub Settled-IsWriter : (w : CborWriter) → IsWriter w → IsWriter (Settled w)
Settled-IsWriter w (n, h) = ((view-settle w.nest n).0, h)

-- The stack of an item on the settled writer, told on the writer itself.
pub unsettled :
    (w v : CborWriter) (bytes : List ℕ) (f : List Level → List Level)
    → IsWriter w
    → Puts (Settled w) v bytes (f (view (settle w.nest)))
    → Puts w v bytes (f (done (view w.nest)))
unsettled w v bytes f (n, h) (a, is, viewed) = (a, is, viewed ∙ ap f (view-settle w.nest n).1)

pub item_ok :
    (major : Major) (argument payload : ℕ) (w v : CborWriter)
    → IsWriter w
    → (open_item >> (Writer.head major argument payload >> in_nest count_item)) w ≡ (v, ok tt)
    → Adds w v (head_bytes major argument)
      × IsNest v.nest
      × ItemAt (done (view w.nest)) (view v.nest)
item_ok major argument payload w v h e =
    let (e1, item) =
      opened_item_ok (Writer.head major argument payload >> in_nest count_item) w v h e in
    let put = head-counted_ok major argument payload (Settled w) v (Settled-IsWriter w h) e1 in
    let (a, is, viewed) = unsettled w v (head_bytes major argument) counted h put in
    (a, is, (item, viewed))
