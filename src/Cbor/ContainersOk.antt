-- ===== src/Cbor/ContainersOk.antt =====
-- A container that a call of the writer of crates/km43/src/cbor.rs opened.
use km.Prelude.{ℕ, ◌+◌, ◌*◌, ◌≤◌, ◌<◌, ◌≡◌, refl, ap, ◌∙◌, arith, Bool-cases, true, inl, inr}
use km.Prelude.{List, [], ◌∷◌, length, ok, ltb, usize_max}
use km.Cbor.Types.{Major, ◌>>◌, Nesting}
use km.Cbor.Nest.{count_item, push, has_room, max_depth}
use km.Cbor.Writer
use km.Cbor.Writer.{
  CborWriter, emit, in_nest, on_nest, open_item, settle_nest, need_room, need_pairs, need_string,
  need_key_position, i32_head,
}
use km.Cbor.Calls.{Call}
use km.Cbor.View.{Level, view, IsNest, done, counted, opened, view-settle, push-view, depth-view}
use km.Cbor.Steps.{head_bytes, bytes_of, Leaves}
use km.Cbor.Wrote.{Adds, Adds-trans, seq_ok, head_ok, in_nest_ok}
use km.Cbor.CallOk.{
  IsWriter, Puts, counted_ok, Adds-nil, Settled, opened_item_ok, Settled-IsWriter, unsettled,
}

-- What a call that succeeded left.
abbrev pub Wrote : CborWriter → Call → CborWriter → Type 0
Wrote w c v = Adds w v (bytes_of c) × IsNest v.nest × Leaves c (done (view w.nest)) (view v.nest)

need_room_ok : (w v : CborWriter) → need_room w ≡ (v, ok tt) → (w ≡ v) × (has_room w.nest ≡ true)
need_room_ok w v e = elim (Bool-cases (has_room w.nest)) [
  | inl room ↦ (ap (λ p. p.0) (rw room at e), room)
  | inr full ↦ absurd (grind (arith, ap (λ p. p.1) (rw full at e)))
]

need_pairs_ok :
    (pairs : ℕ) (w v : CborWriter)
    → need_pairs pairs w ≡ (v, ok tt)
    → (w ≡ v) × (pairs * 2 ≤ usize_max)
need_pairs_ok pairs w v e = elim (Bool-cases (ltb usize_max (pairs * 2))) [
  | inl many ↦ absurd (grind (arith, ap (λ p. p.1) (rw many at e)))
  | inr few ↦ (ap (λ p. p.0) (rw few at e), ground arith)
]

-- The head of a container, the count, and the container opened.
container_ok :
    (major : Major) (kind : Nesting) (argument items : ℕ) (w v : CborWriter)
    → IsWriter w
    → has_room w.nest ≡ true
    → (Writer.head major argument 0 >> (in_nest count_item >> in_nest (push kind items 0))) w
      ≡ (v, ok tt)
    → Puts w v (head_bytes major argument) (opened kind items (counted (view w.nest)))
      × (length (view w.nest) + 1 ≤ max_depth)
unfolding has_room
container_ok major kind argument items w v (n, h) room e =
    let k = in_nest (push kind items 0) in
    let (u, e1, rest) = seq_ok (Writer.head major argument 0) (in_nest count_item >> k) w v e in
    let (a, same) = head_ok major argument 0 w u h e1 in
    let (x, e2, e3) = seq_ok (in_nest count_item) k u v rest in
    let (b, is, viewed) = counted_ok u x (rw same n, a.2) e2 in
    let deep : w.nest.depth < max_depth = ground (arith, n.0) in
    let size : length (view x.nest) ≡ length (view w.nest) =
      ap length (viewed ∙ ap (λ n. counted (view n)) same) ∙ length-counted (view w.nest) in
    let depth : x.nest.depth < max_depth =
      omega (arith, depth-view x.nest is, size, depth-view w.nest n) in
    let (c, is', viewed') =
      in_nest_ok (push kind items 0) x v (opened kind items (view x.nest)) b.2
        (push-view kind items 0 x.nest is depth) e3 in
    let bytes = head_bytes major argument in
    (
      (
        Adds-nil w v bytes
            (Adds-trans w x v bytes [] (Adds-nil w x bytes (Adds-trans w u x bytes [] a b)) c),
        is',
        viewed' ∙ ap (opened kind items) (viewed ∙ ap (λ n. counted (view n)) same),
      ),
      omega (arith, depth-view w.nest n),
    )
  where
    length-counted : (st : List Level) → length (counted st) ≡ length st
    length-counted [] = refl
    length-counted (l ∷ st) = refl

pub array_ok :
    (len : ℕ) (w v : CborWriter)
    → IsWriter w
    → Writer.array len w ≡ (v, ok tt)
    → Wrote w (Call.array len) v
unfolding Writer.array
array_ok len w v h e =
    let k =
      Writer.head Major.array len 0 >> (in_nest count_item >> in_nest (push Nesting.array len 0)) in
    let (e1, item) = opened_item_ok (need_room >> k) w v h e in
    let (u, e2, e3) = seq_ok need_room k (Settled w) v e1 in
    let (same, room) = need_room_ok (Settled w) u e2 in
    let (put, deep) =
      container_ok Major.array Nesting.array len len (Settled w) v (Settled-IsWriter w h) room
        (ap k same ∙ e3) in
    let f = λ (st : List Level). opened Nesting.array len (counted st) in
    let (a, is, viewed) = unsettled w v (bytes_of (Call.array len)) f h put in
    (a, is, (item, rw (view-settle w.nest h.0).1 at deep, viewed))

pub map_ok :
    (pairs : ℕ) (w v : CborWriter)
    → IsWriter w
    → Writer.map pairs w ≡ (v, ok tt)
    → Wrote w (Call.map pairs) v
unfolding Writer.map
map_ok pairs w v h e =
    let k =
      Writer.head Major.map pairs 0
      >> (in_nest count_item >> in_nest (push Nesting.map (pairs * 2) 0)) in
    let (e1, item) = opened_item_ok (need_room >> (need_pairs pairs >> k)) w v h e in
    let (u, e2, e3) = seq_ok need_room (need_pairs pairs >> k) (Settled w) v e1 in
    let (same, room) = need_room_ok (Settled w) u e2 in
    let (x, e4, e5) = seq_ok (need_pairs pairs) k u v e3 in
    let (same', few) = need_pairs_ok pairs u x e4 in
    let (put, deep) =
      container_ok Major.map Nesting.map pairs (pairs * 2) (Settled w) v (Settled-IsWriter w h) room
        (ap k (same ∙ same') ∙ e5) in
    let f = λ (st : List Level). opened Nesting.map (pairs * 2) (counted st) in
    let (a, is, viewed) = unsettled w v (bytes_of (Call.map pairs)) f h put in
    (a, is, ((item, rw (view-settle w.nest h.0).1 at deep, viewed), few))
