-- ===== src/Cbor/Wrote.antt =====
-- What a successful call of the writer of crates/km43/src/cbor.rs left: its parts.
use km.Prelude.{
  ℕ, ◌+◌, ◌≤◌, ◌≡◌, refl, sym, ap, ◌∙◌, arith, Bool-cases, false, inl, inr, not, ◌&&◌, ◌==◌,
}
use km.Prelude.{
  List, [], ◌∷◌, ◌++◌, append-nil, append_assoc, length, length-append, take, drop, length-take,
  take-append, Result, ok, err, ltb, usize_max,
}
use km.Cbor.Types.{CborError, Major, width_bytes, width_of, Act, bind_on, ◌>>◌}
use km.Cbor.Nest.{Nest, settle, at_key}
use km.Cbor.Writer
use km.Cbor.Writer.{
  CborWriter, ensure, emit, in_nest, on_nest, open_item, open_settled, settle_nest, head_byte,
  tail_bytes,
}
use km.Cbor.View.{Level, view, IsNest, Goes, done, key_next, view-settle, at_key-view}
use km.Cbor.Bounds.{emitted}
use km.Cbor.Steps.{head_bytes}

-- A chain that ends ok went through both its parts.
pub bind_ok :
    {S A B : Type 0} (s : S × Result CborError A) (f : A → Act S B) (v : S) (b : B)
    → bind_on s f ≡ (v, ok b)
    → (u : S) × (a : A) × (s ≡ (u, ok a)) × (f a u ≡ (v, ok b))
bind_ok (u, ok a) f v b e = (u, a, refl, e)
bind_ok (u, err why) f v b e = absurd (grind (arith, ap (λ p. p.1) e))

pub seq_ok :
    (m k : Act CborWriter (Unit {0})) (w v : CborWriter)
    → (m >> k) w ≡ (v, ok tt)
    → (u : CborWriter) × (m w ≡ (u, ok tt)) × (k u ≡ (v, ok tt))
seq_ok m k w v e = let (u, _, first, second) = bind_ok (m w) (λ _. k) v tt e in (u, first, second)

-- `bytes` stand behind what `w` had written.
abbrev pub Adds : CborWriter → CborWriter → List ℕ → Type 0
Adds w v bytes =
    (v.next ≡ w.next + length bytes)
    × (take v.next v.dst ≡ take w.next w.dst ++ bytes)
    × (v.next ≤ length v.dst)

pub Adds-trans : (u v w : CborWriter) (a b : List ℕ) → Adds u v a → Adds v w b → Adds u w (a ++ b)
Adds-trans u v w a b (n, t, i) (n', t', i') = (
  omega (arith, length-append a b),
  t' ∙ ap (λ front. front ++ b) t ∙ append_assoc (take u.next u.dst) a b,
  i',
)

take_written :
    (n : ℕ) (dst bytes rest : List ℕ)
    → n + length bytes ≤ length dst
    → take (n + length bytes) (take n dst ++ (bytes ++ rest)) ≡ take n dst ++ bytes
take_written n dst bytes rest h =
    let front : length (take n dst) ≡ n = omega (arith, length-take n dst) in
    let size : length (take n dst ++ bytes) ≡ n + length bytes =
      omega (arith, length-append (take n dst) bytes, front) in
    rw (← append_assoc (take n dst) bytes rest)
      (rw size at (take-append (take n dst ++ bytes) rest))

pub emit_ok :
    (bytes : List ℕ) (w v : CborWriter)
    → w.next ≤ length w.dst
    → emit bytes w ≡ (v, ok tt)
    → Adds w v bytes × (v.nest ≡ w.nest)
unfolding emit
emit_ok bytes w v h e = elim (Bool-cases (ltb usize_max (w.next + length bytes))) [
  | inl big ↦ absurd (grind (arith, ap (λ p. p.1) (rw big at e)))
  | inr fine ↦ elim (Bool-cases (ltb (length w.dst) (w.next + length bytes))) [
    | inl full ↦ absurd (grind (arith, ap (λ p. p.1) (rw (fine, full) at e)))
    | inr room ↦
        let fits : w.next + length bytes ≤ length w.dst = ground arith in
        let same = ap (λ p. p.0) (rw (fine, room) at e) in
        let width = (emitted w bytes fits).0 in
        rw (← same) (
          (
            refl,
            take_written w.next w.dst bytes (drop (w.next + length bytes) w.dst) fits,
            omega (arith, width),
          ),
          refl,
        )
  ]
]

ensure_ok : (len : ℕ) (w v : CborWriter) → ensure len w ≡ (v, ok tt) → w ≡ v
unfolding ensure
ensure_ok len w v e = elim (Bool-cases (ltb usize_max (w.next + len))) [
  | inl big ↦ absurd (grind (arith, ap (λ p. p.1) (rw big at e)))
  | inr fine ↦ elim (Bool-cases (ltb (length w.dst) (w.next + len))) [
    | inl full ↦ absurd (grind (arith, ap (λ p. p.1) (rw (fine, full) at e)))
    | inr room ↦ ap (λ p. p.0) (rw (fine, room) at e)
  ]
]

pub head_ok :
    (major : Major) (argument payload : ℕ) (w v : CborWriter)
    → w.next ≤ length w.dst
    → Writer.head major argument payload w ≡ (v, ok tt)
    → Adds w v (head_bytes major argument) × (v.nest ≡ w.nest)
unfolding Writer.head
head_ok major argument payload w v h e =
    let size = width_bytes (width_of argument) + 1 + payload in
    let byte = head_byte major argument ∷ [] in
    let (u, e1, rest) = seq_ok (ensure size) (emit byte >> emit (tail_bytes argument)) w v e in
    let (x, e2, e3) = seq_ok (emit byte) (emit (tail_bytes argument)) u v rest in
    let same = ensure_ok size w u e1 in
    let (first, n1) = emit_ok (head_byte major argument ∷ []) w x h (ap (emit byte) same ∙ e2) in
    let (second, n2) = emit_ok (tail_bytes argument) x v first.2 e3 in
    (Adds-trans w x v (head_byte major argument ∷ []) (tail_bytes argument) first second, n2 ∙ n1)

open_settled_ok :
    (w v : CborWriter) → open_settled w ≡ (v, ok tt) → (w ≡ v) × (at_key w.nest ≡ false)
open_settled_ok w v e = elim (Bool-cases (at_key w.nest)) [
  | inl key ↦ absurd (grind (arith, ap (λ p. p.1) (rw key at e)))
  | inr item ↦ elim (Bool-cases (w.nest.depth == 0 && not (w.next == 0))) [
    | inl second ↦ absurd (grind (arith, ap (λ p. p.1) (rw (item, second) at e)))
    | inr first ↦ (ap (λ p. p.0) (rw (item, first) at e), item)
  ]
]

pub open_item_ok :
    (w v : CborWriter)
    → IsNest w.nest
    → open_item w ≡ (v, ok tt)
    → (record w { nest = settle w.nest } ≡ v) × (key_next (done (view w.nest)) ≡ false)
unfolding open_item
open_item_ok w v n e =
    let (same, item) = open_settled_ok (record w { nest = settle w.nest }) v e in
    let (n', viewed) = view-settle w.nest n in
    (same, ap key_next (sym viewed) ∙ sym (at_key-view (settle w.nest) n') ∙ item)

-- An operation of the nest that goes on to a stack.
pub in_nest_ok :
    (m : Act Nest (Unit {0})) (w v : CborWriter) (st : List Level)
    → w.next ≤ length w.dst
    → Goes (m w.nest) tt st
    → in_nest m w ≡ (v, ok tt)
    → Adds w v [] × IsNest v.nest × (view v.nest ≡ st)
in_nest_ok m w v st inside (n, goes, is, viewed) e =
    let moved = ap (on_nest w) goes in
    let same : record w { nest = n } ≡ v = ap (λ p. p.0) (sym moved ∙ e) in
    rw (← same) ((omega arith, sym (append-nil (take w.next w.dst)), inside), is, viewed)
