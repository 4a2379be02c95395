-- ===== src/Cbor/CallsOk.antt =====
-- Every call of the writer of crates/km43/src/cbor.rs, when it succeeds, and chains of them.
use km.Prelude.{ℕ, ◌≤◌, ◌≡◌, sym, ap, ◌∙◌, arith, Bool-cases, true, inl, inr}
use km.Prelude.{List, [], ◌∷◌, length, ok, ltb, if◌then◌else◌, ℤ, pos, negsuc}
use km.Cbor.Types.{Major, ◌>>◌}
use km.Cbor.Nest.{settle, at_key, count_item, take_key}
use km.Cbor.Bytes.{max_string}
use km.Cbor.Writer
use km.Cbor.Writer.{
  CborWriter, emit, in_nest, on_nest, open_item, settle_nest, need_room, need_pairs, need_string,
  need_key_position, i32_head,
}
use km.Cbor.Calls.{Call, call, calls}
use km.Cbor.View.{view, key_next, counted, noted, ascends, view-settle, at_key-view}
use km.Cbor.ViewKeys.{take-view, take-refused}
use km.Cbor.Steps.{head_bytes, bytes_of, rank}
use km.Cbor.Wrote.{Adds-trans, seq_ok, in_nest_ok}
use km.Cbor.CallOk.{
  IsWriter, Puts, head-counted_ok, string_counted_ok, Settled, opened_item_ok, Settled-IsWriter,
  unsettled, item_ok,
}
use km.Cbor.ContainersOk.{Wrote, array_ok, map_ok}

i32_ok :
    (value : ℤ) (w v : CborWriter)
    → IsWriter w
    → Writer.i32 value w ≡ (v, ok tt)
    → Wrote w (Call.i32 value) v
unfolding Writer.i32
i32_ok (pos n) w v h e = item_ok Major.unsigned n 0 w v h e
i32_ok (negsuc n) w v h e = item_ok Major.negative n 0 w v h e

bytes_ok :
    (value : List ℕ) (w v : CborWriter)
    → IsWriter w
    → Writer.bytes value w ≡ (v, ok tt)
    → Wrote w (Call.bytes value) v
unfolding Writer.bytes
bytes_ok value w v h e =
    let size = length value in
    let (e1, item) =
      opened_item_ok (Writer.head Major.bytes size size >> (emit value >> in_nest count_item)) w v h
        e in
    let put =
      string_counted_ok Major.bytes size size value (Settled w) v (Settled-IsWriter w h) e1 in
    let (a, is, viewed) = unsettled w v (bytes_of (Call.bytes value)) counted h put in
    (a, is, (item, viewed))

need_string_ok :
    (raw : List ℕ) (w v : CborWriter)
    → need_string raw w ≡ (v, ok tt)
    → (w ≡ v) × (length raw ≤ max_string)
need_string_ok raw w v e = elim (Bool-cases (ltb max_string (length raw))) [
  | inl long ↦ absurd (grind (arith, ap (λ p. p.1) (rw long at e)))
  | inr short ↦ (ap (λ p. p.0) (rw short at e), ground arith)
]

text_ok :
    (raw : List ℕ) (w v : CborWriter)
    → IsWriter w
    → Writer.text raw w ≡ (v, ok tt)
    → Wrote w (Call.text raw) v
unfolding Writer.text
text_ok raw w v h e =
    let size = length raw in
    let k = Writer.head Major.text size size >> (emit raw >> in_nest count_item) in
    let (e1, item) = opened_item_ok (need_string raw >> k) w v h e in
    let (u, e2, e3) = seq_ok (need_string raw) k (Settled w) v e1 in
    let (same, short) = need_string_ok raw (Settled w) u e2 in
    let put =
      string_counted_ok Major.text size size raw (Settled w) v (Settled-IsWriter w h)
        (ap k same ∙ e3) in
    let (a, is, viewed) = unsettled w v (bytes_of (Call.text raw)) counted h put in
    (a, is, ((item, viewed), short))

need_key_ok :
    (w v : CborWriter) → need_key_position w ≡ (v, ok tt) → (w ≡ v) × (at_key w.nest ≡ true)
need_key_ok w v e = elim (Bool-cases (at_key w.nest)) [
  | inl key ↦ (ap (λ p. p.0) (rw key at e), key)
  | inr item ↦ absurd (grind (arith, ap (λ p. p.1) (rw item at e)))
]

take_key_ok :
    (n : ℕ) (w v : CborWriter)
    → IsWriter w
    → key_next (view w.nest) ≡ true
    → in_nest (take_key n) w ≡ (v, ok tt)
    → Puts w v [] (noted (rank n) (view w.nest)) × (ascends (rank n) (view w.nest) ≡ true)
take_key_ok n w v (is, h) key e = elim (Bool-cases (ascends (rank n) (view w.nest))) [
  | inl up ↦ (
    in_nest_ok (take_key n) w v (noted (rank n) (view w.nest)) h (take-view n w.nest is key up) e,
    up,
  )
  | inr down ↦
      absurd (
        grind (arith, ap (λ p. p.1) (sym (ap (on_nest w) (take-refused n w.nest is key down)) ∙ e)))
]

key_ok :
    (value : ℤ) (w v : CborWriter)
    → IsWriter w
    → Writer.key value w ≡ (v, ok tt)
    → Wrote w (Call.key value) v
unfolding Writer.key
key_ok (negsuc n) w v h e = absurd (grind (arith, ap (λ p. p.1) e))
key_ok (pos n) w v h e =
    let k = Writer.head Major.unsigned n 0 >> in_nest count_item in
    let s = Settled-IsWriter w h in
    let (u, e1, e2) = seq_ok need_key_position (in_nest (take_key n) >> k) (Settled w) v e in
    let (same, at) = need_key_ok (Settled w) u e1 in
    let settled = (view-settle w.nest h.0).1 in
    let key : key_next (view (settle w.nest)) ≡ true = sym (at_key-view (settle w.nest) s.0) ∙ at in
    let (x, e3, e4) =
      seq_ok (in_nest (take_key n)) k (Settled w) v (ap (in_nest (take_key n) >> k) same ∙ e2) in
    let (taken, up) = take_key_ok n (Settled w) x s key e3 in
    let (a, is, viewed) = taken in
    let (b, is', viewed') = head-counted_ok Major.unsigned n 0 x v (is, a.2) e4 in
    (
      Adds-trans w x v [] (head_bytes Major.unsigned n) a b,
      is',
      (
        ap key_next (sym settled) ∙ key,
        ap (ascends (rank n)) (sym settled) ∙ up,
        viewed' ∙ ap counted (viewed ∙ ap (noted (rank n)) settled),
      ),
    )

call_ok : (c : Call) (w v : CborWriter) → IsWriter w → call c w ≡ (v, ok tt) → Wrote w c v
unfolding call Writer.u64 Writer.bool
call_ok (Call.array len) w v h e = array_ok len w v h e
call_ok (Call.map pairs) w v h e = map_ok pairs w v h e
call_ok (Call.u64 value) w v h e = item_ok Major.unsigned value 0 w v h e
call_ok (Call.key value) w v h e = key_ok value w v h e
call_ok (Call.i32 value) w v h e = i32_ok value w v h e
call_ok (Call.bool value) w v h e = item_ok Major.simple (if value then 21 else 20) 0 w v h e
call_ok (Call.bytes value) w v h e = bytes_ok value w v h e
call_ok (Call.text raw) w v h e = text_ok raw w v h e

-- Calls that all succeeded, one after another.
abbrev pub Wrotes : CborWriter → List Call → CborWriter → Type 0
Wrotes w [] v = w ≡ v
Wrotes w (c ∷ cs) v = (u : CborWriter) × Wrote w c u × Wrotes u cs v

pub calls_ok :
    (cs : List Call) (w v : CborWriter) → IsWriter w → calls cs w ≡ (v, ok tt) → Wrotes w cs v
unfolding calls
calls_ok [] w v h e = ap (λ p. p.0) e
calls_ok (c ∷ cs) w v h e =
    let (u, e1, e2) = seq_ok (call c) (calls cs) w v e in
    let wrote = call_ok c w u h e1 in (u, wrote, calls_ok cs u v (wrote.1, wrote.0.2) e2)
