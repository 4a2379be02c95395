-- ===== src/Cbor/Trace.antt =====
-- The heads that `CborReader::head` of crates/km43/src/cbor.rs gives over what the writer's calls
-- wrote, one after another.
use km.Prelude.{ℕ, ◌+◌, ◌≤◌, ◌≡◌, refl, sym, ap, ◌∙◌, arith, true, false, Bool-cases, inl, inr}
use km.Prelude.{
  List, [], ◌∷◌, ◌++◌, append_assoc, append-nil, length, length-append, take, length-take, ok,
}
use km.Prelude.{ltb, ◌==◌, ==_iff, isize_max}
use km.Cbor.Nest.{Nest, new_nest, settle}
use km.Cbor.Bytes.{CborReader, on_nest}
use km.Cbor.Bytes
use km.Cbor.Heads.{settle_skipped}
use km.Cbor.Reader
use km.Cbor.Reader.{key_of, unsigned_of, i32_of, bool_of, string_of, array_of, map_of}
use km.Cbor.Writer
use km.Cbor.Writer.{CborWriter}
use km.Cbor.Calls.{Call, calls, calls-Keeps}
use km.Cbor.View.{Level, view, IsNest, done, view-settle, depth-view}
use km.Cbor.Steps.{bytes_of, head_of, IsCall}
use km.Cbor.CallOk.{IsWriter}
use km.Cbor.CallsOk.{Wrotes, calls_ok}
use km.Cbor.Standing.{standing}
use km.Cbor.CallReads.{call-Reads}
use km.Cbor.Owed.{Chain, all_bytes, room-Chain}

abbrev pub AreCalls : List Call → Type 0
AreCalls [] = Unit {0}
AreCalls (c ∷ cs) = IsCall c × AreCalls cs

-- From `r` to `r'` by one head for each call.
abbrev pub Heads : CborReader → List Call → CborReader → Type 0
Heads r [] r' = r ≡ r'
Heads r (c ∷ cs) r' = (mid : CborReader) × (Reader.head r ≡ (mid, ok (head_of c))) × Heads mid cs r'

Chain-Heads :
    (cs : List Call) (source front : List ℕ) (n : Nest) (st st' : List Level)
    → source ≡ front ++ all_bytes cs
    → length source ≤ isize_max
    → IsNest n
    → view n ≡ st
    → AreCalls cs
    → Chain st cs st'
    → done st' ≡ []
    → (n' : Nest) × Heads (standing source (length front) n) cs (standing source (length source) n')
      × IsNest n'
      × (view n' ≡ st')
Chain-Heads [] source front n st st' is small nest viewed _ same end = (
  n,
  ap (λ (next : ℕ). standing source next n) (sym (ap length is ∙ ap length (append-nil front))),
  nest,
  viewed ∙ same,
)
Chain-Heads (c ∷ cs) source front n st st' is small nest viewed (fits, more) (mid, leaves, path)
      end =
    let (n1, head, nest1, viewed1) =
      call-Reads c source front (all_bytes cs) n mid is small nest fits (rw (sym viewed) at leaves)
        (room-Chain c cs (done st) mid st' leaves path end) in
    let onward = is ∙ sym (append_assoc front (bytes_of c) (all_bytes cs)) in
    let (n2, rest, nest2, viewed2) =
      Chain-Heads cs source (front ++ bytes_of c) n1 mid st' onward small nest1 viewed1 more path
        end in
    let there : standing source (length (front ++ bytes_of c)) n1
        ≡ standing source (length front + length (bytes_of c)) n1 =
      ap (λ (next : ℕ). standing source next n1) (length-append front (bytes_of c)) in
    let onto : Heads (standing source (length front + length (bytes_of c)) n1) cs
        (standing source (length source) n2) =
      rw there at rest in
    (n2, (standing source (length front + length (bytes_of c)) n1, head, onto), nest2, viewed2)

-- What the writer's calls say, without the writer.
written-Chain :
    (cs : List Call) (w v : CborWriter)
    → Wrotes w cs v
    → Chain (view w.nest) cs (view v.nest) × (take v.next v.dst ≡ take w.next w.dst ++ all_bytes cs)
written-Chain [] w v same = (
  ap (λ w. view w.nest) same,
  ap (λ w. take w.next w.dst) (sym same) ∙ sym (append-nil (take w.next w.dst)),
)
written-Chain (c ∷ cs) w v (u, (adds, nest, leaves), rest) =
    let (path, bytes) = written-Chain cs u v rest in
    (
      (view u.nest, leaves, path),
      bytes
          ∙ ap (λ front. front ++ all_bytes cs) adds.1
          ∙ append_assoc (take w.next w.dst) (bytes_of c) (all_bytes cs),
    )

finish_reads :
    (source : List ℕ) (n : Nest)
    → IsNest n
    → done (view n) ≡ []
    → Reader.finish (standing source (length source) n) ≡ ok tt
unfolding Reader.finish settle_skipped
finish_reads source n nest end =
    let (settled, viewed) = view-settle n nest in
    let empty : (settle n).depth == 0 ≡ true =
      ground (arith, depth-view (settle n) settled, ap length viewed, ap length end) in
    let whole : ltb (length source) (length source) ≡ false = ground arith in rw (empty, whole) refl

finish_ok :
    (w : CborWriter) (dst : List ℕ) (n : ℕ)
    → Writer.finish w ≡ (dst, ok n)
    → (w.dst ≡ dst) × (w.next ≡ n) × ((settle w.nest).depth ≡ 0)
unfolding Writer.finish
finish_ok w dst n e = elim (Bool-cases ((settle w.nest).depth == 0)) [
  | inl z ↦ grind (arith, rw z at e, (==_iff (settle w.nest).depth 0).0 z)
  | inr z ↦ absurd (grind (arith, ap (λ p. p.1) (rw z at e)))
]

Wrotes-IsNest : (cs : List Call) (w v : CborWriter) → IsNest w.nest → Wrotes w cs v → IsNest v.nest
Wrotes-IsNest [] w v nest same = rw same at nest
Wrotes-IsNest (c ∷ cs) w v nest (u, (adds, nest', leaves), rest) = Wrotes-IsNest cs u v nest' rest

-- A fresh nest is an empty stack.
fresh : IsNest new_nest × (view new_nest ≡ [])
unfolding new_nest
fresh = ((refl, omega arith), refl)

empty_view : (n : Nest) → IsNest n → (settle n).depth ≡ 0 → done (view n) ≡ []
empty_view n nest end =
    let (settled, viewed) = view-settle n nest in
    sym viewed ∙ no_levels (view (settle n)) (depth-view (settle n) settled ∙ end)
  where
    no_levels : (st : List Level) → length st ≡ 0 → st ≡ []
    no_levels [] e = refl
    no_levels (l ∷ st) e = absurd (omega (arith, e))

-- From the bytes of calls that succeeded, a fresh reader gives the head of each call in order, and
-- then finishes.
pub calls-Heads :
    (cs : List Call) (dst dst' : List ℕ) (w : CborWriter) (n : ℕ)
    → length dst ≤ isize_max
    → AreCalls cs
    → calls cs (Writer.new dst) ≡ (w, ok tt)
    → Writer.finish w ≡ (dst', ok n)
    → (r : CborReader) × Heads (Bytes.new (take n dst')) cs r × (Reader.finish r ≡ ok tt)
unfolding Writer.new
calls-Heads cs dst dst' w n small fits run end =
    let writer : IsWriter (Writer.new dst) = (fresh.0, omega arith) in
    let wrotes = calls_ok cs (Writer.new dst) w writer run in
    let (path, bytes) = written-Chain cs (Writer.new dst) w wrotes in
    let nest = Wrotes-IsNest cs (Writer.new dst) w (fresh.0) wrotes in
    let (same, at, settled) = finish_ok w dst' n end in
    let source = take n dst' in
    let is : source ≡ all_bytes cs =
      ap (λ (n : ℕ). take n dst') (sym at)
      ∙ ap (λ (dst : List ℕ). take w.next dst) (sym same)
      ∙ bytes in
    let kept : length w.dst ≡ length dst =
      ap (λ s. length s.dst) (sym (ap (λ s. s.0) run))
      ∙ (calls-Keeps cs (Writer.new dst) (omega arith)).0 in
    let fits' : length source ≤ isize_max =
      omega (arith, length-take n dst', ap length same, kept) in
    let over = empty_view w.nest nest settled in
    let (n', all, nest', viewed) =
      Chain-Heads cs source [] new_nest [] (view w.nest) is fits' (fresh.0) (fresh.1) fits
        (rw (fresh.1) at path) over in
    (standing source (length source) n', all, finish_reads source n' nest' (ap done viewed ∙ over))
