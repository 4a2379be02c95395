-- ===== src/Cbor/Methods.antt =====
-- Any calls of all the methods of the writer of crates/km43/src/cbor.rs.
use km.Prelude.{ℕ, ◌+◌, ◌≤◌, List, [], ◌∷◌, length, replicate, ok, err, ltb}
use km.Cbor.Types.{Major, Act, ◌>>=◌, ◌>>◌, pure, lift, depth_exceeded}
use km.Cbor.Nest.{count_item, max_depth}
use km.Cbor.Bytes
use km.Cbor.Reader
use km.Cbor.Writer
use km.Cbor.Writer.{CborWriter, emit, open_item, need_depth, walked_item, in_nest, position}
use km.Cbor.Bounds.{Kept, Keeps, Kept-refl, Keeps-bind, Keeps-if, emit-Keeps}
use km.Cbor.Calls.{Call, call, call-Keeps, Keeps-seq, open_item-Keeps, head-Keeps, counted-Keeps}

position-Keeps : Keeps position
position-Keeps w h = Kept-refl w h

bytes_to_fill-Keeps : (len : ℕ) → Keeps (Writer.bytes_to_fill len)
unfolding Writer.bytes_to_fill
bytes_to_fill-Keeps len =
    let span : ℕ → ℕ → Act CborWriter (ℕ × ℕ) = λ start end. pure (start, end) in
    let ends : ℕ → Act CborWriter (ℕ × ℕ) = λ start. position >>= span start in
    let filled : ℕ → Act CborWriter (ℕ × ℕ) =
      λ start. emit (replicate len 0) >> (in_nest count_item >> ends start) in
    let headed : Act CborWriter (ℕ × ℕ) =
      Writer.head Major.bytes len len >> (position >>= filled) in
    Keeps-seq open_item headed open_item-Keeps (
      Keeps-seq (Writer.head Major.bytes len len) (position >>= filled)
        (head-Keeps Major.bytes len len)
        (Keeps-bind position filled position-Keeps λ start.
          Keeps-seq (emit (replicate len 0)) (in_nest count_item >> ends start)
            (emit-Keeps (replicate len 0))
            (Keeps-seq (in_nest count_item) (ends start) counted-Keeps
              (Keeps-bind position (span start) position-Keeps λ end w h. Kept-refl w h))))

need_depth-Keeps : (deepest : ℕ) → Keeps (need_depth deepest)
need_depth-Keeps deepest =
    Keeps-if (λ w. ltb max_depth (w.nest.depth + deepest)) (err depth_exceeded) (ok tt)

raw-Keeps : (item : List ℕ) → Keeps (Writer.raw item)
unfolding Writer.raw
raw-Keeps item =
    let walk : Act CborWriter ℕ = lift (walked_item (Reader.skip (Bytes.new item))) in
    let put : Act CborWriter (Unit {0}) = emit item >> in_nest count_item in
    Keeps-seq open_item (walk >>= λ deepest. need_depth deepest >> put) open_item-Keeps (
      Keeps-bind walk (λ deepest. need_depth deepest >> put) (λ w h. Kept-refl w h)
        λ deepest.
          Keeps-seq (need_depth deepest) put (need_depth-Keeps deepest)
            (Keeps-seq (emit item) (in_nest count_item) (emit-Keeps item) counted-Keeps))

-- A method of the writer that writes: one of a `Call`, an item that is encoded already, or bytes
-- that the caller fills.
pub data Method : Type 0 where
  of_call : Call → Method
  raw : List ℕ → Method
  bytes_to_fill : ℕ → Method

abbrev pub method : Method → Act CborWriter (Unit {0})
method (Method.of_call c) = call c
method (Method.raw item) = Writer.raw item
method (Method.bytes_to_fill len) = Writer.bytes_to_fill len >>= λ range. pure tt

unfoldable pub methods : List Method → Act CborWriter (Unit {0})
methods [] = pure tt
methods (m ∷ ms) = method m >> methods ms

method-Keeps : (m : Method) → Keeps (method m)
method-Keeps (Method.of_call c) = call-Keeps c
method-Keeps (Method.raw item) = raw-Keeps item
method-Keeps (Method.bytes_to_fill len) =
    Keeps-bind (Writer.bytes_to_fill len) (λ range. pure tt) (bytes_to_fill-Keeps len)
      λ range w h. Kept-refl w h

-- Any calls of the methods of the writer, raw items and bytes to fill among them, whether they
-- end in a refusal or not, keep the length of the destination and its position within it, never
-- go back, and leave what was written before them.
pub methods-Keeps :
    (ms : List Method) (w : CborWriter) → w.next ≤ length w.dst → Kept w (methods ms w).0
unfolding methods
methods-Keeps [] w h = Kept-refl w h
methods-Keeps (m ∷ ms) w h =
    Keeps-seq (method m) (methods ms) (method-Keeps m) (methods-Keeps ms) w h
