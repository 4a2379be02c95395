-- ===== src/Cbor/Writer.antt =====
-- `CborWriter` of crates/km43/src/cbor.rs. A destination is a list that the writer holds.
use km.Prelude.{ℕ, zero, suc, ◌+◌, ◌*◌, ◌/◌, ◌%◌, ◌^◌, Bool, List, [], ◌∷◌, ◌++◌}
use km.Prelude.{◌&&◌, not, length, take, drop, replicate, Result, ok, err}
use km.Prelude.{if◌then◌else◌, ltb, ◌==◌, usize_max, ℤ, pos, negsuc, bit_or}
use km.Cbor.Types.{
  CborError, Major, Nesting, Act, ◌>>=◌, ◌>>◌, pure, fail, lift, bits, width_of, width_bytes,
  info_of, unfinished, trailing_item, misplaced_key, depth_exceeded, string_too_long,
  integer_out_of_range, destination_too_small,
}
use km.Cbor.Nest.{Nest, new_nest, settle, at_key, count_item, has_room, push, take_key, max_depth}
use km.Cbor.Bytes.{CborReader, new as new_reader, max_string}
use km.Cbor.Reader.{skip, finish as finish_reader}

pub record CborWriter : Type 0 where
  pub dst : List ℕ
  pub next : ℕ
  pub nest : Nest

unfoldable pub new : List ℕ → CborWriter
new dst = record { dst = dst; next = 0; nest = new_nest }

abbrev pub on_nest {ℓ} :
    {A : Type ℓ} → CborWriter → Nest × Result CborError A → CborWriter × Result CborError A
on_nest w (n, result) = (record w { nest = n }, result)

abbrev pub in_nest {ℓ} : {A : Type ℓ} → Act Nest A → Act CborWriter A
in_nest m w = on_nest w (m w.nest)

-- The big-endian bytes of the low `width` bytes of an argument.
abbrev pub be_bytes : ℕ → ℕ → List ℕ
be_bytes zero n = []
be_bytes (suc width) n = (n / 256 ^ width % 256) ∷ be_bytes width n

-- `CborWriter::ensure`.
unfoldable pub ensure : ℕ → Act CborWriter (Unit {0})
ensure len w =
    let end = w.next + len in
    if ltb usize_max end
    then (w, err destination_too_small)
    else if ltb (length w.dst) end
    then (w, err destination_too_small)
    else (w, ok tt)

-- `CborWriter::emit`, with the slice that `reserve` hands it.
unfoldable pub emit : List ℕ → Act CborWriter (Unit {0})
emit bytes w =
    let end = w.next + length bytes in
    if ltb usize_max end
    then (w, err destination_too_small)
    else if ltb (length w.dst) end
    then (w, err destination_too_small)
    else (record w { dst = take w.next w.dst ++ (bytes ++ drop end w.dst); next = end }, ok tt)

-- The head byte: the major type above the five bits of `info`.
abbrev pub head_byte : Major → ℕ → ℕ
head_byte major argument = bit_or (bits major * 32) (info_of (width_of argument) (argument % 256))

abbrev pub tail_bytes : ℕ → List ℕ
tail_bytes argument = be_bytes (width_bytes (width_of argument)) argument

-- `CborWriter::head`.
unfoldable pub head : Major → ℕ → ℕ → Act CborWriter (Unit {0})
head major argument payload = do
  ensure (width_bytes (width_of argument) + 1 + payload)
  emit (head_byte major argument ∷ [])
  emit (tail_bytes argument)

-- `CborWriter::open_item`, on a settled nest.
abbrev pub open_settled : Act CborWriter (Unit {0})
open_settled w =
    if at_key w.nest
    then (w, err misplaced_key)
    else if w.nest.depth == 0 && not (w.next == 0)
    then (w, err trailing_item)
    else (w, ok tt)

abbrev pub settle_nest : Act CborWriter (Unit {0})
settle_nest w = (record w { nest = settle w.nest }, ok tt)

unfoldable pub open_item : Act CborWriter (Unit {0})
open_item = do settle_nest; open_settled

abbrev pub need_room : Act CborWriter (Unit {0})
need_room w = if has_room w.nest then (w, ok tt) else (w, err depth_exceeded)

-- `CborWriter::array`.
unfoldable pub array : ℕ → Act CborWriter (Unit {0})
array len = do
  open_item
  need_room
  head Major.array len 0
  in_nest count_item
  in_nest (push Nesting.array len 0)

abbrev pub need_pairs : ℕ → Act CborWriter (Unit {0})
need_pairs pairs w =
    if ltb usize_max (pairs * 2) then (w, err destination_too_small) else (w, ok tt)

-- `CborWriter::map`.
unfoldable pub map : ℕ → Act CborWriter (Unit {0})
map pairs = do
  open_item
  need_room
  need_pairs pairs
  head Major.map pairs 0
  in_nest count_item
  in_nest (push Nesting.map (pairs * 2) 0)

abbrev pub need_key_position : Act CborWriter (Unit {0})
need_key_position w = if at_key w.nest then (w, ok tt) else (w, err misplaced_key)

-- `CborWriter::key`.
unfoldable pub key : ℤ → Act CborWriter (Unit {0})
key (negsuc n) = fail integer_out_of_range
key (pos n) = do
  settle_nest
  need_key_position
  in_nest (take_key n)
  head Major.unsigned n 0
  in_nest count_item

-- `CborWriter::u64`.
unfoldable pub u64 : ℕ → Act CborWriter (Unit {0})
u64 value = do open_item; head Major.unsigned value 0; in_nest count_item

abbrev pub i32_head : ℤ → Act CborWriter (Unit {0})
i32_head (pos n) = head Major.unsigned n 0
i32_head (negsuc n) = head Major.negative n 0

-- `CborWriter::i32`: `negsuc n` has the magnitude n + 1, and encodes the magnitude less one.
unfoldable pub i32 : ℤ → Act CborWriter (Unit {0})
i32 value = do open_item; i32_head value; in_nest count_item

-- `CborWriter::bool`.
unfoldable pub bool : Bool → Act CborWriter (Unit {0})
bool value = do open_item; head Major.simple (if value then 21 else 20) 0; in_nest count_item

-- `CborWriter::bytes`.
unfoldable pub bytes : List ℕ → Act CborWriter (Unit {0})
bytes value = do
  open_item
  head Major.bytes (length value) (length value)
  emit value
  in_nest count_item

abbrev pub position : Act CborWriter ℕ
position w = (w, ok w.next)

-- `CborWriter::bytes_to_fill`: the range as its two ends.
unfoldable pub bytes_to_fill : ℕ → Act CborWriter (ℕ × ℕ)
bytes_to_fill len = do
  open_item
  head Major.bytes len len
  start ← position
  emit (replicate len 0)
  in_nest count_item
  end ← position
  pure (start, end)

abbrev pub need_string : List ℕ → Act CborWriter (Unit {0})
need_string raw w = if ltb max_string (length raw) then (w, err string_too_long) else (w, ok tt)

-- `CborWriter::text`, of the bytes of a string.
unfoldable pub text : List ℕ → Act CborWriter (Unit {0})
text raw = do
  open_item
  need_string raw
  head Major.text (length raw) (length raw)
  emit raw
  in_nest count_item

abbrev pub need_depth : ℕ → Act CborWriter (Unit {0})
need_depth deepest w =
    if ltb max_depth (w.nest.depth + deepest) then (w, err depth_exceeded) else (w, ok tt)

-- How deep a well-formed item nests, or why it is none.
abbrev pub checked_item : ℕ → Result CborError (Unit {0}) → Result CborError ℕ
checked_item deepest (ok _) = ok deepest
checked_item deepest (err why) = err why

abbrev pub walked_item : CborReader × Result CborError (Unit {0}) → Result CborError ℕ
walked_item (r, err why) = err why
walked_item (r, ok _) = checked_item r.nest.deepest (finish_reader r)

-- `CborWriter::raw`.
unfoldable pub raw : List ℕ → Act CborWriter (Unit {0})
raw item = do
  open_item
  deepest ← lift (walked_item (skip (new_reader item)))
  need_depth deepest
  emit item
  in_nest count_item

-- `CborWriter::finish`: the destination, and the encoded length.
unfoldable pub finish : CborWriter → List ℕ × Result CborError ℕ
finish w = if (settle w.nest).depth == 0 then (w.dst, ok w.next) else (w.dst, err unfinished)
