-- ===== src/Cbor/Bytes.antt =====
-- The bytes of `CborReader` in crates/km43/src/cbor.rs: its state, and the decoding of one head.
use km.Prelude.{ℕ, ◌+◌, ◌-◌, ◌*◌, ◌/◌, ◌%◌, ◌^◌, Bool, true, false, List, [], ◌∷◌}
use km.Prelude.{Option, none, ◌&&◌, length, take, drop, Result, ok, err}
use km.Prelude.{if◌then◌else◌, ltb, leb, ◌==◌, usize_max, bit_and}
use km.Cbor.Types.{
  CborError, Major, Head, Unsettled, Act, bind_on, ◌>>=◌, pure, fail, lift, of_bits, end_of_input,
  indefinite_length, tag_not_allowed, float_not_allowed, simple_value_not_allowed, reserved_head,
  string_too_long, invalid_utf8,
}
use km.Cbor.Nest.{Nest, new_nest}
use km.Cbor.Utf8.{is_utf8}

abbrev pub max_string : ℕ
max_string = 64

pub record CborReader : Type 0 where
  pub source : List ℕ
  pub next : ℕ
  pub nest : Nest
  pub checks : Bool
  pub walking : Bool
  pub unsettled : Option Unsettled
  pub skipped : Option Unsettled

abbrev pub new : List ℕ → CborReader
new source = record {
  source = source;
  next = 0;
  nest = new_nest;
  checks = true;
  walking = false;
  unsettled = none;
  skipped = none;
}

-- A method of the nest, on the reader's.
abbrev pub on_nest {ℓ} :
    {A : Type ℓ} → CborReader → Nest × Result CborError A → CborReader × Result CborError A
on_nest r (n, result) = (record r { nest = n }, result)

abbrev pub in_nest {ℓ} : {A : Type ℓ} → Act Nest A → Act CborReader A
in_nest m r = on_nest r (m r.nest)

-- `CborReader::take`.
unfoldable pub take_bytes : ℕ → Act CborReader (List ℕ)
take_bytes len r =
    let end = r.next + len in
    if ltb usize_max end
    then (r, err end_of_input)
    else if ltb (length r.source) end
    then (r, err end_of_input)
    else (record r { next = end }, ok (take len (drop r.next r.source)))

-- `value = (value << 8) | u64::from(byte)`: the low byte is free after the shift.
abbrev pub big_endian : ℕ → List ℕ → ℕ
big_endian value [] = value
big_endian value (byte ∷ rest) = big_endian (value * 256 % 2 ^ 64 + byte) rest

abbrev pub argument_width : ℕ → Act CborReader ℕ
argument_width width r = bind_on (take_bytes width r) (λ raw. pure (big_endian 0 raw))

-- `CborReader::argument`.
unfoldable pub argument : ℕ → Act CborReader ℕ
argument info r =
    if ltb info 24
    then (r, ok info)
    else if info == 24
    then argument_width 1 r
    else if info == 25
    then argument_width 2 r
    else if info == 26
    then argument_width 4 r
    else if info == 27
    then argument_width 8 r
    else if ltb info 31
    then (r, err reserved_head)
    else (r, err indefinite_length)

-- `usize::try_from`.
abbrev pub to_usize : ℕ → Result CborError ℕ
to_usize n = if ltb usize_max n then err end_of_input else ok n

-- `CborReader::length`.
unfoldable pub length_of : ℕ → Act CborReader ℕ
length_of info = do n ← argument info; lift (to_usize n)

abbrev pub counted : ℕ → ℕ → Act CborReader ℕ
counted per_item count r =
    let items = count * per_item in
    if ltb usize_max items
    then (r, err end_of_input)
    else if ltb (length r.source - r.next) items
    then (r, err end_of_input)
    else (r, ok count)

-- `CborReader::count`.
unfoldable pub count : ℕ → ℕ → Act CborReader ℕ
count info per_item = do n ← length_of info; counted per_item n

-- The free function `simple`.
unfoldable pub simple : ℕ → Result CborError Head
simple info =
    if info == 20
    then ok (Head.bool false)
    else if info == 21
    then ok (Head.bool true)
    else if leb 25 info && leb info 27
    then err float_not_allowed
    else if leb 28 info && leb info 30
    then err reserved_head
    else if leb 31 info
    then err indefinite_length
    else err simple_value_not_allowed

abbrev pub text_of : ℕ → Act CborReader Head
text_of len r =
    if ltb max_string len
    then (r, err string_too_long)
    else bind_on (take_bytes len r)
        (λ raw. lift (if is_utf8 raw then ok (Head.text raw) else err invalid_utf8))

-- `CborReader::decode`, by the major type of the head byte and its low five bits.
abbrev pub decode_major : Major → ℕ → Act CborReader Head
decode_major Major.unsigned info = do n ← argument info; pure (Head.unsigned n)
decode_major Major.negative info = do n ← argument info; pure (Head.negative n)
decode_major Major.bytes info = do len ← length_of info; raw ← take_bytes len; pure (Head.bytes raw)
decode_major Major.text info = do len ← length_of info; text_of len
decode_major Major.array info = do n ← count info 1; pure (Head.array n)
decode_major Major.map info = do n ← count info 2; pure (Head.map n)
decode_major Major.tag info = fail tag_not_allowed
decode_major Major.simple info = lift (simple info)

unfoldable pub decode : ℕ → Act CborReader Head
decode first = decode_major (of_bits (first / 32)) (bit_and first 0x1F)
