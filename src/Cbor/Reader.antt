-- ===== src/Cbor/Reader.antt =====
-- The methods of `CborReader` in crates/km43/src/cbor.rs that body decoders call.
use km.Prelude.{ℕ, ◌-◌, Bool, List}
use km.Prelude.{◌&&◌, not, length, take, drop, Result, ok, err}
use km.Prelude.{if◌then◌else◌, ltb, leb, ◌==◌, ℤ, pos, negsuc}
use km.Cbor.Types.{
  CborError, Head, Act, bind_on, ◌>>=◌, lift, end_of_input, trailing_bytes, unfinished,
  key_not_integer, wrong_type, integer_out_of_range,
}
use km.Cbor.Nest.{settle}
use km.Cbor.Bytes.{CborReader, argument}
use km.Cbor.Heads.{settle_skipped, head_with, skip_with, search_key}

-- The methods of the readers that callers make.
unfoldable pub head : Act CborReader Head
head = head_with search_key

unfoldable pub skip : Act CborReader (Unit {0})
skip = skip_with search_key

-- `CborReader::negative`: `-1 - n` for an argument within `i64`.
abbrev pub negative_of : ℕ → Result CborError ℤ
negative_of argument =
    if ltb 9223372036854775807 argument then err integer_out_of_range else ok (negsuc argument)

abbrev pub key_of : Head → Result CborError ℤ
key_of (Head.unsigned value) =
    if ltb 9223372036854775807 value then err integer_out_of_range else ok (pos value)
key_of (Head.negative argument) = negative_of argument
key_of (Head.bytes raw) = err key_not_integer
key_of (Head.text raw) = err key_not_integer
key_of (Head.array n) = err key_not_integer
key_of (Head.map n) = err key_not_integer
key_of (Head.bool b) = err key_not_integer

-- `CborReader::key`.
unfoldable pub key : Act CborReader ℤ
key = do h ← head; lift (key_of h)

abbrev pub unsigned_of : Head → Result CborError ℕ
unsigned_of (Head.unsigned value) = ok value
unsigned_of (Head.negative argument) = err integer_out_of_range
unsigned_of (Head.bytes raw) = err wrong_type
unsigned_of (Head.text raw) = err wrong_type
unsigned_of (Head.array n) = err wrong_type
unsigned_of (Head.map n) = err wrong_type
unsigned_of (Head.bool b) = err wrong_type

-- `CborReader::u64`, which is `unsigned`.
unfoldable pub u64 : Act CborReader ℕ
u64 = do h ← head; lift (unsigned_of h)

abbrev pub at_most : ℕ → ℕ → Result CborError ℕ
at_most max n = if ltb max n then err integer_out_of_range else ok n

-- `CborReader::u32`, `u16` and `u8`.
unfoldable pub u32 : Act CborReader ℕ
u32 = do n ← u64; lift (at_most 4294967295 n)

unfoldable pub u16 : Act CborReader ℕ
u16 = do n ← u64; lift (at_most 65535 n)

unfoldable pub u8 : Act CborReader ℕ
u8 = do n ← u64; lift (at_most 255 n)

abbrev pub i32_of : Head → Result CborError ℤ
i32_of (Head.unsigned value) =
    if ltb 2147483647 value then err integer_out_of_range else ok (pos value)
i32_of (Head.negative argument) =
    if ltb 2147483647 argument then err integer_out_of_range else ok (negsuc argument)
i32_of (Head.bytes raw) = err wrong_type
i32_of (Head.text raw) = err wrong_type
i32_of (Head.array n) = err wrong_type
i32_of (Head.map n) = err wrong_type
i32_of (Head.bool b) = err wrong_type

-- `CborReader::i32`.
unfoldable pub i32 : Act CborReader ℤ
i32 = do h ← head; lift (i32_of h)

abbrev pub bool_of : Head → Result CborError Bool
bool_of (Head.bool b) = ok b
bool_of _ = err wrong_type

-- `CborReader::bool`.
unfoldable pub bool : Act CborReader Bool
bool = do h ← head; lift (bool_of h)

abbrev pub bytes_of : Head → Result CborError (List ℕ)
bytes_of (Head.bytes raw) = ok raw
bytes_of _ = err wrong_type

-- `CborReader::bytes`.
unfoldable pub bytes : Act CborReader (List ℕ)
bytes = do h ← head; lift (bytes_of h)

abbrev pub string_of : Head → Result CborError (List ℕ)
string_of (Head.text raw) = ok raw
string_of _ = err wrong_type

-- `CborReader::text`.
unfoldable pub text : Act CborReader (List ℕ)
text = do h ← head; lift (string_of h)

abbrev pub array_of : Head → Result CborError ℕ
array_of (Head.array n) = ok n
array_of _ = err wrong_type

-- `CborReader::array`.
unfoldable pub array : Act CborReader ℕ
array = do h ← head; lift (array_of h)

abbrev pub map_of : Head → Result CborError ℕ
map_of (Head.map n) = ok n
map_of _ = err wrong_type

-- `CborReader::map`.
unfoldable pub map : Act CborReader ℕ
map = do h ← head; lift (map_of h)

abbrev pub raw_from : ℕ → Act CborReader (List ℕ)
raw_from from r =
    if leb from r.next && leb r.next (length r.source)
    then (r, ok (take (r.next - from) (drop from r.source)))
    else (r, err end_of_input)

-- `CborReader::raw`.
unfoldable pub raw : Act CborReader (List ℕ)
raw r = bind_on (skip r) (λ _. raw_from r.next)

abbrev pub finished : CborReader × Result CborError (Unit {0}) → Result CborError (Unit {0})
finished (r, err why) = err why
finished (r, ok _) =
    if not ((settle r.nest).depth == 0)
    then err unfinished
    else if ltb r.next (length r.source)
    then err trailing_bytes
    else ok tt

-- `CborReader::finish`, which consumes the reader.
unfoldable pub finish : CborReader → Result CborError (Unit {0})
finish r = finished (settle_skipped search_key r)
