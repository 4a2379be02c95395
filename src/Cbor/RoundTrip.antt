-- ===== src/Cbor/RoundTrip.antt =====
-- What the writer of crates/km43/src/cbor.rs wrote, its reader reads back.
use km.Prelude.{ℕ, ◌≤◌, ◌≡◌, refl, ap, ◌∙◌, arith, false}
use km.Prelude.{List, [], ◌∷◌, length, take, Result, ok, err}
use km.Prelude.{ltb, isize_max, pos, negsuc}
use km.Cbor.Types.{CborError, Act, bind_on, ◌>>=◌, pure, lift}
use km.Cbor.Bytes.{CborReader, on_nest}
use km.Cbor.Bytes
use km.Cbor.Reader
use km.Cbor.Reader.{key_of, unsigned_of, i32_of, bool_of, string_of, array_of, map_of}
use km.Cbor.Writer
use km.Cbor.Writer.{CborWriter}
use km.Cbor.Calls.{Call, calls}
use km.Cbor.Steps.{head_of, IsCall}
use km.Cbor.Trace.{AreCalls, Heads, calls-Heads}

-- The method of the reader that answers a call of the writer.
abbrev pub read_like : Call → Act CborReader Call
read_like (Call.array _) = do n ← Reader.array; pure (Call.array n)
read_like (Call.map _) = do n ← Reader.map; pure (Call.map n)
read_like (Call.u64 _) = do n ← Reader.u64; pure (Call.u64 n)
read_like (Call.key _) = do n ← Reader.key; pure (Call.key n)
read_like (Call.i32 _) = do n ← Reader.i32; pure (Call.i32 n)
read_like (Call.bool _) = do b ← Reader.bool; pure (Call.bool b)
read_like (Call.bytes _) = do raw ← Reader.bytes; pure (Call.bytes raw)
read_like (Call.text _) = do raw ← Reader.text; pure (Call.text raw)

abbrev pub read_all : List Call → Act CborReader (List Call)
read_all [] = pure []
read_all (c ∷ cs) = do first ← read_like c; rest ← read_all cs; pure (first ∷ rest)

abbrev finish_with : Result CborError (Unit {0}) → List Call → Result CborError (List Call)
finish_with (err why) cs = err why
finish_with (ok _) cs = ok cs

-- The calls that were read, once the reader is finished.
abbrev pub finished_after : CborReader × Result CborError (List Call) → Result CborError (List Call)
finished_after (r, err why) = err why
finished_after (r, ok cs) = finish_with (Reader.finish r) cs

read_like-head :
    (c : Call) (r r' : CborReader)
    → IsCall c
    → Reader.head r ≡ (r', ok (head_of c))
    → read_like c r ≡ (r', ok c)
unfolding Reader.array Reader.map Reader.u64 Reader.key Reader.i32 Reader.bool Reader.bytes
    Reader.text
read_like-head (Call.array len) r r' fits e =
    ap (λ s. bind_on (bind_on s (λ h. lift (array_of h))) (λ n. pure (Call.array n))) e
read_like-head (Call.map pairs) r r' fits e =
    ap (λ s. bind_on (bind_on s (λ h. lift (map_of h))) (λ n. pure (Call.map n))) e
read_like-head (Call.u64 value) r r' fits e =
    ap (λ s. bind_on (bind_on s (λ h. lift (unsigned_of h))) (λ n. pure (Call.u64 n))) e
read_like-head (Call.key (pos n)) r r' fits e =
    let small : ltb 9223372036854775807 n ≡ false = ground arith in
    ap (λ s. bind_on (bind_on s (λ h. lift (key_of h))) (λ n. pure (Call.key n))) e ∙ rw small refl
read_like-head (Call.key (negsuc n)) r r' fits e =
    let small : ltb 9223372036854775807 n ≡ false = ground arith in
    ap (λ s. bind_on (bind_on s (λ h. lift (key_of h))) (λ n. pure (Call.key n))) e ∙ rw small refl
read_like-head (Call.i32 (pos n)) r r' fits e =
    let small : ltb 2147483647 n ≡ false = ground arith in
    ap (λ s. bind_on (bind_on s (λ h. lift (i32_of h))) (λ n. pure (Call.i32 n))) e ∙ rw small refl
read_like-head (Call.i32 (negsuc n)) r r' fits e =
    let small : ltb 2147483647 n ≡ false = ground arith in
    ap (λ s. bind_on (bind_on s (λ h. lift (i32_of h))) (λ n. pure (Call.i32 n))) e ∙ rw small refl
read_like-head (Call.bool value) r r' fits e =
    ap (λ s. bind_on (bind_on s (λ h. lift (bool_of h))) (λ b. pure (Call.bool b))) e
read_like-head (Call.bytes value) r r' fits e =
    ap (λ s. bind_on (bind_on s (λ h. lift (Reader.bytes_of h))) (λ raw. pure (Call.bytes raw))) e
read_like-head (Call.text raw) r r' fits e =
    ap (λ s. bind_on (bind_on s (λ h. lift (string_of h))) (λ raw. pure (Call.text raw))) e

read_first :
    (c : Call) (cs : List Call) (r r' r'' : CborReader)
    → read_like c r ≡ (r', ok c)
    → read_all cs r' ≡ (r'', ok cs)
    → read_all (c ∷ cs) r ≡ (r'', ok (c ∷ cs))
read_first c cs r r' r'' first rest =
    ap (λ s. bind_on s (λ first. read_all cs >>= (λ rest. pure (first ∷ rest)))) first
    ∙ ap (λ s. bind_on s (λ rest. pure (c ∷ rest))) rest

pub read_all-Heads :
    (cs : List Call) (r r' : CborReader) → AreCalls cs → Heads r cs r' → read_all cs r ≡ (r', ok cs)
read_all-Heads [] r r' _ same = ap (λ r. (r, ok [])) same
read_all-Heads (c ∷ cs) r r' (fits, more) (mid, head, rest) =
    read_first c cs r mid r' (read_like-head c r mid fits head) (read_all-Heads cs mid r' more rest)

-- Whatever calls of array, map, key, u64, i32, bool, bytes and text of a writer succeeded, of
-- values of their types, in whatever order and nesting, into a destination of at most isize::MAX
-- bytes, if its containers are complete at the end: from the bytes written, the matching methods
-- of a fresh reader give back the value of every call in order, and the reader then finishes,
-- with nothing left to read.
pub calls-read_all :
    (cs : List Call) (dst dst' : List ℕ) (w : CborWriter) (n : ℕ)
    → length dst ≤ isize_max
    → AreCalls cs
    → calls cs (Writer.new dst) ≡ (w, ok tt)
    → Writer.finish w ≡ (dst', ok n)
    → finished_after (read_all cs (Bytes.new (take n dst'))) ≡ ok cs
calls-read_all cs dst dst' w n small fits run end =
    let (r, heads, finishes) = calls-Heads cs dst dst' w n small fits run end in
    ap finished_after (read_all-Heads cs (Bytes.new (take n dst')) r fits heads)
    ∙ ap (λ s. finish_with s cs) finishes
