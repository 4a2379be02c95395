-- ===== src/Cobs/Defs.antt =====
-- The definitions of crates/km43/src/cobs.rs.
use km.Prelude.{ℕ, zero, suc, ◌+◌, ◌-◌, ◌/◌, min, List, [], ◌∷◌}
use km.Prelude.{ltb, leb, ◌==◌, if◌then◌else◌, not, ◌&&◌}
use km.Prelude.{length, set, take, drop, sat_add, Result, ok, err}

abbrev pub max_code : ℕ
max_code = 255

abbrev pub max_block_data : ℕ
max_block_data = 254

-- `stuck` is no Rust value: the fuel of `Decoder::run` ran out, which `decode-ne-stuck` excludes.
pub data CobsError : Type 0 where
  destination_too_small empty_frame zero_code_byte zero_in_block block_runs_past_end : CobsError
  stuck : CobsError

unfoldable pub max_encoded_len : ℕ → ℕ
max_encoded_len payload = sat_add (sat_add payload (payload / max_block_data)) 1

-- `Encoder`: `dst` is the borrowed buffer.
pub record Encoder : Type 0 where
  pub dst : List ℕ
  pub code_at : ℕ
  pub next : ℕ
  pub code : ℕ

-- What a `&mut self` method leaves, and what it returns.
abbrev pub Ran : Type 0
Ran = Encoder × Result CobsError (Unit {0})

abbrev pub new_encoder : List ℕ → Result CobsError Encoder
new_encoder [] = err destination_too_small
new_encoder (x ∷ xs) = ok (record { dst = x ∷ xs; code_at = 0; next = 1; code = 1 })

-- `?` on a method's result.
abbrev pub try : Ran → (Encoder → Ran) → Ran
try (e, ok _) k = k e
try (e, err why) k = (e, err why)

-- `Encoder::put`.
unfoldable pub encoder_put : Encoder → ℕ → Ran
encoder_put e byte =
    if ltb e.next (length e.dst)
    then (
      record e { dst = set e.dst e.next byte; next = e.next + 1; code = min 255 (e.code + 1) },
      ok tt,
    )
    else (e, err destination_too_small)

-- `Encoder::close`.
unfoldable pub close : Encoder → Ran
close e =
    if ltb e.code_at (length e.dst)
    then (let dst = set e.dst e.code_at e.code in
        if leb (length dst) e.next
        then (record e { dst = dst }, err destination_too_small)
        else (record { dst = dst; code_at = e.next; next = e.next + 1; code = 1 }, ok tt))
    else (e, err destination_too_small)

-- `Encoder::push`.
unfoldable pub push : Encoder → ℕ → Ran
push e byte =
    try (if e.code == max_code then close e else (e, ok tt))
      (λ e'. if byte == 0 then close e' else encoder_put e' byte)

-- `Encoder::finish`: the buffer it gives back, and the encoded length.
unfoldable pub finish : Encoder → List ℕ × Result CobsError ℕ
finish e =
    if ltb e.code_at (length e.dst)
    then (set e.dst e.code_at e.code, ok e.next)
    else (e.dst, err destination_too_small)

-- `for &byte in src { encoder.push(byte)?; }`.
unfoldable pub push_all : Encoder → List ℕ → Ran
push_all e [] = (e, ok tt)
push_all e (byte ∷ src) = try (push e byte) (λ e'. push_all e' src)

abbrev pub finish_run : Ran → List ℕ × Result CobsError ℕ
finish_run (e, ok _) = finish e
finish_run (e, err why) = (e.dst, err why)

abbrev pub encode_with : List ℕ → List ℕ → Result CobsError Encoder → List ℕ × Result CobsError ℕ
encode_with src dst (err why) = (dst, err why)
encode_with src dst (ok e) = finish_run (push_all e src)

-- `encode`: the destination afterwards, and the result.
unfoldable pub encode : List ℕ → List ℕ → List ℕ × Result CobsError ℕ
encode src dst =
    if ltb (length dst) (max_encoded_len (length src))
    then (dst, err destination_too_small)
    else encode_with src dst (new_encoder dst)

-- `Decoder`: `rest` is `src[read..]`, the only part of `src` that is read again.
pub record Decoder : Type 0 where
  pub rest : List ℕ
  pub dst : List ℕ
  pub written : ℕ

abbrev pub Step : Type 0
Step = Decoder × Result CobsError (Unit {0})

abbrev pub try_decoder : Step → (Decoder → Step) → Step
try_decoder (d, ok _) k = k d
try_decoder (d, err why) k = (d, err why)

-- `Decoder::put`.
unfoldable pub decoder_put : Decoder → ℕ → Step
decoder_put d byte =
    if ltb d.written (length d.dst)
    then (record d { dst = set d.dst d.written byte; written = d.written + 1 }, ok tt)
    else (d, err destination_too_small)

-- The loop of `copy_block` over the block's bytes.
unfoldable pub copy_bytes : Decoder → List ℕ → Step
copy_bytes d [] = (d, ok tt)
copy_bytes d (byte ∷ block) =
    if byte == 0
    then (d, err zero_in_block)
    else try_decoder (decoder_put d byte) (λ d'. copy_bytes d' block)

-- `Decoder::copy_block`: `src.get(read..end)` with `end = read + (code - 1)`.
unfoldable pub copy_block : Decoder → ℕ → Step
copy_block d code =
    if ltb (length d.rest) (code - 1)
    then (d, err block_runs_past_end)
    else try_decoder (copy_bytes d (take (code - 1) d.rest))
        (λ d'. (record d' { rest = drop (code - 1) d.rest }, ok tt))

-- The zero that a block implies, when another block follows.
unfoldable pub implied_zero : ℕ → Decoder → Step
implied_zero code d =
    if not (code == max_code) && ltb 0 (length d.rest) then decoder_put d 0 else (d, ok tt)

-- One round of the loop of `Decoder::run`, on the code byte it has read.
unfoldable pub decode_round : Decoder → ℕ → List ℕ → Step
decode_round d code rest =
    if code == 0
    then (d, err zero_code_byte)
    else try_decoder (copy_block (record d { rest = rest }) code) (implied_zero code)

abbrev pub run_on : Step → (Decoder → List ℕ × Result CobsError ℕ) → List ℕ × Result CobsError ℕ
run_on (d, ok _) k = k d
run_on (d, err why) k = (d.dst, err why)

-- `while let Some(&code) = self.src.get(self.read)`, on fuel.
unfoldable pub run : ℕ → List ℕ → List ℕ → ℕ → List ℕ × Result CobsError ℕ
run fuel [] dst written = (dst, ok written)
run zero (code ∷ rest) dst written = (dst, err stuck)
run (suc fuel) (code ∷ rest) dst written =
    run_on (decode_round (record { rest = code ∷ rest; dst = dst; written = written }) code rest)
      (λ d. run fuel d.rest d.dst d.written)

-- `decode`: each round takes a byte at least, so `length src` rounds are enough.
unfoldable pub decode : List ℕ → List ℕ → List ℕ × Result CobsError ℕ
decode [] dst = (dst, err empty_frame)
decode (code ∷ rest) dst = run (length (code ∷ rest)) (code ∷ rest) dst 0
