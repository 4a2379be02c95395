-- ===== src/Body.antt =====
-- The shape that the body encoders and decoders of crates/km43/src share: a map of keys read in a
-- loop into slots, each refusal in the body's own error type (`?` through `From<CborError>`).
pub mod Wire
use km.Prelude.{ℕ, zero, suc, ◌≡◌, refl, arith, List, Option, none, some, Result, ok, err, ℤ}
use km.Cbor.Types.{CborError, Act}
use km.Cbor.Bytes.{CborReader, new as new_reader}
use km.Cbor.Reader.{key, map, finish}
use km.Cbor.Writer.{CborWriter, new as new_writer, finish as finish_writer}

abbrev pub Step : Type 0 → Type 0 → Type 0 → Type 0
Step E S A = S → S × Result E A

abbrev pub step_on : {E S A B : Type 0} → S × Result E A → (A → Step E S B) → S × Result E B
step_on (s, ok a) f = f a s
step_on (s, err why) f = (s, err why)

infixl 5 ◌>>=◌ ◌>>◌
abbrev pub ◌>>=◌ : {E S A B : Type 0} → Step E S A → (A → Step E S B) → Step E S B
◌>>=◌ m f s = step_on (m s) f

abbrev pub ◌>>◌ : {E S B : Type 0} → Step E S (Unit {0}) → Step E S B → Step E S B
◌>>◌ m k s = step_on (m s) (λ _. k)

abbrev pub done : {E S A : Type 0} → A → Step E S A
done a s = (s, ok a)

-- `?` on a value that needs no state.
abbrev pub given : {E S A : Type 0} → Result E A → Step E S A
given result s = (s, result)

abbrev pub failed_as : {E S A : Type 0} → (CborError → E) → S × Result CborError A → S × Result E A
failed_as cbor (s, ok a) = (s, ok a)
failed_as cbor (s, err why) = (s, err (cbor why))

-- `?` on a call of the reader or the writer.
abbrev pub on : {E S A : Type 0} → (CborError → E) → Act S A → Step E S A
on cbor m s = failed_as cbor (m s)

-- `ok_or` on a slot.
abbrev pub required : {E A : Type 0} → E → Option A → Result E A
required missing none = err missing
required missing (some a) = ok a

-- `once`: keep the first value of a key and refuse a second.
abbrev pub once : {E A : Type 0} → E → Option A → A → Result E (Option A)
once duplicate none value = ok (some value)
once duplicate (some held) value = err duplicate

-- `for _ in 0..pairs { match Key::of(body.key()?) { ... } }`
unfoldable pub read_pairs :
    {E T : Type 0} → (CborError → E) → (ℤ → T → Step E CborReader T) → ℕ → T → Step E CborReader T
read_pairs cbor take_pair zero slots = done slots
read_pairs cbor take_pair (suc pairs) slots = do
  number ← on cbor key
  filled ← take_pair number slots
  read_pairs cbor take_pair pairs filled

abbrev pub with_finished :
    {E T : Type 0} → (CborError → E) → T → Result CborError (Unit {0}) → Result E T
with_finished cbor slots (ok _) = ok slots
with_finished cbor slots (err why) = err (cbor why)

abbrev pub finish_body : {E T : Type 0} → (CborError → E) → CborReader × Result E T → Result E T
finish_body cbor (r, ok slots) = with_finished cbor slots (finish r)
finish_body cbor (r, err why) = err why

-- The slots that a whole payload fills.
unfoldable pub read_body :
    {E T : Type 0} → (CborError → E) → (ℤ → T → Step E CborReader T) → T → List ℕ → Result E T
read_body cbor take_pair slots payload =
    let (r, filled) =
      (do pairs ← on cbor map; read_pairs cbor take_pair pairs slots) (new_reader payload) in
    finish_body cbor (r, filled)

abbrev pub finish_written :
    {E : Type 0} → (CborError → E) → CborWriter × Result CborError (Unit {0}) → List ℕ × Result E ℕ
finish_written cbor (w, err why) = (w.dst, err (cbor why))
finish_written cbor (w, ok _) = failed_as cbor (finish_writer w)

-- The destination after a body is written into it, and the encoded length.
unfoldable pub write_body :
    {E : Type 0} → (CborError → E) → Act CborWriter (Unit {0}) → List ℕ → List ℕ × Result E ℕ
write_body cbor m dst = finish_written cbor (m (new_writer dst))

-- A chain of results.
abbrev pub and_then : {E A B : Type 0} → Result E A → (A → Result E B) → Result E B
and_then (ok a) f = f a
and_then (err why) f = err why

-- A chain that ends ok went through both its parts.
pub and_then_ok :
    {E A B : Type 0} (m : Result E A) (f : A → Result E B) (b : B)
    → and_then m f ≡ ok b
    → (a : A) × (m ≡ ok a) × (f a ≡ ok b)
and_then_ok (ok a) f b e = (a, refl, e)
and_then_ok (err why) f b e = absurd (grind arith)

pub required_ok :
    {E A : Type 0} (why : E) (slot : Option A) (a : A) → required why slot ≡ ok a → slot ≡ some a
required_ok why none a e = absurd (grind arith)
required_ok why (some held) a e = grind arith
