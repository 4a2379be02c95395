-- ===== src/Body/Wire.antt =====
-- A body of crates/km43/src, encoded by calls of the writer and met by a reader head by head.
use km.Prelude.{
  ℕ, ◌≤◌, ◌≡◌, refl, ap, ◌∙◌, arith, List, [], ◌∷◌, length, take, isize_max, Result, ok, err,
}
use km.Cbor.Types.{CborError, Act, bind_on, ◌>>◌, pure}
use km.Cbor.Bytes
use km.Cbor.Bytes.{CborReader}
use km.Cbor.Reader
use km.Cbor.Writer
use km.Cbor.Writer.{CborWriter}
use km.Cbor.Calls.{Call, call, calls}
use km.Cbor.Trace.{AreCalls, Heads, calls-Heads}
use km.Body.{write_body, finish_written, failed_as}

-- The calls of a body, as its encoder chains them.
abbrev pub joined : Call → List Call → Act CborWriter (Unit {0})
joined c [] = call c
joined c (d ∷ cs) = call c >> joined d cs

same_end : (s : CborWriter × Result CborError (Unit {0})) → bind_on s (λ _. pure tt) ≡ s
same_end (w, ok _) = refl
same_end (w, err why) = refl

pub joined-calls : (c : Call) (cs : List Call) → calls (c ∷ cs) ≡ joined c cs
unfolding calls
joined-calls c [] = λ i w. same_end (call c w) i
joined-calls c (d ∷ cs) = ap (λ k. call c >> k) (joined-calls d cs)

-- Calls that an encoder groups in a helper.
pub grouped : (m k j : Act CborWriter (Unit {0})) → m >> (k >> j) ≡ (m >> k) >> j
grouped m k j = λ i w. regroup (m w) i
  where
    regroup :
        (s : CborWriter × Result CborError (Unit {0}))
        → bind_on s (λ _. k >> j) ≡ bind_on (bind_on s (λ _. k)) (λ _. j)
    regroup (w, ok _) = refl
    regroup (w, err why) = refl

write_body_ok :
    {E : Type 0} (cbor : CborError → E) (m : Act CborWriter (Unit {0})) (dst dst' : List ℕ) (n : ℕ)
    → write_body cbor m dst ≡ (dst', ok n)
    → (w : CborWriter) × (m (Writer.new dst) ≡ (w, ok tt)) × (Writer.finish w ≡ (dst', ok n))
unfolding write_body
write_body_ok {E = E} cbor m dst dst' n e = written (m (Writer.new dst)) refl e
  where
    back : Result E ℕ → Result CborError ℕ
    back (ok k) = ok k
    back (err why) = ok 0

    finished :
        (s : List ℕ × Result CborError ℕ) → failed_as cbor s ≡ (dst', ok n) → s ≡ (dst', ok n)
    finished (d, ok k) e = ap (λ s. (s.0, back s.1)) e
    finished (d, err why) e = absurd (grind (arith, ap (λ p. p.1) e))

    written :
        (s : CborWriter × Result CborError (Unit {0}))
        → m (Writer.new dst) ≡ s
        → finish_written cbor s ≡ (dst', ok n)
        → (w : CborWriter) × (m (Writer.new dst) ≡ (w, ok tt)) × (Writer.finish w ≡ (dst', ok n))
    written (w, ok tt) is e = (w, is, finished (Writer.finish w) e)
    written (w, err why) is e = absurd (grind (arith, ap (λ p. p.1) e))

-- A body whose calls all went in is met by a fresh reader head by head, and then finished.
pub encoded-Heads :
    {E : Type 0} (cbor : CborError → E) (m : Act CborWriter (Unit {0})) (cs : List Call)
    (dst dst' : List ℕ) (n : ℕ)
    → calls cs ≡ m
    → length dst ≤ isize_max
    → AreCalls cs
    → write_body cbor m dst ≡ (dst', ok n)
    → (r : CborReader) × Heads (Bytes.new (take n dst')) cs r × (Reader.finish r ≡ ok tt)
encoded-Heads cbor m cs dst dst' n same small fits e =
    let (w, run, end) = write_body_ok cbor m dst dst' n e in
    calls-Heads cs dst dst' w n small fits (ap (λ m. m (Writer.new dst)) same ∙ run) end

pub write_body-Heads :
    {E : Type 0} (cbor : CborError → E) (c : Call) (cs : List Call) (dst dst' : List ℕ) (n : ℕ)
    → length dst ≤ isize_max
    → AreCalls (c ∷ cs)
    → write_body cbor (joined c cs) dst ≡ (dst', ok n)
    → (r : CborReader) × Heads (Bytes.new (take n dst')) (c ∷ cs) r × (Reader.finish r ≡ ok tt)
write_body-Heads cbor c cs dst dst' n =
    encoded-Heads cbor (joined c cs) (c ∷ cs) dst dst' n (joined-calls c cs)
