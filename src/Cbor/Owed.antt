-- ===== src/Cbor/Owed.antt =====
-- The items that open containers still promise, against the bytes that follow
-- (crates/km43/src/cbor.rs, `CborReader::count`).
use km.Prelude.{ℕ, ◌+◌, ◌≤◌, ◌≡◌, refl, ap, arith, Bool-cases, inl, inr}
use km.Prelude.{List, [], ◌∷◌, ◌++◌, length, length-append, ◌==◌, ==_iff, pos, negsuc}
use km.Cbor.Calls.{Call}
use km.Cbor.View.{Level, done, counted, noted}
use km.Cbor.Steps.{bytes_of, Leaves, rank}
use km.Cbor.ReadsBack.{items_of}

abbrev pub owed : List Level → ℕ
owed [] = 0
owed (l ∷ st) = l.remaining + owed st

-- One call after another, on the stack alone.
abbrev pub Chain : List Level → List Call → List Level → Type 0
Chain st [] st' = st ≡ st'
Chain st (c ∷ cs) st' = (mid : List Level) × Leaves c (done st) mid × Chain mid cs st'

abbrev pub all_bytes : List Call → List ℕ
all_bytes [] = []
all_bytes (c ∷ cs) = bytes_of c ++ all_bytes cs

owed-done : (st : List Level) → owed (done st) ≡ owed st
unfolding done
owed-done [] = refl
owed-done (l ∷ st) = elim (Bool-cases (l.remaining == 0)) [
  | inl z ↦ rw z (omega (arith, owed-done st, (==_iff l.remaining 0).0 z))
  | inr z ↦ rw z refl
]

owed-counted : (st : List Level) → owed st ≤ owed (counted st) + 1
owed-counted [] = omega arith
owed-counted (l ∷ st) = omega arith

owed-noted : (st : List Level) (n : ℕ) → owed (noted (rank n) st) ≡ owed st
owed-noted [] n = refl
owed-noted (l ∷ st) n = refl

-- A call pays for one item with a byte at least, and owes what it promises.
owed-call :
    (c : Call) (st st' : List Level)
    → Leaves c st st'
    → (owed st + items_of c ≤ owed st' + length (bytes_of c)) × (items_of c ≤ owed st')
owed-call (Call.array len) st st' (item, deep, same) =
    (omega (arith, owed-counted st, ap owed same), omega (arith, ap owed same))
owed-call (Call.map pairs) st st' ((item, deep, same), few) =
    (omega (arith, owed-counted st, ap owed same), omega (arith, ap owed same))
owed-call (Call.u64 value) st st' (item, same) =
    (omega (arith, owed-counted st, ap owed same), omega arith)
owed-call (Call.key (pos n)) st st' (at, up, same) =
    (omega (arith, owed-counted (noted (rank n) st), owed-noted st n, ap owed same), omega arith)
owed-call (Call.key (negsuc n)) st st' h = absurd h
owed-call (Call.i32 (pos n)) st st' (item, same) =
    (omega (arith, owed-counted st, ap owed same), omega arith)
owed-call (Call.i32 (negsuc n)) st st' (item, same) =
    (omega (arith, owed-counted st, ap owed same), omega arith)
owed-call (Call.bool value) st st' (item, same) =
    (omega (arith, owed-counted st, ap owed same), omega arith)
owed-call (Call.bytes value) st st' (item, same) =
    (omega (arith, owed-counted st, ap owed same), omega arith)
owed-call (Call.text raw) st st' ((item, same), short) =
    (omega (arith, owed-counted st, ap owed same), omega arith)

-- What is owed is written, once nothing is owed at the end.
pub owed-Chain :
    (cs : List Call) (st st' : List Level)
    → Chain st cs st'
    → done st' ≡ []
    → owed st ≤ length (all_bytes cs)
owed-Chain [] st st' same end = omega (arith, ap owed same, owed-done st', ap owed end)
owed-Chain (c ∷ cs) st st' (mid, leaves, path) end = omega (
  arith,
  owed-done st,
  (owed-call c (done st) mid leaves).0,
  owed-Chain cs mid st' path end,
  length-append (bytes_of c) (all_bytes cs),
)

-- So a container that a call opens has room for its items behind it.
pub room-Chain :
    (c : Call) (cs : List Call) (st mid st' : List Level)
    → Leaves c st mid
    → Chain mid cs st'
    → done st' ≡ []
    → items_of c ≤ length (all_bytes cs)
room-Chain c cs st mid st' leaves path end =
    omega (arith, (owed-call c st mid leaves).1, owed-Chain cs mid st' path end)
