-- ===== src/Cbor/Steps.antt =====
-- What one call of the writer of crates/km43/src/cbor.rs means: the stack it leaves, the bytes it
-- writes, and the head that a reader makes of them.
use km.Prelude.{ℕ, ◌+◌, ◌*◌, ◌≤◌, ◌≡◌, true, false, List, [], ◌∷◌, ◌++◌}
use km.Prelude.{length, if◌then◌else◌, u64_max, usize_max, pos, negsuc}
use km.Cbor.Types.{Major, Head, Nesting, KeyRank}
use km.Cbor.Nest.{max_depth}
use km.Cbor.Bytes.{max_string}
use km.Cbor.Utf8.{is_utf8}
use km.Cbor.Writer.{head_byte, tail_bytes}
use km.Cbor.Calls.{Call}
use km.Cbor.View.{Level, key_next, counted, noted, ascends, opened}

abbrev pub head_bytes : Major → ℕ → List ℕ
head_bytes major argument = head_byte major argument ∷ tail_bytes argument

abbrev pub bytes_of : Call → List ℕ
bytes_of (Call.array len) = head_bytes Major.array len
bytes_of (Call.map pairs) = head_bytes Major.map pairs
bytes_of (Call.u64 value) = head_bytes Major.unsigned value
bytes_of (Call.key (pos n)) = head_bytes Major.unsigned n
bytes_of (Call.key (negsuc n)) = []
bytes_of (Call.i32 (pos n)) = head_bytes Major.unsigned n
bytes_of (Call.i32 (negsuc n)) = head_bytes Major.negative n
bytes_of (Call.bool value) = head_bytes Major.simple (if value then 21 else 20)
bytes_of (Call.bytes value) = head_bytes Major.bytes (length value) ++ value
bytes_of (Call.text raw) = head_bytes Major.text (length raw) ++ raw

abbrev pub head_of : Call → Head
head_of (Call.array len) = Head.array len
head_of (Call.map pairs) = Head.map pairs
head_of (Call.u64 value) = Head.unsigned value
head_of (Call.key (pos n)) = Head.unsigned n
head_of (Call.key (negsuc n)) = Head.negative n
head_of (Call.i32 (pos n)) = Head.unsigned n
head_of (Call.i32 (negsuc n)) = Head.negative n
head_of (Call.bool value) = Head.bool value
head_of (Call.bytes value) = Head.bytes value
head_of (Call.text raw) = Head.text raw

abbrev pub rank : ℕ → KeyRank
rank n = record { negative = false; argument = n }

-- The stack that a call leaves, of a settled one, as a relation.
abbrev pub ItemAt : List Level → List Level → Type 0
ItemAt st st' = (key_next st ≡ false) × (st' ≡ counted st)

abbrev pub OpensAt : Nesting → ℕ → List Level → List Level → Type 0
OpensAt kind items st st' =
    (key_next st ≡ false) × (length st + 1 ≤ max_depth) × (st' ≡ opened kind items (counted st))

abbrev pub Leaves : Call → List Level → List Level → Type 0
Leaves (Call.array len) st st' = OpensAt Nesting.array len st st'
Leaves (Call.map pairs) st st' = OpensAt Nesting.map (pairs * 2) st st' × (pairs * 2 ≤ usize_max)
Leaves (Call.u64 value) st st' = ItemAt st st'
Leaves (Call.key (pos n)) st st' =
    (key_next st ≡ true) × (ascends (rank n) st ≡ true) × (st' ≡ counted (noted (rank n) st))
Leaves (Call.key (negsuc n)) st st' = ⊥
Leaves (Call.i32 value) st st' = ItemAt st st'
Leaves (Call.bool value) st st' = ItemAt st st'
Leaves (Call.bytes value) st st' = ItemAt st st'
Leaves (Call.text raw) st st' = ItemAt st st' × (length raw ≤ max_string)

-- What the Rust types of the arguments promise.
abbrev pub IsCall : Call → Type 0
IsCall (Call.array len) = len ≤ usize_max
IsCall (Call.map pairs) = pairs ≤ usize_max
IsCall (Call.u64 value) = value ≤ u64_max
IsCall (Call.key (pos n)) = n ≤ 9223372036854775807
IsCall (Call.key (negsuc n)) = n ≤ 9223372036854775807
IsCall (Call.i32 (pos n)) = n ≤ 2147483647
IsCall (Call.i32 (negsuc n)) = n ≤ 2147483647
IsCall (Call.bool value) = Unit {0}
IsCall (Call.bytes value) = length value ≤ usize_max
IsCall (Call.text raw) = is_utf8 raw ≡ true
