-- ===== src/Cbor/CallReads.antt =====
-- `CborReader::head` of crates/km43/src/cbor.rs behind each call of the writer.
use km.Prelude.{ℕ, ◌+◌, ◌%◌, ◌≤◌, ◌≡◌, refl, sym, ap, ◌∙◌, arith, Bool, true, false}
use km.Prelude.{List, ◌++◌, length, ok}
use km.Prelude.{isize_max, u64_max, pos, negsuc}
use km.Cbor.Types.{Major, Head, width_of, info_of, bind_on, pure}
use km.Cbor.Nest.{Nest, settle}
use km.Cbor.Utf8.{is_utf8}
use km.Cbor.Bytes.{CborReader, argument, decode, decode_major, simple}
use km.Cbor.Heads.{open_head}
use km.Cbor.Writer.{head_byte, tail_bytes}
use km.Cbor.Calls.{Call}
use km.Cbor.View.{Level, view, IsNest, done, counted}
use km.Cbor.Steps.{head_bytes, bytes_of, head_of, rank, Leaves, ItemAt, IsCall}
use km.Cbor.Standing.{standing}
use km.Cbor.Decode.{decode-head_byte, argument_read, bytes_read, text_read}
use km.Cbor.ReadsBack.{Reads, Opens, items_of, item_read, key_read}
use km.Cbor.ContainerReads.{array-Reads, map-Reads}

-- A head that opens nothing.
plain :
    (source : List ℕ) (q : ℕ) (h : Head) (st st' : List Level)
    → ((n : Nest) → open_head h (standing source q n) ≡ (standing source q n, ok tt))
    → st' ≡ st
    → (n : Nest) → IsNest n
    → view n ≡ st
    → Opens source q n h st'
plain source q h st st' opens same n nest viewed = (n, opens n, nest, viewed ∙ sym same)

module _ (source front rest : List ℕ) (small : length source ≤ isize_max) (n : Nest)
    (nest : IsNest n) (st : List Level) where
  -- The argument is the value of the head.
  decoded_by :
      (major : Major) (v : ℕ) (f : ℕ → Head)
      → source ≡ front ++ (head_bytes major v ++ rest)
      → v ≤ u64_max
      → ((r : CborReader)
          → decode_major major (info_of (width_of v) (v % 256)) r
            ≡ bind_on (argument (info_of (width_of v) (v % 256)) r) (λ n. pure (f n)))
      → decode (head_byte major v) (standing source (length front + 1) (settle n))
        ≡ (standing source (length front + length (head_bytes major v)) (settle n), ok (f v))
  decoded_by major v f is fits by =
      decode-head_byte major v (standing source (length front + 1) (settle n))
      ∙ by (standing source (length front + 1) (settle n))
      ∙ ap (λ s. bind_on s (λ n. pure (f n)))
          (argument_read source front rest major v is small fits (settle n))

  unsigned-Reads :
      (v : ℕ)
      → source ≡ front ++ (head_bytes Major.unsigned v ++ rest)
      → v ≤ u64_max
      → ItemAt (done (view n)) st
      → Reads source
          (length front)
          (length front + length (head_bytes Major.unsigned v))
          n
          (Head.unsigned v)
          st
  unsigned-Reads v is fits (item, same) =
      let q = length front + length (head_bytes Major.unsigned v) in
      item_read source front (tail_bytes v ++ rest) (head_byte Major.unsigned v) is small q
        (Head.unsigned v) n nest (decoded_by Major.unsigned v Head.unsigned is fits (λ r. refl)) st
        item (plain source q (Head.unsigned v) (counted (done (view n))) st (λ n. refl) same)

  negative-Reads :
      (v : ℕ)
      → source ≡ front ++ (head_bytes Major.negative v ++ rest)
      → v ≤ u64_max
      → ItemAt (done (view n)) st
      → Reads source
          (length front)
          (length front + length (head_bytes Major.negative v))
          n
          (Head.negative v)
          st
  negative-Reads v is fits (item, same) =
      let q = length front + length (head_bytes Major.negative v) in
      item_read source front (tail_bytes v ++ rest) (head_byte Major.negative v) is small q
        (Head.negative v) n nest (decoded_by Major.negative v Head.negative is fits (λ r. refl)) st
        item (plain source q (Head.negative v) (counted (done (view n))) st (λ n. refl) same)

  key-Reads :
      (v : ℕ)
      → source ≡ front ++ (head_bytes Major.unsigned v ++ rest)
      → v ≤ u64_max
      → Leaves (Call.key (pos v)) (done (view n)) st
      → Reads source
          (length front)
          (length front + length (head_bytes Major.unsigned v))
          n
          (Head.unsigned v)
          st
  key-Reads v is fits (at, up, same) =
      let q = length front + length (head_bytes Major.unsigned v) in
      let (n', reads, nest', viewed) =
        key_read source front (tail_bytes v ++ rest) (head_byte Major.unsigned v) is small q
          (Head.unsigned v) n nest (decoded_by Major.unsigned v Head.unsigned is fits (λ r. refl))
          (rank v) at up refl (λ n. refl) in
      (n', reads, nest', viewed ∙ sym same)

  bool-Reads :
      (value : Bool)
      → source ≡ front ++ (bytes_of (Call.bool value) ++ rest)
      → ItemAt (done (view n)) st
      → Reads source (length front) (length front + 1) n (Head.bool value) st
  unfolding simple
  bool-Reads true is (item, same) =
      item_read source front rest (head_byte Major.simple 21) is small (length front + 1)
        (Head.bool true) n nest
        (decode-head_byte Major.simple 21 (standing source (length front + 1) (settle n))) st item
        (plain source (length front + 1) (Head.bool true) (counted (done (view n))) st (λ n. refl)
          same)
  bool-Reads false is (item, same) =
      item_read source front rest (head_byte Major.simple 20) is small (length front + 1)
        (Head.bool false) n nest
        (decode-head_byte Major.simple 20 (standing source (length front + 1) (settle n))) st item
        (plain source (length front + 1) (Head.bool false) (counted (done (view n))) st (λ n. refl)
          same)

  -- A string behind its head.
  bytes-Reads :
      (raw : List ℕ)
      → source ≡ front ++ (bytes_of (Call.bytes raw) ++ rest)
      → ItemAt (done (view n)) st
      → Reads source
          (length front)
          (length front + length (bytes_of (Call.bytes raw)))
          n
          (Head.bytes raw)
          st
  bytes-Reads raw is (item, same) =
      let q = length front + length (bytes_of (Call.bytes raw)) in
      let v = length raw in
      item_read source front ((tail_bytes v ++ raw) ++ rest) (head_byte Major.bytes v) is small q
        (Head.bytes raw) n nest
        (decode-head_byte Major.bytes v (standing source (length front + 1) (settle n))
          ∙ bytes_read source front raw rest Major.bytes is small (settle n))
        st item (plain source q (Head.bytes raw) (counted (done (view n))) st (λ n. refl) same)

  text-Reads :
      (raw : List ℕ)
      → source ≡ front ++ (bytes_of (Call.text raw) ++ rest)
      → is_utf8 raw ≡ true
      → Leaves (Call.text raw) (done (view n)) st
      → Reads source
          (length front)
          (length front + length (bytes_of (Call.text raw)))
          n
          (Head.text raw)
          st
  text-Reads raw is valid ((item, same), short) =
      let q = length front + length (bytes_of (Call.text raw)) in
      let v = length raw in
      item_read source front ((tail_bytes v ++ raw) ++ rest) (head_byte Major.text v) is small q
        (Head.text raw) n nest
        (decode-head_byte Major.text v (standing source (length front + 1) (settle n))
          ∙ text_read source front raw rest Major.text is small (settle n) short valid)
        st item (plain source q (Head.text raw) (counted (done (view n))) st (λ n. refl) same)

-- The bytes of a call, behind `front`, are read as its head, and leave the stack it left.
pub call-Reads :
    (c : Call) (source front rest : List ℕ) (n : Nest) (st : List Level)
    → source ≡ front ++ (bytes_of c ++ rest)
    → length source ≤ isize_max
    → IsNest n
    → IsCall c
    → Leaves c (done (view n)) st
    → items_of c ≤ length rest
    → Reads source (length front) (length front + length (bytes_of c)) n (head_of c) st
call-Reads (Call.array len) source front rest n st is small nest fits at room =
    array-Reads source front rest small n nest st len is fits at room
call-Reads (Call.map pairs) source front rest n st is small nest fits at room =
    map-Reads source front rest small n nest st pairs is at room
call-Reads (Call.u64 value) source front rest n st is small nest fits at room =
    unsigned-Reads source front rest small n nest st value is fits at
call-Reads (Call.key (pos v)) source front rest n st is small nest fits at room =
    key-Reads source front rest small n nest st v is (omega arith) at
call-Reads (Call.key (negsuc v)) source front rest n st is small nest fits at room = absurd at
call-Reads (Call.i32 (pos v)) source front rest n st is small nest fits at room =
    unsigned-Reads source front rest small n nest st v is (omega arith) at
call-Reads (Call.i32 (negsuc v)) source front rest n st is small nest fits at room =
    negative-Reads source front rest small n nest st v is (omega arith) at
call-Reads (Call.bool true) source front rest n st is small nest fits at room =
    bool-Reads source front rest small n nest st true is at
call-Reads (Call.bool false) source front rest n st is small nest fits at room =
    bool-Reads source front rest small n nest st false is at
call-Reads (Call.bytes raw) source front rest n st is small nest fits at room =
    bytes-Reads source front rest small n nest st raw is at
call-Reads (Call.text raw) source front rest n st is small nest fits at room =
    text-Reads source front rest small n nest st raw is fits at
