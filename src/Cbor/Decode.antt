-- ===== src/Cbor/Decode.antt =====
-- What `CborReader::decode` of crates/km43/src/cbor.rs makes of the bytes of one call of the writer.
use km.Prelude.{ℕ, ◌+◌, ◌-◌, ◌*◌, ◌%◌, ◌≤◌, ◌≡◌, refl, sym, ap, ◌∙◌, arith, true, false}
use km.Prelude.{List, ◌++◌, append_assoc, length, length-append, ok, err}
use km.Prelude.{ltb, if◌then◌else◌, isize_max, usize_max, u64_max, bit_and}
use km.Cbor.Types.{Major, Head, width_of, info_of, bind_on, ◌>>=◌, pure, lift, invalid_utf8}
use km.Cbor.Nest.{Nest}
use km.Cbor.Utf8.{is_utf8}
use km.Cbor.Bytes.{
  CborReader, max_string, argument, decode, decode_major, take_bytes, length_of, to_usize, count,
  counted, text_of,
}
use km.Cbor.Writer.{head_byte}
use km.Cbor.Argument.{At, head_byte_parts, take_bytes-At}
use km.Cbor.Steps.{head_bytes}
use km.Cbor.Standing.{standing, argument-standing}

pub decode-head_byte :
    (major : Major) (v : ℕ) (r : CborReader)
    → decode (head_byte major v) r ≡ decode_major major (info_of (width_of v) (v % 256)) r
unfolding decode
decode-head_byte major v r =
    let (top, low) = head_byte_parts major v in
    ap (λ m. decode_major m (bit_and (head_byte major v) 0x1F) r) top
    ∙ ap (λ info. decode_major major info r) low

module _ (source front rest : List ℕ) (major : Major) (v : ℕ)
    (is : source ≡ front ++ (head_bytes major v ++ rest)) (small : length source ≤ isize_max)
    (fits : v ≤ u64_max) where
  -- Behind the head.
  abbrev behind_head : Nest → CborReader
  behind_head n = standing source (length front + length (head_bytes major v)) n

  pub argument_read :
      (n : Nest)
      → argument (info_of (width_of v) (v % 256)) (standing source (length front + 1) n)
        ≡ (behind_head n, ok v)
  argument_read n = rw is (argument-standing front rest major v n (rw is at small) fits)

  pub length_read :
      (n : Nest)
      → v ≤ usize_max
      → length_of (info_of (width_of v) (v % 256)) (standing source (length front + 1) n)
        ≡ (behind_head n, ok v)
  unfolding length_of
  length_read n few =
      let fit : to_usize v ≡ ok v = ground arith in
      ap (λ s. bind_on s (λ n. lift (to_usize n))) (argument_read n)
      ∙ ap (λ r. (behind_head n, r)) fit

  -- A count of items that the input behind the head has room for.
  pub count_read :
      (n : Nest) (per_item : ℕ)
      → v ≤ usize_max
      → v * per_item ≤ usize_max
      → v * per_item ≤ length rest
      → count (info_of (width_of v) (v % 256)) per_item (standing source (length front + 1) n)
        ≡ (behind_head n, ok v)
  unfolding count
  count_read n per_item few items room =
      let all : length source ≡ length front + (length (head_bytes major v) + length rest) =
        ap length is
        ∙ length-append front (head_bytes major v ++ rest)
        ∙ ap (λ (k : ℕ). length front + k) (length-append (head_bytes major v) rest) in
      let low : ltb usize_max (v * per_item) ≡ false = ground arith in
      let high : ltb (length source - (length front + length (head_bytes major v))) (v * per_item)
          ≡ false =
        ground arith in
      ap (λ s. bind_on s (counted per_item)) (length_read n few) ∙ rw (low, high) refl

-- The bytes of a string behind its head.
module _ (source front raw rest : List ℕ) (major : Major)
    (is : source ≡ front ++ ((head_bytes major (length raw) ++ raw) ++ rest))
    (small : length source ≤ isize_max) where
  behind_raw : source ≡ front ++ (head_bytes major (length raw) ++ (raw ++ rest))
  behind_raw = is ∙ ap (λ s. front ++ s) (append_assoc (head_bytes major (length raw)) raw rest)

  pub length-source :
      length source
      ≡ length front + (length (head_bytes major (length raw)) + (length raw + length rest))
  length-source = omega (
    arith,
    ap length behind_raw,
    length-append front (head_bytes major (length raw) ++ (raw ++ rest)),
    length-append (head_bytes major (length raw)) (raw ++ rest),
    length-append raw rest,
  )

  -- Behind the string.
  abbrev behind_string : Nest → CborReader
  behind_string n = standing source (length front + length (head_bytes major (length raw) ++ raw)) n

  raw_read :
      (n : Nest)
      → take_bytes
          (length raw)
          (standing source (length front + length (head_bytes major (length raw))) n)
        ≡ (behind_string n, ok raw)
  raw_read n =
      let head = head_bytes major (length raw) in
      let at : At (standing source (length front + length head) n) (front ++ head) (raw ++ rest) =
        record {
          source = behind_raw ∙ sym (append_assoc front head (raw ++ rest));
          next = sym (length-append front head);
          small = small;
        } in
      let end : length (front ++ head) + length raw ≡ length front + length (head ++ raw) =
        omega (arith, length-append front head, length-append head raw) in
      take_bytes-At (standing source (length front + length head) n) (front ++ head) raw rest at
      ∙ ap (λ (next : ℕ). (standing source next n, ok raw)) end

  string_length_read :
      (n : Nest)
      → length_of
          (info_of (width_of (length raw)) (length raw % 256))
          (standing source (length front + 1) n)
        ≡ (
          standing source (length front + length (head_bytes major (length raw))) n,
          ok (length raw),
        )
  string_length_read n =
      length_read source front (raw ++ rest) major (length raw) behind_raw small
        (omega (arith, length-source)) n (omega (arith, length-source))

  pub bytes_read :
      (n : Nest)
      → decode_major Major.bytes
          (info_of (width_of (length raw)) (length raw % 256))
          (standing source (length front + 1) n)
        ≡ (behind_string n, ok (Head.bytes raw))
  bytes_read n =
      ap (λ s. bind_on s (λ len. take_bytes len >>= (λ raw. pure (Head.bytes raw))))
        (string_length_read n)
      ∙ ap (λ s. bind_on s (λ raw. pure (Head.bytes raw))) (raw_read n)

  pub text_read :
      (n : Nest)
      → length raw ≤ max_string
      → is_utf8 raw ≡ true
      → decode_major Major.text
          (info_of (width_of (length raw)) (length raw % 256))
          (standing source (length front + 1) n)
        ≡ (behind_string n, ok (Head.text raw))
  text_read n short valid =
      let fits : ltb max_string (length raw) ≡ false = ground arith in
      let r = standing source (length front + length (head_bytes major (length raw))) n in
      let checked : text_of (length raw) r ≡ (behind_string n, ok (Head.text raw)) = rw fits (
        ap
          (λ s.
            bind_on s (λ raw. lift (if is_utf8 raw then ok (Head.text raw) else err invalid_utf8)))
          (raw_read n)
        ∙ rw valid refl) in
      ap (λ s. bind_on s text_of) (string_length_read n) ∙ checked
