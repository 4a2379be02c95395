-- ===== src/Cbor/Standing.antt =====
-- A reader of crates/km43/src/cbor.rs that stands between two items, and the heads it reads.
use km.Prelude.{ℕ, ◌+◌, ◌%◌, ◌≤◌, ◌≡◌, refl, sym, ap, ◌∙◌, arith, Bool, true, false}
use km.Prelude.{
  List, [], ◌∷◌, ◌++◌, append_assoc, length, length-append, get_elem?-append, none, ok,
}
use km.Prelude.{isize_max, u64_max, sat_add}
use km.Cbor.Types.{
  Major, Head, KeyRank, width_of, width_bytes, info_of, bind_on, Act, ◌>>=◌, ◌>>◌, pure,
}
use km.Cbor.Nest.{Nest, settle, at_key, count_item, read_key}
use km.Cbor.Bytes.{CborReader, on_nest, in_nest, argument, decode}
use km.Cbor.Heads.{
  search_key, settled_head, first_byte, open_head, rank_of, note_head, check_key, settle_key,
  head_with, settle_skipped,
}
use km.Cbor.Reader
use km.Cbor.Writer.{head_byte, tail_bytes}
use km.Cbor.Argument.{At, argument-At, length-tail_bytes}
use km.Cbor.Steps.{head_bytes}

-- Nothing skipped, nothing left to settle.
abbrev pub standing : List ℕ → ℕ → Nest → CborReader
standing source next nest = record {
  source = source;
  next = next;
  nest = nest;
  checks = true;
  walking = false;
  unsettled = none;
  skipped = none;
}

-- What `head` does behind `decode`: by whether a key is due, and where the head began.
abbrev after_decode : Bool → ℕ → Head → Act CborReader Head
after_decode key at h =
    note_head search_key key at h >> (in_nest count_item >> (open_head h >> pure h))

module _ (source : List ℕ) (p q byte : ℕ) (h : Head) (n : Nest)
    (first : first_byte (standing source p n) ≡ (standing source (p + 1) n, ok byte))
    (decoded : decode byte (standing source (p + 1) n) ≡ (standing source q n, ok h)) where
  decoded_head :
      settled_head search_key (standing source p n)
      ≡ after_decode (at_key n) p h (standing source q n)
  decoded_head =
      ap (λ s. bind_on s (λ b. decode b >>= after_decode (at_key n) p)) first
      ∙ ap (λ s. bind_on s (after_decode (at_key n) p)) decoded

  -- The head of an item, on a settled nest.
  pub settled_item :
      (n' n'' : Nest)
      → at_key n ≡ false
      → count_item n ≡ (n', ok tt)
      → open_head h (standing source q n') ≡ (standing source q n'', ok tt)
      → settled_head search_key (standing source p n) ≡ (standing source q n'', ok h)
  settled_item n' n'' item counts opens =
      decoded_head
      ∙ ap (λ key. after_decode key p h (standing source q n)) item
      ∙ ap (λ s. bind_on (on_nest (standing source q n) s) (λ _. open_head h >> pure h)) counts
      ∙ ap (λ s. bind_on s (λ _. pure h)) opens

  -- The head of a key that is above the last one.
  pub settled_key :
      (rank : KeyRank) (n' n'' : Nest)
      → at_key n ≡ true
      → rank_of h ≡ ok rank
      → read_key rank p n ≡ (n', ok none)
      → count_item n' ≡ (n'', ok tt)
      → open_head h (standing source q n'') ≡ (standing source q n'', ok tt)
      → settled_head search_key (standing source p n) ≡ (standing source q n'', ok h)
  settled_key rank n' n'' key ranked reads counts opens =
      decoded_head
      ∙ ap (λ key. after_decode key p h (standing source q n)) key
      ∙ ap
          (λ r.
            bind_on (bind_on (standing source q n, r) (check_key search_key p))
              (λ _. in_nest count_item >> (open_head h >> pure h)))
          ranked
      ∙ ap
          (λ s.
            bind_on (bind_on (on_nest (standing source q n) s) (settle_key search_key false))
              (λ _. in_nest count_item >> (open_head h >> pure h)))
          reads
      ∙ ap (λ s. bind_on (on_nest (standing source q n') s) (λ _. open_head h >> pure h)) counts
      ∙ ap (λ s. bind_on s (λ _. pure h)) opens

pub head-standing :
    (source : List ℕ) (p : ℕ) (n : Nest)
    → Reader.head (standing source p n) ≡ settled_head search_key (standing source p (settle n))
unfolding Reader.head head_with settle_skipped
head-standing source p n = refl

pub first_byte-standing :
    (front rest : List ℕ) (byte : ℕ) (n : Nest)
    → length (front ++ (byte ∷ rest)) ≤ isize_max
    → let source = front ++ (byte ∷ rest) in
      first_byte (standing source (length front) n)
      ≡ (standing source (length front + 1) n, ok byte)
first_byte-standing front rest byte n small =
    let at = get_elem?-append front byte rest in
    let step : sat_add (length front) 1 ≡ length front + 1 =
      omega (arith, length-append front (byte ∷ rest)) in
    rw (at, step) refl

-- Where the tail of a head begins.
behind :
    (front : List ℕ) (byte : ℕ) (rest : List ℕ)
    → front ++ (byte ∷ rest) ≡ (front ++ (byte ∷ [])) ++ rest
behind front byte rest = sym (append_assoc front (byte ∷ []) rest)

pub argument-standing :
    (front rest : List ℕ) (major : Major) (argument_value : ℕ) (n : Nest)
    → let source = front ++ (head_bytes major argument_value ++ rest) in
      length source ≤ isize_max
      → argument_value ≤ u64_max
      → argument
          (info_of (width_of argument_value) (argument_value % 256))
          (standing source (length front + 1) n)
        ≡ (
          standing source (length front + length (head_bytes major argument_value)) n,
          ok argument_value,
        )
argument-standing front rest major v n small fits =
    let source = front ++ (head_bytes major v ++ rest) in
    let byte = head_byte major v in
    let width : length (front ++ (byte ∷ [])) ≡ length front + 1 =
      omega (arith, length-append front (byte ∷ [])) in
    let r = standing source (length front + 1) n in
    let at : At r (front ++ (byte ∷ [])) (tail_bytes v ++ rest) = record {
      source = behind front byte (tail_bytes v ++ rest);
      next = sym width;
      small = small;
    } in
    let end : length (front ++ (byte ∷ [])) + width_bytes (width_of v)
        ≡ length front + length (head_bytes major v) =
      omega (arith, width, length-tail_bytes v) in
    argument-At v r (front ++ (byte ∷ [])) rest fits at
    ∙ ap (λ (next : ℕ). (standing source next n, ok v)) end
