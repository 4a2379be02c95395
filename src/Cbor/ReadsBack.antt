-- ===== src/Cbor/ReadsBack.antt =====
-- `CborReader::head` of crates/km43/src/cbor.rs over the bytes of one call of the writer: the head
-- of that call, and the stack that the writer left.
use km.Prelude.{ℕ, ◌+◌, ◌*◌, ◌≤◌, ◌≡◌, sym, ap, ◌∙◌, true, false}
use km.Prelude.{List, ◌∷◌, ◌++◌, length, ok}
use km.Prelude.{isize_max}
use km.Cbor.Types.{Head, KeyRank}
use km.Cbor.Nest.{Nest, settle, at_key}
use km.Cbor.Bytes.{decode}
use km.Cbor.Heads.{open_head, rank_of, first_byte}
use km.Cbor.Reader
use km.Cbor.Calls.{Call}
use km.Cbor.View.{
  Level, view, IsNest, done, key_next, counted, noted, ascends, view-settle, at_key-view,
  count-view,
}
use km.Cbor.ViewKeys.{read-view}
use km.Cbor.Standing.{standing, settled_item, settled_key, head-standing, first_byte-standing}

-- The items that a container promises.
abbrev pub items_of : Call → ℕ
items_of (Call.array len) = len
items_of (Call.map pairs) = pairs * 2
items_of (Call.u64 value) = 0
items_of (Call.key value) = 0
items_of (Call.i32 value) = 0
items_of (Call.bool value) = 0
items_of (Call.bytes value) = 0
items_of (Call.text raw) = 0

-- The head `h` between `p` and `q`, and the stack behind it.
abbrev pub Reads : List ℕ → ℕ → ℕ → Nest → Head → List Level → Type 0
Reads source p q n h st =
    (n' : Nest) × (Reader.head (standing source p n) ≡ (standing source q n', ok h))
    × IsNest n'
    × (view n' ≡ st)

-- Opening leaves the reader where it is, with the stack `st`.
abbrev pub Opens : List ℕ → ℕ → Nest → Head → List Level → Type 0
Opens source q n h st =
    (n' : Nest) × (open_head h (standing source q n) ≡ (standing source q n', ok tt))
    × IsNest n'
    × (view n' ≡ st)

module _ (source front tail : List ℕ) (byte : ℕ) (is : source ≡ front ++ (byte ∷ tail))
    (small : length source ≤ isize_max) (q : ℕ) (h : Head) (n : Nest) (nest : IsNest n)
    (decoded : decode byte (standing source (length front + 1) (settle n))
      ≡ (standing source q (settle n), ok h)) where
  first :
      first_byte (standing source (length front) (settle n))
      ≡ (standing source (length front + 1) (settle n), ok byte)
  first =
      ap (λ s. first_byte (standing s (length front) (settle n))) is
      ∙ first_byte-standing front tail byte (settle n) (rw is at small)
      ∙ ap (λ (s : List ℕ). (standing s (length front + 1) (settle n), ok byte)) (sym is)

  pub item_read :
      (st : List Level)
      → key_next (done (view n)) ≡ false
      → ((n' : Nest) → IsNest n' → view n' ≡ counted (done (view n)) → Opens source q n' h st)
      → Reads source (length front) q n h st
  item_read st item opens =
      let (settled, viewed) = view-settle n nest in
      let at_item : at_key (settle n) ≡ false =
        at_key-view (settle n) settled ∙ ap key_next viewed ∙ item in
      let (n', counts, nest', counted_view) = count-view (settle n) settled in
      let (n'', opening, nest'', final) = opens n' nest' (counted_view ∙ ap counted viewed) in
      (
        n'',
        head-standing source (length front) n
            ∙ settled_item source (length front) q byte h (settle n) first decoded n' n'' at_item
                counts opening,
        nest'',
        final,
      )

  pub key_read :
      (r : KeyRank)
      → key_next (done (view n)) ≡ true
      → ascends r (done (view n)) ≡ true
      → rank_of h ≡ ok r
      → ((n' : Nest) → open_head h (standing source q n') ≡ (standing source q n', ok tt))
      → Reads source (length front) q n h (counted (noted r (done (view n))))
  key_read r key up ranked opens =
      let (settled, viewed) = view-settle n nest in
      let next : key_next (view (settle n)) ≡ true = ap key_next viewed ∙ key in
      let higher : ascends r (view (settle n)) ≡ true = ap (ascends r) viewed ∙ up in
      let (n', reads, nest', noted_view) =
        read-view r (length front) (settle n) settled next higher in
      let (n'', counts, nest'', counted_view) = count-view n' nest' in
      (
        n'',
        head-standing source (length front) n
            ∙ settled_key source (length front) q byte h (settle n) first decoded r n' n''
                (at_key-view (settle n) settled ∙ next) ranked reads counts (opens n''),
        nest'',
        counted_view ∙ ap counted (noted_view ∙ ap (noted r) viewed),
      )
