-- ===== src/Cbor/ContainerReads.antt =====
-- `CborReader::head` of crates/km43/src/cbor.rs behind the head of a container that was written.
use km.Prelude.{ℕ, ◌+◌, ◌*◌, ◌≤◌, ◌<◌, ◌≡◌, refl, sym, ap, ◌∙◌, arith, false}
use km.Prelude.{List, [], ◌∷◌, ◌++◌, length}
use km.Prelude.{ltb, isize_max, usize_max}
use km.Cbor.Types.{Major, Head, Nesting, bind_on, pure}
use km.Cbor.Nest.{Nest, settle, push, max_depth}
use km.Cbor.Bytes.{on_nest, in_nest}
use km.Cbor.Heads.{open_head}
use km.Cbor.Writer.{head_byte, tail_bytes}
use km.Cbor.Calls.{Call}
use km.Cbor.View.{Level, view, IsNest, done, counted, opened, depth-view, push-view}
use km.Cbor.Steps.{head_bytes, Leaves, OpensAt}
use km.Cbor.Standing.{standing}
use km.Cbor.Decode.{decode-head_byte, count_read}
use km.Cbor.ReadsBack.{Reads, Opens, item_read}

length-counted : (st : List Level) → length (counted st) ≡ length st
length-counted [] = refl
length-counted (l ∷ st) = refl

module _ (source front rest : List ℕ) (small : length source ≤ isize_max) (n : Nest)
    (nest : IsNest n) (st : List Level) where
  -- A container, with room behind its head for what it promises.
  container_opens :
      (kind : Nesting) (items : ℕ) (q : ℕ) (h : Head)
      → ((n' : Nest)
          → open_head h (standing source q n') ≡ in_nest (push kind items q) (standing source q n'))
      → OpensAt kind items (done (view n)) st
      → (n' : Nest) → IsNest n'
      → view n' ≡ counted (done (view n))
      → Opens source q n' h st
  container_opens kind items q h by (item, deep, same) n' is viewed =
      let shallow : n'.depth < max_depth =
        omega (arith, depth-view n' is, ap length viewed, length-counted (done (view n)), deep) in
      let (n'', pushes, nest'', final) = push-view kind items q n' is shallow in
      (
        n'',
        by n' ∙ ap (on_nest (standing source q n')) pushes,
        nest'',
        final ∙ ap (opened kind items) viewed ∙ sym same,
      )

  pub array-Reads :
      (len : ℕ)
      → source ≡ front ++ (head_bytes Major.array len ++ rest)
      → len ≤ usize_max
      → OpensAt Nesting.array len (done (view n)) st
      → len ≤ length rest
      → Reads source
          (length front)
          (length front + length (head_bytes Major.array len))
          n
          (Head.array len)
          st
  array-Reads len is fits at room =
      let q = length front + length (head_bytes Major.array len) in
      item_read source front (tail_bytes len ++ rest) (head_byte Major.array len) is small q
        (Head.array len) n nest
        (decode-head_byte Major.array len (standing source (length front + 1) (settle n))
          ∙ ap (λ s. bind_on s (λ n. pure (Head.array n)))
              (count_read source front rest Major.array len is small (omega arith) (settle n) 1 fits
                (omega arith) (omega arith)))
        st (at.0) (container_opens Nesting.array len q (Head.array len) (λ n. refl) at)

  pub map-Reads :
      (pairs : ℕ)
      → source ≡ front ++ (head_bytes Major.map pairs ++ rest)
      → Leaves (Call.map pairs) (done (view n)) st
      → pairs * 2 ≤ length rest
      → Reads source
          (length front)
          (length front + length (head_bytes Major.map pairs))
          n
          (Head.map pairs)
          st
  map-Reads pairs is (at, few) room =
      let q = length front + length (head_bytes Major.map pairs) in
      let fits : ltb usize_max (pairs * 2) ≡ false = ground arith in
      let opens : (n' : Nest)
          → open_head (Head.map pairs) (standing source q n')
            ≡ in_nest (push Nesting.map (pairs * 2) q) (standing source q n') =
        λ n'. rw fits refl in
      item_read source front (tail_bytes pairs ++ rest) (head_byte Major.map pairs) is small q
        (Head.map pairs) n nest
        (decode-head_byte Major.map pairs (standing source (length front + 1) (settle n))
          ∙ ap (λ s. bind_on s (λ n. pure (Head.map n)))
              (count_read source front rest Major.map pairs is small (omega arith) (settle n) 2
                (omega arith) few room))
        st (at.0) (container_opens Nesting.map (pairs * 2) q (Head.map pairs) opens at)
