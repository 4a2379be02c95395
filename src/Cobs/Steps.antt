-- ===== src/Cobs/Steps.antt =====
-- One push of the encoder of crates/km43/src/cobs.rs, on a destination with room for it.
use km.Prelude.{ℕ, suc, ◌+◌, ◌≤◌, ◌<◌, ◌≡◌, refl, sym, ◌∙◌, arith, inl, inr}
use km.Prelude.{
  List, [], ◌∷◌, ◌++◌, append-nil, append_assoc, length, length-append, set, set-append, drop,
}
use km.Prelude.{◌==◌, if◌then◌else◌, Bool-cases}
use km.Prelude.{ok}
use km.Cobs.Defs.{Encoder, encoder_put, close, push}
use km.Cobs.Stuff.{block_bytes, stuff_step, stuff_from}

-- The encoder between two bytes: the finished blocks, a held-back byte, the open block, and what
-- of the destination is not yet written.
abbrev pub holding : List ℕ → ℕ → List ℕ → List ℕ → Encoder
holding done held blk tail = record {
  dst = done ++ (held ∷ (blk ++ tail));
  code_at = length done;
  next = length done + suc (length blk);
  code = suc (length blk);
}

-- The buffer with the open block's code filled in.
pub filled :
    (done : List ℕ) (held : ℕ) (blk tail : List ℕ)
    → set (done ++ (held ∷ (blk ++ tail))) (length done) (suc (length blk))
      ≡ (done ++ block_bytes blk) ++ tail
filled done held blk tail =
    set-append done held _ (blk ++ tail) ∙ sym (append_assoc done (block_bytes blk) tail)

Encoder-eq :
    {d d' : List ℕ} {a a' n n' c c' : ℕ}
    → d ≡ d'
    → a ≡ a'
    → n ≡ n'
    → c ≡ c'
    → Path Encoder
        (record { dst = d; code_at = a; next = n; code = c })
        (record { dst = d'; code_at = a'; next = n'; code = c' })
Encoder-eq p q r s i = record { dst = p i; code_at = q i; next = r i; code = s i }

pub length-holding :
    (done : List ℕ) (held : ℕ) (blk tail : List ℕ)
    → length (done ++ (held ∷ (blk ++ tail))) ≡ length done + suc (length blk) + length tail
length-holding done held blk tail =
    omega (arith, length-append done (held ∷ (blk ++ tail)), length-append blk tail)

-- `close` finishes the open block and holds back the next free byte.
close-holding :
    (done : List ℕ) (held : ℕ) (blk : List ℕ) (t : ℕ) (tail : List ℕ)
    → close (holding done held blk (t ∷ tail))
      ≡ (holding (done ++ block_bytes blk) t [] tail, ok tt)
unfolding close
close-holding done held blk t tail = ground (
  arith,
  length-holding done held blk (t ∷ tail),
  filled done held blk (t ∷ tail),
  length-append (done ++ block_bytes blk) (t ∷ tail),
  length-append done (block_bytes blk),
)

-- The write of `put` lands just behind the open block.
set-holding :
    (done : List ℕ) (held : ℕ) (blk : List ℕ) (t : ℕ) (tail : List ℕ) (byte : ℕ)
    → set (done ++ (held ∷ (blk ++ (t ∷ tail)))) (length done + suc (length blk)) byte
      ≡ done ++ (held ∷ ((blk ++ (byte ∷ [])) ++ tail))
set-holding done held blk t tail byte =
    rw
      (
        ← append_assoc done (held ∷ blk) (t ∷ tail),
        ← length-append done (held ∷ blk),
        set-append (done ++ (held ∷ blk)) t byte tail,
        append_assoc done (held ∷ blk) (byte ∷ tail),
        append_assoc blk (byte ∷ []) tail,
      )
      refl

-- `put` appends a byte to a block that is not full.
put-holding :
    (done : List ℕ) (held : ℕ) (blk : List ℕ) (t : ℕ) (tail : List ℕ) (byte : ℕ)
    → length blk < 254
    → encoder_put (holding done held blk (t ∷ tail)) byte
      ≡ (holding done held (blk ++ (byte ∷ [])) tail, ok tt)
unfolding encoder_put
put-holding done held blk t tail byte h = ground (
  arith,
  length-holding done held blk (t ∷ tail),
  set-holding done held blk t tail byte,
  length-append blk (byte ∷ []),
)

-- How many more bytes of the destination a push takes.
abbrev pub taken : List ℕ → ℕ
taken blk = if length blk == 254 then 2 else 1

abbrev pub Pushed : List ℕ → ℕ → List ℕ → List ℕ → ℕ → Type 0
Pushed done held blk tail byte =
    (held' : ℕ) × (push (holding done held blk tail) byte ≡ (
      holding (done ++ (stuff_step blk byte).0) held' (stuff_step blk byte).1
          (drop (taken blk) tail),
      ok tt,
    ))

push_full :
    (done : List ℕ) (held : ℕ) (blk : List ℕ) (t u : ℕ) (tail : List ℕ) (byte : ℕ)
    → length blk ≡ 254
    → Pushed done held blk (t ∷ u ∷ tail) byte
unfolding push stuff_step
push_full done held blk t u tail byte full = elim (Bool-cases (byte == 0)) [
  | inl z ↦ (
    u,
    ground (
      arith,
      close-holding done held blk t (u ∷ tail),
      close-holding (done ++ block_bytes blk) t [] u tail,
      append_assoc done (block_bytes blk) (1 ∷ []),
    ),
  )
  | inr nz ↦ (
    t,
    ground (
      arith,
      close-holding done held blk t (u ∷ tail),
      put-holding (done ++ block_bytes blk) t [] u tail byte,
    ),
  )
]

push_space :
    (done : List ℕ) (held : ℕ) (blk : List ℕ) (t : ℕ) (tail : List ℕ) (byte : ℕ)
    → length blk < 254
    → Pushed done held blk (t ∷ tail) byte
unfolding push stuff_step
push_space done held blk t tail byte h = elim (Bool-cases (byte == 0)) [
  | inl z ↦ (t, ground (arith, close-holding done held blk t tail))
  | inr nz ↦ (held, ground (arith, put-holding done held blk t tail byte, append-nil done))
]

-- `push` takes the step of the reference encoding, wherever what it writes fits.
pub push-holding :
    (done : List ℕ) (held : ℕ) (blk tail : List ℕ) (byte : ℕ)
    → length blk ≤ 254
    → taken blk ≤ length tail
    → Pushed done held blk tail byte
push-holding done held blk [] byte h fits = absurd (ground arith)
push-holding done held blk (t ∷ []) byte h fits = push_space done held blk t [] byte (ground arith)
push-holding done held blk (t ∷ u ∷ tail) byte h fits = elim (Bool-cases (length blk == 254)) [
  | inl full ↦ push_full done held blk t u tail byte (ground arith)
  | inr space ↦ push_space done held blk t (u ∷ tail) byte (ground arith)
]

-- The open block never passes 254 bytes, and a step writes what it takes.
pub stuff_step_size :
    (blk : List ℕ) (byte : ℕ)
    → length blk ≤ 254
    → (length (stuff_step blk byte).1 ≤ 254)
      × (length (stuff_step blk byte).0 + length (stuff_step blk byte).1 ≡ length blk + taken blk)
unfolding stuff_step
stuff_step_size blk byte h =
    ground (arith, length-append blk (byte ∷ []), length-append (block_bytes blk) (1 ∷ []))

pub length-stuff_step :
    (blk : List ℕ) (byte : ℕ) (src : List ℕ)
    → length (stuff_from blk (byte ∷ src))
      ≡ length (stuff_step blk byte).0 + length (stuff_from (stuff_step blk byte).1 src)
unfolding stuff_from
length-stuff_step blk byte src = length-append (stuff_step blk byte).0 _

-- An encoding goes on with at least the open block and its code.
pub block-le-stuff_from :
    (blk src : List ℕ) → length blk ≤ 254 → suc (length blk) ≤ length (stuff_from blk src)
block-le-stuff_from blk [] h = unfold stuff_from in omega arith
block-le-stuff_from blk (byte ∷ src) h = ground (
  arith,
  length-stuff_step blk byte src,
  stuff_step_size blk byte h,
  block-le-stuff_from (stuff_step blk byte).1 src,
)
