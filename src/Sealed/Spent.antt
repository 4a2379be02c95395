-- ===== src/Sealed/Spent.antt =====
-- The nonces that `ControllerSealer::seal` of crates/km43/src/sealed.rs asks the cipher under.
use km.Prelude.{
  ℕ, zero, suc, ◌+◌, ◌*◌, ◌/◌, ◌^◌, ◌≤◌, ◌<◌, ◌≡◌, ◌⊎◌, inl, inr, refl, ap, arith, Bool-cases, List,
  [], ◌∷◌, drop, take, ◌==◌, length, Result, ok, err, Option, some,
}
use km.Cbor.Types.{CborError}
use native.Mathlib.Nat.{pow-succ'}
use km.Cbor.Writer.{CborWriter, finish as finish_writer}
use km.Envelope.Defs.{Header, EnvelopeError, write as write_header}
use km.Sealed.Types.{SealError}
use km.Sealed.Cipher.{Aead, seal_in_place, put_tag, nonce_bytes, le_bytes, tag_bytes}
use km.Sealed.Seal.{
  Direction, request, controller, check, write, last_nonce, ControllerSealer, seal_from,
  seal_response, fill_range, after_pairs, after_header, write_pairs, pairs_of, ad,
}

-- The number that the twelve bytes of a nonce stand for: eight bytes, the lowest first, behind four.
abbrev pub le_value : List ℕ → ℕ
le_value [] = 0
le_value (byte ∷ bytes) = byte + 256 * le_value bytes

abbrev pub nonce_value : List ℕ → ℕ
nonce_value nonce = le_value (drop 4 nonce)

-- Two ciphers that encrypt alike under the nonce `n`, and anyhow under all others.
abbrev pub AlikeAt : ℕ → Aead → Aead → Type 0
AlikeAt n a b =
    (key nonce ad body : List ℕ)
    → nonce_value nonce ≡ n
    → b.encrypt_detached key nonce ad body ≡ a.encrypt_detached key nonce ad body

le_value-le_bytes : (width n : ℕ) → n < 256 ^ width → le_value (le_bytes width n) ≡ n
le_value-le_bytes zero n small = omega arith
le_value-le_bytes (suc width) n small =
    let less : n < 256 * 256 ^ width = rw (pow-succ' 256 width) at small in
    omega (arith, le_value-le_bytes width (n / 256) (omega arith))

nonce_value-nonce_bytes : (n : ℕ) → n < 18446744073709551615 → nonce_value (nonce_bytes n) ≡ n
nonce_value-nonce_bytes n small = le_value-le_bytes 8 n (omega arith)

module _ (a b : Aead) (n : ℕ) (small : n < 18446744073709551615) (alike : AlikeAt n a b) where
  seal_in_place-alike :
      (key ad body slot : List ℕ)
      → seal_in_place b key n ad body slot ≡ seal_in_place a key n ad body slot
  unfolding seal_in_place
  seal_in_place-alike key ad body slot =
      ap (put_tag body slot) (alike key (nonce_bytes n) ad body (nonce_value-nonce_bytes n small))

  fill_range-alike :
      (key : List ℕ) (h : Header) (inner : List ℕ) (start end : ℕ)
      (out : List ℕ × Result CborError ℕ)
      → fill_range b key h n inner start end out ≡ fill_range a key h n inner start end out
  fill_range-alike key h inner start end (dst, err why) = refl
  fill_range-alike key h inner start end (dst, ok len) =
      rw (seal_in_place-alike key (ad h) inner (drop (start + length inner) (take end dst))) refl

  after_pairs-alike :
      (key : List ℕ) (h : Header) (inner : List ℕ) (out : CborWriter × Result CborError (ℕ × ℕ))
      → after_pairs b key h n inner out ≡ after_pairs a key h n inner out
  after_pairs-alike key h inner (w, err why) = refl
  after_pairs-alike key h inner (w, ok (start, end)) =
      fill_range-alike key h inner start end (finish_writer w)

  after_header-alike :
      (key : List ℕ) (h : Header) (carried : Option ℕ) (inner : List ℕ)
      (out : CborWriter × Result EnvelopeError (Unit {0}))
      → after_header b key h n carried inner out ≡ after_header a key h n carried inner out
  after_header-alike key h carried inner (w, err why) = refl
  after_header-alike key h carried inner (w, ok _) =
      after_pairs-alike key h inner (write_pairs (length inner + tag_bytes) carried w)

  write-alike :
      (key : List ℕ) (h : Header) (carried : Option ℕ) (inner dst : List ℕ)
      → write b key h n carried inner dst ≡ write a key h n carried inner dst
  unfolding write
  write-alike key h carried inner dst =
      rw (after_header-alike key h carried inner (write_header h (pairs_of carried) dst)) refl

-- What a call of a sealer does to it, to the destination and to the caller, under a cipher.
abbrev pub Sealing : Type 0
Sealing = Aead → ControllerSealer × List ℕ × Result SealError ℕ

-- A call that is refused whatever the cipher is, with the destination as it was.
abbrev pub Refused : Sealing → Aead → List ℕ → Type 0
Refused call a dst =
    ((b : Aead) → call b ≡ call a)
    × ((call a).1 ≡ dst)
    × ((why : SealError) × ((call a).2 ≡ err why))

-- A call that asks the cipher for no more than what it does under the nonce `n`.
abbrev pub AsksUnder : ℕ → Sealing → Aead → Type 0
AsksUnder n call a = (b : Aead) → AlikeAt n a b → call b ≡ call a

-- Calls of one sealer, one after another: the headers, bodies and destinations.
abbrev pub Sealings : Type 0
Sealings = List (Header × List ℕ × List ℕ)

-- Each call is refused, or asks the cipher under one nonce, which is above those of all calls
-- before it and below the last of u64.
abbrev pub Ascending : Aead → ℕ → Sealings → ControllerSealer → Type 0
Ascending a low [] s = Unit {0}
Ascending a low ((h, inner, dst) ∷ sealings) s =
    let call : Sealing = λ c. seal_response c s h inner dst in
    (Refused call a dst × Ascending a low sealings (call a).0)
    ⊎ ((n : ℕ) × (low ≤ n)
        × (n < 18446744073709551615)
        × AsksUnder n call a
        × Ascending a (n + 1) sealings (call a).0)

-- The same of one call, and what it leaves to show of the calls behind it.
abbrev Step : ControllerSealer → Sealing → Aead → List ℕ → Type 0
Step s call a dst =
    (Refused call a dst × ((call a).0 ≡ s))
    ⊎ ((s.next < 18446744073709551615)
        × AsksUnder s.next call a
        × ((call a).0 ≡ record s { next = s.next + 1 }))

seal_from-Step :
    (a : Aead) (s : ControllerSealer) (checked : Result SealError Direction) (h : Header)
    (inner dst : List ℕ)
    → s.next ≤ 18446744073709551615
    → Step s (λ c. seal_from c s checked h inner dst) a dst
seal_from-Step a s (err why) h inner dst fits = inl (((λ b. refl), refl, (why, refl)), refl)
seal_from-Step a s (ok request) h inner dst fits = inl (((λ b. refl), refl, (_, refl)), refl)
seal_from-Step a s (ok controller) h inner dst fits = elim (Bool-cases (s.next == last_nonce)) [
  | inl e ↦ rw e (inl (((λ b. refl), refl, (_, refl)), refl))
  | inr e ↦
      let below : s.next < 18446744073709551615 = ground arith in
      rw e (
        inr (
          below,
          (λ b alike. rw (write-alike a b s.next below alike s.key h (some s.next) inner dst) refl),
          refl,
        ))
]

seal_response-Step :
    (a : Aead) (s : ControllerSealer) (h : Header) (inner dst : List ℕ)
    → s.next ≤ 18446744073709551615
    → Step s (λ c. seal_response c s h inner dst) a dst
unfolding seal_response
seal_response-Step a s h inner dst = seal_from-Step a s (check h) h inner dst

-- Any calls of the controller's sealer from a nonce within u64, of any headers, bodies and
-- destinations, under any cipher: each is refused whatever the cipher does, with the destination
-- as it was, or depends on what the cipher does under one nonce only, as it reads in the bytes
-- that the cipher is given; these nonces ascend strictly, so none is used twice, and are below
-- the last of u64.
pub sealings-Ascending :
    (a : Aead) (sealings : Sealings) (s : ControllerSealer)
    → s.next ≤ 18446744073709551615
    → Ascending a s.next sealings s
sealings-Ascending a [] s fits = tt
sealings-Ascending a ((h, inner, dst) ∷ sealings) s fits =
    elim (seal_response-Step a s h inner dst fits) [
      | inl (refused, same) ↦ inl (refused, rw same (sealings-Ascending a sealings s fits))
      | inr (below, asks, moved) ↦ inr (
        s.next,
        omega arith,
        below,
        asks,
        rw moved (sealings-Ascending a sealings (record s { next = s.next + 1 }) (omega arith)),
      )
    ]
