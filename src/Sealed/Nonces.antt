-- ===== src/Sealed/Nonces.antt =====
-- What a nonce is used for in crates/km43/src/sealed.rs: sealed under once, and opened once.
use km.Prelude.{
  ℕ, ◌-◌, ◌≤◌, ◌≡◌, inl, inr, refl, sym, ◌∙◌, arith, false, Bool-cases, List, [], ◌∷◌, length,
  Option, none, some, leb, ltb, ◌==◌, Result, ok, err,
}
use km.Sealed.Types.{SealError, NoiseError}
use km.Sealed.Window.{admits, accept}
use km.Sealed.Cipher.{Aead, tag_bytes}
use km.Sealed.Seal.{last_nonce}
use km.Sealed.Open.{Opener, new_opener, Sealed, Opened, open_sealed, open_admitted, opened_by}
use km.Sealed.Replay.{
  Nonces, with_nonce, Holds, accept-Says, admits-judged, judged, Says, beyond, accept-span,
}

-- A call that was refused leaves the window. One that opened had a nonce the window admits, which
-- it now holds.
abbrev pub Outcome : Sealed → Opener → Opener × List ℕ × Result SealError Opened → Type 0
Outcome s rx (rx', dst, err why) = rx' ≡ rx
Outcome s rx (rx', dst, ok opened) =
    (admits rx.window s.nonce ≡ ok tt)
    × (rx' ≡ record rx { window = accept rx.window s.nonce })
    × (opened.header ≡ s.header)

opened_by-Outcome :
    (s : Sealed) (rx : Opener) (n : ℕ) (dst : List ℕ) (result : Result NoiseError (List ℕ))
    → admits rx.window s.nonce ≡ ok tt
    → Outcome s rx (opened_by s rx n dst result)
opened_by-Outcome s rx n dst (err why) e = refl
opened_by-Outcome s rx n dst (ok plain) e = (e, refl, refl)

open_admitted-Outcome :
    (a : Aead) (s : Sealed) (rx : Opener) (dst : List ℕ) (admitted : Result SealError (Unit {0}))
    → admits rx.window s.nonce ≡ admitted
    → Outcome s rx (open_admitted a s rx dst admitted)
open_admitted-Outcome a s rx dst (err why) e = refl
open_admitted-Outcome a s rx dst (ok tt) e =
    elim (Bool-cases (ltb (length s.ciphertext) tag_bytes)) [
      | inl short ↦ rw short refl
      | inr long ↦ elim (Bool-cases (ltb (length dst) (length s.ciphertext - tag_bytes))) [
        | inl small ↦ rw (long, small) refl
        | inr room ↦ rw (long, room) (opened_by-Outcome s rx _ dst _ e)
      ]
    ]

open_sealed-Outcome :
    (a : Aead) (s : Sealed) (rx : Opener) (dst : List ℕ) → Outcome s rx (open_sealed a s rx dst)
unfolding open_sealed
open_sealed-Outcome a s rx dst = elim (Bool-cases (s.nonce == last_nonce)) [
  | inl e ↦ rw e refl
  | inr e ↦ rw e (open_admitted-Outcome a s rx dst (admits rx.window s.nonce) refl)
]

-- The nonce of a call that opened its body.
abbrev pub opened_nonce : ℕ → Result SealError Opened → List ℕ → List ℕ
opened_nonce n (ok opened) ns = n ∷ ns
opened_nonce n (err why) ns = ns

-- The nonces of the bodies that one opener opened, in order, of any bodies and destinations.
abbrev pub opened_nonces : Aead → List (Sealed × List ℕ) → Opener → List ℕ
opened_nonces a [] rx = []
opened_nonces a ((s, dst) ∷ frames) rx =
    let (rx', after, result) = open_sealed a s rx dst in
    opened_nonce s.nonce result (opened_nonces a frames rx')

-- Each nonce is outside the set, to which those before it were added.
abbrev pub Unrepeated : Nonces → List ℕ → Type 0
Unrepeated accepted [] = Unit {0}
Unrepeated accepted (n ∷ ns) = (accepted n ≡ false) × Unrepeated (with_nonce n accepted) ns

-- A nonce in the set is never admitted.
admitted-new :
    (highest : Option ℕ) (seen span n : ℕ) (accepted : Nonces)
    → Says highest seen accepted
    → judged highest span accepted n ≡ ok tt
    → accepted n ≡ false
admitted-new none seen span n accepted empty e = empty n
admitted-new (some highest) seen span n accepted (says, bounded) e =
    elim (Bool-cases (ltb highest n)) [
      | inl above ↦ beyond accepted highest n bounded (ground arith)
      | inr below ↦ elim (Bool-cases (accepted n)) [
        | inr other ↦ other
        | inl held ↦ elim (Bool-cases (leb span (highest - n))) [
          | inl old ↦ absurd (grind (arith, rw (below, old) at e))
          | inr young ↦ absurd (grind (arith, rw (below, young, held) at e))
        ]
      ]
    ]

opened-new :
    (a : Aead) (s : Sealed) (dst : List ℕ) (frames : List (Sealed × List ℕ)) (rx : Opener)
    (accepted : Nonces) (out : Opener × List ℕ × Result SealError Opened)
    → Holds rx.window accepted
    → rx.window.span ≤ 64
    → Outcome s rx out
    → ((rx' : Opener) (accepted' : Nonces)
        → Holds rx'.window accepted'
        → rx'.window.span ≤ 64
        → Unrepeated accepted' (opened_nonces a frames rx'))
    → Unrepeated accepted (opened_nonce s.nonce out.2 (opened_nonces a frames out.0))
opened-new a s dst frames rx accepted (rx', after, err why) held narrow same rest =
    rw same (rest rx accepted held narrow)
opened-new a s dst frames rx accepted (rx', after, ok opened) held narrow (admitted, moved, header)
      rest =
    (
      admitted-new rx.window.highest rx.window.seen rx.window.span s.nonce accepted held
          (sym (admits-judged rx.window s.nonce accepted held narrow) ∙ admitted),
      rw moved (
          rest (record rx { window = accept rx.window s.nonce }) (with_nonce s.nonce accepted)
            (accept-Says rx.window s.nonce accepted held) (accept-span rx.window s.nonce narrow)),
    )

unrepeated :
    (a : Aead) (frames : List (Sealed × List ℕ)) (rx : Opener) (accepted : Nonces)
    → Holds rx.window accepted
    → rx.window.span ≤ 64
    → Unrepeated accepted (opened_nonces a frames rx)
unrepeated a [] rx accepted held narrow = tt
unrepeated a ((s, dst) ∷ frames) rx accepted held narrow =
    opened-new a s dst frames rx accepted (open_sealed a s rx dst) held narrow
      (open_sealed-Outcome a s rx dst) (unrepeated a frames)

-- Of any sealed bodies, honest, repeated or forged, in any order, into any destinations, under
-- any cipher: an opener whose window is at most 64 nonces wide opens no nonce twice.
pub opened_nonces-Unrepeated :
    (a : Aead) (frames : List (Sealed × List ℕ)) (key : List ℕ) (span : ℕ)
    → span ≤ 64
    → Unrepeated (λ _. false) (opened_nonces a frames (new_opener key span))
opened_nonces-Unrepeated a frames key span narrow =
    unrepeated a frames (new_opener key span) (λ _. false) (λ m. refl) narrow
