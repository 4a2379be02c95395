-- ===== src/Sealed/Replay.antt =====
-- The window of crates/km43/src/sealed.rs against the set of the nonces accepted.
use native.Mathlib.Nat.{pow-suc}
use km.Prelude.{
  ℕ, zero, suc, ◌+◌, ◌-◌, ◌*◌, ◌%◌, ◌/◌, ◌^◌, ◌≤◌, ◌<◌, ◌≡◌, refl, sym, ap, ◌∙◌, arith, Bool, true,
  false, not, ◌&&◌, ◌||◌, Bool-cases, inl, inr, Option, none, some, ◌==◌, leb, ltb, if◌then◌else◌,
  bit_or, Result, ok, err,
}
use km.Prelude.Digits.{
  digit, zero-digit, digit-bit_and, digit-bit_or, digit-pow, digit-low, digit-shift,
}
use km.Sealed.Types.{SealError, too_old, replayed}
use km.Sealed.Window.{
  Window, admits, admits_from, accept, accept_from, checked_shl, or_zero, marked,
}

-- A set of nonces, and one more.
abbrev pub Nonces : Type 0
Nonces = ℕ → Bool

abbrev pub with_nonce : ℕ → Nonces → Nonces
with_nonce n accepted m = m == n || accepted m

-- The window says of each of the 64 nonces up to the highest whether it is in the set, and none of
-- the set is above the highest.
abbrev pub Says : Option ℕ → ℕ → Nonces → Type 0
Says none seen accepted = (m : ℕ) → accepted m ≡ false
Says (some highest) seen accepted =
    ((age : ℕ) → age < 64 → age ≤ highest → digit seen age ≡ accepted (highest - age))
    × ((m : ℕ) → accepted m ≡ true → m ≤ highest)

pow-lt : (k a : ℕ) → a < k → 2 ^ a < 2 ^ k
pow-lt zero a h = absurd (omega arith)
pow-lt (suc k) zero h = omega (arith, pow-suc 2 k, positive k)
  where
    positive : (k : ℕ) → 1 ≤ 2 ^ k
    positive zero = omega arith
    positive (suc k) = omega (arith, pow-suc 2 k, positive k)
pow-lt (suc k) (suc a) h = omega (arith, pow-suc 2 k, pow-suc 2 a, pow-lt k a (omega arith))

abbrev pub Holds : Window → Nonces → Type 0
Holds w accepted = Says w.highest w.seen accepted

shl_one : (age : ℕ) → age < 64 → checked_shl 1 age ≡ some (2 ^ age)
shl_one age h =
    let narrow : ltb 4294967295 age ≡ false = ground arith in
    let short : leb 64 age ≡ false = ground arith in
    let fits : 1 * 2 ^ age % 18446744073709551616 ≡ 2 ^ age = omega (arith, pow-lt 64 age h) in
    rw (narrow, short, fits) refl

shl_none : (word by : ℕ) → leb 64 by ≡ true → checked_shl word by ≡ none
shl_none word by long = elim (Bool-cases (ltb 4294967295 by)) [
  | inl e ↦ rw e refl
  | inr e ↦ rw (e, long) refl
]

-- The digits of a word that is shifted, with the lowest set.
shifted_word :
    (seen by age : ℕ)
    → age < 64
    → digit (or_zero (checked_shl seen by)) age ≡ (leb by age && digit seen (age - by))
shifted_word seen by age h = elim (Bool-cases (leb 64 by)) [
  | inl long ↦
      let none_left : checked_shl seen by ≡ none = shl_none seen by long in
      let far : leb by age ≡ false = ground arith in rw (none_left, far) (zero-digit age)
  | inr short ↦
      let narrow : ltb 4294967295 by ≡ false = ground arith in
      let word = seen * 2 ^ by in
      let low : digit (word / 18446744073709551616 * 2 ^ 64 + word % 18446744073709551616) age
          ≡ digit (word % 18446744073709551616) age =
        digit-low 64 age (word / 18446744073709551616) (word % 18446744073709551616) h in
      let whole : word / 18446744073709551616 * 2 ^ 64 + word % 18446744073709551616 ≡ word =
        omega arith in
      rw (narrow, short) (sym low ∙ ap (λ (n : ℕ). digit n age) whole ∙ digit-shift by age seen)
]

shifted :
    (seen by age : ℕ)
    → age < 64
    → digit (bit_or (or_zero (checked_shl seen by)) 1) age
      ≡ ((leb by age && digit seen (age - by)) || (age == 0))
shifted seen by age h =
    digit-bit_or age (or_zero (checked_shl seen by)) 1
    ∙ ap (λ b. b || digit 1 age) (shifted_word seen by age h)
    ∙ ap (λ b. (leb by age && digit seen (age - by)) || b) (digit-pow age 0)

or-false : (b : Bool) → (b || false) ≡ b
or-false true = refl
or-false false = refl

or_comm : (a b : Bool) → (a || b) ≡ (b || a)
or_comm true true = refl
or_comm true false = refl
or_comm false true = refl
or_comm false false = refl

pub beyond :
    (accepted : Nonces) (highest m : ℕ)
    → ((m : ℕ) → accepted m ≡ true → m ≤ highest)
    → highest < m
    → accepted m ≡ false
beyond accepted highest m bounded over = elim (Bool-cases (accepted m)) [
  | inl e ↦ absurd (omega (arith, bounded m e))
  | inr e ↦ e
]

Says-first :
    (accepted : Nonces) (n : ℕ) → Says none 0 accepted → Says (some n) 1 (with_nonce n accepted)
Says-first accepted n empty = (
  λ age h below.
      let old = empty (n - age) in
      let at : (age == 0) ≡ (n - age == n) = ground arith in
      digit-pow age 0 ∙ at ∙ rw old (ground arith),
  λ m held. let old = empty m in ground (arith, old, held),
)

Says-above :
    (seen highest n : ℕ) (accepted : Nonces)
    → Says (some highest) seen accepted
    → highest < n
    → Says (some n) (bit_or (or_zero (checked_shl seen (n - highest))) 1) (with_nonce n accepted)
Says-above seen highest n accepted (says, bounded) above = (ages, bounds)
  where
    ages :
        (age : ℕ)
        → age < 64
        → age ≤ n
        → digit (bit_or (or_zero (checked_shl seen (n - highest))) 1) age
          ≡ with_nonce n accepted (n - age)
    ages age h below =
        shifted seen (n - highest) age h ∙ (elim (Bool-cases (leb (n - highest) age)) [
          | inl e ↦
              let place : highest - (age - (n - highest)) ≡ n - age = ground arith in
              let old = says (age - (n - highest)) (omega arith) (ground arith) in
              let first : (age == 0) ≡ false = ground arith in
              let other : (n - age == n) ≡ false = ground arith in
              rw (e, first, other, old, place) (or-false (accepted (n - age)))
          | inr e ↦
              let at : (age == 0) ≡ (n - age == n) = ground arith in
              rw (e, at, beyond accepted highest (n - age) bounded (ground arith))
                (sym (or-false (n - age == n)))
        ])

    bounds : (m : ℕ) → with_nonce n accepted m ≡ true → m ≤ n
    bounds m held = elim (Bool-cases (accepted m)) [
      | inl e ↦ omega (arith, bounded m e)
      | inr e ↦ ground (arith, e, held)
    ]

Says-below :
    (seen highest n : ℕ) (accepted : Nonces)
    → Says (some highest) seen accepted
    → n ≤ highest
    → Says (some highest) (marked seen (checked_shl 1 (highest - n))) (with_nonce n accepted)
Says-below seen highest n accepted (says, bounded) below = (ages, bounds)
  where
    ages :
        (age : ℕ)
        → age < 64
        → age ≤ highest
        → digit (marked seen (checked_shl 1 (highest - n))) age
          ≡ with_nonce n accepted (highest - age)
    ages age h reach = elim (Bool-cases (leb 64 (highest - n))) [
      | inl far ↦
          let other : (highest - age == n) ≡ false = ground arith in
          rw (shl_none 1 (highest - n) far, other) (says age h reach)
      | inr near ↦
          let at : (age == highest - n) ≡ (highest - age == n) = ground arith in
          rw (shl_one (highest - n) (ground arith)) (
            digit-bit_or age seen (2 ^ (highest - n))
            ∙ rw (digit-pow age (highest - n), at, says age h reach)
                (or_comm (accepted (highest - age)) (highest - age == n)))
    ]

    bounds : (m : ℕ) → with_nonce n accepted m ≡ true → m ≤ highest
    bounds m held = elim (Bool-cases (accepted m)) [
      | inl e ↦ omega (arith, bounded m e)
      | inr e ↦ ground (arith, e, held)
    ]

-- The window after a nonce is accepted says just what it said, and that nonce.
pub accept-Says :
    (w : Window) (n : ℕ) (accepted : Nonces)
    → Holds w accepted
    → Holds (accept w n) (with_nonce n accepted)
unfolding accept
accept-Says w n accepted held = from w.highest w.seen w.span held
  where
    from :
        (highest : Option ℕ) (seen span : ℕ)
        → Says highest seen accepted
        → let w : Window = record { highest = highest; seen = seen; span = span } in
          Holds (accept_from w n highest) (with_nonce n accepted)
    from none seen span says = Says-first accepted n says
    from (some highest) seen span says = elim (Bool-cases (ltb highest n)) [
      | inl e ↦ rw e (Says-above seen highest n accepted says (ground arith))
      | inr e ↦ rw e (Says-below seen highest n accepted says (ground arith))
    ]

pub accept-span : (w : Window) (n : ℕ) → w.span ≤ 64 → (accept w n).span ≤ 64
unfolding accept
accept-span w n h = from w.highest w.seen w.span h
  where
    from :
        (highest : Option ℕ) (seen span : ℕ)
        → span ≤ 64
        → let w : Window = record { highest = highest; seen = seen; span = span } in
          (accept_from w n highest).span ≤ 64
    from none seen span h = h
    from (some highest) seen span h = elim (Bool-cases (ltb highest n)) [
      | inl e ↦ rw e h
      | inr e ↦ rw e h
    ]

-- What a receiver that held the set itself would say of a nonce.
abbrev pub judged : Option ℕ → ℕ → Nonces → ℕ → Result SealError (Unit {0})
judged none span accepted n = ok tt
judged (some highest) span accepted n =
    if ltb highest n
    then ok tt
    else if leb span (highest - n)
    then err (too_old n)
    else if accepted n
    then err (replayed n)
    else ok tt

flip :
    (n : ℕ) (b : Bool)
    → ◌≡◌ {A = Result SealError (Unit {0})}
        (if not b then ok tt else err (replayed n))
        (if b then err (replayed n) else ok tt)
flip n true = refl
flip n false = refl

-- The bits of a window of at most 64 nonces, where they hold a set of accepted nonces, judge
-- every nonce as that set does.
pub admits-judged :
    (w : Window) (n : ℕ) (accepted : Nonces)
    → Holds w accepted
    → w.span ≤ 64
    → admits w n ≡ judged w.highest w.span accepted n
unfolding admits
admits-judged w n accepted held narrow = from w.highest w.seen w.span held narrow
  where
    from :
        (highest : Option ℕ) (seen span : ℕ)
        → Says highest seen accepted
        → span ≤ 64
        → let w : Window = record { highest = highest; seen = seen; span = span } in
          admits_from w n highest ≡ judged highest span accepted n
    from none seen span says narrow = refl
    from (some highest) seen span (says, bounded) narrow = elim (Bool-cases (ltb highest n)) [
      | inl e ↦ rw e refl
      | inr e ↦ elim (Bool-cases (leb span (highest - n))) [
        | inl old ↦ rw (e, old) refl
        | inr young ↦
            let place : highest - (highest - n) ≡ n = ground arith in
            let bit = digit-bit_and (highest - n) seen in
            let said = says (highest - n) (ground arith) (omega arith) in
            rw (e, young, shl_one (highest - n) (ground arith), bit, said, place)
              (flip n (accepted n))
      ]
    ]
