-- ===== src/Cbor/Bounds.antt =====
-- What any calls of the writer of crates/km43/src/cbor.rs keep.
use km.Prelude.{
  ℕ, zero, suc, sym, ◌+◌, ◌≤◌, ◌≡◌, refl, ◌∙◌, ap, arith, List, [], ◌∷◌, ◌++◌, Bool, Bool-cases,
  inl, inr, Result, ok, err,
}
use km.Prelude.{
  length, take, drop, length-append, length-take, length-drop, take-append, usize_max, ltb,
  if◌then◌else◌,
}
use km.Cbor.Types.{CborError, Act, bind_on, ◌>>=◌}
use km.Cbor.Writer.{CborWriter, ensure, emit}

-- The destination keeps its length, the position stays in it, and what is written stays.
abbrev pub Kept : CborWriter → CborWriter → Type 0
Kept w w' =
    (length w'.dst ≡ length w.dst)
    × (w.next ≤ w'.next)
    × (w'.next ≤ length w'.dst)
    × (take w.next w'.dst ≡ take w.next w.dst)

abbrev pub Keeps : {A : Type 0} → Act CborWriter A → Type 0
Keeps m = (w : CborWriter) → w.next ≤ length w.dst → Kept w (m w).0

take-take : (m n : ℕ) (a : List ℕ) → m ≤ n → take m (take n a) ≡ take m a
take-take zero n a h = refl
take-take (suc m) zero a h = absurd (omega arith)
take-take (suc m) (suc n) [] h = refl
take-take (suc m) (suc n) (x ∷ a) h = ap (λ t. x ∷ t) (take-take m n a (omega arith))

take_less : (m n : ℕ) (a b : List ℕ) → m ≤ n → take n a ≡ take n b → take m a ≡ take m b
take_less m n a b h e = sym (take-take m n a h) ∙ ap (take m) e ∙ take-take m n b h

Kept-trans : (u v w : CborWriter) → Kept u v → Kept v w → Kept u w
Kept-trans u v w (l, n, i, t) (l', n', i', t') =
    (l' ∙ l, omega arith, i', take_less u.next v.next w.dst v.dst n t' ∙ t)

-- A step and what follows it.
pub Keeps-bind :
    {A B : Type 0} (m : Act CborWriter A) (f : A → Act CborWriter B)
    → Keeps m
    → ((a : A) → Keeps (f a))
    → Keeps (m >>= f)
Keeps-bind {A = A} {B = B} m f keeps_m keeps_f w h = bound (m w) (keeps_m w h)
  where
    bound : (s : CborWriter × Result CborError A) → Kept w s.0 → Kept w (bind_on s f).0
    bound (v, ok a) kept = Kept-trans w v (f a v).0 kept (keeps_f a v (kept.2))
    bound (v, err why) kept = kept

pub Kept-refl : (w : CborWriter) → w.next ≤ length w.dst → Kept w w
Kept-refl w h = (refl, omega arith, h, refl)

-- A call that answers without a change but to the nest.
pub Keeps-if :
    {A : Type 0} (test : CborWriter → Bool) (a b : Result CborError A)
    → Keeps (λ w. if test w then (w, a) else (w, b))
Keeps-if test a b w h = elim (Bool-cases (test w)) [
  | inl e ↦ rw e (Kept-refl w h)
  | inr e ↦ rw e (Kept-refl w h)
]

pub ensure-Keeps : (len : ℕ) → Keeps (ensure len)
unfolding ensure
ensure-Keeps len w h = elim (Bool-cases (ltb usize_max (w.next + len))) [
  | inl e ↦ rw e (Kept-refl w h)
  | inr e ↦ rw e (
      Keeps-if (λ w. ltb (length w.dst) (w.next + len)) (err CborError.destination_too_small)
        (ok tt) w h)
]

pub emitted :
    (w : CborWriter) (bytes : List ℕ)
    → w.next + length bytes ≤ length w.dst
    → Kept w (record w {
      dst = take w.next w.dst ++ (bytes ++ drop (w.next + length bytes) w.dst);
      next = w.next + length bytes;
    })
emitted w bytes room =
    let front = length-take w.next w.dst in
    let front_len : length (take w.next w.dst) ≡ w.next = omega (arith, front) in
    let width : length (take w.next w.dst ++ (bytes ++ drop (w.next + length bytes) w.dst))
        ≡ length w.dst =
      omega (
        arith,
        length-append (take w.next w.dst) (bytes ++ drop (w.next + length bytes) w.dst),
        length-append bytes (drop (w.next + length bytes) w.dst),
        length-drop (w.next + length bytes) w.dst,
        front_len,
      ) in
    (
      width,
      omega arith,
      omega (arith, width),
      rw front_len at
          (take-append (take w.next w.dst) (bytes ++ drop (w.next + length bytes) w.dst)),
    )

pub emit-Keeps : (bytes : List ℕ) → Keeps (emit bytes)
unfolding emit
emit-Keeps bytes w h = elim (Bool-cases (ltb usize_max (w.next + length bytes))) [
  | inl e ↦ rw e (Kept-refl w h)
  | inr e ↦ rw e (elim (Bool-cases (ltb (length w.dst) (w.next + length bytes))) [
    | inl f ↦ rw f (Kept-refl w h)
    | inr f ↦ rw f (emitted w bytes (ground arith))
  ])
]
