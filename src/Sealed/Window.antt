-- ===== src/Sealed/Window.antt =====
-- `Window` of crates/km43/src/sealed.rs: the nonces accepted so far, a bit for each.
use km.Prelude.{
  ℕ, ◌-◌, ◌*◌, ◌%◌, ◌^◌, Option, none, some, ◌==◌, leb, ltb, if◌then◌else◌, bit_and, bit_or, Result,
  ok, err,
}
use km.Sealed.Types.{SealError, too_old, replayed}

pub record Window : Type 0 where
  pub highest : Option ℕ
  pub seen : ℕ
  pub span : ℕ

-- `Window::new`.
abbrev pub new : ℕ → Window
new span = record { highest = none; seen = 0; span = span }

-- `u32::try_from`, then `checked_shl` on a u64.
abbrev pub checked_shl : ℕ → ℕ → Option ℕ
checked_shl word by =
    if ltb 4294967295 by
    then none
    else if leb 64 by
    then none
    else some (word * 2 ^ by % 18446744073709551616)

abbrev pub admits_bit : ℕ → ℕ → Option ℕ → Result SealError (Unit {0})
admits_bit seen nonce none = err (too_old nonce)
admits_bit seen nonce (some bit) = if bit_and seen bit == 0 then ok tt else err (replayed nonce)

abbrev pub admits_below : Window → ℕ → ℕ → Result SealError (Unit {0})
admits_below w nonce highest =
    let age = highest - nonce in
    if ltb highest nonce
    then ok tt
    else if leb w.span age
    then err (too_old nonce)
    else admits_bit w.seen nonce (checked_shl 1 age)

abbrev pub admits_from : Window → ℕ → Option ℕ → Result SealError (Unit {0})
admits_from w nonce none = ok tt
admits_from w nonce (some highest) = admits_below w nonce highest

-- `Window::admits`.
unfoldable pub admits : Window → ℕ → Result SealError (Unit {0})
admits w nonce = admits_from w nonce w.highest

abbrev pub or_zero : Option ℕ → ℕ
or_zero none = 0
or_zero (some word) = word

abbrev pub marked : ℕ → Option ℕ → ℕ
marked seen none = seen
marked seen (some bit) = bit_or seen bit

abbrev pub accept_from : Window → ℕ → Option ℕ → Window
accept_from w nonce none = record w { highest = some nonce; seen = 1 }
accept_from w nonce (some highest) =
    if ltb highest nonce
    then record w {
      highest = some nonce;
      seen = bit_or (or_zero (checked_shl w.seen (nonce - highest))) 1;
    }
    else record w { seen = marked w.seen (checked_shl 1 (highest - nonce)) }

-- `Window::accept`.
unfoldable pub accept : Window → ℕ → Window
accept w nonce = accept_from w nonce w.highest
