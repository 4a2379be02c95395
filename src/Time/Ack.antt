-- ===== src/Time/Ack.antt =====
-- The acknowledgements of crates/km43/src/time.rs that exist, and their slots.
use km.Prelude.{ℕ, ◌≡◌, ◌≢◌, refl, arith, Option, none, some, ok}
use km.Time.Defs.{
  TimeAck, Outcome, accepted, rejected, unauthorised, needs_button, outcome_number, outcome_of,
  new_ack, finish_ack,
}

-- An outcome is read back from its number, and a number that gives one is its number.
pub outcome_of-outcome_number :
    ((o : Outcome) → outcome_of (outcome_number o) ≡ ok o)
    × ((n : ℕ) (o : Outcome) → outcome_of n ≡ ok o → n ≡ outcome_number o)
unfolding outcome_of
outcome_of-outcome_number = (there, back)
  where
    there : (o : Outcome) → outcome_of (outcome_number o) ≡ ok o
    there accepted = refl
    there rejected = refl
    there unauthorised = refl
    there needs_button = refl

    back : (n : ℕ) (o : Outcome) → outcome_of n ≡ ok o → n ≡ outcome_number o
    back n accepted e = ground arith
    back n rejected e = ground arith
    back n unauthorised e = ground arith
    back n needs_button e = ground arith

-- Slots that complete a clock acknowledgement hold just its values, and an accepted one has a
-- clock.
pub finish_ack_ok :
    (held : Option Outcome) (clock : Option ℕ) (a : TimeAck)
    → finish_ack (held, clock) ≡ ok a
    → (held ≡ some a.outcome) × (clock ≡ a.at) × (a.outcome ≡ accepted → a.at ≢ none)
unfolding new_ack
finish_ack_ok none clock a e = ground arith
finish_ack_ok (some accepted) none a e = ground arith
finish_ack_ok (some accepted) (some t) a e = ground arith
finish_ack_ok (some rejected) clock a e = ground arith
finish_ack_ok (some unauthorised) clock a e = ground arith
finish_ack_ok (some needs_button) clock a e = ground arith
