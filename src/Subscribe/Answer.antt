-- ===== src/Subscribe/Answer.antt =====
-- What `SubscribeAck::answer` in crates/km43/src/subscribe.rs answers, and its way over the wire.
use km.Prelude.{
  ℕ, ◌+◌, ◌≤◌, ◌<◌, ◌≡◌, ◌≢◌, ◌↔◌, ◌⊎◌, inl, inr, refl, sym, ap, arith, Option, none, some, Bool,
  true, false,
}
use km.Prelude.{Result, ok, err, ltb, leb, ◌==◌, ◌&&◌, Bool-cases}
use km.Body.{and_then}
use km.Subscribe.Defs.{
  Subscribe, SubscribeAck, SubscribeError, LogExtent, AckSlots, Replay, live_only, from, answer,
  answer_replay, complete, holding, empty_log, extent_of, u64_max, log_at_the_ceiling,
}

-- An extent that a log may have: none, or positions in order.
abbrev pub IsExtent : LogExtent → Type 0
IsExtent log =
    ((log.oldest ≡ 0) × (log.newest ≡ 0)) ⊎ ((1 ≤ log.oldest) × (log.oldest ≤ log.newest))

-- `start` is the least position that is neither before `at` nor before the oldest of the log.
abbrev pub Begins : ℕ → LogExtent → ℕ → Type 0
Begins at log start =
    (at ≤ start) × (log.oldest ≤ start) × ((q : ℕ) → at ≤ q → log.oldest ≤ q → start ≤ q)

-- What each request is answered.
abbrev pub Answers : Replay → LogExtent → Result SubscribeError SubscribeAck → Type 0
Answers r log (err why) = (r ≡ live_only) × (u64_max ≤ log.newest) × (why ≡ log_at_the_ceiling)
Answers live_only log (ok a) =
    (log.newest < u64_max)
    × (a.extent ≡ log)
    × (a.accepted_from_seq ≡ log.newest + 1)
    × (a.gap ≡ false)
Answers (from at) log (ok a) =
    (a.extent ≡ log)
    × Begins at log a.accepted_from_seq
    × ((a.gap ≡ true) ↔ (a.accepted_from_seq ≢ at))

answer_from : (at : ℕ) (log : LogExtent) → Answers (from at) log (answer_replay (from at) log)
answer_from at log = elim (Bool-cases (ltb at log.oldest)) [
  | inl e ↦ rw e (
    refl,
    (ground arith, ground arith, λ q above held. held),
    ((λ behind. ground arith), (λ moved. refl)),
  )
  | inr e ↦ rw e (
    refl,
    (ground arith, ground arith, λ q above held. above),
    ((λ behind. ground arith), (λ moved. ground arith)),
  )
]

-- A live-only request is answered with the position behind the newest, which is within u64, or
-- refused, just when the newest is not below the last of u64; any other is answered with the
-- least position that is neither before the asked one nor before the oldest of the log, and gap
-- says just whether that is another position than the asked one.
pub answer-Answers :
    (asked : Subscribe) (log : LogExtent) → Answers asked.replay log (answer asked log)
unfolding answer
answer-Answers asked log = answers asked.replay log
  where
    answers : (r : Replay) (log : LogExtent) → Answers r log (answer_replay r log)
    answers (from at) log = answer_from at log
    answers live_only log = elim (Bool-cases (leb u64_max log.newest)) [
      | inl e ↦ rw e (refl, ground arith, refl)
      | inr e ↦ rw e (ground arith, refl, refl, refl)
    ]

-- The slots that the keys of an acknowledgement fill.
abbrev pub slots_of : SubscribeAck → AckSlots
slots_of a = record {
  accepted = some a.accepted_from_seq;
  oldest = some a.extent.oldest;
  current = some a.extent.newest;
  gap = some a.gap;
}

empty_eq : (o n : ℕ) → o ≡ 0 → n ≡ 0 → empty_log ≡ record { oldest = o; newest = n }
empty_eq o n eo en = rw (eo, en) refl

extent_of-IsExtent : (log : LogExtent) → IsExtent log → extent_of log.oldest log.newest ≡ ok log
unfolding extent_of holding
extent_of-IsExtent log (inl (o, n)) =
    let both : (log.oldest == 0 && log.newest == 0) ≡ true = ground arith in
    rw both (ap ok (empty_eq log.oldest log.newest o n))
extent_of-IsExtent log (inr (o, n)) =
    let one : (log.oldest == 0) ≡ false = ground arith in
    let two : (log.newest == 0) ≡ false = ground arith in
    let three : ltb log.newest log.oldest ≡ false = ground arith in rw (one, two, three) refl

-- An acknowledgement whose extent a log may have is completed from the slots that its keys fill.
pub complete-slots_of : (a : SubscribeAck) → IsExtent a.extent → complete (slots_of a) ≡ ok a
unfolding complete
complete-slots_of a h = rw (extent_of-IsExtent a.extent h) refl

extent_of_ok :
    (oldest current : ℕ) (log : LogExtent)
    → extent_of oldest current ≡ ok log
    → (log.oldest ≡ oldest) × (log.newest ≡ current) × IsExtent log
unfolding extent_of holding
extent_of_ok oldest current log e = ground arith

abbrev pub Completed : Option ℕ → Option ℕ → Option ℕ → Option Bool → SubscribeAck → Type 0
Completed accepted oldest current gap a =
    (accepted ≡ some a.accepted_from_seq)
    × (oldest ≡ some a.extent.oldest)
    × (current ≡ some a.extent.newest)
    × (gap ≡ some a.gap)
    × IsExtent a.extent

Completed-extent :
    (x y z : ℕ) (g : Bool) (a : SubscribeAck) (result : Result SubscribeError LogExtent)
    → extent_of y z ≡ result
    → and_then result (λ extent. ok (record { accepted_from_seq = x; extent = extent; gap = g }))
      ≡ ok a
    → Completed (some x) (some y) (some z) (some g) a
Completed-extent x y z g a (err why) held e = ground arith
Completed-extent x y z g a (ok log) held e =
    let (o, n, ordered) = extent_of_ok y z log held in
    let same : record { accepted_from_seq = x; extent = log; gap = g } ≡ a = ground arith in
    rw (← same) (refl, ap some (sym o), ap some (sym n), refl, ordered)

Completed-slots :
    (x y z : Option ℕ) (g : Option Bool) (a : SubscribeAck)
    → complete (record { accepted = x; oldest = y; current = z; gap = g }) ≡ ok a
    → Completed x y z g a
unfolding complete
Completed-slots none y z g a e = ground arith
Completed-slots (some x) none z g a e = ground arith
Completed-slots (some x) (some y) none g a e = ground arith
Completed-slots (some x) (some y) (some z) none a e = ground arith
Completed-slots (some x) (some y) (some z) (some g) a e =
    Completed-extent x y z g a (extent_of y z) refl e

-- Slots that complete an acknowledgement hold just its values, and its extent is one that a log
-- may have.
pub complete_ok :
    (s : AckSlots) (a : SubscribeAck)
    → complete s ≡ ok a
    → Completed s.accepted s.oldest s.current s.gap a
complete_ok s a e = Completed-slots s.accepted s.oldest s.current s.gap a e
