-- ===== src/Envelope/Opcodes.antt =====
-- What the type byte of an envelope tells, for every byte (crates/km43/src/envelope.rs and
-- crates/km43/src/admission.rs).
use km.Prelude.{
  ℕ, ◌≤◌, ◌<◌, ◌+◌, ◌≡◌, ◌≢◌, ◌↔◌, ◌⊎◌, inl, inr, refl, sym, ◌∙◌, arith, Bool, Bool-cases, true,
  false, ◌&&◌, ◌||◌, not, leb, ◌==◌,
}
use km.Prelude.{Option, none, some, Result, ok, err}
use km.Prelude.Bits.{all_below, all_below_sound}
use km.Envelope.Kinds.{MessageType, type_number, type_of}
use km.Envelope.EveryKind.{type_of-type_number, on_kind, every_kind, type_number-lt}
use km.Envelope.Defs.{
  EnvelopeError, client_type, named_type, is_response, is_link_local, unknown_type, link_local_type,
}
use km.Envelope.Admission.{Admits, admits, not_a_request, without_session, only_with_session}

-- What a byte is read as.
abbrev pub Names : ℕ → Result EnvelopeError MessageType → Type 0
Names b (ok kind) = (b ≡ type_number kind) × (is_link_local b ≡ false)
Names b (err (unknown_type c)) =
    (c ≡ b) × (is_link_local b ≡ false) × ((kind : MessageType) → type_number kind ≢ b)
Names b (err (link_local_type c)) = (c ≡ b) × (is_link_local b ≡ true)
Names b (err why) = ⊥

numbered_table : all_below 256 (λ b. on_kind (λ kind. type_number kind == b) (type_of b)) ≡ true
unfolding all_below type_of
numbered_table = refl

named_kind :
    (b : ℕ) (found : Option MessageType)
    → b < 256
    → type_of b ≡ found
    → is_link_local b ≡ false
    → Names b (named_type b found)
named_kind b none small e free = (refl, free, λ kind n. no_kind kind n)
  where
    no_kind : (kind : MessageType) → type_number kind ≡ b → ⊥
    no_kind kind n =
        let there = rw n at (type_of-type_number kind) in
        let both : none ≡ some kind = sym e ∙ there in grind arith
named_kind b (some kind) small e free =
    let row = rw e at (
      all_below_sound 256 (λ b. on_kind (λ kind. type_number kind == b) (type_of b)) b
        numbered_table small) in
    (ground (arith, row), free)

-- Every byte is read as the client type of that number, or refused as the link's own type, or
-- refused as a type with no name, and each only when it is that.
pub client_type-Names : (b : ℕ) → b < 256 → Names b (client_type b)
unfolding client_type
client_type-Names b small = elim (Bool-cases (is_link_local b)) [
  | inl e ↦ rw e (refl, e)
  | inr e ↦ rw e (named_kind b (type_of b) small refl e)
]

-- No type that a client may send is one of the link's.
abbrev off_link : MessageType → Bool
off_link kind = not (is_link_local (type_number kind))

off_link_table : all_below 256 (λ b. on_kind off_link (type_of b)) ≡ true
unfolding all_below type_of
off_link_table = refl

-- Every client type is read back from its number, and so none is in the range of the link.
pub client_type-type_number : (kind : MessageType) → client_type (type_number kind) ≡ ok kind
unfolding client_type
client_type-type_number kind =
    let free : is_link_local (type_number kind) ≡ false =
      ground (arith, every_kind off_link off_link_table kind (type_number-lt kind)) in
    rw (free, type_of-type_number kind) refl

-- The range of the link's types, on bytes.
abbrev link_range : ℕ → Bool
link_range b = (leb 0x60 b && leb b 0x7E) || (leb 0xE0 b && leb b 0xFE)

abbrev same : Bool → Bool → Bool
same true b = b
same false b = not b

link_table : all_below 256 (λ b. same (is_link_local b) (link_range b)) ≡ true
unfolding all_below
link_table = refl

-- A kind that a controller does not answer is a response, or an event.
abbrev inward : Admits → Bool
inward without_session = true
inward only_with_session = true
inward not_a_request = false

abbrev outward : MessageType → Bool
outward kind =
    same (inward (admits kind))
      (not (is_response (type_number kind)) && not (type_number kind == 4))

outward_table : all_below 256 (λ b. on_kind outward (type_of b)) ≡ true
unfolding all_below type_of
outward_table = refl

-- The kind that answers a request is not one itself.
abbrev answers : Option MessageType → Bool
answers none = false
answers (some kind) = not (inward (admits kind))

abbrev answered : MessageType → Bool
answered kind = not (inward (admits kind)) || answers (type_of (type_number kind + 0x80))

answered_table : all_below 256 (λ b. on_kind answered (type_of b)) ≡ true
unfolding all_below type_of
answered_table = refl

outward_lem :
    (a : Admits) (r : Bool) (n : ℕ)
    → same (inward a) (not r && not (n == 4)) ≡ true
    → (a ≡ not_a_request) ↔ ((r ≡ true) ⊎ (n ≡ 4))
outward_lem not_a_request true n e = ((λ h. inl refl), (λ h. refl))
outward_lem not_a_request false n e = ((λ h. inr (ground arith)), (λ h. refl))
outward_lem without_session true n e = ((λ h. inl refl), (λ h. grind arith))
outward_lem only_with_session true n e = ((λ h. inl refl), (λ h. grind arith))
outward_lem without_session false n e =
    ((λ h. grind arith), elim [ inl h ↦ grind arith | inr h ↦ ground arith ])
outward_lem only_with_session false n e =
    ((λ h. grind arith), elim [ inl h ↦ grind arith | inr h ↦ ground arith ])

-- A message type is no request just when its number has the response bit or it is the event.
pub admits-is_response :
    (kind : MessageType)
    → (admits kind ≡ not_a_request)
      ↔ ((is_response (type_number kind) ≡ true) ⊎ (type_number kind ≡ 4))
admits-is_response kind =
    outward_lem (admits kind) (is_response (type_number kind)) (type_number kind)
      (every_kind outward outward_table kind (type_number-lt kind))

answers_lem :
    (found : Option MessageType)
    → answers found ≡ true
    → (kind : MessageType) × (found ≡ some kind) × (admits kind ≡ not_a_request)
answers_lem none e = absurd (grind arith)
answers_lem (some kind) e = (kind, refl, outward_kind (admits kind) e)
  where
    outward_kind : (a : Admits) → not (inward a) ≡ true → a ≡ not_a_request
    outward_kind not_a_request e = refl
    outward_kind without_session e = grind arith
    outward_kind only_with_session e = grind arith

inward_lem : (a : Admits) → a ≢ not_a_request → inward a ≡ true
inward_lem without_session h = refl
inward_lem only_with_session h = refl
inward_lem not_a_request h = absurd (h refl)

-- For every type that a controller answers, the type with the response bit set is allocated and
-- is no request.
pub admits_answered :
    (kind : MessageType)
    → admits kind ≢ not_a_request
    → (answer : MessageType) × (type_of (type_number kind + 0x80) ≡ some answer)
      × (admits answer ≡ not_a_request)
admits_answered kind asked =
    let row = every_kind answered answered_table kind (type_number-lt kind) in
    answers_lem (type_of (type_number kind + 0x80)) (rw (inward_lem (admits kind) asked) at row)

-- A byte is the link's just when it is in 0x60 to 0x7E or in 0xE0 to 0xFE.
pub is_link_local-range :
    (b : ℕ)
    → b < 256
    → (is_link_local b ≡ true) ↔ (((0x60 ≤ b) × (b ≤ 0x7E)) ⊎ ((0xE0 ≤ b) × (b ≤ 0xFE)))
is_link_local-range b small =
    let row = all_below_sound 256 (λ b. same (is_link_local b) (link_range b)) b link_table small in
    link_lem (is_link_local b) row
  where
    link_lem :
        (l : Bool)
        → same l (link_range b) ≡ true
        → (l ≡ true) ↔ (((0x60 ≤ b) × (b ≤ 0x7E)) ⊎ ((0xE0 ≤ b) × (b ≤ 0xFE)))
    link_lem true row = ((λ _. ground arith), (λ _. refl))
    link_lem false row = ((λ e. grind arith), (λ e. ground arith))
