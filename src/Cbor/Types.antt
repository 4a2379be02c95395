-- ===== src/Cbor/Types.antt =====
-- The data of crates/km43/src/cbor.rs, and its methods' state and failure.
use km.Prelude.{ℕ, List, Bool, Option, Result, ok, err, if◌then◌else◌, ltb, leb, ◌==◌}

-- `stuck` is no Rust value: a walk ran out of fuel, or a reader that looks for no repeats searched.
pub data CborError : Type 0 where
  end_of_input trailing_bytes trailing_item unfinished indefinite_length tag_not_allowed : CborError
  float_not_allowed simple_value_not_allowed reserved_head key_not_integer : CborError
  repeated_key misplaced_key keys_not_ascending depth_exceeded string_too_long : CborError
  invalid_utf8 wrong_type integer_out_of_range destination_too_small stuck : CborError

pub data Major : Type 0 where
  unsigned negative bytes text array map tag simple : Major

abbrev pub bits : Major → ℕ
bits Major.unsigned = 0
bits Major.negative = 1
bits Major.bytes = 2
bits Major.text = 3
bits Major.array = 4
bits Major.map = 5
bits Major.tag = 6
bits Major.simple = 7

-- `Major::of`, on `byte >> 5`.
abbrev pub of_bits : ℕ → Major
of_bits b =
    if b == 0
    then Major.unsigned
    else if b == 1
    then Major.negative
    else if b == 2
    then Major.bytes
    else if b == 3
    then Major.text
    else if b == 4
    then Major.array
    else if b == 5
    then Major.map
    else if b == 6
    then Major.tag
    else Major.simple

pub data Width : Type 0 where
  inline one two four eight : Width

abbrev pub width_of : ℕ → Width
width_of argument =
    if ltb argument 24
    then inline
    else if leb argument 0xFF
    then one
    else if leb argument 0xFFFF
    then two
    else if leb argument 0xFFFF_FFFF
    then four
    else eight

abbrev pub width_bytes : Width → ℕ
width_bytes inline = 0
width_bytes one = 1
width_bytes two = 2
width_bytes four = 4
width_bytes eight = 8

-- `Width::info`.
abbrev pub info_of : Width → ℕ → ℕ
info_of inline low = low
info_of one low = 24
info_of two low = 25
info_of four low = 26
info_of eight low = 27

-- A `Head` that borrows a string carries its bytes.
pub data Head : Type 0 where
  unsigned negative : ℕ → Head
  bytes text : List ℕ → Head
  array map : ℕ → Head
  bool : Bool → Head

pub data Nesting : Type 0 where
  array map : Nesting

pub record KeyRank : Type 0 where
  pub negative : Bool
  pub argument : ℕ

pub record Open : Type 0 where
  pub kind : Nesting
  pub remaining : ℕ
  pub last_key : Option KeyRank
  pub start : ℕ

pub record Unsettled : Type 0 where
  pub key : KeyRank
  pub from : ℕ
  pub to : ℕ

-- A `&mut self` method that may refuse: the state it leaves, and its result.
abbrev pub Act {ℓ} : Type 0 → Type ℓ → Type ℓ
Act S A = S → S × Result CborError A

abbrev pub bind_on {ℓ κ} :
    {S : Type 0} {A : Type ℓ} {B : Type κ}
    → S × Result CborError A
    → (A → Act S B)
    → S × Result CborError B
bind_on (s, ok a) f = f a s
bind_on (s, err why) f = (s, err why)

infixl 5 ◌>>=◌ ◌>>◌
abbrev pub ◌>>=◌ {ℓ κ} : {S : Type 0} {A : Type ℓ} {B : Type κ} → Act S A → (A → Act S B) → Act S B
◌>>=◌ m f s = bind_on (m s) f

abbrev pub ◌>>◌ {κ} : {S : Type 0} {B : Type κ} → Act S (Unit {0}) → Act S B → Act S B
◌>>◌ m k s = bind_on (m s) (λ _. k)

abbrev pub pure {ℓ} : {S : Type 0} {A : Type ℓ} → A → Act S A
pure a s = (s, ok a)

abbrev pub fail {ℓ} : {S : Type 0} {A : Type ℓ} → CborError → Act S A
fail why s = (s, err why)

-- `?` on a value that needs no state.
abbrev pub lift {ℓ} : {S : Type 0} {A : Type ℓ} → Result CborError A → Act S A
lift result s = (s, result)
