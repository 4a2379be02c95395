-- ===== src/Cobs/Examples.antt =====
-- The theorems on COBS at concrete inputs, and runs of the code.
use km.Prelude.{ℕ, ◌≡◌, refl, arith, List, [], ◌∷◌, ok, err, length, take, drop, ◌++◌}
use km.Cobs.Defs.{
  encode, decode, push_all, push, close, encoder_put, finish, max_encoded_len, run, decode_round,
  copy_block, copy_bytes, decoder_put, implied_zero, zero_code_byte, zero_in_block,
  block_runs_past_end, destination_too_small,
}
use km.Cobs.Stuff.{stuff}
use km.Cobs.Encode.{encode-stuff, encode_refused}
use km.Cobs.RoundTrip.{decode-encode, encode-NonZero, NonZero}
use km.Cobs.Bounds.{Ends, decode-Ends}

abbrev plain : List ℕ
plain = 0x11 ∷ 0 ∷ 0x22 ∷ []

abbrev room : List ℕ
room = 9 ∷ 9 ∷ 9 ∷ 9 ∷ 9 ∷ []

encode_runs : encode plain room ≡ (2 ∷ 0x11 ∷ 2 ∷ 0x22 ∷ 9 ∷ [], ok 4)
unfolding encode push_all push close encoder_put finish max_encoded_len
encode_runs = refl

decode_runs : decode (2 ∷ 0x11 ∷ 2 ∷ 0x22 ∷ []) room ≡ (0x11 ∷ 0 ∷ 0x22 ∷ 9 ∷ 9 ∷ [], ok 3)
unfolding decode run decode_round copy_block copy_bytes decoder_put implied_zero
decode_runs = refl

decode_refuses :
    (decode (3 ∷ 1 ∷ []) room ≡ (room, err block_runs_past_end))
    × (decode (0 ∷ []) room ≡ (room, err zero_code_byte))
    × (decode (3 ∷ 1 ∷ 0 ∷ []) room ≡ (1 ∷ 9 ∷ 9 ∷ 9 ∷ 9 ∷ [], err zero_in_block))
unfolding decode run decode_round copy_block copy_bytes decoder_put implied_zero
decode_refuses = (refl, refl, refl)

encode-stuff_example :
    encode plain room ≡ (stuff plain ++ drop (length (stuff plain)) room, ok (length (stuff plain)))
encode-stuff_example = encode-stuff plain room (omega arith) (unfold max_encoded_len in omega arith)

encode_refused_example : encode plain (9 ∷ []) ≡ (9 ∷ [], err destination_too_small)
encode_refused_example = encode_refused plain (9 ∷ []) (unfold max_encoded_len in omega arith)

decode-encode_example :
    (n : ℕ) × ((encode plain room).1 ≡ ok n)
    × (decode (take n (encode plain room).0) room ≡ (0x11 ∷ 0 ∷ 0x22 ∷ 9 ∷ 9 ∷ [], ok 3))
decode-encode_example =
    decode-encode plain room room (omega arith) (unfold max_encoded_len in omega arith)
      (omega arith)

encode-NonZero_example :
    (n : ℕ) × ((encode plain room).1 ≡ ok n) × NonZero (take n (encode plain room).0)
encode-NonZero_example =
    encode-NonZero plain room (omega arith) (unfold max_encoded_len in omega arith)

decode-Ends_example : Ends (decode (3 ∷ 1 ∷ 0 ∷ []) room) 5 0 3
decode-Ends_example = decode-Ends (3 ∷ 1 ∷ 0 ∷ []) room
