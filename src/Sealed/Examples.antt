-- ===== src/Sealed/Examples.antt =====
-- Sealed bodies at concrete inputs, under a cipher that leaves the text as it is.
use km.Prelude.{ℕ, ◌≡◌, refl, arith, List, [], ◌∷◌, ◌++◌, replicate, some, false, Result, ok, err}
use km.Cbor.Nest
use km.Cbor.Nest.{settled_depth}
use km.Cbor.Bytes
use km.Cbor.Heads
use km.Cbor.Reader
use km.Cbor.Utf8.{is_utf8}
use km.Cbor.Writer
use km.Body
use km.Body.{and_then}
use km.Envelope.Kinds.{MessageType, type_of}
use km.Envelope.Defs
use km.Envelope.Defs.{Header, unassigned, assigned}
use km.Sealed.Types.{SealError, replayed}
use km.Sealed.Window
use km.Sealed.Window.{Window, admits, accept}
use km.Sealed.Cipher.{Aead, seal_in_place, open_in_place}
use km.Sealed.Seal
use km.Sealed.Seal.{ControllerSealer, RequestSealer, seal_response, seal_request}
use km.Sealed.Open
use km.Sealed.Open.{Opener, new_opener, Sealed, Opened, open_sealed}
use km.Sealed.Replay.{with_nonce, Holds, accept-Says, admits-judged, judged}
use km.Sealed.Nonces.{opened_nonces, Unrepeated, opened_nonces-Unrepeated}
use km.Sealed.Spent.{Sealings, Ascending, sealings-Ascending}

abbrev plain_cipher : Aead
plain_cipher = record {
  encrypt_detached = λ key nonce ad body. some (body, replicate 16 7);
  decrypt_detached = λ key nonce ad body tag. some body;
}

abbrev used_window : Window
used_window = accept (accept (Window.new 64) 70) 68

used-Holds : Holds used_window (with_nonce 68 (with_nonce 70 (λ _. false)))
used-Holds =
    accept-Says (accept (Window.new 64) 70) 68 (with_nonce 70 (λ _. false))
      (accept-Says (Window.new 64) 70 (λ _. false) (λ m. refl))

replayed_68 : admits used_window 68 ≡ err (replayed 68)
unfolding admits accept
replayed_68 = refl

fresh_69 : admits used_window 69 ≡ ok tt
unfolding admits accept
fresh_69 = refl

admits-judged_example :
    admits used_window 68
    ≡ judged used_window.highest used_window.span (with_nonce 68 (with_nonce 70 (λ _. false))) 68
unfolding accept
admits-judged_example =
    admits-judged used_window 68 (with_nonce 68 (with_nonce 70 (λ _. false))) used-Holds
      (omega arith)

abbrev event : Header
event = record { kind = MessageType.event_response; session = assigned 9; req_id = 0 }

abbrev sealer : ControllerSealer
sealer = record { key = replicate 32 1; next = 5 }

-- The nonce 3 twice, then 4.
abbrev frames : List (Sealed × List ℕ)
frames =
    (record { header = event; nonce = 3; ciphertext = replicate 17 7 }, replicate 4 0)
    ∷ (record { header = event; nonce = 3; ciphertext = replicate 17 7 }, replicate 4 0)
    ∷ (record { header = event; nonce = 4; ciphertext = replicate 18 7 }, replicate 4 0)
    ∷ []

opened_frames : opened_nonces plain_cipher frames (new_opener (replicate 32 1) 64) ≡ 3 ∷ 4 ∷ []
unfolding open_sealed admits accept open_in_place
opened_frames = refl

opened_nonces-Unrepeated_example :
    Unrepeated (λ _. false) (opened_nonces plain_cipher frames (new_opener (replicate 32 1) 64))
opened_nonces-Unrepeated_example =
    opened_nonces-Unrepeated plain_cipher frames (replicate 32 1) 64 (omega arith)

-- One event that goes in, and one for which there is no room: its nonce is spent all the same.
abbrev sealings : Sealings
sealings =
    (event, 1 ∷ [], replicate 40 0)
    ∷ (event, 1 ∷ [], replicate 4 0)
    ∷ (event, 2 ∷ [], replicate 40 0)
    ∷ []

sealings-Ascending_example : Ascending plain_cipher 5 sealings sealer
sealings-Ascending_example = sealings-Ascending plain_cipher sealings sealer (omega arith)

-- An event sealed, and its frame read and opened.
abbrev event_frame : List ℕ
event_frame = (seal_response plain_cipher sealer event (42 ∷ 43 ∷ []) (replicate 27 0)).1

abbrev received_from :
    Bytes.CborReader × Result Defs.EnvelopeError Defs.Envelope → Result SealError Sealed
received_from (r, ok envelope) = Open.decode r envelope
received_from (r, err why) = err SealError.reserved

abbrev opened_from : Result SealError Sealed → Result SealError Opened
opened_from (ok s) = (open_sealed plain_cipher s (new_opener (replicate 32 1) 64) (replicate 2 0)).2
opened_from (err why) = err why

-- The ciphertext, then the tag, where they were reserved.
event_frame_bytes :
    event_frame ≡ 0x84 ∷ 4 ∷ 9 ∷ 0 ∷ 0xA2 ∷ 1 ∷ 0x52 ∷ 42 ∷ 43 ∷ (replicate 16 7 ++ (2 ∷ 5 ∷ []))
unfolding seal_response Seal.check Seal.write seal_in_place Defs.write Defs.write_scalars Writer.map
    Writer.array Writer.key Writer.u64 Writer.bytes_to_fill Writer.finish Writer.new Writer.head
    Writer.ensure Writer.emit Writer.open_item Nest.settle Nest.at_key Nest.count_item Nest.has_room
    Nest.push Nest.take_key Nest.new_nest settled_depth
event_frame_bytes = refl

abbrev sent : List ℕ
sent = 0x84 ∷ 4 ∷ 9 ∷ 0 ∷ 0xA2 ∷ 1 ∷ 0x52 ∷ 42 ∷ 43 ∷ (replicate 16 7 ++ (2 ∷ 5 ∷ []))

sent_opens :
    opened_from (received_from (Defs.decode sent))
    ≡ ok (record { header = event; inner = 42 ∷ 43 ∷ [] })
unfolding Open.decode open_sealed admits accept open_in_place Seal.check Defs.decode
    Defs.open_envelope Defs.read Defs.client_type type_of Body.read_pairs Reader.array Reader.map
    Reader.key Reader.u64 Reader.u8 Reader.u16 Reader.u32 Reader.bytes Reader.finish Reader.head
    Heads.head_with Heads.settle_skipped Bytes.decode Bytes.argument Bytes.take_bytes
    Bytes.length_of Bytes.count Bytes.simple Nest.settle Nest.at_key Nest.count_item Nest.push
    Nest.read_key Nest.new_nest settled_depth is_utf8
sent_opens = refl
