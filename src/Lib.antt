-- ===== src/Lib.antt =====
-- KM43: the bounded, authenticated message protocol of crates/km43 (Rust).
--
-- The crate is `no_std` and allocates nothing: every routine writes into a buffer that its caller
-- owns. A buffer is a list of bytes here, a routine that borrows one mutably returns it beside its
-- result, and a method of `&mut self` returns the new record. `usize` is 32 bits wide, as on the
-- controller; a slice is at most `isize::MAX` long, which theorems state where it is needed.
--
-- Parts, in the order in which a byte meets them:
--   Prelude: tests, lists, words, results; Prelude/Bits has the laws of `&` and `^` at every
--     width, Prelude/Digits the binary digits of a word.
--   Cobs (crates/km43/src/cobs.rs): `encode` and `decode`. Cobs/Defs has the code, Cobs/Stuff the
--     reference encoding, Cobs/Steps and Cobs/Encode the encoder against it, Cobs/Decode and
--     Cobs/RoundTrip the decoder on encodings, Cobs/Bounds the decoder on any bytes. The decoder's
--     `read` index is the rest of the source that it has not read. Its loop runs on fuel, the
--     length of the frame, which is enough since each round takes a byte; `stuck` is the value
--     that running out of fuel would give.
--   Crc (crates/km43/src/crc.rs): `crc16`, bit by bit; Crc/Linear and Crc/Detect have what it
--     tells apart.
--   Frame (crates/km43/src/frame.rs): `FrameWriter::write`, and `FrameReader` with `push`,
--     `discard` and `tick`, over Cobs and Crc. Frame/Write has the writer, Frame/Feed and
--     Frame/RoundTrip the reader on frames, Frame/Reader and Frame/Sound the reader on any bytes,
--     Frame/Timeout the incomplete-frame timeout.
--   Cbor (crates/km43/src/cbor.rs): `CborReader` and `CborWriter`. Cbor/Types has the data and
--     the type of a method that may refuse, Cbor/Nest the stack of open containers, Cbor/Utf8 the
--     check of `core::str::from_utf8`, Cbor/Bytes, Cbor/Heads and Cbor/Reader the reader,
--     Cbor/Writer the writer, Cbor/Argument the arguments of heads, Cbor/Bounds, Cbor/Calls and
--     Cbor/Methods the destination under any calls of the writer. Cbor/View and Cbor/ViewKeys have
--     the open containers as a stack, and Cbor/Refines the nest against a stack machine. The reader
--     against the writer goes by Cbor/Steps (what one call means), Cbor/Wrote, CallOk, ContainersOk
--     and CallsOk (what a call that succeeded left), Cbor/Standing, Decode, ReadsBack,
--     ContainerReads and CallReads (the head read behind it), Cbor/Owed (the items that are owed
--     against the bytes that follow), Cbor/Trace and Cbor/RoundTrip (one call after another). Items
--     that are encoded already and bytes that the caller fills are not read back there. The walk of
--     `skip` and the search for a repeated key run on fuel, the number of bytes, since each round
--     takes one; `stuck` is the value that running out of fuel would give.
--   Ble (crates/km43/src/ble.rs): `BleSender` and `BleReceiver` in Ble/Defs, one value handed
--     over in Ble/Delivery, a whole message in Ble/Whole, any value in Ble/Receiver.
--     Ble/Reassembler has a reassembler without buffers, and Ble/Reassembly the receiver against
--     it.
--   Envelope (crates/km43/src/envelope.rs, admission.rs and routing.rs beside it, and the message
--     types and error codes of generated.rs): Envelope/Kinds, LinkKinds and Codes have the tables,
--     Envelope/Defs the envelope, Envelope/Admission and Envelope/Routing the other two files, and
--     Envelope/Opcodes what the type byte tells, by tests on every byte (Envelope/EveryKind).
--   Body: the loop over the pairs of a body map that the body modules share; Body/Wire has the
--     heads that a reader gets of a body that was encoded.
--   Subscribe, Time, Boot (crates/km43/src/subscribe.rs, time.rs, boot.rs): each body's encoder,
--     its decoder, and the check of its slots; the files named Wire have the two together.
--   Sealed (crates/km43/src/sealed.rs, and `seal_in_place` and `open_in_place` of noise.rs beside
--     it): Sealed/Types the refusals, Sealed/Cipher the calls of the cipher, Sealed/Seal the two
--     sealers, Sealed/Window the replay window, Sealed/Open the sealed body and its opener;
--     Sealed/Replay has the window against the set of accepted nonces, Sealed/Nonces and
--     Sealed/Spent the nonces of any run of openings and of sealings. `le_value` reads a nonce from
--     the bytes that the cipher is given. The cipher is a third-party crate: `Aead`, an argument of
--     the definitions, stands for it, and nothing is assumed of it. A body that it fails to open is
--     cleared whatever it left there, and one that it fails to seal is taken as it stood.
--   Link (crates/km43/src/linklocal.rs, pairing_window.rs beside it, and the link's tables of
--     generated.rs): Link/Intake has which frames are acted on, Link/Bodies the heartbeat and the
--     pairing-window report, Link/Connections, Link/Outcomes and Link/Verdicts the bodies about
--     connections and the acknowledgements, Link/Reasons their numbers, Link/Types and
--     Link/WifiError the refusals, Link/Arriving the outcomes of every byte, Link/Wire a whole
--     envelope written and read.
--   Counter (crates/km43/src/counter.rs): the run that a counter's totals are judged against.
--   The files named Examples hold the witnesses of the results at concrete inputs, and test runs.
--
-- Not modelled: the other message bodies, of clients and of the link, the membership, the Noise
-- handshake (its primitives are third-party crates), `Display` texts and `defmt` output, the code
-- generators under crates/xtask, and the TypeScript package.
pub mod Prelude
pub mod Cobs
pub mod Crc
pub mod Frame
pub mod Cbor
pub mod Ble
pub mod Body
pub mod Subscribe
pub mod Time
pub mod Boot
pub mod Counter
pub mod Sealed
pub mod Envelope
pub mod Link
