-- ===== src/Lib.antt =====
-- SlopSync: the core of the protocol library, lib/slopsync/include/slopsync.
--
-- SlopSync connects a hub that owns a machine with clients that watch and control it. The library is
-- headers only: fixed-capacity tables without a heap, byte codecs, and two large classes, Hub and
-- Client, that drive them. Here is a model of the tables and codecs, a module for each header:
--
--   Util.Serial, Util.MonotonicMs   util/serial_arithmetic.hpp: seqIsNewer, timeDelta, timeReached and
--     the millisecond counter over the microsecond clock. Every deadline below goes through them.
--   Util.BoundedString              util/bounded_string.hpp.
--   Result                          core/result.hpp.
--   Channel.EventQueue              channel/event_channel.hpp: the queue of events of a subscriber.
--   Channel.IntentRing              channel/intent_registry.hpp: the echoes of the last intents, by
--     which the hub answers a repeated intent without running it again.
--   Channel.RetainedStore           channel/retained_store.hpp: the last payload of each channel.
--   Channel.Subscription            channel/subscription.hpp: a session's grants and their pacing.
--   Session.Access                  the access levels of generated/registry_constants.hpp.
--   Session.Ownership               session/safety.hpp: which session owns a control source.
--   Session.Shedding                session/shedding.hpp: what is dropped under congestion.
--   Session.Pairing                 session/pairing.hpp: the ledger of paired devices, the pairing
--     windows, token validation and the version tripwire.
--   Session.Pending                 the list of waiting knocks, of session/pairing.hpp too.
--   Wire.Bytes, Wire.FrameHeader    util/byte_io.hpp and wire/frame_header.hpp.
--   Wire.Raw                        wire/raw/: the payloads of fixed layout, and in
--     Wire.Raw.AckTracker the window of acknowledged numbers, in Wire.Raw.ClockSync the clock offset.
--   Wire.Crc32, Wire.Estop          wire/crc32.hpp and wire/estop_frame.hpp: the emergency-stop frame
--     and the scan of a raw stream for it.
--   Wire.BlobChunks                 wire/blob_chunks.hpp, and BlobId of wire/messages/blob_req.hpp: a blob
--     in numbered chunks, and the receiver that puts them together.
--   Wire.Cobs                       wire/serial_cobs.hpp: the byte stuffing of the serial binding.
--   Wire.FrameBuffer                wire/frame_buffer.hpp: a frame with its header and payload.
--   Wire.Fragmentation              wire/fragmentation.hpp: a frame cut into fragments for a smaller
--     transport, and the reassembler with its slots, in any order of arrival.
--   Wire.StreamBundle               wire/stream_bundle.hpp: samples with their times in one frame.
--   Wire.Cbor                       wire/cbor/: the writer (Writer, with the stack of open containers in
--     Wire.Cbor itself), the reader (Reader) and the skipping of a value (Skip). The other modules below
--     it are proofs, over the tokens of Token.
--
-- A method is the function of its name in snake_case; it takes the object's fields as a record and
-- returns the new record. A uintN_t is a number with its wrap written out, a span or a fixed array of
-- bytes with its size is the list of the bytes, and a null pointer, an empty optional or a written
-- count of 0 is `none`. A write through a pointer that a lookup returned is a function of its own
-- (`overwrite`, `regrant`, `overwrite_entry`). Template capacities are arguments; the intent ring's slot
-- capacity is taken to be below 2 ^ 16, where its uint16_t size does not wrap.
--
-- A pointer to a slot of the reassembler is the slot's index. The open containers of CBOR are a list,
-- the innermost first; the reader answers its new state only together with a value, since its callers
-- drop it after an error, and a float is its bit pattern.
--
-- The decoder of Wire.Cobs runs on fuel, one unit for each input byte; each round of its loop reads a
-- byte, so that much is enough, and this is proved. skip_value of Wire.Cbor.Skip runs on two units for
-- each byte and one more, which is proved to be enough too. The other loops are recursions on their list
-- or on a number of rounds that the code fixes.
--
-- Not modelled, and so parameters: the float rates of the subscriptions, the cryptography (ICrypto
-- and the HMAC of the PIN) and the random tokens of pairing. Left out: the CBOR image of the ledger,
-- the float rate limiter of intent_registry.hpp, the messages of wire/messages, the packed layouts and
-- the catalog, and the Hub and Client classes.
pub mod Base
pub mod Int
pub mod Result
pub mod Util
pub mod Channel
pub mod Session
pub mod Wire
