-- ===== src/Lib.antt =====
-- NullPath (crate `decoypath`): a secure channel that hides each message among decoys.
--
-- The program. Two parties run a handshake (src/handshake.rs over src/crypto.rs and src/types.rs) and
-- so share a root key. Each then holds a `SecureChannel` (src/channel.rs), which encrypts a payload
-- under a key of a hash ratchet (src/path_engine.rs) into an envelope of 1024 bytes
-- (src/envelope.rs), places it among decoys, one envelope for each path (src/decoy.rs), and on the
-- other side finds the slot, opens it, refuses replays (src/anti_replay.rs) and keeps the keys of
-- messages that have not arrived.
--
-- The files.
-- Base: names of the libraries, tests, lists over the native numbers, slices and their writes,
--   big-endian integers, byte strings, `Result` with a panic as a third outcome, and `while` loops
--   on a count of turns (Loop), and integers (Int).
-- Collections: BTreeMap as a list with ascending keys, HashMap as a list in order of insertion.
-- Errors: the enums of src/errors.rs and their texts; below it Texts.
-- Primitives: what other crates provide (SHA-256, HMAC-SHA256, ChaCha20-Poly1305, OsRng) as
--   parameters, and `IsSound`, what their documentation says of them.
-- AntiReplay: `AntiReplayStore`; below it Entries (what holds of every key on record), Invariant,
--   Live (entries by age), Recorded and Window (the store against an unbounded history), and Loops
--   (the two `while` loops, turn by turn).
-- PathEngine: `RatchetKey`, `derive_next`, `select_slot`; below it Slot and Chain.
-- Envelope: `seal` and `open` (named `open_envelope`); below it Layout (the bytes),
--   RoundTrip and Sized (envelopes of full length).
-- Decoy: `generate_decoy` and `generate_multi_path_slots`; below it Slots.
-- Channel: `SecureChannel`. `receive` is the composition of `examine` (the guards and Steps 1 to 3,
--   which read only) with `insert_and_commit` (Steps 4 and 5). Below it Skipped (the table of skipped
--   keys, with Kept, Numbers and Loop), Step and Receive (what a call does), Invariant, Sending,
--   Replay, Ratchet, Accept (when a call returns, and when it accepts), Judgement (every result, with
--   Cases and Again), Delivery, Exchange, Aad, Refusal and Crossing; Receiver (a
--   receiver that has no keys, and in Refines how the channel implements it); Integrity (what comes
--   out, next to a log of what went in; in Once and Despite for any sequence of calls); and of many
--   calls Arrivals and Dispatch (messages in any order), Turns (one message) and Conversation
--   (messages both ways).
-- Curves: Ed25519, X25519, HKDF-SHA256 and the random keys as parameters, and `IsSound` of them.
-- Types: the payloads of src/types.rs; below it Wire (their 144 bytes) and Identity
--   (`IdentityPrivateKey`).
-- Crypto: the signatures and the key derivation of src/crypto.rs; below it Transcript and Messages
--   (what a signed message determines).
-- Handshake: `initiate`, `respond` and `finalize` of src/handshake.rs; below it Agreement (two honest
--   parties), Authentication (what is accepted, and how the rest is refused) and Matching (whom a
--   party has talked to, next to a log of what each key has signed; Finalize and Respond).
-- Session: a handshake, and a conversation over the channels that it opens.
-- Ffi: `decoypath_channel_send` and `decoypath_channel_receive` of src/ffi.rs, over what the pointers
--   of a call hold; below it Sent, Codes (of `receive`), Buffer (the loops over envelopes), Exchange
--   (both functions), Session, the three functions of the handshake, with Opening (both sides
--   together), and Boxes, all functions over a store for the opaque pointers, with Ownership, Effects,
--   Calls (any sequence of calls), Made (when a box is made), Keypair, Succeeds and Opens (calls that
--   succeed) and Exchange (a whole session between two processes). Panics: of `receive`;
--   Again: a message that comes twice; Integrity: what `receive` writes, next to what was sent;
--   Values: the numbers of the codes.
-- Tests: an instance of the primitives and of the curves, runs, and the theorems at concrete inputs.
--
-- How the code is modelled. A byte is a number, an array or a slice a list; the sizes of arrays are
-- hypotheses or part of what the primitives promise. `usize` has 64 bits. A method on `&mut self`
-- returns the new state beside its result. `OsRng` is a function from the number of calls so far to
-- the bytes drawn, and the number is threaded through; it does not fail. `Instant::now()` is an
-- argument in nanoseconds, and `duration_since` stops at zero. A range of
-- a slice whose bounds the code computes is checked, and panics out of range (`get_range`), as are the
-- ranges and the lengths of the loop that writes envelopes; ranges of literal bounds in an array of
-- fixed size are plain slices. In `decoypath_channel_receive` the payload is copied into a slice that is
-- made as long as the payload, so that copy cannot panic. The boxes of the C functions stand in a
-- store that uses no address twice, which the allocator does not promise. Loops are structural recursions on the
-- rounds left, the queue or the table, so no fuel is needed; the three `while` loops stand a second
-- time as the code has them, on a count of turns, and one turn more than the queue is long, or than
-- there are keys over the limit, is enough. Sums that wrap are written out: `s + 1` in `send` wraps
-- at 2 ^ 64, as a release build does.
--
-- Not modelled: that memory is overwritten (but for `IdentityPrivateKey`, where `drop` leaves
-- another key behind) and that a comparison takes constant time, which no result depends on; the
-- secrecy of the primitives, which is not a fact about functions (of unforgeability, Integrity has a
-- hypothesis on the envelopes given to a channel, and Matching one on the signature of a response or
-- an initiation); src/lib.rs, which only names the modules again, and the header and tests for C.
pub mod Base
pub mod Collections
pub mod Errors
pub mod Primitives
pub mod AntiReplay
pub mod PathEngine
pub mod Envelope
pub mod Decoy
pub mod Channel
pub mod Curves
pub mod Types
pub mod Crypto
pub mod Handshake
pub mod Session
pub mod Ffi
pub mod Tests
