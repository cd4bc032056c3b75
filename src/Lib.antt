-- ===== src/Lib.antt =====
-- Machine-checked model of the LIGHTER integration: the settlement plugin (crates/continuum-lighter-plugin),
-- the sequencer (crates/sequencer), its delay function (crates/vdf) and the order book and adapter of the
-- demo (demo/gateway).
--
-- The parts and how they interact. The sequencer takes fixed-size encrypted envelopes, gives each one an
-- accountable answer (a receipt, a signed rejection or a signed full-window response), seals the receipts of
-- a tick into a batch under a Merkle root, and chains the batches into a log. Watchers replay the log
-- (`verify_span`) and judge fraud proofs. The node takes the ticks of the clock, solves the time-locked
-- intents of a batch in waves when they mature, puts the outcomes on a tape and posts anchors. The gateway
-- executes the tape in order against a book. The plugin proves to the settlement contract that a span of
-- receipts gives exactly the items that the LIGHTER prover executes: the sequence relation recomputes
-- the roots and `C_bind`, and the join advances the settlement head when the sequence proof and the
-- execution proof agree.
--
-- The files. A function of the source keeps its name; a method that two types have carries the type in
-- its name (`receipt_verify` is `Receipt::verify`).
--   Base                 lists, tests, results and byte strings over the native numbers; Base/Words is the
--                        wrap-around of `u64`
--   Plugin/Canonical     crates/continuum-lighter-plugin/src/canonical.rs; Canonical/Reading: the
--                        preimages determine their fields
--   Plugin/Types         src/types.rs: items and their canonical bytes; Types/Encoding
--   Plugin/Hash          src/hash.rs: the hash interface; Hash/Chain: what a hash chain commits to
--   Plugin/Accumulator   src/accumulator.rs; Accumulator/Commitment
--   Plugin/Binding       src/binding.rs: `C_bind` and the roots; Binding/Inputs, Stream, Commitment
--   Plugin/Join          src/join.rs: `advance_head`; Join/Relation is its contract, Join/Replay runs of it
--   Plugin/Sequence      src/sequence.rs: data and interfaces; Sequence/Verify its loops,
--                        Sequence/Transition the verifier; Receipts, Items, Sound, Roots, Settles, Pinned
--                        and Total what it establishes
--   Sequencer/Params     crates/sequencer/src/params.rs; Params/NoLook
--   Sequencer/Identity   src/identity.rs; Identity/Signing
--   Sequencer/Envelope   src/envelope.rs; Envelope/Decode, Envelope/Layout (offsets of fields),
--                        Envelope/RoundTrip
--   Sequencer/Records    src/records.rs; Records/Merkle (Path, Binding, Sizes) the tree, Records/Objects
--                        the answers
--   Sequencer/Admission  src/admission.rs: state and operations; Admission/Submit is `submit`; Causes,
--                        Outcomes, Answers, Promises, Signed, Buffers, Capacity, Runs, Placed, Occurs and Distinct
--                        what it guarantees; Admission/Faucet the tickets
--   Sequencer/Store      src/store.rs and the cutoff of src/node.rs; Store/Tape and Store/Cutoff,
--                        Store/Sorted and Store/Exact what the cutoff does
--   Sequencer/Transcript src/transcript.rs; Transcript/Valid, Transcript/Complete, Transcript/Binding
--   Sequencer/Fraud      src/fraud.rs; Fraud/Honest, Fraud/Reorder
--   Sequencer/Clock      src/clock.rs: the ticks of a segment, its seal and its verifier, Clock/Segment,
--                        Clock/Events; Clock/Loop is `run_clock`, Clock/Rounds, Clock/Numbering
--   Sequencer/Anchor     src/anchor.rs; Anchor/Signing
--   Sequencer/Node       src/node.rs: the state; Node/Tick the stages of a tick, Node/Waves, Node/Anchors
--                        and Node/Coordinator the other events and the loop; Sealing, Log, View,
--                        Sound and Replays the log that it builds, Opens the way of a client's
--                        ciphertext to the tape, Rounds the loop of the anchors, Spans, StandsFor
--                        and Anchored what anchors stand for; Start is `start`, Clocked the node with
--                        its clock, SealView, Sealed, Kept, Proving, Keeping and SealsVerify the
--                        seals that it keeps
--   Gateway/Book         demo/gateway/src/lighter_sim.rs: the order book; Book/Cross is the crossing of an
--                        order, Book/Execute is `execute`; Fills, Filled, Orders,
--                        Sides and Uncrossed what it guarantees
--   Gateway/Adapter      the adapter of the same file; Adapter/Advance is `advance`; Scans, Ends, Halts,
--                        Cursor, Plays, Goes, Replaying and Consumes what it does
--   Vdf/Hashing          the interface of SHA-256 and the cipher, `hash_to_group` of src/posq.rs
--   Vdf/Tlk              src/tlk.rs; Tlk/Setup, Tlk/RoundTrip
--   Vdf/Wave             src/batch_solve.rs; Wave/Aggregate, Wave/Complete
--   Vdf/Posq             crates/vdf/src/posq.rs: squarings and sequential proofs; Posq/Squarings,
--                        Posq/Complete, over the arithmetic of Vdf/Modular
--   Plugin/Tests, Sequencer/Tests, Vdf/Tests, Gateway/Tests   concrete inputs
--
-- State and errors. A method that takes `&mut self` returns the new state; a `Result` is `Result`, its
-- early returns are runs of guarded checks in the order of the code; a panic is an error of the model's
-- own, with three exceptions: the panic of `maybe_anchor` for anchors of no segments is a return of the
-- loop, that of a delay at a rate of 0, which `submit` meets before the node does, is the largest
-- maturity, and that of the challenge of a sequential proof over an element of more than 2048 bits is
-- left out. A `u64` is a natural number: fields of a record carry no range, theorems that need one assume
-- it (IsDerivedItem, IsBindingInputs, Fits, ShortBatches), and sums that the code does not check, those
-- of its counters included, wrap around as in a release build. Bytes are numbers in lists; `[u8; 32]` is
-- such a list.
--
-- Interfaces. The native hash (`LighterNativeHash`, of which the code relies on digests of 32 bytes), the
-- authenticator of the sequence relation, Keccak, ECDSA and big integers (`Primitives`, with the law
-- `Recovers` of ECDSA), and the modular power and the challenge prime of the delay function (`Oracle`, with
-- the law `IsOracle`) are records that the definitions take. So are SHA-256
-- and the cipher (`Crypto`, with the law `IsAead`) and hexadecimal text (`Hex`); the readers of intents and
-- of JSON, and the key that is derived of a seed, are functions that the definitions take.
-- A theorem about commitment ends in a collision of the hash instead of assuming that there is none. In the
-- plugin, whose digests are 32 bytes, the collision is between calls of the hash that the two
-- computations make (Hash/Chain).
--
-- Fuel. The loops of the Merkle tree run on as many rounds as there are leaves, which Merkle/Path
-- shows to be enough; the search for a tick and the loop over a span run on the length of the range. The
-- crossing of an order takes a round per maker and one more (Book/Fills), the scan of the adapter a round
-- per number from the cursor to the last sealed tick and two more (Adapter/Ends), and `maybe_anchor` a
-- round per segment number and one more (Node/Rounds).
--
-- Not modelled: the derivation of keys from seeds; threads, channels and timing (of the clock, the
-- coordinator and `run_sim`), broadcasts and log lines; the search for primes, which the interface takes
-- to end, the batch proofs, the tuned arithmetic and the hardware of crates/vdf; the gRPC service, files,
-- and the server and bots of the demo, which are I/O around the components above; the Poseidon2 hasher,
-- an instance of the hash interface over a field library.
mod Base
pub mod Gateway
pub mod Plugin
pub mod Sequencer
pub mod Vdf
