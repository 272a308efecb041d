-- ===== src/Lib.antt =====
-- raxos: state machine replication by QuePaxa consensus, as one deterministic state machine for
-- each member of a group. A member is fed commands, messages and the time, and emits messages and
-- deliveries.
--
-- The parts and the files that model them:
--   src/types.rs     Types: ids, slots, proposals and their orders, size limits. Codec: the
--                    cursor and the batch encoding. Codec/Readers and Codec/Parses prove of a
--                    reader that it reads an encoding and that it reads nothing else; Codec/Batch
--                    applies them.
--   src/wire.rs      Wire: messages, `encode` and `decode`. Wire/Payloads and Wire/Kinds treat
--                    the fields and the seven kinds, Wire/Messages the whole message.
--   src/recorder.rs  Recorder: the interval summary register of one slot (`IsrSlot::record` is
--                    `record_step`). Recorder/Steps treats one invocation, Recorder/History any
--                    sequence of them against the summary of that sequence, Recorder/Repeating a
--                    proposal that comes again.
--   src/rng.rs       Rng: splitmix64, xoshiro256++ and bounded draws; Rng/Range.
--   src/proposer.rs  Proposer: the run of one slot. Proposer/Draws treats what a step sends,
--                    Proposer/Tracking the count of replies against the list of counted replies,
--                    Proposer/Outcomes what a complete step comes to, Proposer/Beginning and
--                    Proposer/Advancing what the next one begins with.
--   src/pool.rs      Pool: pending commands and their byte count; Pool/Accounting. Pool/Dedup:
--                    the delivered commands; Pool/Dedup/Origins treats one origin,
--                    Pool/Dedup/Exact all.
--   src/config.rs    Config: `Config::new` and the setters; Config/Checks.
--   src/replica.rs   Replica: the state of a member. Replica/Retention: `try_deliver` and
--                    `maybe_gc` (Retaining, Freeing, Batches, Delivering, Log, Lifetime).
--                    Replica/Recording: `on_record` (Answers). Replica/CatchUp: `maybe_request_learn` and `on_learn`
--                    (Serving). Replica/Batching: `take_unassigned_batch` (Costs, Limits).
--                    Replica/Timers: `learn_tick` (Asking), `ping_tick` (Pinging) and where
--                    commands are forwarded. Replica/Replying: `on_record_reply` up to its last
--                    call (Echoes, Totals). Replica/Deciding: `decide_slot` up to its last call
--                    (Installing). Replica/Driving: the loop of `drive` (Rounds, Ends, Looping).
--                    Replica/Opening: `decide_slot`, `drive`, `activate` and `maybe_open_slots`
--                    as a whole (Activating, Pipeline, Ending). Replica/Forwarding: `submit`
--                    (Pooling, Submitting), `on_forward` (Taking) and `reforward_due`.
--                    Replica/Hedging: `hedge_activate_due` and `retransmit_due`. Replica/Inputs:
--                    `receive` and `tick`. Replica/Waking: `next_wakeup` (Deadlines, Early).
--   several files    Agreement: the recorders and proposers of one slot as a group that exchanges
--                    messages, the code of src/recorder.rs and src/proposer.rs composed as
--                    src/replica.rs does. Quorums and Histories treat majorities and registers,
--                    Justified why a proposal was recorded, Locks, Bases and Agreeing what that
--                    makes of decisions, Invariant what holds in every world that is reached,
--                    Running, Counted, Completing, Counting, Answering, Receiving, Marking and
--                    Preserving that each step keeps it, Safety what follows. Refining and Recording treat
--                    `on_record_reply` and `on_record` as steps of the group.
-- Prelude holds what they share: tests on numbers, lists, words, the orders of keys, sorted
-- association lists for `BTreeMap`, greatest elements, sorting. The Tests file of a part has the
-- runs of its unit tests and the theorems at concrete inputs.
--
-- The parts meet in the replica: a recorder's register and a proposer's run stand in the state of
-- each slot, `on_record` answers with the messages of Wire, deliveries go by the delivered set and
-- the pool, and values are batches in the encoding of Codec.
--
-- Conventions. A number of the source is a native number; u32 and u64 arithmetic that can wrap is
-- written with `add_u32` and `add_u64`, as a release build computes it; `usize` counts of bytes in
-- memory are plain numbers. A handler is a function from state to state. A panic (`expect`, an
-- index out of range) is `none`, and so is `None` or `Err` of a decoder; a failed `debug_assert!`
-- is nothing, as in a release build. A loop is structural recursion, or recursion on fuel that its
-- caller computes: the size of the sparse set for `drain`, the number of retained values for
-- delivery and for the budget, the distance to the floor for freeing, the slots left and one more
-- for a chunk. That each of these is enough is part of the theorems. `drive` and the functions
-- that call each other with `maybe_open_slots` take fuel as an argument, for which `unfinished` is
-- a result of its own, apart from a panic: in a group of two or more, two rounds are enough for a
-- new run, and three more than the depth of the pipeline for opening slots.
--
-- Agreement takes the network as sets of calls and answers from which nothing is removed, so that
-- a message may arrive any number of times or never, in any order. Each proposer starts once, with
-- a value of its own, and no step goes past the greatest u32, where the counter of the source
-- wraps.
--
-- Not modelled: the printers and error texts, which are for logs, and the simulator, which is test
-- code. A group of one member, where opening a slot decides it at once and opens the next, is in
-- the definitions but not in the theorems on fuel.
pub mod Prelude
pub mod Types
pub mod Agreement
pub mod Codec
pub mod Wire
pub mod Recorder
pub mod Rng
pub mod Proposer
pub mod Pool
pub mod Config
pub mod Replica
