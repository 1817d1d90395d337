-- ===== src/Lib.antt =====
-- ticktape: deterministic, replicated services on the sequencer architecture.
--
-- A sequencer stamps every input with a gapless sequence number and appends it to a journal as a
-- frame. Frames are streamed to replicas in packets that may be lost, repeated or reordered;
-- elections and a commit watermark keep a group of replicas safe across failures; a gateway admits
-- the commands of clients. The files and the code they are about:
--
-- - Core/Bytes, Core/Codec and its children: crates/ticktape-core/src/codec.rs. A byte string is a
--   list of numbers below 256; `encode` appends to the buffer it is given, `decode` returns the
--   value with the bytes that follow. Core/Codec/Law states what a codec owes, and the other
--   children prove it of each implementation; Core/Codec/Utf8 is the check of String::from_utf8.
-- - Core/Crc32c: crates/ticktape-core/src/crc32c.rs, the software table. Core/Crc32c/Division: the
--   polynomial division that a step of the table stands for, on the digit laws of Core/Crc32c/Bits.
--   Core/Crc32c/Hardware: the hardware loops; the processor's CRC instructions are a parameter with
--   what the manuals say of them, which is that division.
-- - Core/Seq: crates/ticktape-core/src/seq.rs. Core/Frame: crates/ticktape-core/src/frame.rs.
-- - Cluster/Commit: crates/ticktape-cluster/src/commit.rs. Cluster/Election: election.rs beside it;
--   Cluster/Election/Network puts acceptors and candidates on a network that may deliver any reply
--   ever sent, any number of times, in any order, or never. Cluster/Epoch: epoch.rs beside
--   them. Cluster/Persist: persist.rs beside them, with the storage's answers as parameters;
--   Cluster/Persist/OnDisk: the same with its file on the simulated disk.
-- - Journal: crates/ticktape-journal/src/lib.rs, on the simulated disk. Journal/Recovery: open_inner.
--   Journal/Log: an abstract log and the files that hold it; Journal/Writer: the agreement of a
--   journal with its log, kept by rolls, writes and commits. The other children prove what appends,
--   crashes, recovery and compaction do.
-- - Journal/Snapshots: crates/ticktape-journal/src/snapshot.rs. Snapshots/Bytes: the file format;
--   Snapshots/Latest: what is loaded after a crash; Snapshots/Retention: what is deleted.
-- - Sim/Storage: crates/ticktape-sim/src/storage.rs, the disk with synced and unsynced bytes whose
--   crash keeps a prefix of the latter. Sim/Rng: rng.rs beside it.
-- - Gateway/Flow: crates/ticktape-gateway/src/flow.rs.
-- - Transport: the packet type of crates/ticktape-transport/src/wire.rs and the errors of lib.rs
--   beside it. Transport/Wire: how packets and retransmit requests are encoded and decoded.
--   Transport/Reassembler: reassembler.rs beside them.
-- - Core/Service: crates/ticktape-core/src/service.rs, the contract and the
--   context of a service.
-- - OrderBook: examples/orderbook/src/lib.rs. OrderBook/Matching: fill_level and the two matching
--   loops. OrderBook/Commands: submit, cancel, on_timer and apply; a failed `expect` is an error.
--   OrderBook/Snapshot: snapshot and restore. OrderBook/Check: the
--   simulator's check, and depth. OrderBook/Application: the book as a service.
-- - Runtime/Node: crates/ticktape-runtime/src/lib.rs, the sequencer without snapshots, over an
--   interface to the journal. Runtime/Node/Replay: recovery; Runtime/Node/Live: the live state and
--   the replayed one agree; Runtime/Node/Restart: a node on the modelled journal, through a crash;
--   Runtime/Node/Anchor: the snapshot that a recovery starts from, and the replay behind it;
--   Runtime/Node/Firing and Termination: the loop that fires timers, on any journal and on the
--   modelled one. Runtime/Commit: CommitState of the same file, the outputs that wait for a quorum.
-- - Runtime/Timer: crates/ticktape-runtime/src/timer.rs, whose BTreeSet of triples is Base/SortedSet.
-- - Base: shared names, lists, results, and the standard library's BTreeMap and BTreeSet as
--   association lists and lists in ascending order.
--
-- Integers are natural numbers. A u64 counter that grows by one for each frame or packet (Seq,
-- next, packets_seen) is not wrapped: overflow would take 2 ^ 64 frames. A seq that a packet
-- brings is not bounded by that, and a frame with the seq 2 ^ 64 - 1 would overflow there. Widths
-- matter in the codec and in frames, and there the ranges are hypotheses or conclusions. The share
-- counters of the order book are exact sums: a u64 overflows after more than 2 ^ 32 orders of the
-- greatest size.
-- The loops on fuel are the eviction loop of the reassembler (`trim`), with one round for each
-- buffered frame, and the matching loops of the order book (`fill_loop`, `match_loop`), with one
-- round for each maker of the level and for each level of the side: every round uses up a maker, a
-- level or the taker. The scan of a segment (`scan`) has one round more than the segment has bytes,
-- and every frame takes some. The loop that fires timers (`fire_due_timers`) ends with an error of
-- the model's own when its fuel is used up; one round more than there are due timers is enough for a
-- service that does not ask for a timer that is due at once.
--
-- Not modelled: sockets, threads, files and shared memory, procedural macros, benchmarks, and the
-- adapter to openraft. The snapshots that a node takes while it runs, the gateway wire format and
-- the other example services are not part of this library.
pub mod Base
pub mod Core
pub mod Cluster
pub mod Gateway
pub mod Transport
pub mod Runtime
pub mod OrderBook
pub mod Journal
pub mod Sim
