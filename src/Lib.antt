-- ===== src/Lib.antt =====
-- The ring buffers of rust-rb, modelled and verified.
--
-- The program is a family of lock-free rings between one producer and its consumers. The parts here
-- are the single-consumer rings, the element ring and the message ring of several consumers, and the
-- lossy broadcast of elements. A producer handle and a consumer handle each own private cursors, and share a published
-- write cursor, a published read cursor and a flag by which the producer asks for prompt publishes
-- (src/cursor.rs). The element ring (src/spsc.rs) and the byte ring (src/spsc_bytes.rs) put a buffer
-- under that engine; the byte ring frames its messages as records. In the ring of several consumers
-- (src/spmc.rs) every consumer sees every element: each owns a slot of a registry (src/registry.rs)
-- with its read cursor, and the producer walks the registry for the slowest; src/spmc_bytes.rs is that
-- ring for framed messages, with the flag of the engine grown to the room asked for. The broadcast ring
-- (src/broadcast.rs over the slots of src/seqlock.rs) never waits for its consumers.
--
-- Which file models which part:
--   Base: native numbers, lists by position, machine words, masks of powers of two, bytes of memory,
--     and `Outcome` for a call that may panic.
--   Policy: `publish_batch`, `round_capacity`, `lacks_space` and `no_item` of src/cursor.rs.
--   Cursor: `ProducerCore`, `ConsumerCore` and `Shared` of src/cursor.rs, a record each, and their
--     operations under the source's names. Its children prove the invariant of the six cursors, the
--     exact counts between them, the space check, the adaptive publishes and the waits.
--   Spsc: `RingBuffer`, `Producer` and `Consumer` of src/spsc.rs with the teardown of `Shared`. A slot
--     of the buffer is an option: what is known of a `MaybeUninit`. Its children relate a ring to the
--     queue that it holds.
--   Frame: `align_up`, `record_len`, `max_message_len`, `frame`, `write_frame` and `decode_record` of
--     src/spsc_bytes.rs over a list of bytes.
--   Bytes: `BytesRingBuffer`, `BytesProducer`, `BytesConsumer`, `WriteSlot` and `Msg` of
--     src/spsc_bytes.rs. Its children relate a ring to the messages that it holds.
--   Registry: src/registry.rs, the slots of `Chunk`, `claim_registry_slot`, `subscribe_slot`,
--     `deactivate`, `scan_chunk_registry` and `rescan_gate`. The chunks are one list, in which slot `i`
--     of chunk `k` is slot `64 * k + i`. `publish_batch` of the registry is `publish_batch_elems` here; its
--     `lacks_space` is that of Policy, since `u64` is a word of 64 bits. The child Peers is about the
--     consumers of one ring, each in a slot of its own, and serves both rings of several consumers.
--   Spmc: `RingBuffer`, `Shared` and `Producer` of src/spmc.rs, Spmc.Consumers its `Consumer`, `PopRef`
--     and the teardown. The other children give the gate of the producer, the queue of a consumer, what
--     each call does to all queues, and a system of many consumers against a queue for each.
--   SpmcBytes: `BytesRingBuffer`, `Shared`, `BytesProducer` and `WriteSlot` of src/spmc_bytes.rs,
--     SpmcBytes.Consumers its `BytesConsumer` and `Msg`. The framing that this file repeats from
--     src/spsc_bytes.rs is that of Frame. The other children give the gate, the messages that a consumer
--     has left to read, what each call does to the messages of all consumers, how they join and
--     leave, claims against pushes, panics, and a system of many consumers against a queue for each.
--   Broadcast: `RingBuffer`, `Producer` and `Consumer` of src/broadcast.rs and `Slot` and `read_valid` of
--     src/seqlock.rs. Its children give what a ring holds, what a consumer is handed and told that it
--     missed, and how a ring starts, batches its tail and closes.
--   AtomicCopy: the copies of src/atomic_copy.rs, an atomic access at a time.
--   Seqlock: one slot of src/broadcast.rs and src/seqlock.rs, an access at a time: `push` against any
--     number of readers in `read_valid`, and each of them alone against the whole call in Broadcast.
--   Wait: `CvWait` of src/wait.rs, an access at a time, and the loops of `BackoffWait`.
--
-- Conventions. `usize` is a word of 64 bits, and every wrapping operation is written with its modulus.
-- A handle's operation is a function of the handle and the shared words, so a run is a sequence of
-- whole calls that sees each store at once: the memory orderings of the atomics are not part of the
-- model, nor are steps of one call between steps of another, but in Seqlock and Wait. There the accesses
-- take effect in the order of a schedule, and every schedule is considered. A blocking loop takes a list
-- with what the other side has published at the end of each wait; it answers `none` if it is still waiting
-- at the end of the list. The loop of `Drop for Shared` and the loop of `drain` take a bound on their
-- rounds; the teardown is proved to end within a bound of the queue's length. A wait strategy is the count
-- of its notifications, and the anchor of a ring in shared memory is the answers of its two checks.
--
-- The cursors of the rings of several consumers do not wrap in their theorems: these ask that the
-- producer's cursor, the capacity and the calls to come stay below 2 ^ 64. Their model is the heap
-- backing, as without the feature `shm`, and their registry is seen at the end of a call, so no exchange
-- of a joiner is lost.
--
-- The sums of a broadcast ring do not wrap either: twice the next sequence stays below 2 ^ 64. A whole
-- call of it sees one generation of a slot, so `read_valid` is a single test there. The size of the
-- element type, `size_of::<T>()`, is an argument of its constructors. Its blocking `pop` is left out.
--
-- Not modelled: the strategies of src/wait.rs that only pause, the lossy broadcast of bytes
-- (src/broadcast_bytes.rs), the anchored rings (src/anchored.rs, src/anchored_bytes.rs) and shared memory
-- (src/shm.rs, with `scan_shm_table` of src/registry.rs and the handles that src/spmc.rs and
-- src/spmc_bytes.rs make over a region), which are other protocols; and padding of cache lines, which is
-- layout.
pub mod Base
pub mod Policy
pub mod Registry
pub mod Cursor
pub mod Spsc
pub mod Spmc
pub mod Frame
pub mod Wait
pub mod AtomicCopy
pub mod Seqlock
pub mod Broadcast
pub mod Bytes
pub mod SpmcBytes
