-- ===== src/Seqlock.antt =====
-- The protocol of one slot of the lossy rings, a shared access at a time: `push` of src/broadcast.rs
-- against any number of readers in `read_valid` of src/seqlock.rs, with the copies of
-- src/atomic_copy.rs chunk by chunk. The accesses of a schedule take effect in its order, which the
-- fences of the source see to for those between the two loads of the generation.
pub mod Facts
pub mod Steps
pub mod Alone
mod Tests
use rust_rb.Base.{ℕ, ◌+◌, ◌*◌, List, [], ◌∷◌, if◌then◌else◌, ltb, ◌==◌, wrapping_add}
use rust_rb.AtomicCopy.{chunk_len, store_chunk, load_chunk}

-- `Slot`: the generation, and the bytes of the payload.
pub record Slot : Type 0 where
  pub seq : ℕ
  pub bytes : List ℕ

-- Where the producer stands in the push of message `s`.
pub data ProducerPc : Type 0 where
  ready : (s : ℕ) → ProducerPc  -- before the store of the odd generation
  writing : (s off : ℕ) → ProducerPc  -- in `write_payload`
  stored : (s : ℕ) → ProducerPc  -- before the store of the tail

-- Where a reader stands with the local variables of `read_valid` for message `s`.
pub data ReaderPc : Type 0 where
  resting : ReaderPc
  loading : (s : ℕ) → ReaderPc  -- before the first load of the generation
  copying : (s off : ℕ) (out : List ℕ) → ReaderPc  -- in `read_payload`, then the second load
  accepted : (s : ℕ) (out : List ℕ) → ReaderPc  -- `Some(out)`
  refused : (s : ℕ) → ReaderPc  -- `None`

pub record System : Type 0 where
  pub slot : Slot
  pub tail : ℕ
  pub producer : ProducerPc
  pub reader : ℕ → ReaderPc

module _ (capacity len : ℕ) (message : ℕ → List ℕ) where
  -- A step of the producer. The slot takes each `capacity`-th message; a batched tail is later.
  unfoldable pub produce_step : Slot → ℕ → ProducerPc → Slot × ℕ × ProducerPc
  produce_step slot tail (ready s) =
      (record slot { seq = wrapping_add (2 * s) 1 }, tail, writing s 0)
  produce_step slot tail (writing s off) =
      if ltb off len
      then (
        record slot { bytes = store_chunk (message s) slot.bytes len off },
        tail,
        writing s (off + chunk_len len off),
      )
      else (record slot { seq = wrapping_add (2 * s) 2 }, tail, stored s)
  produce_step slot tail (stored s) = (slot, s + 1, ready (s + capacity))

-- A step of a reader.
unfoldable pub read_step : ℕ → Slot → ReaderPc → ReaderPc
read_step len slot (loading s) =
    if slot.seq == wrapping_add (2 * s) 2 then copying s 0 [] else refused s
read_step len slot (copying s off out) =
    if ltb off len
    then copying s (off + chunk_len len off) (load_chunk slot.bytes out len off)
    else if slot.seq == wrapping_add (2 * s) 2
    then accepted s out
    else refused s
read_step len slot other = other

-- `read_slot` begins a read where the tail has passed the message.
unfoldable pub ask_step : ℕ → ReaderPc → ℕ → ReaderPc
ask_step tail pc s = if ltb s tail then loading s else pc

-- Whose access comes next.
pub data Turn : Type 0 where
  produces : Turn
  asks : (i s : ℕ) → Turn
  reads : (i : ℕ) → Turn

abbrev pub update : (ℕ → ReaderPc) → ℕ → ReaderPc → ℕ → ReaderPc
update f i v j = if i == j then v else f j

module _ (capacity len : ℕ) (message : ℕ → List ℕ) where
  unfoldable pub step : System → Turn → System
  step y produces =
      let (slot, tail, pc) = produce_step capacity len message y.slot y.tail y.producer in
      record y { slot = slot; tail = tail; producer = pc }
  step y (asks i s) = record y { reader = update y.reader i (ask_step y.tail (y.reader i) s) }
  step y (reads i) = record y { reader = update y.reader i (read_step len y.slot (y.reader i)) }

  unfoldable pub run : System → List Turn → System
  run y [] = y
  run y (turn ∷ turns) = run (step y turn) turns

-- A slot that was never written, whose first message will be `first`.
unfoldable pub untouched : List ℕ → ℕ → System
untouched bytes first = record {
  slot = record { seq = 0; bytes = bytes };
  tail = 0;
  producer = ready first;
  reader = λ _. resting;
}
