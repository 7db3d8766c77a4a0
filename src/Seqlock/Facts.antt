-- ===== src/Seqlock/Facts.antt =====
-- What holds between any two accesses to a slot.
use rust_rb.Base.{ℕ, ◌+◌, ◌*◌, ◌≤◌, ◌<◌, ◌≡◌, List, length}
use rust_rb.Base.Memory.{byte, read_bytes}
use rust_rb.Seqlock.{
  Slot, ProducerPc, ready, writing, stored, ReaderPc, resting, loading, copying, accepted, refused,
  System,
}

-- The message whose push the producer is in, or begins next.
abbrev pub next_of : ProducerPc → ℕ
next_of (ready s) = s
next_of (writing s off) = s
next_of (stored s) = s

module _ (len : ℕ) (message : ℕ → List ℕ) where
  -- The first bytes of a payload are those of a message.
  abbrev pub Agrees : ℕ → List ℕ → ℕ → Type 0
  Agrees off bytes s = (i : ℕ) → i < off → byte bytes i ≡ byte (message s) i

  -- At an even generation the payload is that message's, whole.
  abbrev pub Shows : Slot → Type 0
  Shows slot = (s : ℕ) → slot.seq ≡ 2 * s + 2 → Agrees len slot.bytes s

  abbrev pub Writes : Slot → ℕ → ProducerPc → Type 0
  Writes slot tail (ready s) = (tail ≤ s) × (slot.seq ≤ 2 * s) × Shows slot
  Writes slot tail (writing s off) =
      (tail ≤ s) × (slot.seq ≡ 2 * s + 1) × (off ≤ len) × Agrees off slot.bytes s
  Writes slot tail (stored s) = (tail ≤ s) × (slot.seq ≡ 2 * s + 2) × Agrees len slot.bytes s

  -- What a reader has copied is right as long as the generation has not moved on.
  abbrev pub Reads : ℕ → ReaderPc → Type 0
  Reads seq resting = Unit {0}
  Reads seq (loading s) = 2 * s + 2 ≤ seq
  Reads seq (copying s off out) =
      (2 * s + 2 ≤ seq) × (off ≤ len) × (seq ≡ 2 * s + 2 → out ≡ read_bytes (message s) 0 off)
  Reads seq (accepted s out) = out ≡ read_bytes (message s) 0 len
  Reads seq (refused s) = 2 * s + 2 < seq

  pub record IsConsistent (y : System) : Type 0 where
    pub sized : length y.slot.bytes ≡ len
    pub writer : Writes y.slot y.tail y.producer
    pub shown : 2 * y.tail ≤ y.slot.seq
    pub readers : (i : ℕ) → Reads y.slot.seq (y.reader i)
