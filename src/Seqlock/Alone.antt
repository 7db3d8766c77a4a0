-- ===== src/Seqlock/Alone.antt =====
-- The accesses of one call with none between them, against the whole calls of the broadcast ring.
use rust_rb.Base.{
  ℕ, zero, suc, ◌+◌, ◌*◌, ◌≤◌, ◌<◌, ◌≡◌, ◌∙◌, refl, sym, ap, inl, inr, Bool-cases, true, false,
  Option, none, some, List, [], arith, length, wrapping_add, ◌==◌, lt→ltb, le→ltb_false,
}
use native.Mathlib.Decide.{dec_lt}
use rust_rb.Base.Memory.{byte, read_bytes, read_bytes_congr}
use rust_rb.AtomicCopy.{chunk_len, store_chunk}
use rust_rb.AtomicCopy.Whole.{chunk_len_bounds, store_chunk_lem, load_chunk_lem, read_bytes-all}
use rust_rb.Broadcast.{read_valid}
use rust_rb.Seqlock.{
  Slot, ProducerPc, ready, writing, stored, ReaderPc, loading, copying, accepted, refused,
  produce_step, read_step,
}

-- So many steps of a reader with the slot as it is.
unfoldable pub reads_alone : ℕ → ℕ → Slot → ReaderPc → ReaderPc
reads_alone zero len slot pc = pc
reads_alone (suc n) len slot pc = reads_alone n len slot (read_step len slot pc)

-- The reader with the answer of `read_valid` of a whole call.
abbrev pub answered : ℕ → Option (Option (List ℕ)) → ReaderPc
answered s none = refused s
answered s (some none) = refused s
answered s (some (some out)) = accepted s out

accepted-stays :
    (n len : ℕ) (slot : Slot) (s : ℕ) (out : List ℕ)
    → reads_alone n len slot (accepted s out) ≡ accepted s out
unfolding reads_alone read_step
accepted-stays zero len slot s out = refl
accepted-stays (suc n) len slot s out = accepted-stays n len slot s out

refused-stays : (n len : ℕ) (slot : Slot) (s : ℕ) → reads_alone n len slot (refused s) ≡ refused s
unfolding reads_alone read_step
refused-stays zero len slot s = refl
refused-stays (suc n) len slot s = refused-stays n len slot s

module _ (len : ℕ) (slot : Slot) (s : ℕ) where
  loaded :
      slot.seq == wrapping_add (2 * s) 2 ≡ true → read_step len slot (loading s) ≡ copying s 0 []
  unfolding read_step
  loaded same = rw same

  moved_on : slot.seq == wrapping_add (2 * s) 2 ≡ false → read_step len slot (loading s) ≡ refused s
  unfolding read_step
  moved_on moved = rw moved

  copied_more :
      (off : ℕ)
      → off < len
      → read_step len slot (copying s off (read_bytes slot.bytes 0 off))
        ≡ copying s (off + chunk_len len off) (read_bytes slot.bytes 0 (off + chunk_len len off))
  unfolding read_step
  copied_more off h = rw (lt→ltb off len h) (
      ap (copying s (off + chunk_len len off))
        (load_chunk_lem slot.bytes slot.bytes len off h (λ i _. refl)))

  copied_all :
      slot.seq == wrapping_add (2 * s) 2 ≡ true
      → read_step len slot (copying s len (read_bytes slot.bytes 0 len))
        ≡ accepted s (read_bytes slot.bytes 0 len)
  unfolding read_step
  copied_all same = rw (le→ltb_false len len (omega arith), same)

  copying-ends :
      (n off : ℕ)
      → len ≤ n + off
      → off ≤ len
      → slot.seq == wrapping_add (2 * s) 2 ≡ true
      → reads_alone (suc n) len slot (copying s off (read_bytes slot.bytes 0 off))
        ≡ accepted s (read_bytes slot.bytes 0 len)
  unfolding reads_alone
  copying-ends zero off fits inside same =
      let all : off ≡ len = omega arith in rw all (copied_all same)
  copying-ends (suc n) off fits inside same = elim (dec_lt off len) [
    | yes h ↦
        let (pos, within) = chunk_len_bounds len off h in
        ap (reads_alone (suc n) len slot) (copied_more off h)
        ∙ copying-ends n (off + chunk_len len off) (omega arith) within same
    | no last ↦
        let all : off ≡ len = omega arith in
        rw all (
          ap (reads_alone (suc n) len slot) (copied_all same)
          ∙ accepted-stays (suc n) len slot s (read_bytes slot.bytes 0 len))
  ]

-- With no other access between, a read ends within two accesses more than the payload has bytes, and
-- gives what `read_valid` of a whole call gives.
pub reads_alone-read_valid :
    (slot : Slot) (s more : ℕ)
    → reads_alone (length slot.bytes + 2 + more) (length slot.bytes) slot (loading s)
      ≡ answered s
          (read_valid (record { seq = slot.seq; value = some slot.bytes }) (wrapping_add (2 * s) 2))
unfolding read_valid reads_alone read_bytes
reads_alone-read_valid slot s more =
    let len = length slot.bytes in
    let steps : len + 2 + more ≡ suc (suc (len + more)) = omega arith in
    elim (Bool-cases (slot.seq == wrapping_add (2 * s) 2)) [
      | inl same ↦
          rw (steps, same)
            (ap (reads_alone (suc (len + more)) len slot) (loaded len slot s same)
              ∙ copying-ends len slot s (len + more) 0 (omega arith) (omega arith) same
              ∙ ap (accepted s) (read_bytes-all slot.bytes))
      | inr moved ↦
          rw (steps, moved)
            (ap (reads_alone (suc (len + more)) len slot) (moved_on len slot s moved)
              ∙ refused-stays (suc (len + more)) len slot s)
    ]

module _ (capacity len : ℕ) (message : ℕ → List ℕ) where
  -- So many steps of the producer.
  unfoldable pub produces_alone : ℕ → Slot × ℕ × ProducerPc → Slot × ℕ × ProducerPc
  produces_alone zero y = y
  produces_alone (suc n) (slot, tail, pc) =
      produces_alone n (produce_step capacity len message slot tail pc)

  produces_alone-add :
      (n m : ℕ) (y : Slot × ℕ × ProducerPc)
      → produces_alone (n + m) y ≡ produces_alone m (produces_alone n y)
  unfolding produces_alone
  produces_alone-add zero m y =
      let e : 0 + m ≡ m = omega arith in ap (λ (k : ℕ). produces_alone k y) e
  produces_alone-add (suc n) m (slot, tail, pc) =
      let e : suc n + m ≡ suc (n + m) = omega arith in
      rw e (produces_alone-add n m (produce_step capacity len message slot tail pc))

  module _ (s tail : ℕ) (size : length (message s) ≡ len) where
    stored_chunk :
        (slot : Slot) (off : ℕ)
        → off < len
        → produce_step capacity len message slot tail (writing s off) ≡ (
          record slot { bytes = store_chunk (message s) slot.bytes len off },
          tail,
          writing s (off + chunk_len len off),
        )
    unfolding produce_step
    stored_chunk slot off h = rw (lt→ltb off len h) refl

    stored_all :
        (slot : Slot)
        → produce_step capacity len message slot tail (writing s len)
          ≡ (record slot { seq = wrapping_add (2 * s) 2 }, tail, stored s)
    unfolding produce_step
    stored_all slot = rw (le→ltb_false len len (omega arith)) refl

    same_bytes :
        (bytes : List ℕ)
        → length bytes ≡ len
        → ((i : ℕ) → i < len → byte bytes i ≡ byte (message s) i)
        → bytes ≡ message s
    same_bytes bytes long same =
        sym (read_bytes-all bytes)
        ∙ ap (read_bytes bytes 0) (long ∙ sym size)
        ∙ read_bytes_congr (length (message s)) bytes (message s) 0 (λ i _ h. same i (omega arith))
        ∙ read_bytes-all (message s)

    abbrev Ends : ℕ → Slot → ProducerPc → Type 0
    Ends fuel slot pc =
        (n : ℕ) × (n ≤ fuel)
        × (produces_alone n (slot, tail, pc)
            ≡ (record { seq = wrapping_add (2 * s) 2; bytes = message s }, tail, stored s))

    ended :
        (slot : Slot)
        → length slot.bytes ≡ len
        → ((i : ℕ) → i < len → byte slot.bytes i ≡ byte (message s) i)
        → Ends 1 slot (writing s len)
    unfolding produces_alone
    ended slot long same = (
      1,
      omega arith,
      stored_all slot
          ∙ ap
              (λ (b : List ℕ). (record { seq = wrapping_add (2 * s) 2; bytes = b }, tail, stored s))
              (same_bytes slot.bytes long same),
    )

    writing-Ends :
        (fuel : ℕ) (slot : Slot) (off : ℕ)
        → len ≤ fuel + off
        → off ≤ len
        → length slot.bytes ≡ len
        → ((i : ℕ) → i < off → byte slot.bytes i ≡ byte (message s) i)
        → Ends (suc fuel) slot (writing s off)
    unfolding produces_alone
    writing-Ends zero slot off fits inside long same =
        let all : off ≡ len = omega arith in rw all (ended slot long (λ i h. same i (omega arith)))
    writing-Ends (suc fuel) slot off fits inside long same = elim (dec_lt off len) [
      | no last ↦
          let all : off ≡ len = omega arith in
          let (n, few, e) = ended slot long (λ i h. same i (omega arith)) in
          rw all (n, omega arith, e)
      | yes h ↦
          let (pos, within) = chunk_len_bounds len off h in
          let (long', same') = store_chunk_lem (message s) slot.bytes len off h long same in
          let (n, few, e) =
            writing-Ends fuel (record slot { bytes = store_chunk (message s) slot.bytes len off })
              (off + chunk_len len off) (omega arith) within long' same' in
          (suc n, omega arith, ap (produces_alone n) (stored_chunk slot off h) ∙ e)
    ]

  -- With no other access between, the accesses of a push end, at most three more than the payload has
  -- bytes, with the whole message in the slot under its even generation, and the tail past it.
  pub produces_alone-ends :
      (slot : Slot) (tail s : ℕ)
      → length slot.bytes ≡ len
      → length (message s) ≡ len
      → (n : ℕ) × (n ≤ len + 3)
        × (produces_alone n (slot, tail, ready s) ≡ (
          record { seq = wrapping_add (2 * s) 2; bytes = message s },
          s + 1,
          ready (s + capacity),
        ))
  unfolding produces_alone produce_step
  produces_alone-ends slot tail s long size =
      let (n, few, e) =
        writing-Ends s tail size len (record slot { seq = wrapping_add (2 * s) 1 }) 0 (omega arith)
          (omega arith) long (λ i h. absurd (omega arith)) in
      (suc (n + 1), omega arith, produces_alone-add n 1 _ ∙ ap (produces_alone 1) e)
