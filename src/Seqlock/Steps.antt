-- ===== src/Seqlock/Steps.antt =====
-- Every access keeps what holds of a slot, so no torn payload is ever handed out.
use rust_rb.Base.{
  ℕ, suc, ◌+◌, ◌*◌, ◌≤◌, ◌<◌, ◌≡◌, ◌∙◌, refl, sym, ap, subst, inl, inr, Bool-cases, List, [], ◌∷◌,
  arith, length, word_mod, ltb, ◌==◌, ==_iff, ne→==_false,
}
use native.Mathlib.Decide.{ℕ_discrete}
use native.Mathlib.Nat.{mul-suc}
use rust_rb.Base.Words.{wrapping_add_plain}
use rust_rb.Base.Memory.{read_bytes}
use rust_rb.AtomicCopy.{load_chunk}
use rust_rb.AtomicCopy.Whole.{chunk_len_bounds, store_chunk_lem, load_chunk_lem, read_bytes-all}
use rust_rb.Seqlock.{
  Slot, ProducerPc, ready, writing, stored, ReaderPc, resting, loading, copying, accepted, refused,
  System, produce_step, read_step, ask_step, Turn, produces, asks, reads, update, step, run,
  untouched,
}
use rust_rb.Seqlock.Facts.{next_of, Shows, Writes, Reads, IsConsistent}

module _ (len : ℕ) (message : ℕ → List ℕ) where
  Writes-Shows :
      (slot : Slot) (tail : ℕ) (pc : ProducerPc)
      → Writes len message slot tail pc
      → Shows len message slot
  Writes-Shows slot tail (ready s) (_, _, shows) = shows
  Writes-Shows slot tail (writing s off) (_, odd, _, _) = λ m e. absurd (omega arith)
  Writes-Shows slot tail (stored s) (_, even, whole) =
      λ m e i h. let same : s ≡ m = omega arith in rw (← same) (whole i h)

  -- A later generation leaves a reader right.
  Reads-later :
      (seq later : ℕ) (pc : ReaderPc)
      → seq ≤ later
      → Reads len message seq pc
      → Reads len message later pc
  Reads-later seq later resting h r = r
  Reads-later seq later (loading s) h r = omega arith
  Reads-later seq later (copying s off out) h (low, inside, right) =
      (omega arith, inside, λ e. right (omega arith))
  Reads-later seq later (accepted s out) h r = r
  Reads-later seq later (refused s) h r = omega arith

  module _ (slot : Slot) (shows : Shows len message slot) (small : slot.seq < word_mod) where
    read_step-Reads :
        (pc : ReaderPc)
        → Reads len message slot.seq pc
        → Reads len message slot.seq (read_step len slot pc)
    unfolding read_step read_bytes
    read_step-Reads resting r = r
    read_step-Reads (loading s) low =
        let plain = wrapping_add_plain (2 * s) 2 (omega arith) in
        rw plain (elim (ℕ_discrete slot.seq (2 * s + 2)) [
          | yes same ↦ rw ((==_iff slot.seq (2 * s + 2)).1 same) (low, omega arith, λ _. refl)
          | no moved ↦ rw (ne→==_false slot.seq (2 * s + 2) moved) (omega arith)
        ])
    read_step-Reads (copying s off out) (low, inside, right) =
        let plain = wrapping_add_plain (2 * s) 2 (omega arith) in
        elim (Bool-cases (ltb off len)) [
          | inl more ↦
              let h : off < len = ground arith in
              let (_, fits) = chunk_len_bounds len off h in
              rw more (
                low,
                fits,
                λ e.
                    ap (λ l. load_chunk slot.bytes l len off) (right e)
                    ∙ load_chunk_lem slot.bytes (message s) len off h (shows s e),
              )
          | inr done ↦
              let all : off ≡ len = ground arith in
              rw (done, plain)
                (elim (ℕ_discrete slot.seq (2 * s + 2)) [
                  | yes same ↦
                      rw ((==_iff slot.seq (2 * s + 2)).1 same)
                        (right same ∙ ap (read_bytes (message s) 0) all)
                  | no moved ↦ rw (ne→==_false slot.seq (2 * s + 2) moved) (omega arith)
                ])
        ]
    read_step-Reads (accepted s out) r = r
    read_step-Reads (refused s) r = r

  ask_step-Reads :
      (seq tail s : ℕ) (pc : ReaderPc)
      → 2 * tail ≤ seq
      → Reads len message seq pc
      → Reads len message seq (ask_step tail pc s)
  unfolding ask_step
  ask_step-Reads seq tail s pc shown r = elim (Bool-cases (ltb s tail)) [
    | inl past ↦ let h : s < tail = ground arith in rw past (omega arith)
    | inr ahead ↦ rw ahead r
  ]

  -- A step of the producer raises the generation or leaves it.
  produce_step-Writes :
      (capacity : ℕ) (slot : Slot) (tail : ℕ) (pc : ProducerPc)
      → length slot.bytes ≡ len
      → 2 * tail ≤ slot.seq
      → 2 * next_of pc + 2 < word_mod
      → Writes len message slot tail pc
      → let (slot', tail', pc') = produce_step capacity len message slot tail pc in
        (length slot'.bytes ≡ len)
        × (2 * tail' ≤ slot'.seq)
        × (slot.seq ≤ slot'.seq)
        × (next_of pc' ≤ next_of pc + capacity)
        × (0 < capacity → Writes len message slot' tail' pc')
  unfolding produce_step
  produce_step-Writes capacity slot tail (ready s) sized shown small (early, past, shows) =
      let plain = wrapping_add_plain (2 * s) 1 (omega arith) in
      (
        sized,
        omega arith,
        omega arith,
        omega arith,
        λ _. (early, plain, omega arith, λ i h. absurd (omega arith)),
      )
  produce_step-Writes capacity slot tail (writing s off) sized shown small
        (early, odd, inside, agrees) =
      let plain = wrapping_add_plain (2 * s) 2 small in
      elim (Bool-cases (ltb off len)) [
        | inl more ↦
            let h : off < len = ground arith in
            let (_, fits) = chunk_len_bounds len off h in
            let (sized', agrees') = store_chunk_lem (message s) slot.bytes len off h sized agrees in
            rw more (sized', shown, omega arith, omega arith, λ _. (early, odd, fits, agrees'))
        | inr done ↦
            let all : off ≡ len = ground arith in
            rw done (
              sized,
              omega arith,
              omega arith,
              omega arith,
              λ _. (early, plain, λ i h. agrees i (omega arith)),
            )
      ]
  produce_step-Writes capacity slot tail (stored s) sized shown small (early, even, whole) = (
    sized,
    omega arith,
    omega arith,
    omega arith,
    λ pos. (omega arith, omega arith, Writes-Shows slot tail (stored s) (early, even, whole)),
  )

  seq_small :
      (slot : Slot) (tail : ℕ) (pc : ProducerPc)
      → 2 * next_of pc + 2 < word_mod
      → Writes len message slot tail pc
      → slot.seq < word_mod
  seq_small slot tail (ready s) small (_, past, _) = omega arith
  seq_small slot tail (writing s off) small (_, odd, _, _) = omega arith
  seq_small slot tail (stored s) small (_, even, _) = omega arith

  update-Reads :
      (seq i : ℕ) (reader : ℕ → ReaderPc) (pc : ReaderPc)
      → ((j : ℕ) → Reads len message seq (reader j))
      → Reads len message seq pc
      → (j : ℕ) → Reads len message seq (update reader i pc j)
  update-Reads seq i reader pc all new j = elim (Bool-cases (i == j)) [
    | inl here ↦ rw here new
    | inr there ↦ rw there (all j)
  ]

  pub step-IsConsistent :
      (capacity : ℕ) (turn : Turn) (y : System)
      → 0 < capacity
      → 2 * next_of y.producer + 2 < word_mod
      → IsConsistent len message y
      → let y' = step capacity len message y turn in
        IsConsistent len message y' × (next_of y'.producer ≤ next_of y.producer + capacity)
  unfolding step
  step-IsConsistent capacity produces y pos small v =
      let (sized, shown, later, next, writer) =
        produce_step-Writes capacity y.slot y.tail y.producer v.sized v.shown small v.writer in
      (
        record {
          sized = sized;
          writer = writer pos;
          shown = shown;
          readers = λ i. Reads-later y.slot.seq _ (y.reader i) later (v.readers i);
        },
        next,
      )
  step-IsConsistent capacity (asks i s) y pos small v = (
    record {
      sized = v.sized;
      writer = v.writer;
      shown = v.shown;
      readers =
          update-Reads y.slot.seq i y.reader (ask_step y.tail (y.reader i) s) v.readers
            (ask_step-Reads y.slot.seq y.tail s (y.reader i) v.shown (v.readers i));
    },
    omega arith,
  )
  step-IsConsistent capacity (reads i) y pos small v = (
    record {
      sized = v.sized;
      writer = v.writer;
      shown = v.shown;
      readers = update-Reads y.slot.seq i y.reader (read_step len y.slot (y.reader i)) v.readers (
          read_step-Reads y.slot (Writes-Shows y.slot y.tail y.producer v.writer)
            (seq_small y.slot y.tail y.producer small v.writer) (y.reader i) (v.readers i));
    },
    omega arith,
  )

  run-IsConsistent :
      (capacity : ℕ) (turns : List Turn) (y : System)
      → 0 < capacity
      → 2 * (next_of y.producer + capacity * length turns) + 2 < word_mod
      → IsConsistent len message y
      → IsConsistent len message (run capacity len message y turns)
  unfolding run
  run-IsConsistent capacity [] y pos room v = v
  run-IsConsistent capacity (turn ∷ turns) y pos room v =
      let more : capacity * suc (length turns) ≡ capacity * length turns + capacity =
        mul-suc capacity (length turns) in
      let (v', next) = step-IsConsistent capacity turn y pos (omega arith) v in
      run-IsConsistent capacity turns (step capacity len message y turn) pos (omega arith) v'

  -- Whatever the order of the accesses of one producer and any number of readers to a slot: a read that
  -- is accepted has the message asked for, whole, and one is refused only if the slot has moved on to a
  -- later generation. Each message has `len` bytes, the slot takes every `capacity`-th from the first
  -- on, and the generations do not wrap.
  pub run-accepted :
      (capacity first : ℕ) (bytes : List ℕ) (turns : List Turn)
      → 0 < capacity
      → length bytes ≡ len
      → ((s : ℕ) → length (message s) ≡ len)
      → 2 * (first + capacity * length turns) + 2 < word_mod
      → let y = run capacity len message (untouched bytes first) turns in
        (i s : ℕ)
        → ((out : List ℕ) → y.reader i ≡ accepted s out → out ≡ message s)
          × (y.reader i ≡ refused s → 2 * s + 2 < y.slot.seq)
  unfolding untouched
  run-accepted capacity first bytes turns pos size sizes room i s =
      let start : IsConsistent len message (untouched bytes first) = record {
        sized = size;
        writer = (omega arith, omega arith, λ m e. absurd (omega arith));
        shown = omega arith;
        readers = λ j. tt;
      } in
      let v = run-IsConsistent capacity turns (untouched bytes first) pos room start in
      let y = run capacity len message (untouched bytes first) turns in
      (
        λ out e.
            let right : Reads len message y.slot.seq (accepted s out) =
              subst (Reads len message y.slot.seq) e (v.readers i) in
            right ∙ (ap (read_bytes (message s) 0) (sym (sizes s)) ∙ read_bytes-all (message s)),
        λ e. subst (Reads len message y.slot.seq) e (v.readers i),
      )
