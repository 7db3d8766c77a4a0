-- ===== src/Seqlock/Tests.antt =====
-- Schedules of one slot, and the theorems on the protocol and on the copies at concrete inputs: a
-- payload of nine bytes, a word and one byte.
use rust_rb.Base.{
  ℕ, ◌+◌, ◌*◌, ◌≤◌, ◌<◌, ◌≡◌, refl, some, List, [], ◌∷◌, arith, replicate, wrapping_add,
}
use rust_rb.Base.Memory.{read_bytes, write_bytes}
use rust_rb.AtomicCopy.{store_chunk, load_chunk, copy_in_lanes, copy_out_lanes}
use rust_rb.AtomicCopy.Whole.{copy_out_lanes-copy_in_lanes}
use rust_rb.Broadcast.{read_valid}
use rust_rb.Seqlock.{
  Slot, ready, loading, accepted, refused, Turn, produces, asks, reads, produce_step, read_step,
  ask_step, step, run, untouched,
}
use rust_rb.Seqlock.Steps.{run-accepted}
use rust_rb.Seqlock.Alone.{
  reads_alone, reads_alone-read_valid, answered, produces_alone, produces_alone-ends,
}

abbrev message : ℕ → List ℕ
message s = replicate 9 s

abbrev nine : List ℕ
nine = replicate 9 0

-- Message 1 is pushed, and one reader begins to copy it. Message 5 overwrites its first word before a
-- second reader, which is behind, copies anything; the first has the word already and tears nothing.
abbrev turns : List Turn
turns =
    produces
    ∷ produces
    ∷ produces
    ∷ produces
    ∷ produces
    ∷ asks 0 1
    ∷ reads 0
    ∷ reads 0
    ∷ reads 0
    ∷ asks 1 1
    ∷ reads 1
    ∷ produces
    ∷ produces
    ∷ reads 0
    ∷ reads 1
    ∷ reads 1
    ∷ reads 1
    ∷ []

abbrev first_read : List Turn
first_read =
    produces
    ∷ produces
    ∷ produces
    ∷ produces
    ∷ produces
    ∷ asks 0 1
    ∷ reads 0
    ∷ reads 0
    ∷ reads 0
    ∷ reads 0
    ∷ []

schedules_run :
    ((run 4 9 message (untouched nine 1) first_read).reader 0 ≡ accepted 1 (message 1))
    × ((run 4 9 message (untouched nine 1) turns).reader 0 ≡ refused 1)
    × ((run 4 9 message (untouched nine 1) turns).reader 1 ≡ refused 1)
unfolding run step untouched produce_step read_step ask_step store_chunk load_chunk read_bytes
    write_bytes wrapping_add
schedules_run = (refl, refl, refl)

run-accepted_example :
    ((out : List ℕ)
      → (run 4 9 message (untouched nine 1) first_read).reader 0 ≡ accepted 1 out
      → out ≡ message 1)
    × ((run 4 9 message (untouched nine 1) first_read).reader 0 ≡ refused 1
        → 2 * 1 + 2 < (run 4 9 message (untouched nine 1) first_read).slot.seq)
run-accepted_example =
    run-accepted 9 message 4 1 nine first_read (omega arith) refl (λ s. refl) (omega arith) 0 1

abbrev full : Slot
full = record { seq = 4; bytes = message 1 }

reads_alone-read_valid_example :
    reads_alone (9 + 2 + 0) 9 full (loading 1)
    ≡ answered 1
        (read_valid (record { seq = 4; value = some (message 1) }) (wrapping_add (2 * 1) 2))
reads_alone-read_valid_example = reads_alone-read_valid full 1 0

produces_alone-ends_example :
    (n : ℕ) × (n ≤ 9 + 3)
    × (produces_alone 4 9 message n (full, 2, ready 5)
        ≡ (record { seq = wrapping_add (2 * 5) 2; bytes = message 5 }, 6, ready 9))
produces_alone-ends_example = produces_alone-ends 4 9 message full 2 5 refl refl

copy_out_lanes-copy_in_lanes_example :
    copy_out_lanes 3 (copy_in_lanes 3 (7 ∷ 8 ∷ 9 ∷ []) nine 3 0) [] 3 0 ≡ 7 ∷ 8 ∷ 9 ∷ []
copy_out_lanes-copy_in_lanes_example =
    copy_out_lanes-copy_in_lanes nine (7 ∷ 8 ∷ 9 ∷ []) (omega arith)
