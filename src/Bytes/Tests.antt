-- ===== src/Bytes/Tests.antt =====
-- Runs of the byte ring at concrete inputs, and its theorems at inputs that meet their hypotheses: a
-- ring of 16 bytes, in which a record of 8 bytes at offset 12 starts over behind padding.
use rust_rb.Base.{
  ◌-◌, ℕ, ◌≤◌, ◌<◌, ◌≡◌, inl, refl, true, false, some, List, [], ◌∷◌, arith, length, wrapping_add,
  wrapping_sub, Bool, returns, panics, message_too_long,
}
use rust_rb.Base.Memory.{write_bytes, read_bytes, write_u32, read_u32}
use rust_rb.Policy.{publish_batch, lacks_space, no_item}
use rust_rb.Cursor.{
  wait_for_space, channel, has_space, publish, has_item, refresh, advance, publishes, flush,
  owns_ring, occupancy, available, flush_pending, producer_starving,
}
use rust_rb.Frame.{
  align_up, record_len, max_message_len, frame, write_frame, decode_record, payload,
}
use rust_rb.Frame.Fits.{IsPlaced}
use rust_rb.Bytes.{
  Ring, fresh, WriteSlot, claim, consumer_max_message_len, producer_capacity, consumer_capacity,
  try_claim, fill, commit, try_push, try_pop, view, drop_msg, drain, write_record, payload_at,
  producer_is_empty, consumer_is_empty, producer_max_message_len,
}
use rust_rb.Bytes.Stored.{taken}
use rust_rb.Bytes.Holds.{fresh-Holds}
use rust_rb.Bytes.Calls.{Queue, push_record-Holds, Pushes, try_push-Pushes, Pops, try_pop-Pops}
use rust_rb.Bytes.Client
use rust_rb.Bytes.Client.{Call, Delivers, run, run-Delivers}

abbrev empty : Ring
empty = fresh 16

empty-Queue : Queue 16 empty []
empty-Queue = ([], [], fresh-Holds 16 (4, refl) (omega arith) (omega arith), refl)

abbrev calls : List Call
calls =
    Client.push []
    ∷ Client.push (1 ∷ 2 ∷ 3 ∷ [])
    ∷ Client.pop
    ∷ Client.pop
    ∷ Client.push (9 ∷ [])
    ∷ Client.pop
    ∷ Client.push (1 ∷ 1 ∷ 1 ∷ 1 ∷ 1 ∷ [])
    ∷ []

padded_run :
    ((run empty calls).0 ≡ [] ∷ (1 ∷ 2 ∷ 3 ∷ []) ∷ (9 ∷ []) ∷ [])
    × ((run empty calls).1 ≡ [] ∷ (1 ∷ 2 ∷ 3 ∷ []) ∷ (9 ∷ []) ∷ [])
unfolding run fresh channel try_push try_pop view drop_msg write_record frame record_len align_up
    max_message_len write_frame decode_record payload has_space lacks_space publish has_item no_item
    refresh advance publishes flush publish_batch producer_starving wrapping_add wrapping_sub
    owns_ring write_bytes read_bytes write_u32 read_u32
padded_run = (refl, refl)

run-Delivers_example : Delivers 16 [] (run empty calls)
run-Delivers_example = run-Delivers calls empty-Queue

try_push-Pushes_example :
    (length {A = ℕ} (7 ∷ []) ≤ max_message_len 16
      → (pad : ℕ) × (out : Bool × Ring) × (frame
            (16 - 1)
            empty.producer.write_cursor
            (length {A = ℕ} (7 ∷ []))
          ≡ returns (pad, taken (7 ∷ []) pad))
        × (try_push empty (7 ∷ []) ≡ returns out)
        × Pushes 16 empty [] (7 ∷ []) pad out)
    × (max_message_len 16 < length {A = ℕ} (7 ∷ [])
        → try_push empty (7 ∷ []) ≡ panics message_too_long)
try_push-Pushes_example = try_push-Pushes (7 ∷ []) empty-Queue

abbrev one : Ring
one = write_record empty 0 3 (some (1 ∷ 2 ∷ 3 ∷ []))

first-IsPlaced : IsPlaced 16 15 0 3 0
unfolding record_len align_up wrapping_add
first-IsPlaced = record {
  at = inl (refl, refl);
  contiguous = omega arith;
  total = omega arith;
  multiple = refl;
}

one-Queue : Queue 16 one ((1 ∷ 2 ∷ 3 ∷ []) ∷ [])
unfolding fresh channel record_len align_up wrapping_add wrapping_sub
one-Queue = (
  [],
  (1 ∷ 2 ∷ 3 ∷ []) ∷ [],
  push_record-Holds (fresh-Holds 16 (4, refl) (omega arith) (omega arith)) 0 (1 ∷ 2 ∷ 3 ∷ [])
      first-IsPlaced (omega arith) (omega arith),
  refl,
)

try_pop-Pops_example : Pops 16 ((1 ∷ 2 ∷ 3 ∷ []) ∷ []) (try_pop one)
try_pop-Pops_example = try_pop-Pops ((1 ∷ 2 ∷ 3 ∷ []) ∷ []) one-Queue

-- A slot claimed, filled and committed is the message pushed; `drain` hands both out and publishes.
abbrev claimed : Ring
claimed =
    let slot : WriteSlot = record { pad = 0; len = 3 } in
    commit (fill empty slot (1 ∷ 2 ∷ 3 ∷ [])) slot

claimed_run :
    (try_claim empty 3 ≡ returns (some (record { pad = 0; len = 3 }), empty))
    × (claimed ≡ one)
    × ((drain 16 claimed).0 ≡ (1 ∷ 2 ∷ 3 ∷ []) ∷ [])
    × ((drain 16 claimed).1.shared.read_cursor ≡ 8)
    × (consumer_is_empty claimed ≡ false)
    × (producer_is_empty (drain 16 claimed).1 ≡ true)
    × (producer_max_message_len claimed ≡ 4)
    × (consumer_max_message_len claimed ≡ 4)
    × (producer_capacity claimed ≡ 16)
    × (consumer_capacity claimed ≡ 16)
    × (claim [] empty 3 ≡ returns (some (record { pad = 0; len = 3 }, empty)))
unfolding try_claim fill commit payload_at drain flush_pending available occupancy consumer_is_empty
    producer_is_empty producer_max_message_len fresh channel write_record frame record_len align_up
    max_message_len write_frame decode_record payload has_space lacks_space publish refresh flush
    wrapping_add wrapping_sub owns_ring write_bytes read_bytes write_u32 read_u32
    consumer_max_message_len producer_capacity consumer_capacity claim wait_for_space
claimed_run = (refl, refl, refl, refl, refl, refl, refl, refl, refl, refl, refl)
