-- ===== src/Spsc/Tests.antt =====
-- Runs of the ring at concrete inputs, and its theorems at inputs that meet their hypotheses: a ring
-- of four slots that holds two elements on both sides of the wrap of `usize`.
use rust_rb.Base.{
  ◌++◌, map, ℕ, zero, suc, ◌-◌, ◌^◌, ◌≡◌, refl, false, none, some, List, [], ◌∷◌, arith,
  wrapping_add, wrapping_sub, panics, zero_capacity,
}
use rust_rb.Policy.{publish_batch, lacks_space, no_item, round_capacity}
use rust_rb.Cursor.{
  channel, heap, owns_ring, has_space, publish, has_item, refresh, advance, publishes, flush,
}
use rust_rb.Spsc.{Ring, fresh, with_wait_strategies, try_push, try_pop, drop_ring}
use rust_rb.Spsc.Represents.{Slots, Holds}
use rust_rb.Spsc.Calls.{Pushes, try_push_lem, Pops, try_pop_lem}
use rust_rb.Spsc.Client.{Call, push, pop, Fifo, run, run-Fifo}
use rust_rb.Spsc.Teardown.{drop_ring_lem}

-- Slot 3 holds the older element; the producer has not seen a publish since it wrote slot 2.
abbrev wrapped : Ring ℕ
wrapped = record {
  buffer = some 8 ∷ none ∷ none ∷ some 7 ∷ [];
  shared = record {
    write_cursor = 1;
    read_cursor = 2 ^ 64 - 1;
    starving = 0;
    producer_wakes = 3;
    consumer_wakes = 5;
  };
  producer = record {
    mask = 3;
    write_cursor = 1;
    read_cursor_cache = 2 ^ 64 - 2;
    raised_starving = false;
    anchor = heap;
  };
  consumer = record {
    mask = 3;
    read_cursor = 2 ^ 64 - 1;
    published = 2 ^ 64 - 1;
    write_cursor_cache = 0;
    anchor = heap;
  };
}

wrapped-Slots : Slots 4 wrapped.buffer wrapped.consumer.read_cursor (7 ∷ 8 ∷ [])
unfolding wrapping_add
wrapped-Slots zero h = refl
wrapped-Slots (suc zero) h = refl
wrapped-Slots (suc (suc zero)) h = refl
wrapped-Slots (suc (suc (suc zero))) h = refl
wrapped-Slots (suc (suc (suc (suc i)))) h = absurd (omega arith)

wrapped-Holds : Holds 4 wrapped (7 ∷ 8 ∷ [])
unfolding wrapping_sub owns_ring publish_batch
wrapped-Holds = record {
  power = (2, refl);
  engine = omega arith;
  prompt = ground arith;
  owned = refl;
  storage = refl;
  count = refl;
  slots = wrapped-Slots;
}

abbrev calls : List (Call ℕ)
calls = push 9 ∷ push 10 ∷ push 11 ∷ pop ∷ pop ∷ push 12 ∷ pop ∷ []

wrapped-run :
    ((run wrapped calls).0 ≡ 9 ∷ 10 ∷ 12 ∷ [])
    × ((run wrapped calls).1 ≡ some 7 ∷ some 8 ∷ some 9 ∷ [])
unfolding run try_push try_pop has_space lacks_space publish has_item no_item refresh advance
    publishes flush publish_batch wrapping_add wrapping_sub owns_ring
wrapped-run = (refl, refl)

-- Of a ring of 16 slots with 15 elements in it the push of 18 is refused: the consumer has read 2
-- elements and published one of the reads.
refused_with_room :
    let (took, gave, r) = run {A = ℕ} (fresh 16) (
      map push (1 ∷ 2 ∷ 3 ∷ 4 ∷ 5 ∷ 6 ∷ 7 ∷ 8 ∷ 9 ∷ 10 ∷ 11 ∷ 12 ∷ 13 ∷ 14 ∷ 15 ∷ 16 ∷ [])
      ++ (pop ∷ pop ∷ push 17 ∷ push 18 ∷ [])) in
    (took ≡ 1 ∷ 2 ∷ 3 ∷ 4 ∷ 5 ∷ 6 ∷ 7 ∷ 8 ∷ 9 ∷ 10 ∷ 11 ∷ 12 ∷ 13 ∷ 14 ∷ 15 ∷ 16 ∷ 17 ∷ [])
    × (gave ≡ some 1 ∷ some 2 ∷ [])
    × (r.consumer.read_cursor ≡ 2)
    × (r.consumer.published ≡ 1)
unfolding run fresh channel try_push try_pop has_space lacks_space publish has_item no_item refresh
    advance publishes flush publish_batch wrapping_add wrapping_sub owns_ring
refused_with_room = (refl, refl, refl, refl)

no_ring_of_zero : with_wait_strategies {A = ℕ} 0 ≡ panics zero_capacity
unfolding with_wait_strategies round_capacity
no_ring_of_zero = refl

run-Fifo_example : Fifo 4 (7 ∷ 8 ∷ []) (run wrapped calls)
run-Fifo_example = run-Fifo calls wrapped-Holds

try_push_lem_example : Pushes 4 wrapped (7 ∷ 8 ∷ []) 9 (try_push wrapped 9)
try_push_lem_example = try_push_lem 9 wrapped-Holds

try_pop_lem_example : Pops 4 (7 ∷ 8 ∷ []) (try_pop wrapped)
try_pop_lem_example = try_pop_lem (7 ∷ 8 ∷ []) wrapped-Holds

drop_ring_lem_example : drop_ring 2 wrapped ≡ some 7 ∷ some 8 ∷ []
drop_ring_lem_example = drop_ring_lem (7 ∷ 8 ∷ []) 2 wrapped-Holds refl (omega arith)
