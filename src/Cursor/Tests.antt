-- ===== src/Cursor/Tests.antt =====
-- The engine's theorems at a concrete engine of capacity 8 whose cursors have wrapped: 5 units
-- published by the producer, 1 consumed and not yet published.
use rust_rb.Base.{
  ◌+◌, ◌-◌, ◌^◌, ◌≤◌, ◌<◌, ◌≡◌, ◌≢◌, ◌↔◌, ◌⊎◌, false, true, some, [], ◌∷◌, arith, wrapping_add,
  wrapping_sub,
}
use rust_rb.Cursor.{
  Shared, ProducerCore, ConsumerCore, heap, shm, owns_ring, teardown_allowed, has_space, has_item,
  wait_for_space, wait_for_item, occupancy, available, is_full_view, advance, flush_pending,
  drop_consumer,
}
use rust_rb.Cursor.Invariant.{IsValid}
use rust_rb.Cursor.Space.{IsSane-of_IsValid, has_space_iff}
use rust_rb.Cursor.Publish.{
  IsPrompt, advance-IsPrompt, has_item_iff, occupancy-available, drop_consumer_lem,
}
use rust_rb.Cursor.Waiting.{wait_for_space_returns, wait_for_item_returns}

abbrev words : Shared
words = record {
  write_cursor = 2;
  read_cursor = 2 ^ 64 - 3;
  starving = 0;
  producer_wakes = 0;
  consumer_wakes = 4;
}

abbrev writer : ProducerCore
writer = record {
  mask = 7;
  write_cursor = 2;
  read_cursor_cache = 2 ^ 64 - 4;
  raised_starving = false;
  anchor = heap;
}

abbrev reader : ConsumerCore
reader = record {
  mask = 7;
  read_cursor = 2 ^ 64 - 2;
  published = 2 ^ 64 - 3;
  write_cursor_cache = 1;
  anchor = heap;
}

-- The same consumer on a region whose lease another process took.
abbrev zombie : ConsumerCore
zombie = record reader { anchor = shm false true }

abbrev drained : ConsumerCore
drained = record reader { read_cursor = 2; published = 2; write_cursor_cache = 2 }

engine-IsValid : IsValid 8 writer reader words
unfolding wrapping_sub
engine-IsValid = omega arith

reader-IsPrompt : IsPrompt 2 reader
unfolding wrapping_sub
reader-IsPrompt = ground arith

has_space_iff_example :
    (((has_space writer words 3).0 ≡ true)
      ↔ (wrapping_sub writer.write_cursor words.read_cursor + 3 ≤ 8))
    × ((has_space writer words 3).0 ≡ false → (has_space writer words 3).2.starving ≡ 1)
has_space_iff_example = has_space_iff 3 engine-IsValid (omega arith)

advance-IsPrompt_example :
    let (c', s') = advance reader words 2 2 false in
    IsPrompt 2 c'
    × (c'.read_cursor ≡ wrapping_add reader.read_cursor 2)
    × (owns_ring reader.anchor ≡ true
        → (false ≡ true) ⊎ (c'.read_cursor ≡ reader.write_cursor_cache)
        → s'.read_cursor ≡ c'.read_cursor)
advance-IsPrompt_example = advance-IsPrompt reader words 2 2 false (omega arith) (omega arith)

has_item_iff_example :
    (((has_item reader words).0 ≡ true) ↔ (words.write_cursor ≢ reader.read_cursor))
    × IsPrompt 2 (has_item reader words).1
    × ((has_item reader words).0 ≡ false → words.read_cursor ≡ reader.read_cursor)
has_item_iff_example = has_item_iff 2 engine-IsValid reader-IsPrompt

occupancy-available_example :
    (occupancy words ≡ available reader words + wrapping_sub reader.read_cursor reader.published)
    × (available reader words ≤ occupancy words)
    × (occupancy words < available reader words + 2)
    × ((is_full_view writer words ≡ true) ↔ (occupancy words ≡ 8))
occupancy-available_example = occupancy-available 2 engine-IsValid reader-IsPrompt

drop_consumer_lem_example :
    (owns_ring zombie.anchor ≡ false
      → ((advance zombie words 2 2 true).1 ≡ words)
        × ((flush_pending zombie words).1 ≡ words)
        × ((drop_consumer zombie words).1 ≡ words))
    × (teardown_allowed zombie.anchor ≡ false → drop_consumer zombie words ≡ (zombie, words))
    × (teardown_allowed zombie.anchor ≡ true
        → words.read_cursor ≡ zombie.published
        → (drop_consumer zombie words).1.read_cursor ≡ zombie.read_cursor)
drop_consumer_lem_example = drop_consumer_lem zombie words 2 2 true

-- Four units are free only after the consumer's second publish.
wait_for_space_returns_example :
    (p' : ProducerCore) × (s' : Shared) × (wait_for_space
        ((2 ^ 64 - 3) ∷ (2 ^ 64 - 2) ∷ [])
        writer
        words
        4
      ≡ some (p', s'))
    × (wrapping_sub p'.write_cursor p'.read_cursor_cache + 4 ≤ 8)
    × (p'.write_cursor ≡ 2)
    × (s'.write_cursor ≡ 2)
unfolding wrapping_sub
wait_for_space_returns_example =
    wait_for_space_returns ((2 ^ 64 - 3) ∷ (2 ^ 64 - 2) ∷ []) writer words 4
      (IsSane-of_IsValid engine-IsValid) (omega arith) (omega arith) (omega arith)

wait_for_item_returns_example :
    (c' : ConsumerCore) × (s' : Shared) × (wait_for_item (2 ∷ 2 ∷ 3 ∷ []) drained words
      ≡ some (c', s'))
    × (c'.write_cursor_cache ≢ 2)
    × (c'.read_cursor ≡ 2)
    × (c'.published ≡ 2)
wait_for_item_returns_example =
    wait_for_item_returns (2 ∷ 2 ∷ 3 ∷ []) drained words (omega arith) (omega arith) (omega arith)
      (omega arith) (omega arith)
