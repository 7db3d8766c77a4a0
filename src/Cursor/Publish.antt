-- ===== src/Cursor/Publish.antt =====
-- The consumer's adaptive publishes: what may stay deferred, what never does, and who may store.
use rust_rb.Base.{
  ℕ, ◌+◌, ◌≤◌, ◌<◌, ◌≡◌, ◌≢◌, ◌↔◌, ◌⊎◌, Bool, true, false, arith, word_mod, wrapping_add,
  wrapping_sub,
}
use rust_rb.Policy.{no_item}
use rust_rb.Cursor.{
  Shared, ProducerCore, ConsumerCore, owns_ring, teardown_allowed, occupancy, is_full_view,
  available, refresh, has_item, flush, publishes, advance, flush_pending, drop_consumer,
}
use rust_rb.Cursor.Invariant.{IsValid}

-- Less than `batch` units of progress are unpublished, and none once the consumer has caught up
-- with its view of the producer.
pub record IsPrompt (batch : ℕ) (c : ConsumerCore) : Type 0 where
  pub bounded : wrapping_sub c.read_cursor c.published < batch
  pub caught_up : c.read_cursor ≡ c.write_cursor_cache → c.published ≡ c.read_cursor

module _ (c : ConsumerCore) (s : Shared) (amount batch : ℕ) (publish_now : Bool) where
  pub read_cursor-advance :
      (advance c s amount batch publish_now).0.read_cursor ≡ wrapping_add c.read_cursor amount
  unfolding advance flush
  read_cursor-advance = ground arith

  pub write_cursor_cache-advance :
      (advance c s amount batch publish_now).0.write_cursor_cache ≡ c.write_cursor_cache
  unfolding advance flush
  write_cursor_cache-advance = ground arith

  pub anchor-advance : (advance c s amount batch publish_now).0.anchor ≡ c.anchor
  unfolding advance flush
  anchor-advance = ground arith

-- Every `advance` leaves the consumer prompt; and if it was told to publish now, or passed the
-- last item that it knew of, the shared cursor is the read cursor (of a handle that owns the ring).
pub advance-IsPrompt :
    (c : ConsumerCore) (s : Shared) (amount batch : ℕ) (publish_now : Bool)
    → 0 < batch
    → c.read_cursor < word_mod
    → let (c', s') = advance c s amount batch publish_now in
      IsPrompt batch c'
      × (c'.read_cursor ≡ wrapping_add c.read_cursor amount)
      × (owns_ring c.anchor ≡ true
          → (publish_now ≡ true) ⊎ (c'.read_cursor ≡ c.write_cursor_cache)
          → s'.read_cursor ≡ c'.read_cursor)
unfolding advance publishes flush wrapping_sub wrapping_add
advance-IsPrompt c s amount batch publish_now h w =
    (ground arith, ground arith, λ o t. ground arith)

-- A reload of the producer's cursor keeps a prompt consumer prompt.
pub refresh-IsPrompt :
    {capacity : ℕ} {p : ProducerCore} {c : ConsumerCore} {s : Shared} (batch : ℕ)
    → IsValid capacity p c s
    → IsPrompt batch c
    → IsPrompt batch (refresh c s)
unfolding refresh wrapping_sub
refresh-IsPrompt batch v prompt = ground arith

-- On a valid engine the consumer finds an item exactly when the producer has published past the
-- read cursor. A consumer that is prompt stays so, and one that finds nothing has all its progress
-- published: it never waits with the producer's space withheld.
pub has_item_iff :
    {capacity : ℕ} {p : ProducerCore} {c : ConsumerCore} {s : Shared} (batch : ℕ)
    → IsValid capacity p c s
    → IsPrompt batch c
    → (((has_item c s).0 ≡ true) ↔ (s.write_cursor ≢ c.read_cursor))
      × IsPrompt batch (has_item c s).1
      × ((has_item c s).0 ≡ false → s.read_cursor ≡ c.read_cursor)
unfolding has_item refresh no_item wrapping_sub
has_item_iff batch v prompt =
    ((λ h. ground arith, λ h. ground arith), ground arith, λ h. ground arith)

-- The producer's `len` counts what the consumer has left and what it has consumed unpublished, so
-- it never under-counts, and it over-counts by less than the batch; `is_full_view` follows that
-- count.
pub occupancy-available :
    {capacity : ℕ} {p : ProducerCore} {c : ConsumerCore} {s : Shared} (batch : ℕ)
    → IsValid capacity p c s
    → IsPrompt batch c
    → (occupancy s ≡ available c s + wrapping_sub c.read_cursor c.published)
      × (available c s ≤ occupancy s)
      × (occupancy s < available c s + batch)
      × ((is_full_view p s ≡ true) ↔ (occupancy s ≡ capacity))
unfolding occupancy available is_full_view wrapping_sub
occupancy-available batch v prompt =
    (omega arith, omega arith, omega arith, (λ h. ground arith, λ h. ground arith))

-- A handle that has lost its lease, or that a forked process inherited, stores nothing when it
-- drops; without the lease no consuming operation stores either. A handle that may tear down
-- publishes all its progress by dropping.
pub drop_consumer_lem :
    (c : ConsumerCore) (s : Shared) (amount batch : ℕ) (publish_now : Bool)
    → (owns_ring c.anchor ≡ false
        → ((advance c s amount batch publish_now).1 ≡ s)
          × ((flush_pending c s).1 ≡ s)
          × ((drop_consumer c s).1 ≡ s))
      × (teardown_allowed c.anchor ≡ false → drop_consumer c s ≡ (c, s))
      × (teardown_allowed c.anchor ≡ true
          → s.read_cursor ≡ c.published
          → (drop_consumer c s).1.read_cursor ≡ c.read_cursor)
unfolding advance flush flush_pending drop_consumer owns_ring teardown_allowed
drop_consumer_lem c s amount batch publish_now =
    (λ h. (ground arith, ground arith, ground arith), λ h. ground arith, λ h k. ground arith)
