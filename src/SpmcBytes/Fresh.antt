-- ===== src/SpmcBytes/Fresh.antt =====
-- A new message ring serves its first consumer.
use rust_rb.Base.{
  ℕ, ◌^◌, ◌≤◌, ◌<◌, ◌≡◌, refl, some, [], arith, wrapping_sub, IsPow2, length-replicate,
  get_or-replicate, returns, panics, zero_capacity, capacity_too_large,
}
use rust_rb.Base.Slots.{max_capacity}
use rust_rb.Policy.Rounding.{round_capacity_lem}
use rust_rb.Registry.{free_slot, fresh_chunk}
use rust_rb.Registry.Change.{free_slot-Gates, Within-of_slots}
use rust_rb.SpmcBytes.{
  Shared, BytesConsumer, fresh_shared, fresh_producer, fresh_of, with_wait_strategies,
}
use rust_rb.SpmcBytes.Gated.{IsGated}
use rust_rb.SpmcBytes.Push.{Queue}
use rust_rb.SpmcBytes.Members.{subscribe_from-Joins}

pub fresh-IsGated :
    (capacity : ℕ)
    → IsPow2 capacity
    → 8 ≤ capacity
    → capacity ≤ max_capacity
    → IsGated capacity (fresh_producer capacity) (fresh_shared capacity)
unfolding fresh_producer fresh_shared wrapping_sub
fresh-IsGated capacity p legal small = record {
  power = p;
  legal = legal;
  small = small;
  mask = omega arith;
  shared_mask = omega arith;
  written = refl;
  range = omega arith;
  storage = length-replicate capacity 0;
  aligned = refl;
  min_word = omega arith;
  min_near = omega arith;
  gated =
      Within-of_slots 0 _ fresh_chunk
        (λ i t. absurd (free_slot-Gates (rw (get_or-replicate 64 free_slot i) at t)));
  lower = tt;
}

-- A ring asked for from 1 to `2 ^ 63` bytes is made with one consumer, which has no messages to read,
-- and has at least as many bytes; for 0 bytes, and for more than that, it panics.
pub with_wait_strategies-Joins :
    (n : ℕ)
    → (0 < n
        → n ≤ 2 ^ 63
        → (capacity : ℕ) × (s : Shared) × (c : BytesConsumer) × (with_wait_strategies n
            ≡ returns (s, fresh_producer capacity, some c))
          × IsGated capacity (fresh_producer capacity) s
          × Queue capacity s c []
          × (n ≤ capacity))
      × (with_wait_strategies 0 ≡ panics zero_capacity)
      × (2 ^ 63 < n → with_wait_strategies n ≡ panics capacity_too_large)
unfolding with_wait_strategies fresh_of fresh_shared
with_wait_strategies-Joins n =
    let (none_asked, large, made) = round_capacity_lem n 8 (3, refl) (omega arith) in
    (
      λ pos small.
          let (capacity, e, power, above, floor, below, _) = made pos small in
          let gate = fresh-IsGated capacity power floor below in
          let (c, s, joined, held, gated, _, _) = (subscribe_from-Joins gate).0 refl in
          (capacity, s, c, rw (e, joined) refl, gated, held, above),
      rw none_asked refl,
      λ over. rw (large over) refl,
    )
