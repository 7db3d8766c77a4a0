-- ===== src/Spmc/Fresh.antt =====
-- A new ring serves its first consumer.
use rust_rb.Base.{
  ℕ, ◌^◌, ◌≤◌, ◌<◌, ◌≡◌, refl, sym, ap, Bool, Option, none, some, [], ◌∷◌, arith, IsPow2,
  wrapping_sub, length-replicate, get_or-replicate, returns, panics, zero_capacity,
  capacity_too_large, ◌∙◌,
}
use rust_rb.Policy.Rounding.{round_capacity_lem}
use rust_rb.Registry.{free_slot, fresh_chunk}
use rust_rb.Registry.Change.{free_slot-Gates, Within-of_slots}
use rust_rb.Spmc.{Shared, Consumer, fresh_shared, fresh_producer, fresh_of, with_wait_strategies}
use rust_rb.Spmc.Gated.{IsGated}
use rust_rb.Spmc.Members.{subscribe_from_lem}
use rust_rb.Spmc.Peers.{closed-subscribe_from}
use rust_rb.Spmc.Refine.{Serves}

module _ {A : Type 0} (needs_drop : Bool) where
  pub fresh-IsGated :
      (capacity : ℕ)
      → IsPow2 capacity
      → 2 ≤ capacity
      → capacity ≤ 2 ^ 63
      → IsGated {A = A} capacity (fresh_producer capacity) (fresh_shared needs_drop capacity)
  unfolding fresh_producer fresh_shared wrapping_sub
  fresh-IsGated capacity p two small = record {
    power = p;
    two = two;
    small = small;
    mask = omega arith;
    shared_mask = omega arith;
    written = refl;
    range = omega arith;
    storage = length-replicate capacity none;
    min_word = omega arith;
    min_near = omega arith;
    gated =
        Within-of_slots 0 _ fresh_chunk
          (λ i t. absurd (free_slot-Gates (rw (get_or-replicate 64 free_slot i) at t)));
    lower = tt;
  }

  -- A ring asked for from 1 to `2 ^ 63` slots is made with one consumer, which has the empty queue, and
  -- has at least as many slots; for 0 slots, and for more than that, it panics.
  pub with_wait_strategies-Serves :
      (n : ℕ)
      → (0 < n
          → n ≤ 2 ^ 63
          → (capacity : ℕ) × (s : Shared A) × (c : Consumer) × (with_wait_strategies needs_drop n
              ≡ returns (s, fresh_producer capacity, some c))
            × Serves capacity
                (record { shared = s; producer = fresh_producer capacity; consumers = c ∷ [] })
                ([] ∷ [])
            × (n ≤ capacity))
        × (with_wait_strategies {A = A} needs_drop 0 ≡ panics zero_capacity)
        × (2 ^ 63 < n → with_wait_strategies {A = A} needs_drop n ≡ panics capacity_too_large)
  unfolding with_wait_strategies fresh_of fresh_shared
  with_wait_strategies-Serves n =
      let (none_asked, large, made) = round_capacity_lem n 2 (1, refl) (omega arith) in
      (
        λ pos small.
            let (capacity, e, power, above, floor, below, _) = made pos small in
            let gate = fresh-IsGated capacity power floor below in
            let (c, s, joined, held, gated, _, _) = (subscribe_from_lem gate).0 refl in
            let alive : s.closed ≡ 0 =
              ap (λ (t : Option Consumer × Shared A). t.1.closed) (sym joined)
              ∙ closed-subscribe_from _ in
            (
              capacity,
              s,
              c,
              rw (e, joined) refl,
              record { gate = gated; open_ring = alive; peers = (held, tt, tt) },
              above,
            ),
        rw none_asked refl,
        λ over. rw (large over) refl,
      )
