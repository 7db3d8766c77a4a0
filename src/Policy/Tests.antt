-- ===== src/Policy/Tests.antt =====
-- The policy at concrete sizes.
use rust_rb.Base.{
  ℕ, ◌^◌, ◌≤◌, ◌<◌, ◌≡◌, refl, arith, IsPow2, returns, panics, zero_capacity, capacity_too_large,
}
use rust_rb.Policy.{publish_batch, round_capacity}
use rust_rb.Policy.Rounding.{round_capacity_lem}

rounds_up : (round_capacity 1000 1 ≡ returns 1024) × (round_capacity 3 8 ≡ returns 8)
unfolding round_capacity
rounds_up = (refl, refl)

batches : (publish_batch 4 64 ≡ 1) × (publish_batch 256 64 ≡ 32) × (publish_batch 4096 64 ≡ 64)
unfolding publish_batch
batches = (refl, refl, refl)

round_capacity_lem_example :
    (round_capacity 0 8 ≡ panics zero_capacity)
    × (2 ^ 63 < 1000 → round_capacity 1000 8 ≡ panics capacity_too_large)
    × (0 < 1000
        → 1000 ≤ 2 ^ 63
        → (c : ℕ) × (round_capacity 1000 8 ≡ returns c)
          × IsPow2 c
          × (1000 ≤ c)
          × (8 ≤ c)
          × (c ≤ 2 ^ 63)
          × ((j : ℕ) → 1000 ≤ 2 ^ j → 8 ≤ 2 ^ j → c ≤ 2 ^ j))
round_capacity_lem_example = round_capacity_lem 1000 8 (3, refl) (omega arith)
