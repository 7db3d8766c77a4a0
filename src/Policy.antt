-- ===== src/Policy.antt =====
-- The sizing and occupancy policy of src/cursor.rs: the deferred-publish bound, the rounding of a
-- requested capacity, and the wrapped fullness and emptiness predicates.
pub mod Bounds
pub mod Rounding
mod Tests
use rust_rb.Base.{
  ℕ, zero, suc, ◌+◌, ◌*◌, ◌/◌, max, Bool, Option, none, some, if◌then◌else◌, ltb, leb, ◌==◌,
  Outcome, returns, panics, zero_capacity, capacity_too_large, wrapping_add, wrapping_sub,
}

-- `capacity / 8`, clamped to `[1, max_batch]`.
unfoldable pub publish_batch : ℕ → ℕ → ℕ
publish_batch capacity max_batch =
    let batch = capacity / 8 in
    if batch == 0 then 1 else if ltb max_batch batch then max_batch else batch

-- The first of `p`, `2 * p`, … within `rounds` of them that is at least `n`.
pow2_from : ℕ → ℕ → ℕ → Option ℕ
pow2_from zero p n = none
pow2_from (suc rounds) p n =
    let rest = pow2_from rounds (2 * p) n in if leb n p then some p else rest

-- `usize::checked_next_power_of_two`: a 64-bit word holds the powers `2 ^ 0` to `2 ^ 63`.
checked_next_power_of_two : ℕ → Option ℕ
checked_next_power_of_two n = pow2_from 64 1 n

-- `.expect(…)`, then `.max(floor)`
rounded : Option ℕ → ℕ → Outcome ℕ
rounded none floor = panics capacity_too_large
rounded (some c) floor = returns (max c floor)

unfoldable pub round_capacity : ℕ → ℕ → Outcome ℕ
unfolding rounded checked_next_power_of_two pow2_from
round_capacity min_capacity floor =
    if min_capacity == 0
    then panics zero_capacity
    else rounded (checked_next_power_of_two min_capacity) floor

-- Would `needed` more units past `write` overrun a ring whose consumer has read up to `read`?
unfoldable pub lacks_space : ℕ → ℕ → ℕ → ℕ → Bool
lacks_space write needed read capacity =
    ltb capacity (wrapping_sub (wrapping_add write needed) read)

unfoldable pub no_item : ℕ → ℕ → Bool
no_item write read = wrapping_sub write read == 0
