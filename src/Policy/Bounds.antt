-- ===== src/Policy/Bounds.antt =====
-- What the occupancy predicates decide, and the range of the deferred-publish bound.
use rust_rb.Base.{
  ℕ, ◌+◌, ◌/◌, ◌≤◌, ◌<◌, ◌≡◌, ◌↔◌, true, arith, word_mod, wrapping_add, wrapping_sub,
}
use rust_rb.Policy.{publish_batch, lacks_space, no_item}

-- The deferred-publish bound of a nonzero clamp lies in `[1, max_batch]`, and it is at most an
-- eighth of the capacity, or 1.
pub publish_batch_bounds :
    (capacity max_batch : ℕ)
    → 0 < max_batch
    → (0 < publish_batch capacity max_batch)
      × (publish_batch capacity max_batch ≤ max_batch)
      × (publish_batch capacity max_batch ≤ capacity / 8 + 1)
unfolding publish_batch
publish_batch_bounds capacity max_batch h = ground arith

-- Where occupancy and request together do not fill the word range, the wrapped test says "full"
-- exactly when they exceed the capacity, wherever the cursors stand, also across the wrap of `usize`.
pub lacks_space_iff :
    (write needed read capacity : ℕ)
    → write < word_mod
    → read < word_mod
    → capacity < word_mod
    → wrapping_sub write read + needed < word_mod
    → (lacks_space write needed read capacity ≡ true)
      ↔ (capacity < wrapping_sub write read + needed)
unfolding lacks_space wrapping_add wrapping_sub
lacks_space_iff write needed read capacity hw hr hc h = (λ t. ground arith, λ t. ground arith)

-- The wrapped test says "empty" exactly when the two cursors are equal.
pub no_item_iff :
    (write read : ℕ)
    → write < word_mod
    → read < word_mod
    → (no_item write read ≡ true) ↔ (write ≡ read)
unfolding no_item wrapping_sub
no_item_iff write read hw hr = (λ t. ground arith, λ t. ground arith)
