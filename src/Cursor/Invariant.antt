-- ===== src/Cursor/Invariant.antt =====
-- What the two handles and the shared words always satisfy, and that every operation keeps it.
use rust_rb.Base.{
  ℕ, ◌+◌, ◌^◌, ◌≤◌, ◌<◌, ◌≡◌, Bool, true, arith, if◌then◌else◌, word_mod, wrapping_add,
  wrapping_sub,
}
use rust_rb.Cursor.{
  Shared, ProducerCore, ConsumerCore, owns_ring, channel, has_space, publish, refresh, has_item,
  flush, advance,
}

-- How far a cursor lies ahead of the producer's cached view of the read cursor, which is the oldest
-- cursor of all.
abbrev pub ahead : ProducerCore → ℕ → ℕ
ahead p x = wrapping_sub x p.read_cursor_cache

abbrev pub flag_word : Bool → ℕ
flag_word up = if up then 1 else 0

-- The six cursors stand in the order: cached read, published read, read, cached write, published
-- write (equal to the private one), all within one capacity; the flag is up exactly while the
-- producer remembers that it raised it.
pub record IsValid (capacity : ℕ) (p : ProducerCore) (c : ConsumerCore) (s : Shared) : Type 0 where
  pub small : capacity ≤ 2 ^ 63
  pub producer_mask : p.mask + 1 ≡ capacity
  pub consumer_mask : c.mask + 1 ≡ capacity
  pub cache_word : p.read_cursor_cache < word_mod
  pub write_word : p.write_cursor < word_mod
  pub read_word : c.read_cursor < word_mod
  pub published_word : c.published < word_mod
  pub write_cache_word : c.write_cursor_cache < word_mod
  pub write_published : s.write_cursor ≡ p.write_cursor
  pub read_published : s.read_cursor ≡ c.published
  pub cached_published : ahead p c.published ≤ ahead p c.read_cursor
  pub read_cached : ahead p c.read_cursor ≤ ahead p c.write_cursor_cache
  pub cached_written : ahead p c.write_cursor_cache ≤ ahead p p.write_cursor
  pub within : ahead p p.write_cursor ≤ capacity
  pub flag : s.starving ≡ flag_word p.raised_starving

-- `channel` starts a valid engine for every capacity up to `2 ^ 63`.
pub channel-IsValid :
    (capacity : ℕ)
    → 0 < capacity
    → capacity ≤ 2 ^ 63
    → let (s, p, c) = channel capacity in IsValid capacity p c s
unfolding channel wrapping_sub
channel-IsValid capacity h k = ground arith

module _ {capacity : ℕ} {p : ProducerCore} {c : ConsumerCore} {s : Shared} where
  pub has_space-IsValid :
      (needed : ℕ)
      → IsValid capacity p c s
      → let (_, p', s') = has_space p s needed in IsValid capacity p' c s'
  unfolding has_space wrapping_sub
  has_space-IsValid needed v = ground arith

  pub publish-IsValid :
      (amount : ℕ)
      → IsValid capacity p c s
      → ahead p p.write_cursor + amount ≤ capacity
      → let (p', s') = publish p s amount in IsValid capacity p' c s'
  unfolding publish wrapping_sub wrapping_add
  publish-IsValid amount v h = ground arith

  pub refresh-IsValid : IsValid capacity p c s → IsValid capacity p (refresh c s) s
  unfolding refresh
  refresh-IsValid v = ground arith

  pub has_item-IsValid : IsValid capacity p c s → IsValid capacity p (has_item c s).1 s
  unfolding has_item refresh
  has_item-IsValid v = ground arith

  pub flush-IsValid :
      IsValid capacity p c s
      → owns_ring c.anchor ≡ true
      → let (c', s') = flush c s in IsValid capacity p c' s'
  unfolding flush
  flush-IsValid v h = ground arith

  -- `advance` over items that the consumer has seen, by a handle that owns the ring, keeps the
  -- engine valid: the six cursors stay in order within one capacity, across the wrap of `usize`.
  pub advance-IsValid :
      (amount batch : ℕ) (publish_now : Bool)
      → IsValid capacity p c s
      → owns_ring c.anchor ≡ true
      → ahead p c.read_cursor + amount ≤ ahead p c.write_cursor_cache
      → let (c', s') = advance c s amount batch publish_now in IsValid capacity p c' s'
  unfolding advance flush wrapping_add wrapping_sub
  advance-IsValid amount batch publish_now v h k = ground arith
