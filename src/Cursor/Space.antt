-- ===== src/Cursor/Space.antt =====
-- The producer's space check: exact against the freshest published cursor, and the starving flag.
use rust_rb.Base.{
  ℕ, ◌+◌, ◌^◌, ◌≤◌, ◌<◌, ◌≡◌, ◌↔◌, true, false, arith, word_mod, wrapping_add, wrapping_sub,
}
use rust_rb.Policy.{lacks_space}
use rust_rb.Cursor.{Shared, ProducerCore, ConsumerCore, has_space}
use rust_rb.Cursor.Invariant.{IsValid}

-- What the producer knows on its own of the two cursors that it compares.
pub record IsSane (capacity : ℕ) (p : ProducerCore) (s : Shared) : Type 0 where
  pub small : capacity ≤ 2 ^ 63
  pub mask : p.mask + 1 ≡ capacity
  pub write_word : p.write_cursor < word_mod
  pub cache_word : p.read_cursor_cache < word_mod
  pub read_word : s.read_cursor < word_mod
  pub cached : wrapping_sub p.write_cursor p.read_cursor_cache ≤ capacity
  pub fresh : wrapping_sub p.write_cursor s.read_cursor ≤ capacity

pub IsSane-of_IsValid :
    {capacity : ℕ} {p : ProducerCore} {c : ConsumerCore} {s : Shared}
    → IsValid capacity p c s
    → IsSane capacity p s
unfolding wrapping_sub
IsSane-of_IsValid v = omega arith

module _ {capacity : ℕ} {p : ProducerCore} {s : Shared} where
  -- A passed check leaves `needed` units free of the cached view, and moves no cursor.
  pub has_space_room :
      (needed : ℕ)
      → IsSane capacity p s
      → needed < 2 ^ 63
      → (has_space p s needed).0 ≡ true
      → let (_, p', s') = has_space p s needed in
        (wrapping_sub p'.write_cursor p'.read_cursor_cache + needed ≤ capacity)
        × (p'.write_cursor ≡ p.write_cursor)
        × (s'.write_cursor ≡ s.write_cursor)
        × (s'.read_cursor ≡ s.read_cursor)
        × IsSane capacity p' s'
  unfolding has_space lacks_space wrapping_sub wrapping_add
  has_space_room needed v small h = ground arith

  -- A failed check has reloaded the cache, has seen too little room, and leaves the flag up.
  pub has_space_full :
      (needed : ℕ)
      → IsSane capacity p s
      → needed < 2 ^ 63
      → (has_space p s needed).0 ≡ false
      → let (_, p', s') = has_space p s needed in
        (capacity < wrapping_sub p.write_cursor s.read_cursor + needed)
        × (p'.read_cursor_cache ≡ s.read_cursor)
        × (p'.write_cursor ≡ p.write_cursor)
        × (p'.raised_starving ≡ true)
        × (s'.write_cursor ≡ s.write_cursor)
        × (s'.read_cursor ≡ s.read_cursor)
        × IsSane capacity p' s'
  unfolding has_space lacks_space wrapping_sub wrapping_add
  has_space_full needed v small h = ground arith

pub write_cursor-has_space :
    (p : ProducerCore) (s : Shared) (needed : ℕ)
    → (has_space p s needed).1.write_cursor ≡ p.write_cursor
unfolding has_space
write_cursor-has_space p s needed = ground arith

-- On a valid engine the space check passes exactly when `needed` units are free of the read cursor
-- that the consumer last published; when it fails, the shared starving flag is 1.
pub has_space_iff :
    {capacity : ℕ} {p : ProducerCore} {c : ConsumerCore} {s : Shared} (needed : ℕ)
    → IsValid capacity p c s
    → needed < 2 ^ 63
    → (((has_space p s needed).0 ≡ true)
        ↔ (wrapping_sub p.write_cursor s.read_cursor + needed ≤ capacity))
      × ((has_space p s needed).0 ≡ false → (has_space p s needed).2.starving ≡ 1)
unfolding has_space lacks_space wrapping_sub wrapping_add
has_space_iff needed v small = ((λ h. ground arith, λ h. ground arith), λ h. ground arith)
