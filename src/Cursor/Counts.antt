-- ===== src/Cursor/Counts.antt =====
-- How one unit written or read changes what lies between the cursors of a valid engine.
use rust_rb.Base.{ℕ, ◌+◌, ◌≤◌, ◌<◌, ◌≡◌, ◌≢◌, arith, word_mod, wrapping_add, wrapping_sub}
use rust_rb.Cursor.{Shared, ProducerCore, ConsumerCore}
use rust_rb.Cursor.Invariant.{ahead, IsValid}

module _ {capacity : ℕ} {p : ProducerCore} {c : ConsumerCore} {s : Shared} where
  pub count-write :
      (n : ℕ)
      → IsValid capacity p c s
      → 0 < n
      → ahead p p.write_cursor + n ≤ capacity
      → (wrapping_sub p.write_cursor c.read_cursor < capacity)
        × (wrapping_sub (wrapping_add p.write_cursor n) c.read_cursor
            ≡ wrapping_sub p.write_cursor c.read_cursor + n)
  unfolding wrapping_add wrapping_sub
  count-write n v pos room = omega arith

  pub count-read :
      (n : ℕ)
      → IsValid capacity p c s
      → n ≤ wrapping_sub c.write_cursor_cache c.read_cursor
      → (ahead p c.read_cursor + n ≤ ahead p c.write_cursor_cache)
        × (wrapping_sub p.write_cursor (wrapping_add c.read_cursor n) + n
            ≡ wrapping_sub p.write_cursor c.read_cursor)
  unfolding wrapping_add wrapping_sub
  count-read n v seen = omega arith

  pub count-bound :
      IsValid capacity p c s
      → (wrapping_sub p.write_cursor c.read_cursor ≤ capacity)
        × (wrapping_sub c.write_cursor_cache c.read_cursor
            ≤ wrapping_sub p.write_cursor c.read_cursor)
  unfolding wrapping_sub
  count-bound v = omega arith

  -- A consumer that steps over units which it has seen, without publishing.
  pub skip-IsValid :
      (n : ℕ)
      → IsValid capacity p c s
      → n ≤ wrapping_sub c.write_cursor_cache c.read_cursor
      → IsValid capacity p (record c { read_cursor = wrapping_add c.read_cursor n }) s
        × (wrapping_sub c.write_cursor_cache (wrapping_add c.read_cursor n) + n
            ≡ wrapping_sub c.write_cursor_cache c.read_cursor)
  unfolding wrapping_add wrapping_sub
  skip-IsValid n v h = (omega arith, omega arith)

  -- The items seen and those not yet seen make up what lies between the cursors.
  pub count_seen :
      IsValid capacity p c s
      → (wrapping_sub c.write_cursor_cache c.read_cursor
            + wrapping_sub p.write_cursor c.write_cursor_cache
          ≡ wrapping_sub p.write_cursor c.read_cursor)
        × (wrapping_add c.read_cursor (wrapping_sub c.write_cursor_cache c.read_cursor)
            ≡ c.write_cursor_cache)
        × (wrapping_add c.read_cursor (wrapping_sub p.write_cursor c.read_cursor) ≡ p.write_cursor)
        × (wrapping_add c.write_cursor_cache (wrapping_sub p.write_cursor c.write_cursor_cache)
            ≡ p.write_cursor)
  unfolding wrapping_add wrapping_sub
  count_seen v = (omega arith, omega arith, omega arith, omega arith)

  -- A write leaves the items seen, and adds to those not yet seen.
  pub count_unseen-write :
      (n : ℕ)
      → IsValid capacity p c s
      → ahead p p.write_cursor + n ≤ capacity
      → (wrapping_sub (wrapping_add p.write_cursor n) c.write_cursor_cache
          ≡ wrapping_sub p.write_cursor c.write_cursor_cache + n)
        × (wrapping_sub p.write_cursor c.read_cursor + n ≤ capacity)
  unfolding wrapping_add wrapping_sub
  count_unseen-write n v room = (omega arith, omega arith)

  -- What the producer counts is what is left to read and what is read but not published.
  pub count_published :
      IsValid capacity p c s
      → wrapping_sub p.write_cursor s.read_cursor
        ≡ wrapping_sub p.write_cursor c.read_cursor + wrapping_sub c.read_cursor c.published
  unfolding wrapping_sub
  count_published v = omega arith

pub pos_of_ne : (a b : ℕ) → a < word_mod → b < word_mod → a ≢ b → 1 ≤ wrapping_sub a b
unfolding wrapping_sub
pos_of_ne a b ha hb h = omega arith
