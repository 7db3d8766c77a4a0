-- ===== src/Spmc/Holds.antt =====
-- Which elements a consumer of the ring still has to read, and that a push adds to the queue of each.
use rust_rb.Base.{
  ℕ, ◌+◌, ◌-◌, ◌≤◌, ◌<◌, ◌≡◌, refl, ap, true, none, List, [], ◌∷◌, ◌++◌, arith, wrapping_add,
  wrapping_sub, length, length-append,
}
use rust_rb.Base.Words.{wrapping_sub_plain, wrapping_add_plain}
use rust_rb.Registry.{Slot, slot_at, detached}
use rust_rb.Registry.Scan.{Gates}
use rust_rb.Registry.Change.{Within-slot}
use rust_rb.Spmc.{Shared, Producer, Consumer, drop_overwritten, publish, write}
use rust_rb.Spmc.Queued.{Queued, Queued-kept, Queued-snoc}
use rust_rb.Spmc.Gated.{IsGated}

module _ {ℓ} {A : Type ℓ} where
  -- The consumer owns a marked slot with its published cursor, and has the queue left to read.
  pub record Holds (capacity : ℕ) (s : Shared A) (c : Consumer) (q : List A) : Type ℓ where
    pub mask : c.mask + 1 ≡ capacity
    pub slot : slot_at s.registry c.slot_idx ≡ record { active = true; cursor = c.published }
    pub published_read : c.published ≤ c.read_cursor
    pub read_cached : c.read_cursor ≤ c.write_cache
    pub cached_written : c.write_cache ≤ s.write_cursor
    pub written_word : s.write_cursor < detached
    pub count : length q + c.read_cursor ≡ s.write_cursor
    pub items : Queued capacity s.buffer c.read_cursor q

  pub Holds-Gates :
      {capacity : ℕ} {s : Shared A} {c : Consumer} {q : List A}
      → Holds capacity s c q
      → Gates (slot_at s.registry c.slot_idx)
  Holds-Gates h =
      let w = h.written_word in
      rw h.slot (record { active = refl; live = λ e. absurd (omega arith) })

  module _ {capacity : ℕ} {p : Producer} {s : Shared A} {c : Consumer} {q : List A}
      (v : IsGated capacity p s) (h : Holds capacity s c q) where
    -- A consumer lies within the lag of the cached minimum.
    pub Holds-lag : s.write_cursor ≤ c.published + wrapping_sub p.next_seq p.cached_min
    Holds-lag =
        let (_, l) =
          Within-slot p.next_seq (wrapping_sub p.next_seq p.cached_min) s.registry v.gated
            c.slot_idx (Holds-Gates h) in
        let at = ap (λ (t : Slot). t.cursor) h.slot in
        let plain = wrapping_sub_plain p.next_seq c.published (omega arith) (omega arith) in
        omega (arith, rw at at l)

    -- The producer's slot lies just past every queue.
    next_slot : p.next_seq ≡ wrapping_add c.read_cursor (length q)
    next_slot =
        let count = h.count in
        omega (arith, wrapping_add_plain c.read_cursor (length q) (omega arith))

    module _ (room : wrapping_sub p.next_seq p.cached_min + 1 ≤ capacity)
        (range : p.next_seq + 1 < detached) where
      short : length q < capacity
      short = let lag = Holds-lag in let count = h.count in omega arith

      masks : (p.mask ≡ capacity - 1) × (c.mask ≡ capacity - 1)
      masks = let m = h.mask in omega arith

      pub drop_overwritten-Holds : Holds capacity (drop_overwritten p s).1 c q
      unfolding drop_overwritten
      drop_overwritten-Holds = record {
        mask = h.mask;
        slot = h.slot;
        published_read = h.published_read;
        read_cached = h.read_cached;
        cached_written = h.cached_written;
        written_word = h.written_word;
        count = h.count;
        items =
            rw (masks.0, next_slot)
              (Queued-kept capacity s.buffer c.read_cursor q v.power v.small v.storage short h.items
                none);
      }

      pub write-Holds : (x : A) → Holds capacity (write p s x).1 c (q ++ (x ∷ []))
      unfolding write publish
      write-Holds x =
          let next : wrapping_add p.next_seq 1 ≡ p.next_seq + 1 =
            wrapping_add_plain p.next_seq 1 (omega arith) in
          let size = length-append q (x ∷ []) in
          record {
            mask = h.mask;
            slot = h.slot;
            published_read = h.published_read;
            read_cached = h.read_cached;
            cached_written = (let w = h.cached_written in omega arith);
            written_word = omega arith;
            count = (let n = h.count in omega arith);
            items =
                rw (masks.0, next_slot)
                  (Queued-snoc capacity s.buffer c.read_cursor q v.power v.small v.storage short
                    h.items x);
          }
