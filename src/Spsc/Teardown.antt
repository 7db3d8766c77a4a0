-- ===== src/Spsc/Teardown.antt =====
-- Dropping both handles: the elements still queued are dropped, each exactly once.
use rust_rb.Base.{
  ℕ, zero, suc, ◌+◌, ◌-◌, ◌≤◌, ◌<◌, ◌≡◌, refl, ap₂, true, ne→==_false, ==_iff, Option, none, some,
  List, [], ◌∷◌, map, arith, length, get_elem?, get_or, word_mod, wrapping_add, wrapping_sub,
}
use rust_rb.Base.Words.{
  wrapping_add_zero, wrapping_add_assoc, wrapping_add-lt, sub-advance_one, eq_of_sub-zero,
}
use rust_rb.Cursor.{
  Anchor, ConsumerCore, Shared, heap, teardown_allowed, slot_index, drop_consumer, flush_pending,
  flush,
}
use rust_rb.Cursor.Counts.{count-bound}
use rust_rb.Cursor.Publish.{drop_consumer_lem}
use rust_rb.Spsc.{Ring, cleanup, drop_ring}
use rust_rb.Spsc.Represents.{Holds}

write_cursor-drop_consumer :
    (c : ConsumerCore) (s : Shared) → (drop_consumer c s).1.write_cursor ≡ s.write_cursor
unfolding drop_consumer flush_pending flush
write_cursor-drop_consumer c s = ground arith

heap_allows : {a : Anchor} → a ≡ heap → teardown_allowed a ≡ true
unfolding teardown_allowed
heap_allows e = rw e

module _ {ℓ} {A : Type ℓ} where
  -- The slots from `head` on hold the elements of the list.
  abbrev Live : List (Option A) → ℕ → ℕ → List A → Type ℓ
  Live buffer mask head q =
      (i : ℕ)
      → i < length q
      → get_or buffer (slot_index (wrapping_add head i) mask) none ≡ get_elem? q i

  cleanup-Live :
      (q : List A) (rounds : ℕ) (buffer : List (Option A)) (mask head tail : ℕ)
      → head < word_mod
      → tail < word_mod
      → wrapping_sub tail head ≡ length q
      → length q ≤ rounds
      → Live buffer mask head q
      → cleanup rounds buffer mask head tail ≡ map some q
  unfolding cleanup
  cleanup-Live [] zero buffer mask head tail hh ht e le live = refl
  cleanup-Live [] (suc rounds) buffer mask head tail hh ht e le live =
      rw ((==_iff head tail).1 (eq_of_sub-zero tail head ht hh e))
  cleanup-Live (x ∷ q) zero buffer mask head tail hh ht e le live = absurd (omega arith)
  cleanup-Live (x ∷ q) (suc rounds) buffer mask head tail hh ht e le live =
      let (ne, less) = sub-advance_one tail head (length q) ht hh e in
      let rest : Live buffer mask (wrapping_add head 1) q = λ i lt.
        let next : 1 + i ≡ suc i = omega arith in
        rw (wrapping_add_assoc head 1 i, next) (live (suc i) (omega arith)) in
      rw (ne→==_false head tail ne) (
        ap₂ ◌∷◌ (rw (wrapping_add_zero head hh) at (live 0 (omega arith))) (
          cleanup-Live q rounds buffer mask (wrapping_add head 1) tail (wrapping_add-lt head 1) ht
            less (omega arith) rest))

  -- With an in-process ring that holds `q`, dropping both handles cleans up the slots of `q`, in
  -- order and each once, and no other: the loop ends within as many rounds as there are elements.
  pub drop_ring_lem :
      {capacity : ℕ} {r : Ring A} (q : List A) (rounds : ℕ)
      → Holds capacity r q
      → r.consumer.anchor ≡ heap
      → length q ≤ rounds
      → drop_ring rounds r ≡ map some q
  unfolding drop_ring
  drop_ring_lem {capacity} {r} q rounds h local enough =
      let v = h.engine in
      let published =
        (drop_consumer_lem r.consumer r.shared 0 0 true).2 (heap_allows local) v.read_published in
      let mask : r.consumer.mask ≡ capacity - 1 = omega arith in
      rw (published, write_cursor-drop_consumer, v.write_published, mask)
        (cleanup-Live q rounds r.buffer (capacity - 1) r.consumer.read_cursor
          r.producer.write_cursor v.read_word v.write_word h.count enough
          (λ i lt. h.slots i (omega (arith, h.count, count-bound v))))
