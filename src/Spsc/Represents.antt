-- ===== src/Spsc/Represents.antt =====
-- Which queue a ring holds: from the read cursor on, slot by slot, the elements of the queue, and
-- free slots up to the capacity.
use rust_rb.Base.{
  ℕ, suc, ◌+◌, ◌-◌, ◌≤◌, ◌<◌, ◌≡◌, ◌∙◌, sym, true, Option, none, some, List, [], ◌∷◌, ◌++◌, arith,
  IsPow2, word_mod, wrapping_add, wrapping_sub, length, get_elem?, get_or, set, get_or-set_self,
  get_or-set_ne, get_elem?-none, get_elem?-snoc_self, get_elem?-snoc_ne,
}
use rust_rb.Base.Slots.{max_capacity, slot-inj, slot-lt, slot_around}
use rust_rb.Base.Words.{wrapping_add_zero, wrapping_add_assoc}
use native.Mathlib.Decide.{ℕ_discrete}
use rust_rb.Policy.{publish_batch}
use rust_rb.Cursor.{slot_index, owns_ring}
use rust_rb.Cursor.Invariant
use rust_rb.Cursor.Publish.{IsPrompt}
use rust_rb.Spsc.{Ring, max_publish_batch}

module _ {ℓ} {A : Type ℓ} where
  -- The slots of a buffer, `capacity` of them from the cursor `read` on, hold `q` and are else free.
  abbrev pub Slots : ℕ → List (Option A) → ℕ → List A → Type ℓ
  Slots capacity buffer read q =
      (i : ℕ)
      → i < capacity
      → get_or buffer (slot_index (wrapping_add read i) (capacity - 1)) none ≡ get_elem? q i

  pub record Holds (capacity : ℕ) (r : Ring A) (q : List A) : Type ℓ where
    pub power : IsPow2 capacity
    pub engine : Invariant.IsValid capacity r.producer r.consumer r.shared
    pub prompt : IsPrompt (publish_batch capacity max_publish_batch) r.consumer
    pub owned : owns_ring r.consumer.anchor ≡ true
    pub storage : length r.buffer ≡ capacity
    pub count : wrapping_sub r.producer.write_cursor r.consumer.read_cursor ≡ length q
    pub slots : Slots capacity r.buffer r.consumer.read_cursor q

  -- Writing the slot just past the queue appends to it.
  pub Slots-set :
      (capacity : ℕ) (buffer : List (Option A)) (read write : ℕ) (q : List A) (x : A)
      → IsPow2 capacity
      → capacity ≤ max_capacity
      → length buffer ≡ capacity
      → length q < capacity
      → write ≡ wrapping_add read (length q)
      → Slots capacity buffer read q
      → Slots capacity (set buffer (slot_index write (capacity - 1)) (some x)) read (q ++ (x ∷ []))
  Slots-set capacity buffer read write q x p small storage room e held i hi =
      rw e (elim (ℕ_discrete i (length q)) [
        | yes here ↦ rw here (
            get_or-set_self buffer _ (some x) none
              (rw storage (slot-lt capacity read (length q) p small))
            ∙ sym (get_elem?-snoc_self q x))
        | no other ↦
            get_or-set_ne buffer _ _ (some x) none
              (λ same. other (sym (slot-inj capacity read (length q) i p small room hi same)))
            ∙ held i hi
            ∙ sym (get_elem?-snoc_ne q x i other)
      ])

  -- Freeing the slot at the read cursor, and stepping past it, takes the first element off.
  pub Slots-step :
      (capacity : ℕ) (buffer : List (Option A)) (read : ℕ) (x : A) (q : List A)
      → IsPow2 capacity
      → capacity ≤ max_capacity
      → read < word_mod
      → length buffer ≡ capacity
      → length q < capacity
      → Slots capacity buffer read (x ∷ q)
      → Slots capacity (set buffer (slot_index read (capacity - 1)) none) (wrapping_add read 1) q
  Slots-step capacity buffer read x q p small word storage room held i hi =
      let start : wrapping_add read 0 ≡ read = wrapping_add_zero read word in
      let next : 1 + i ≡ suc i = omega arith in
      rw (wrapping_add_assoc read 1 i, next)
        (elim (ℕ_discrete (suc i) capacity) [
          | yes last ↦
              rw (last, slot_around capacity read p small word)
                (get_or-set_self buffer _ none none
                    (rw (storage, ← start) (slot-lt capacity read 0 p small))
                  ∙ sym (get_elem?-none q i (omega arith)))
          | no inner ↦
              get_or-set_ne buffer _ _ none none (λ same. absurd (
                omega (
                  arith,
                  slot-inj capacity read 0 (suc i) p small (omega arith) (omega arith)
                      (rw start same),
                )))
              ∙ held (suc i) (omega arith)
        ])
