-- ===== src/Spmc/Queued.antt =====
-- A queue laid out in the slots of a buffer from a cursor on; other slots may hold anything.
use rust_rb.Base.{
  ℕ, suc, ◌+◌, ◌-◌, ◌≤◌, ◌<◌, ◌≡◌, ◌∙◌, sym, Option, none, some, List, [], ◌∷◌, ◌++◌, arith, IsPow2,
  word_mod, wrapping_add, length, length-append, get_elem?, get_or, set, get_or-set_self,
  get_or-set_ne, get_elem?-snoc_self, get_elem?-snoc_ne,
}
use native.Mathlib.Decide.{ℕ_discrete}
use rust_rb.Base.Slots.{max_capacity, slot-inj, slot-lt}
use rust_rb.Base.Words.{wrapping_add_zero, wrapping_add_assoc}
use rust_rb.Spmc.{slot_index}

module _ {ℓ} {A : Type ℓ} where
  abbrev pub Queued : ℕ → List (Option A) → ℕ → List A → Type ℓ
  Queued capacity buffer read q =
      (i : ℕ)
      → i < length q
      → get_or buffer (slot_index (wrapping_add read i) (capacity - 1)) none ≡ get_elem? q i

  module _ (capacity : ℕ) (buffer : List (Option A)) (read : ℕ) where
    pub Queued-head :
        (x : A) (q : List A)
        → read < word_mod
        → Queued capacity buffer read (x ∷ q)
        → get_or buffer (slot_index read (capacity - 1)) none ≡ some x
    Queued-head x q w held = rw (wrapping_add_zero read w) at (held 0 (omega arith))

    pub Queued-tail :
        (x : A) (q : List A)
        → Queued capacity buffer read (x ∷ q)
        → Queued capacity buffer (wrapping_add read 1) q
    Queued-tail x q held i h =
        let next : 1 + i ≡ suc i = omega arith in
        rw (wrapping_add_assoc read 1 i, next) (held (suc i) (omega arith))

    module _ (q : List A) (p : IsPow2 capacity) (small : capacity ≤ max_capacity)
        (storage : length buffer ≡ capacity) (room : length q < capacity)
        (held : Queued capacity buffer read q) where
      -- What is stored just past a queue leaves it.
      pub Queued-kept :
          (v : Option A)
          → Queued capacity
              (set buffer (slot_index (wrapping_add read (length q)) (capacity - 1)) v)
              read
              q
      Queued-kept v i h =
          get_or-set_ne buffer _ _ v none (λ same.
            absurd
              (omega (arith, slot-inj capacity read (length q) i p small room (omega arith) same)))
          ∙ held i h

      -- An element stored there joins it.
      pub Queued-snoc :
          (x : A)
          → Queued capacity
              (set buffer (slot_index (wrapping_add read (length q)) (capacity - 1)) (some x))
              read
              (q ++ (x ∷ []))
      Queued-snoc x i h = elim (ℕ_discrete i (length q)) [
        | yes here ↦ rw here (
            get_or-set_self buffer _ (some x) none
              (rw storage (slot-lt capacity read (length q) p small))
            ∙ sym (get_elem?-snoc_self q x))
        | no other ↦
            Queued-kept (some x) i (let size = length-append q (x ∷ []) in omega arith)
            ∙ sym (get_elem?-snoc_ne q x i other)
      ]
