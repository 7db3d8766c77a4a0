-- ===== src/Spsc/Client.antt =====
-- Any sequence of calls of the two handles against the queue: first in, first out.
use rust_rb.Base.{
  ℕ, ◌≤◌, ◌≡◌, ◌∙◌, sym, ap, inl, inr, Option, none, some, List, [], ◌∷◌, ◌++◌, append-nil,
  append_assoc, map, arith, length,
}
use rust_rb.Cursor.Counts.{count-bound}
use rust_rb.Spsc.{Ring, Popped, nothing, item, undefined, try_push, try_pop}
use rust_rb.Spsc.Represents.{Holds}
use rust_rb.Spsc.Calls.{try_push_lem, try_pop_lem}

-- A client's call of one of the two handles.
pub data Call {ℓ} (A : Type ℓ) : Type ℓ where
  push : A → Call A
  pop : Call A

-- The elements that the ring took, those that it gave (`none` for a slot that held none), and the
-- ring after the calls.
abbrev pub Log {ℓ} : Type ℓ → Type ℓ
Log A = List A × List (Option A) × Ring A

module _ {ℓ} {A : Type ℓ} where
  abbrev log_push : A → Option A → Log A → Log A
  log_push x none (took, gave, r) = (x ∷ took, gave, r)
  log_push x (some _) log = log

  abbrev log_pop : Popped A → Log A → Log A
  log_pop nothing log = log
  log_pop (item x) (took, gave, r) = (took, some x ∷ gave, r)
  log_pop undefined (took, gave, r) = (took, none ∷ gave, r)

  unfoldable pub run : Ring A → List (Call A) → Log A
  run r [] = ([], [], r)
  run r (push x ∷ calls) = let (back, r') = try_push r x in log_push x back (run r' calls)
  run r (pop ∷ calls) = let (out, r') = try_pop r in log_pop out (run r' calls)

  -- What a log says of a ring that held `q`.
  abbrev pub Fifo : ℕ → List A → Log A → Type ℓ
  Fifo capacity q (took, gave, r) =
      (left : List A) × Holds capacity r left
      × (map some (q ++ took) ≡ gave ++ map some left)
      × (length left ≤ capacity)

  -- Any calls of the two handles, in any order: what the ring gave, then what it still holds, is
  -- what it held at the start, then what it took: every element once, in order, none lost and none
  -- invented, and never more than the capacity queued.
  pub run-Fifo :
      {capacity : ℕ} (calls : List (Call A)) {r : Ring A} {q : List A}
      → Holds capacity r q
      → Fifo capacity q (run r calls)
  unfolding run
  run-Fifo [] {q} h =
      (q, h, ap (map some) (append-nil q), omega (arith, h.count, count-bound h.engine))
  run-Fifo (push x ∷ calls) {r} {q} h = elim (try_push_lem x h) [
    | inl (_, took, h') ↦
        let (left, holds, e, le) = run-Fifo calls h' in
        rw took (left, holds, ap (map some) (sym (append_assoc q (x ∷ []) _)) ∙ e, le)
    | inr (_, _, refused, h') ↦ rw refused (run-Fifo calls h')
  ]
  run-Fifo (pop ∷ calls) {r} {q = []} h =
      let (out, h') = try_pop_lem [] h in rw out (run-Fifo calls h')
  run-Fifo (pop ∷ calls) {r} {q = x ∷ rest} h =
      let (out, h') = try_pop_lem (x ∷ rest) h in
      let (left, holds, e, le) = run-Fifo calls h' in
      rw out (left, holds, ap (λ l. some x ∷ l) e, le)
