-- ===== src/Spsc/Calls.antt =====
-- What a client of the ring sees of each call.
use rust_rb.Base.{
  ℕ, ◌+◌, ◌^◌, ◌≤◌, ◌<◌, ◌≡◌, ◌⊎◌, refl, inl, inr, Bool-cases, Option, none, some, List, [], ◌∷◌,
  ◌++◌, arith, length, wrapping_sub, returns,
}
use native.Mathlib.Decide.{dec_lt}
use rust_rb.Policy.Rounding.{round_capacity_lem}
use rust_rb.Base.Bits.{IsPow2-pos}
use rust_rb.Policy.{publish_batch}
use rust_rb.Spsc.{
  max_publish_batch, Ring, Popped, nothing, item, fresh, fresh_of, with_wait_strategies, try_claim,
  try_push, taken, try_pop_ref, try_pop,
}
use rust_rb.Spsc.Represents.{Holds}
use rust_rb.Spsc.Refine.{
  fresh-Holds, write-Holds, read-Holds, try_claim-Holds, try_claim_iff, try_claim_room,
  try_pop_ref-Holds, try_pop_ref_iff, try_pop_ref_seen,
}

module _ {ℓ} {A : Type ℓ} where
  -- A ring asked for from 1 to `2 ^ 63` slots is made, holds the empty queue, and has at least as
  -- many.
  pub with_wait_strategies-Holds :
      (n : ℕ)
      → 0 < n
      → n ≤ 2 ^ 63
      → (capacity : ℕ) × (r : Ring A) × (with_wait_strategies n ≡ returns r)
        × Holds capacity r []
        × (n ≤ capacity)
  unfolding with_wait_strategies fresh_of
  with_wait_strategies-Holds n pos small =
      let (capacity, e, power, above, _, below, _) =
        (round_capacity_lem n 1 (0, refl) (omega arith)).2 pos small in
      (capacity, fresh capacity, rw e, fresh-Holds capacity power (IsPow2-pos power) below, above)

  -- What `try_push` may answer of a ring that holds `q`.
  abbrev pub Pushes : ℕ → Ring A → List A → A → Option A × Ring A → Type ℓ
  Pushes capacity r q x (back, r') =
      ((length q + wrapping_sub r.consumer.read_cursor r.consumer.published < capacity)
        × (back ≡ none)
        × Holds capacity r' (q ++ (x ∷ [])))
      ⊎ ((capacity ≤ length q + wrapping_sub r.consumer.read_cursor r.consumer.published)
          × (capacity < length q + publish_batch capacity max_publish_batch)
          × (back ≡ some x)
          × Holds capacity r' q)

  -- `try_push` appends its element if the queue and what the consumer has read without publishing
  -- leave a slot, and else hands the element back and leaves the queue. When it hands the element
  -- back, what the consumer has read without publishing counts as taken, and the slots free are fewer
  -- than the consumer's batch.
  pub try_push_lem :
      {capacity : ℕ} {r : Ring A} {q : List A} (x : A)
      → Holds capacity r q
      → Pushes capacity r q x (try_push r x)
  unfolding try_push
  try_push_lem {capacity} {r} {q} x h = elim (Bool-cases (try_claim r).0) [
    | inl fits ↦ rw fits (
        inl (
          (try_claim_iff h).0 fits,
          refl,
          write-Holds (try_claim-Holds h) x (try_claim_room h fits),
        ))
    | inr full ↦
        let over : capacity ≤ length q + wrapping_sub r.consumer.read_cursor r.consumer.published =
          elim (dec_lt (length q + wrapping_sub r.consumer.read_cursor r.consumer.published)
            capacity) [ yes lt ↦ cc ((try_claim_iff h).1 lt) | no ge ↦ omega arith ] in
        let bounded = h.prompt.bounded in rw full (inr (over, omega arith, refl, try_claim-Holds h))
  ]

  -- What `try_pop` may answer of a ring that holds the queue.
  abbrev pub Pops : ℕ → List A → Popped A × Ring A → Type ℓ
  Pops capacity [] (out, r') = (out ≡ nothing) × Holds capacity r' []
  Pops capacity (x ∷ rest) (out, r') = (out ≡ item x) × Holds capacity r' rest

  -- `try_pop` takes the first element off the queue, and answers "empty" for the empty queue only;
  -- it never reads a slot that holds no element.
  pub try_pop_lem :
      {capacity : ℕ} {r : Ring A} (q : List A) → Holds capacity r q → Pops capacity q (try_pop r)
  unfolding try_pop taken
  try_pop_lem {r} [] h = elim (Bool-cases (try_pop_ref r).0) [
    | inl found ↦ absurd (omega (arith, (try_pop_ref_iff h).0 found))
    | inr empty ↦ rw empty (refl, try_pop_ref-Holds h)
  ]
  try_pop_lem {r} (x ∷ rest) h =
      let found = (try_pop_ref_iff h).1 (omega arith) in
      let (seen, left) = read-Holds (try_pop_ref-Holds h) x rest refl (try_pop_ref_seen h found) in
      rw (found, seen) (refl, left)
