-- ===== src/Wait/Backoff.antt =====
-- `BackoffWait` ends with the first call of its predicate that holds, and sleeps within its bounds.
use rust_rb.Base.{
  ℕ, zero, suc, ◌+◌, ◌-◌, ◌*◌, ◌≤◌, ◌<◌, ◌≡◌, ◌∙◌, refl, ap, Bool, true, false, some, List, [], ◌∷◌,
  arith, length, max, min, word_max,
}
use native.Mathlib.Decide.{ℕ_discrete, dec_lt}
use rust_rb.Wait.{poll_loop, sleep_loop, backoff}

-- Each sleep lies between 0 and a bound.
abbrev pub AllBelow : ℕ → List ℕ → Type 0
AllBelow most [] = Unit {0}
AllBelow most (ns ∷ rest) = (ns ≤ most) × AllBelow most rest

module _ (pred : ℕ → Bool) (last : ℕ) (holds : pred last ≡ true)
    (first : (n : ℕ) → n < last → pred n ≡ false) where
  -- A loop of polls ends at the call that holds, if that is in reach.
  poll_loop_lem :
      (rounds n : ℕ)
      → n ≤ last
      → (last < n + rounds → poll_loop rounds pred n ≡ (true, suc last))
        × (n + rounds ≤ last → poll_loop rounds pred n ≡ (false, n + rounds))
  unfolding poll_loop
  poll_loop_lem zero n low = (
    λ h. absurd (omega arith),
    λ h. let e : n ≡ n + 0 = omega arith in ap (λ (k : ℕ). (false, k)) e,
  )
  poll_loop_lem (suc rounds) n low = elim (ℕ_discrete n last) [
    | yes e ↦ (λ _. rw (e, holds) refl, λ h. absurd (omega arith))
    | no ne ↦
        let (found, not_yet) = poll_loop_lem rounds (suc n) (omega arith) in
        let more : suc n + rounds ≡ n + suc rounds = omega arith in
        (
          λ h. rw (first n (omega arith)) (found (omega arith)),
          λ h. rw (first n (omega arith)) (not_yet (omega arith) ∙ ap (λ (k : ℕ). (false, k)) more),
        )
  ]

  sleep_loop_lem :
      (rounds most bound ns n : ℕ)
      → n ≤ last
      → last < n + rounds
      → ns ≤ bound
      → most ≤ bound
      → (sleeps : List ℕ) × (sleep_loop rounds most ns pred n ≡ some (suc last, sleeps))
        × (length sleeps ≡ last - n)
        × AllBelow bound sleeps
  unfolding sleep_loop
  sleep_loop_lem zero most bound ns n low fits short under = absurd (omega arith)
  sleep_loop_lem (suc rounds) most bound ns n low fits short under = elim (ℕ_discrete n last) [
    | yes e ↦ ([], rw (e, holds) refl, omega arith, tt)
    | no ne ↦
        let (sleeps, e, count, below) =
          sleep_loop_lem rounds most bound (min (min (ns * 2) word_max) most) (suc n) (omega arith)
            (omega arith) (omega arith) under in
        (ns ∷ sleeps, rw (first n (omega arith), e) refl, omega arith, (short, below))
  ]

  -- Where the predicate holds at its call `last` for the first time, the wait ends with that call: it
  -- has slept once for each call past the spins and the yields, each time no longer than the greatest
  -- of both bounds and 1, given as many rounds of the last loop as there are calls.
  pub backoff-ends :
      (rounds spins yields least most : ℕ)
      → last < rounds
      → (sleeps : List ℕ) × (backoff rounds spins yields least most pred ≡ some (suc last, sleeps))
        × (length sleeps ≡ last - (spins + yields))
        × AllBelow (max (max least most) 1) sleeps
  unfolding backoff
  backoff-ends rounds spins yields least most enough = elim (dec_lt last spins) [
    | yes soon ↦
        let (found, _) = poll_loop_lem spins 0 (omega arith) in
        ([], rw (found (omega arith)) refl, omega arith, tt)
    | no later ↦
        let (_, spun) = poll_loop_lem spins 0 (omega arith) in
        let (found, yielded) = poll_loop_lem yields (0 + spins) (omega arith) in
        elim (dec_lt last (spins + yields)) [
          | yes soon ↦ ([], rw (spun (omega arith), found (omega arith)) refl, omega arith, tt)
          | no late ↦
              let (sleeps, e, count, below) =
                sleep_loop_lem rounds most (max (max least most) 1) (max least 1)
                  (0 + spins + yields) (omega arith) (omega arith) (omega arith) (omega arith) in
              (sleeps, rw (spun (omega arith), yielded (omega arith)) e, omega arith, below)
        ]
  ]
