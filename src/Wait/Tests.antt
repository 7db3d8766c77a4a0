-- ===== src/Wait/Tests.antt =====
-- Schedules of `CvWait`, and the theorems on the wait strategies at concrete inputs.
use rust_rb.Base.{
  ℕ, suc, ◌+◌, ◌-◌, ◌≤◌, ◌<◌, ◌≡◌, refl, Bool, false, some, List, [], ◌∷◌, arith, length, max, leb,
}
use rust_rb.Wait.{
  outside, parked, idle, progresses, begins, waits, step, run, fresh, wait_step, Turn, backoff,
  poll_loop, sleep_loop,
}
use rust_rb.Wait.Wakes.{finishing, run-finishes}
use rust_rb.Wait.Backoff.{AllBelow, backoff-ends}

-- The waiter finds nothing past 5 and parks; then something is published.
abbrev turns : List Turn
turns = begins 5 ∷ waits ∷ waits ∷ waits ∷ waits ∷ progresses ∷ []

schedule_run : (run (fresh 5) turns).waiter ≡ parked 5
unfolding run step wait_step fresh
schedule_run = refl

run-finishes_example :
    ((run (fresh 5) turns).notifier ≡ idle → (run (fresh 5) turns).progress ≤ 5)
    × (5 < (run (fresh 5) turns).progress
        → (rounds : ℕ) × (rounds ≤ 3)
          × ((run (run (fresh 5) turns) (finishing rounds)).waiter ≡ outside))
run-finishes_example = run-finishes 5 turns 5 schedule_run

abbrev third : ℕ → Bool
third n = leb 3 n

before_third : (n : ℕ) → n < 3 → third n ≡ false
before_third n h = ground arith

backoff-ends_example :
    (sleeps : List ℕ) × (backoff 4 1 1 100 150 third ≡ some (suc 3, sleeps))
    × (length sleeps ≡ 3 - (1 + 1))
    × AllBelow (max (max 100 150) 1) sleeps
backoff-ends_example = backoff-ends third 3 refl before_third 4 1 1 100 150 (omega arith)

backoff_run : backoff 6 0 0 100 150 third ≡ some (4, 100 ∷ 150 ∷ 150 ∷ [])
unfolding backoff poll_loop sleep_loop
backoff_run = refl
