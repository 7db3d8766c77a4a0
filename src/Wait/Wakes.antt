-- ===== src/Wait/Wakes.antt =====
-- No wake-up is lost between a thread that parks and the one that publishes.
use rust_rb.Base.{ℕ, ◌≤◌, ◌<◌, ◌≡◌, refl, subst, Bool, true, List, [], ◌∷◌, ◌++◌, replicate, arith}
use rust_rb.Wait.{
  Mutex, free, by_waiter, by_notifier, WaiterPc, outside, locking, flagging, checking, parking,
  parked, waking, timed_out, unlocking, clearing, NotifierPc, idle, loading, acquiring, signalling,
  CvWait, wait_step, notify_step, Turn, progresses, notifies, begins, waits, times_out, step, run,
  fresh,
}

-- Who is in the critical section of the mutex.
abbrev holder : WaiterPc → NotifierPc → Mutex
holder (flagging g) n = by_waiter
holder (checking g) n = by_waiter
holder (parking g) n = by_waiter
holder unlocking n = by_waiter
holder w signalling = by_notifier
holder w n = free

-- A waiter that holds the mutex excludes the notifier from its own section.
abbrev Apart : WaiterPc → NotifierPc → Type 0
Apart (flagging g) signalling = ⊥
Apart (checking g) signalling = ⊥
Apart (parking g) signalling = ⊥
Apart unlocking signalling = ⊥
Apart w n = Unit {0}

-- From the store of `waiting` to the one that clears it.
abbrev Flagged : Bool → WaiterPc → Type 0
Flagged b outside = Unit {0}
Flagged b (locking g) = Unit {0}
Flagged b (flagging g) = Unit {0}
Flagged b w = b ≡ true

-- A waiter that has found its predicate false, though it holds by now, has a notifier on its way.
abbrev Noticed : ℕ → WaiterPc → NotifierPc → Type 0
Noticed progress (parking g) idle = progress ≤ g
Noticed progress (parked g) idle = progress ≤ g
Noticed progress w n = Unit {0}

pub record IsSound (y : CvWait) : Type 0 where
  pub held : y.mutex ≡ holder y.waiter y.notifier
  pub apart : Apart y.waiter y.notifier
  pub flagged : Flagged y.waiting y.waiter
  pub noticed : Noticed y.progress y.waiter y.notifier

-- The same over its parts, by which to split.
abbrev Sound : ℕ → Bool → Mutex → WaiterPc → NotifierPc → Type 0
Sound progress waiting mutex w n =
    IsSound
      (record { progress = progress; waiting = waiting; mutex = mutex; waiter = w; notifier = n })

module _ {k : ℕ} {b : Bool} {m : Mutex} where
  wait_step-Sound :
      (w : WaiterPc) (n : NotifierPc)
      → Sound k b m w n
      → IsSound
          (wait_step (record { progress = k; waiting = b; mutex = m; waiter = w; notifier = n }) w)
  unfolding wait_step
  wait_step-Sound outside n v = v
  wait_step-Sound (locking g) n v = ground arith
  wait_step-Sound (flagging g) n v = ground arith
  wait_step-Sound (checking g) n v = ground arith
  wait_step-Sound (parking g) n v = ground arith
  wait_step-Sound (parked g) n v = v
  wait_step-Sound (waking g) n v = ground arith
  wait_step-Sound timed_out n v = ground arith
  wait_step-Sound unlocking n v = ground arith
  wait_step-Sound clearing n v = ground arith

  notify_step-Sound :
      (w : WaiterPc) (n : NotifierPc)
      → Sound k b m w n
      → IsSound (
          notify_step (record { progress = k; waiting = b; mutex = m; waiter = w; notifier = n }) n)
  unfolding notify_step
  notify_step-Sound w idle v = v
  notify_step-Sound w loading v = ground arith
  notify_step-Sound w acquiring v = ground arith
  notify_step-Sound w signalling v = ground arith

pub step-IsSound : (turn : Turn) (y : CvWait) → IsSound y → IsSound (step y turn)
unfolding step
step-IsSound progresses y v = ground arith
step-IsSound notifies y v = notify_step-Sound y.waiter y.notifier v
step-IsSound (begins g) y v = ground arith
step-IsSound waits y v = wait_step-Sound y.waiter y.notifier v
step-IsSound times_out y v = ground arith

run-IsSound : (turns : List Turn) (y : CvWait) → IsSound y → IsSound (run y turns)
unfolding run
run-IsSound [] y v = v
run-IsSound (turn ∷ turns) y v = run-IsSound turns (step y turn) (step-IsSound turn y v)

fresh-IsSound : (progress : ℕ) → IsSound (fresh progress)
unfolding fresh
fresh-IsSound progress = record { held = refl; apart = tt; flagged = tt; noticed = tt }

-- What the notifier still has to do, and then the waiter.
abbrev pub finishing : ℕ → List Turn
finishing n = replicate n notifies ++ (waits ∷ waits ∷ waits ∷ waits ∷ [])

finishes :
    (y : CvWait) (g : ℕ) (n : NotifierPc)
    → y.notifier ≡ n
    → y.waiter ≡ parked g
    → IsSound y
    → g < y.progress
    → (rounds : ℕ) × (rounds ≤ 3) × ((run y (finishing rounds)).waiter ≡ outside)
unfolding run step wait_step notify_step
finishes y g idle e w v past = absurd (ground arith)
finishes y g loading e w v past = (3, omega arith, ground arith)
finishes y g acquiring e w v past = (2, omega arith, ground arith)
finishes y g signalling e w v past = (1, omega arith, ground arith)

-- In every order of the accesses: a parked waiter whose predicate holds by now has a notifier in
-- `notify`, so one that waits in vain is never left behind; and at most three accesses of that
-- notifier and four of the waiter end its wait, with no time running out. While no notifier is in
-- `notify`, a parked waiter has nothing to see.
pub run-finishes :
    (progress : ℕ) (turns : List Turn)
    → let y = run (fresh progress) turns in
      (g : ℕ)
      → y.waiter ≡ parked g
      → (y.notifier ≡ idle → y.progress ≤ g)
        × (g < y.progress
            → (rounds : ℕ) × (rounds ≤ 3) × ((run y (finishing rounds)).waiter ≡ outside))
run-finishes progress turns g w =
    let v = run-IsSound turns (fresh progress) (fresh-IsSound progress) in
    let y = run (fresh progress) turns in
    (
      λ e.
          subst (λ n. Noticed y.progress (parked g) n) e
            (subst (λ t. Noticed y.progress t y.notifier) w v.noticed),
      λ past. finishes y g y.notifier refl w v past,
    )
