-- ===== src/Wait.antt =====
-- The wait strategies of src/wait.rs. `CvWait` is modelled a shared access at a time, between the one
-- thread that waits and the one that publishes progress and notifies, as in the rings of one consumer;
-- `BackoffWait` by the answers that its predicate gives.
pub mod Wakes
pub mod Backoff
mod Tests
use rust_rb.Base.{
  ℕ, zero, suc, ◌+◌, ◌*◌, max, min, Bool, true, false, Option, none, some, List, [], ◌∷◌,
  if◌then◌else◌, ltb, word_max,
}

-- The mutex of `CvWait`.
pub data Mutex : Type 0 where
  free : Mutex
  by_waiter : Mutex
  by_notifier : Mutex

-- Where the waiter stands; its predicate holds once the progress is past `goal`.
pub data WaiterPc : Type 0 where
  outside : WaiterPc
  locking : (goal : ℕ) → WaiterPc  -- start of `wait`
  flagging : (goal : ℕ) → WaiterPc  -- before the store of `waiting`
  checking : (goal : ℕ) → WaiterPc  -- before `pred` in `wait_timeout_while`
  parking : (goal : ℕ) → WaiterPc  -- `pred` was false, and the mutex is still held
  parked : (goal : ℕ) → WaiterPc
  waking : (goal : ℕ) → WaiterPc  -- signalled, and takes the mutex again
  timed_out : WaiterPc  -- takes the mutex again, and gives up
  unlocking : WaiterPc  -- `wait_timeout_while` has returned
  clearing : WaiterPc  -- before the store that clears `waiting`

pub data NotifierPc : Type 0 where
  idle : NotifierPc
  loading : NotifierPc  -- has published, and is before the load of `waiting`
  acquiring : NotifierPc  -- before the lock
  signalling : NotifierPc  -- holds the mutex, before `notify_all`

pub record CvWait : Type 0 where
  pub progress : ℕ
  pub waiting : Bool
  pub mutex : Mutex
  pub waiter : WaiterPc
  pub notifier : NotifierPc

abbrev pub is_free : Mutex → Bool
is_free free = true
is_free by_waiter = false
is_free by_notifier = false

-- A step of `wait`. Who cannot have the mutex stays.
unfoldable pub wait_step : CvWait → WaiterPc → CvWait
wait_step y outside = y
wait_step y (locking g) =
    if is_free y.mutex then record y { mutex = by_waiter; waiter = flagging g } else y
wait_step y (flagging g) = record y { waiting = true; waiter = checking g }
wait_step y (checking g) = record y { waiter = if ltb g y.progress then unlocking else parking g }
wait_step y (parking g) = record y { mutex = free; waiter = parked g }
wait_step y (parked g) = y
wait_step y (waking g) =
    if is_free y.mutex then record y { mutex = by_waiter; waiter = checking g } else y
wait_step y timed_out =
    if is_free y.mutex then record y { mutex = by_waiter; waiter = unlocking } else y
wait_step y unlocking = record y { mutex = free; waiter = clearing }
wait_step y clearing = record y { waiting = false; waiter = outside }

-- `notify_all` wakes the waiter if it is parked.
abbrev pub signalled : WaiterPc → WaiterPc
signalled (parked g) = waking g
signalled other = other

-- A step of `notify`.
unfoldable pub notify_step : CvWait → NotifierPc → CvWait
notify_step y idle = y
notify_step y loading = record y { notifier = if y.waiting then acquiring else idle }
notify_step y acquiring =
    if is_free y.mutex then record y { mutex = by_notifier; notifier = signalling } else y
notify_step y signalling = record y { mutex = free; notifier = idle; waiter = signalled y.waiter }

-- What happens next: the notifier publishes and enters `notify`, or goes on in it; the waiter enters
-- `wait`, or goes on in it, or its time runs out.
pub data Turn : Type 0 where
  progresses : Turn
  notifies : Turn
  begins : (goal : ℕ) → Turn
  waits : Turn
  times_out : Turn

abbrev pub publish_step : CvWait → NotifierPc → CvWait
publish_step y idle = record y { progress = suc y.progress; notifier = loading }
publish_step y other = y

abbrev pub begin_step : CvWait → WaiterPc → ℕ → CvWait
begin_step y outside g = record y { waiter = locking g }
begin_step y other g = y

abbrev pub timeout_step : CvWait → WaiterPc → CvWait
timeout_step y (parked g) = record y { waiter = timed_out }
timeout_step y other = y

unfoldable pub step : CvWait → Turn → CvWait
unfolding wait_step notify_step
step y progresses = publish_step y y.notifier
step y notifies = notify_step y y.notifier
step y (begins g) = begin_step y y.waiter g
step y waits = wait_step y y.waiter
step y times_out = timeout_step y y.waiter

unfoldable pub run : CvWait → List Turn → CvWait
run y [] = y
run y (turn ∷ turns) = run (step y turn) turns

-- `CvWait::default`, with some progress made.
unfoldable pub fresh : ℕ → CvWait
fresh progress = record {
  progress = progress;
  waiting = false;
  mutex = free;
  waiter = outside;
  notifier = idle;
}

-- `BackoffWait`. The answer of the `n`-th call of the predicate is `pred n`. A loop of at most so many
-- rounds: whether the predicate held, and how often it has been called by then.
unfoldable pub poll_loop : ℕ → (ℕ → Bool) → ℕ → Bool × ℕ
poll_loop zero pred n = (false, n)
poll_loop (suc rounds) pred n =
    let rest = poll_loop rounds pred (suc n) in if pred n then (true, suc n) else rest

abbrev pub slept : ℕ → Option (ℕ × List ℕ) → Option (ℕ × List ℕ)
slept ns none = none
slept ns (some (n, sleeps)) = some (n, ns ∷ sleeps)

-- The last loop, of at most so many rounds: the calls of the predicate, and the sleeps.
unfoldable pub sleep_loop : ℕ → ℕ → ℕ → (ℕ → Bool) → ℕ → Option (ℕ × List ℕ)
sleep_loop zero most ns pred n = none
sleep_loop (suc rounds) most ns pred n =
    let rest = sleep_loop rounds most (min (min (ns * 2) word_max) most) pred (suc n) in
    if pred n then some (suc n, []) else slept ns rest

-- `BackoffWait::wait`: how often the predicate is called, and the sleeps in nanoseconds; `none` if
-- the last loop has not ended within so many rounds.
unfoldable pub backoff : ℕ → ℕ → ℕ → ℕ → ℕ → (ℕ → Bool) → Option (ℕ × List ℕ)
backoff rounds spins yields least most pred =
    let (spun, n) = poll_loop spins pred 0 in
    let (yielded, m) = poll_loop yields pred n in
    if spun
    then some (n, [])
    else if yielded
    then some (m, [])
    else sleep_loop rounds most (max least 1) pred m
