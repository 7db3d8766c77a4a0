-- ===== src/Broadcast/Tests.antt =====
-- The broadcast ring at concrete inputs that meet the hypotheses of its theorems: a ring of four slots
-- and six pushes, which lap the consumer that stood at its start.
use rust_rb.Base.{
  some, get_elem?, ℕ, ◌^◌, ◌≤◌, ◌<◌, ◌≡◌, refl, List, [], ◌∷◌, ◌++◌, arith, max, wrapping_add,
  if◌then◌else◌, ◌==◌, returns, panics, zero_capacity, capacity_too_large, zero_sized,
}
use rust_rb.Broadcast.{
  Shared, Producer, Consumer, item, nothing, lagged, closed, handles, build, subscribe_from, push,
  publish_tail, flush, set_tail_batch, drop_producer, try_pop, read_slot, read_valid, reposition,
  reposition_target, refresh, has_item, check_closed, skip_to_latest, lag, with_wait_strategies,
}
use rust_rb.Broadcast.Ring.{IsRing, push-IsRing}
use rust_rb.Broadcast.Lag.{Reads, Hands, try_pop-Hands}
use rust_rb.Broadcast.Setup.{handles-IsRing, with_wait_strategies-IsRing, set_tail_batch-IsRing}

abbrev feeder : Producer
feeder = (handles {A = ℕ} 4 1).1

abbrev ring : Shared ℕ
ring = (handles 4 1).0

abbrev reader : Consumer
reader = (handles {A = ℕ} 4 1).2

fresh : IsRing 4 feeder ring [] × Reads 4 ring reader
fresh = handles-IsRing 4 1 (2, refl) (omega arith) (omega arith)

abbrev pushed : Producer × Shared ℕ → ℕ → Producer × Shared ℕ
pushed (p, s) x = push p s x

abbrev lapped : Producer × Shared ℕ
lapped = pushed (pushed (pushed (pushed (pushed (feeder, ring) 10) 11) 12) 13) 14

abbrev elements : List ℕ
elements = 10 ∷ 11 ∷ 12 ∷ 13 ∷ 14 ∷ []

lapped-IsRing : IsRing 4 lapped.0 lapped.1 elements
unfolding handles push publish_tail wrapping_add
lapped-IsRing =
    let v1 = push-IsRing 10 fresh.0 (omega arith) in
    let v2 = push-IsRing 11 v1 (omega arith) in
    let v3 = push-IsRing 12 v2 (omega arith) in
    let v4 = push-IsRing 13 v3 (omega arith) in push-IsRing 14 v4 (omega arith)

reader-Reads : Reads 4 lapped.1 reader
unfolding handles subscribe_from push publish_tail wrapping_add
reader-Reads = record { mask = refl; slack = refl; pos = omega arith; cached = omega arith }

-- The reader missed the elements 10 and 11, and goes on with 12.
lapped_run :
    ((try_pop reader lapped.1).0 ≡ lagged 2)
    × ((try_pop (try_pop reader lapped.1).1 lapped.1).0 ≡ item 12)
    × ((try_pop reader ring).0 ≡ nothing)
    × ((try_pop reader (drop_producer feeder ring)).0 ≡ closed)
    × (lag reader lapped.1 ≡ 5)
    × ((skip_to_latest reader lapped.1).0 ≡ 5)
unfolding handles subscribe_from push publish_tail flush drop_producer try_pop read_slot read_valid
    reposition reposition_target refresh has_item check_closed lag skip_to_latest wrapping_add
lapped_run = (refl, refl, refl, refl, refl, refl)

-- No ring is made of elements without a size, but for the requests that panic before.
no_ring_of_zero_sized :
    (build {A = ℕ} 0 4 1 ≡ panics zero_sized)
    × (build {A = ℕ} 8 4 1 ≡ returns (ring, feeder, reader))
unfolding build
no_ring_of_zero_sized = (refl, refl)

-- A consumer that lags by exactly the capacity is handed its element.
lag_of_capacity :
    let (_, s) = pushed (pushed (pushed (pushed (feeder, ring) 10) 11) 12) 13 in
    (lag reader s ≡ 4) × ((try_pop reader s).0 ≡ item 10)
unfolding handles subscribe_from push publish_tail try_pop read_slot read_valid refresh has_item lag
    wrapping_add
lag_of_capacity = (refl, refl)

push-IsRing_example : IsRing 4 (push feeder ring 10).0 (push feeder ring 10).1 ([] ++ (10 ∷ []))
unfolding handles
push-IsRing_example = push-IsRing 10 fresh.0 (omega arith)

try_pop-Hands_example :
    (reader.pos < lapped.1.tail
      → Hands 4 lapped.0 lapped.1 elements reader (try_pop reader lapped.1))
    × (lapped.1.tail ≡ reader.pos
        → ((try_pop reader lapped.1).0 ≡ (if lapped.1.closed == 0 then nothing else closed))
          × ((try_pop reader lapped.1).1.pos ≡ reader.pos)
          × Reads 4 lapped.1 (try_pop reader lapped.1).1)
    × (lag reader lapped.1 ≡ 4
        → lapped.0.unpublished ≡ 0
        → (x : ℕ) × (get_elem? elements reader.pos ≡ some x)
          × ((try_pop reader lapped.1).0 ≡ item x))
try_pop-Hands_example = try_pop-Hands lapped-IsRing reader-Reads

with_wait_strategies-IsRing_example :
    (0 < 3
      → 3 ≤ 2 ^ 63
      → (0 < 8
          → (capacity : ℕ) × (s : Shared ℕ) × (p : Producer) × (c : Consumer)
            × (with_wait_strategies 8 3 ≡ returns (s, p, c))
            × IsRing capacity p s []
            × Reads capacity s c
            × (3 ≤ capacity))
        × (◌≡◌ {A = ℕ} 8 0 → with_wait_strategies {A = ℕ} 8 3 ≡ panics zero_sized))
    × (with_wait_strategies {A = ℕ} 8 0 ≡ panics zero_capacity)
    × (2 ^ 63 < 3 → with_wait_strategies {A = ℕ} 8 3 ≡ panics capacity_too_large)
with_wait_strategies-IsRing_example = with_wait_strategies-IsRing 8 3

set_tail_batch-IsRing_example :
    let (clamped, p', s') = set_tail_batch lapped.0 lapped.1 8 in
    IsRing 4 p' s' elements
    × (1 ≤ clamped)
    × (clamped ≤ max lapped.0.slack 1)
    × (p'.tail_batch ≡ clamped)
    × (p'.unpublished < clamped)
set_tail_batch-IsRing_example = set_tail_batch-IsRing lapped-IsRing 8
