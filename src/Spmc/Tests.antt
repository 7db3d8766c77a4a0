-- ===== src/Spmc/Tests.antt =====
-- Runs of the ring of several consumers at concrete inputs, and its theorems at inputs that meet their
-- hypotheses: a ring of four slots whose consumers come and go.
use rust_rb.Base.{
  ℕ, zero, suc, ◌^◌, ◌≤◌, ◌<◌, ◌≡◌, ◌≢◌, refl, true, false, none, some, List, [], ◌∷◌, ◌++◌, map,
  arith, returns, panics, zero_capacity, capacity_too_large, wrapping_add, wrapping_sub,
}
use rust_rb.Policy.{publish_batch, lacks_space}
use rust_rb.Registry.{
  slot_at, guard_sentinel, is_free, claim_registry_slot, subscribe_slot, deactivate,
  publish_batch_elems, gate_at, scan_slot, scan_chunk_registry, rescan_gate,
}
use rust_rb.Registry.Peers.{pop_at, leave_at}
use rust_rb.Spmc.{
  Shared, Producer, Consumer, fresh_shared, fresh_producer, with_wait_strategies, subscribe_from,
  rescan, has_space, prepare_slot, drop_overwritten, write, publish, try_push, push, wait_for_space,
  try_claim, drop_producer, consumer_count, producer_len, producer_is_full,
}
use rust_rb.Spmc.Consumers.{
  item, closed, refresh, has_item, check_closed, advance_one, flush, flush_pending, front, read,
  try_pop, drain, drain_loop, drop_consumer, consumer_len, drop_live, drop_shared,
}
use rust_rb.Spmc.Gated.{IsGated}
use rust_rb.Spmc.Holds.{Holds}
use rust_rb.Spmc.Fresh.{fresh-IsGated, with_wait_strategies-Serves}
use rust_rb.Spmc.Client
use rust_rb.Spmc.Client.{
  Call, join, leave, Answer, pushed, got, done, System, run, step, Follows, accepted,
}
use rust_rb.Spmc.Refine.{Serves, run-Follows}
use rust_rb.Spmc.Push.{Reaches, try_push-Reaches}
use rust_rb.Spmc.Calls.{Takes, try_pop-Takes}
use rust_rb.Spmc.Members.{subscribe_from_lem, drop_consumer-Keeps}
use rust_rb.Spmc.Pop.{Keeps}
use rust_rb.Spmc.Queued.{Queued}
use rust_rb.Spmc.Drops.{Owns}
use rust_rb.Spmc.Teardown.{run-drop_shared}
use rust_rb.Registry.Scan.{Gates}

abbrev ring : Shared ℕ
ring = fresh_shared true 4

abbrev feeder : Producer
feeder = fresh_producer 4

gate : IsGated 4 feeder ring
gate = fresh-IsGated true 4 (2, refl) (omega arith) (omega arith)

abbrev alone : System ℕ
alone = record { shared = ring; producer = feeder; consumers = [] }

alone-Serves : Serves 4 alone []
unfolding fresh_shared
alone-Serves = record { gate = gate; open_ring = refl; peers = tt }

abbrev calls : List (Call ℕ)
calls =
    Client.push 5
    ∷ join
    ∷ Client.push 6
    ∷ join
    ∷ Client.push 7
    ∷ Client.push 8
    ∷ Client.push 9
    ∷ Client.push 10
    ∷ Client.pop 1
    ∷ Client.pop 1
    ∷ Client.pop 0
    ∷ Client.push 10
    ∷ leave 1
    ∷ Client.pop 0
    ∷ Client.pop 0
    ∷ []

-- Two consumers, of which the first to join gates the producer.
several_run :
    (run alone calls).0
    ≡ pushed true
      ∷ done
      ∷ pushed true
      ∷ done
      ∷ pushed true
      ∷ pushed true
      ∷ pushed true
      ∷ pushed false
      ∷ got (item 6)
      ∷ got (item 7)
      ∷ got (item 7)
      ∷ pushed true
      ∷ done
      ∷ got (item 8)
      ∷ got (item 9)
      ∷ []
unfolding run step pop_at leave_at fresh_shared fresh_producer subscribe_from subscribe_slot
    claim_registry_slot is_free guard_sentinel try_push has_space rescan scan_chunk_registry
    scan_slot gate_at rescan_gate lacks_space prepare_slot drop_overwritten write publish try_pop
    has_item check_closed refresh read front advance_one flush publish_batch_elems publish_batch
    drop_consumer flush_pending deactivate wrapping_add wrapping_sub
several_run = refl

run-Follows_example :
    (qs : List (List ℕ)) × Follows [] calls (run alone calls).0 qs × Serves 4 (run alone calls).1 qs
unfolding fresh_producer
run-Follows_example = run-Follows calls alone-Serves (omega arith)

try_push-Reaches_example : Reaches 4 feeder ring 5 (try_push feeder ring 5)
unfolding fresh_producer
try_push-Reaches_example = try_push-Reaches 5 gate (omega arith)

subscribe_from_lem_example :
    (ring.closed ≡ 0
      → (c : Consumer) × (s : Shared ℕ) × (subscribe_from ring ≡ (some c, s))
        × Holds 4 s c []
        × IsGated 4 feeder s
        × ((d : Consumer) (q : List ℕ)
            → Holds 4 ring d q
            → Holds 4 s d q × (d.slot_idx ≢ c.slot_idx))
        × (consumer_count s ≡ suc (consumer_count ring)))
    × (ring.closed ≢ 0 → subscribe_from ring ≡ (none, ring))
subscribe_from_lem_example = subscribe_from_lem gate

-- A consumer with one element to read.
abbrev one : Shared ℕ
one = record {
  buffer = some 5 ∷ none ∷ none ∷ none ∷ [];
  mask = 3;
  write_cursor = 1;
  closed = 0;
  dropped_through = 0;
  registry = record { active = true; cursor = 0 } ∷ [];
  producer_wakes = 0;
  consumer_wakes = 1;
  needs_drop = true;
  drops = [];
}

abbrev fed : Producer
fed = record {
  mask = 3;
  next_seq = 1;
  cached_min = 0;
  dropped_through_local = 0;
  cached_cursors = [];
}

abbrev reader : Consumer
reader = record { mask = 3; slot_idx = 0; read_cursor = 0; published = 0; write_cache = 0 }

one-IsGated : IsGated 4 fed one
unfolding wrapping_sub
one-IsGated = record {
  power = (2, refl);
  two = omega arith;
  small = omega arith;
  mask = refl;
  shared_mask = refl;
  written = refl;
  range = omega arith;
  storage = refl;
  min_word = omega arith;
  min_near = omega arith;
  gated = (λ _. (omega arith, omega arith), tt);
  lower = tt;
}

one-Queued : Queued 4 one.buffer 0 (5 ∷ [])
unfolding wrapping_add
one-Queued zero h = refl
one-Queued (suc i) h = absurd (omega arith)

reader-Holds : Holds 4 one reader (5 ∷ [])
reader-Holds = record {
  mask = refl;
  slot = refl;
  published_read = omega arith;
  read_cached = omega arith;
  cached_written = omega arith;
  written_word = omega arith;
  count = refl;
  items = one-Queued;
}

try_pop-Takes_example : Takes 4 fed one reader (5 ∷ []) (try_pop reader one)
try_pop-Takes_example = try_pop-Takes (5 ∷ []) one-IsGated reader-Holds

drop_consumer-Keeps_example :
    Keeps 4 fed one 0 (drop_consumer reader one)
    × (¬ Gates (slot_at (drop_consumer reader one).registry 0))
    × (suc (consumer_count (drop_consumer reader one)) ≡ consumer_count one)
drop_consumer-Keeps_example = drop_consumer-Keeps one-IsGated reader-Holds

alone-Owns : Owns 4 feeder ring [] []
unfolding fresh_shared fresh_producer
alone-Owns = record {
  needed = refl;
  mark = refl;
  count = refl;
  lap = omega arith;
  held = λ i h. absurd (omega arith);
  all = refl;
}

run-drop_shared_example :
    drop_shared 4 (run alone calls).1.shared ≡ map some ([] ++ accepted calls (run alone calls).0)
unfolding fresh_producer
run-drop_shared_example =
    run-drop_shared calls 4 alone-Serves alone-Owns (omega arith) (omega arith)

with_wait_strategies-Serves_example :
    (0 < 3
      → 3 ≤ 2 ^ 63
      → (capacity : ℕ) × (s : Shared ℕ) × (c : Consumer) × (with_wait_strategies false 3
          ≡ returns (s, fresh_producer capacity, some c))
        × Serves capacity
            (record { shared = s; producer = fresh_producer capacity; consumers = c ∷ [] })
            ([] ∷ [])
        × (3 ≤ capacity))
    × (with_wait_strategies {A = ℕ} false 0 ≡ panics zero_capacity)
    × (2 ^ 63 < 3 → with_wait_strategies {A = ℕ} false 3 ≡ panics capacity_too_large)
with_wait_strategies-Serves_example = with_wait_strategies-Serves false 3

-- `drain` hands out what is there and publishes; teardown drops what is left; a full ring refuses.
other_calls :
    ((drain reader one).0 ≡ some 5 ∷ [])
    × ((drain reader one).1.published ≡ 1)
    × (consumer_len reader one ≡ 1)
    × (drop_shared 4 one ≡ some 5 ∷ [])
    × (producer_len fed ≡ 1)
    × (producer_is_full fed ≡ false)
    × ((try_claim fed one).0 ≡ true)
    × ((drop_producer one).closed ≡ 1)
    × ((try_pop (drain reader one).1 (drop_producer (drain reader one).2)).0 ≡ closed)
    × (push [] fed one 6
        ≡ some (
          record fed { next_seq = 2 },
          record one {
            buffer = some 5 ∷ some 6 ∷ none ∷ none ∷ [];
            write_cursor = 2;
            consumer_wakes = 2;
          },
        ))
unfolding drain drain_loop consumer_len drop_shared drop_live producer_len producer_is_full
    try_claim drop_producer push wait_for_space has_space lacks_space prepare_slot write publish
    refresh front flush_pending flush guard_sentinel publish_batch_elems publish_batch try_pop
    has_item check_closed wrapping_add wrapping_sub
other_calls = (refl, refl, refl, refl, refl, refl, refl, refl, refl, refl)
