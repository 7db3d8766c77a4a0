-- ===== src/Spmc.antt =====
-- The element ring of src/spmc.rs in which every consumer sees every element, over the heap backing.
-- A slot of the buffer is an option, what is known of a `MaybeUninit`; `drops` collects what is
-- dropped in place, in order (`none` for a slot that holds nothing). `needs_drop` is that of the
-- element type. A blocking call takes what the other side has published at the end of each wait.
pub mod Consumers
pub mod Queued
pub mod Gated
pub mod Holds
pub mod Push
pub mod Pop
pub mod Calls
pub mod Members
pub mod Client
pub mod Peers
pub mod Refine
pub mod Drops
pub mod Teardown
pub mod Fresh
mod Tests
use rust_rb.Base.{
  ℕ, zero, suc, ◌+◌, ◌-◌, ◌*◌, min, bit_and, Bool, true, false, not, ◌&&◌, ◌||◌, Option, none, some,
  List, [], ◌∷◌, ◌++◌, if◌then◌else◌, ltb, leb, ◌==◌, get_or, set, replicate, wrapping_add,
  wrapping_sub, Outcome, returns, panics,
}
use rust_rb.Policy.{round_capacity, lacks_space}
use rust_rb.Registry.{
  Slot, fresh_chunk, slot_at, detached, guard_sentinel, publish_batch_elems, deactivate,
  active_count, subscribe_slot, no_gate, scan_chunk_registry, rescan_gate,
}

pub record Shared {ℓ} (A : Type ℓ) : Type ℓ where
  pub buffer : List (Option A)
  pub mask : ℕ
  pub write_cursor : ℕ
  pub closed : ℕ
  pub dropped_through : ℕ
  pub registry : List Slot
  pub producer_wakes : ℕ
  pub consumer_wakes : ℕ
  pub needs_drop : Bool
  pub drops : List (Option A)

pub record Producer : Type 0 where
  pub mask : ℕ
  pub next_seq : ℕ
  pub cached_min : ℕ
  pub dropped_through_local : ℕ
  pub cached_cursors : List ℕ

pub record Consumer : Type 0 where
  pub mask : ℕ
  pub slot_idx : ℕ
  pub read_cursor : ℕ
  pub published : ℕ
  pub write_cache : ℕ

unfoldable pub fresh_producer : ℕ → Producer
fresh_producer capacity = record {
  mask = capacity - 1;
  next_seq = 0;
  cached_min = 0;
  dropped_through_local = 0;
  cached_cursors = [];
}

-- `slot` of the producer
abbrev pub slot_index : ℕ → ℕ → ℕ
slot_index cursor mask = bit_and cursor mask

unfoldable pub producer_len : Producer → ℕ
producer_len p = wrapping_sub p.next_seq p.cached_min

unfoldable pub producer_is_full : Producer → Bool
producer_is_full p = lacks_space p.next_seq 1 p.cached_min (p.mask + 1)

module _ {ℓ} {A : Type ℓ} where
  -- `subscribe_from`: `none` where the ring is closed.
  unfoldable pub subscribe_from : Shared A → Option Consumer × Shared A
  subscribe_from s =
      if not (s.closed == 0)
      then (none, s)
      else (let (slot, registry) = subscribe_slot s.registry s.write_cursor in
          (
            some (record {
              mask = s.mask;
              slot_idx = slot.slot_idx;
              read_cursor = slot.joined;
              published = slot.published;
              write_cache = slot.joined;
            }),
            record s { registry = registry },
          ))

  unfoldable pub fresh_shared : Bool → ℕ → Shared A
  fresh_shared needs_drop capacity = record {
    buffer = replicate capacity none;
    mask = capacity - 1;
    write_cursor = 0;
    closed = 0;
    dropped_through = 0;
    registry = fresh_chunk;
    producer_wakes = 0;
    consumer_wakes = 0;
    needs_drop = needs_drop;
    drops = [];
  }

  fresh_of : Bool → Outcome ℕ → Outcome (Shared A × Producer × Option Consumer)
  fresh_of needs_drop (panics cause) = panics cause
  fresh_of needs_drop (returns capacity) =
      let (c, s) = subscribe_from (fresh_shared needs_drop capacity) in
      returns (s, fresh_producer capacity, c)

  -- `with_wait_strategies`, and `new`; the consumer is there, since a fresh ring is open.
  unfoldable pub with_wait_strategies : Bool → ℕ → Outcome (Shared A × Producer × Option Consumer)
  unfolding fresh_of
  with_wait_strategies needs_drop min_capacity = fresh_of needs_drop (round_capacity min_capacity 2)

  -- The producer. `rescan` runs the walk of the registry in the gate of it.
  unfoldable pub rescan : Producer → Shared A → ℕ → Bool × Producer
  rescan p s needed =
      let capacity = p.mask + 1 in
      let (cached, g) =
        scan_chunk_registry p.next_seq needed capacity s.registry p.cached_cursors no_gate in
      let (cached_min, free) = rescan_gate p.next_seq needed capacity g in
      (free, record p { cached_min = cached_min; cached_cursors = cached })

  unfoldable pub has_space : Producer → Shared A → ℕ → Bool × Producer
  has_space p s needed =
      if not (lacks_space p.next_seq needed p.cached_min (p.mask + 1))
      then (true, p)
      else rescan p s needed

  -- The list holds the registry as it stands at the end of each wait, whose predicate rescans it.
  unfoldable pub wait_for_space :
      List (List Slot) → Producer → Shared A → ℕ → Option (Producer × Shared A)
  wait_for_space [] p s needed =
      let (free, p') = has_space p s needed in if free then some (p', s) else none
  wait_for_space (registry ∷ later) p s needed =
      let (free, p') = has_space p s needed in
      let s' = record s { registry = registry } in
      let rest = wait_for_space later (rescan p' s' needed).1 s' needed in
      if free then some (p', s) else rest

  unfoldable pub drop_overwritten : Producer → Shared A → Producer × Shared A
  drop_overwritten p s =
      let capacity = p.mask + 1 in
      let old = wrapping_sub p.next_seq capacity in
      let mark = wrapping_add old 1 in
      let i = slot_index p.next_seq p.mask in
      (
        record p { dropped_through_local = mark },
        record s {
          dropped_through = mark;
          drops = s.drops ++ (get_or s.buffer i none ∷ []);
          buffer = set s.buffer i none;
        },
      )

  unfoldable pub prepare_slot : Producer → Shared A → Producer × Shared A
  prepare_slot p s =
      if s.needs_drop && ltb p.mask (wrapping_sub p.next_seq p.dropped_through_local)
      then drop_overwritten p s
      else (p, s)

  unfoldable pub publish : Producer → Shared A → Producer × Shared A
  publish p s =
      let next = wrapping_add p.next_seq 1 in
      (
        record p { next_seq = next },
        record s { write_cursor = next; consumer_wakes = s.consumer_wakes + 1 },
      )

  -- `write`: the store to the slot, and the publish.
  unfoldable pub write : Producer → Shared A → A → Producer × Shared A
  write p s value =
      publish p (record s { buffer = set s.buffer (slot_index p.next_seq p.mask) (some value) })

  -- `try_push`: the value handed back, or `none` for `Ok`.
  unfoldable pub try_push : Producer → Shared A → A → Option A × Producer × Shared A
  try_push p s value =
      let (free, p') = has_space p s 1 in
      if not free
      then (some value, p', s)
      else (let (p'', s') = prepare_slot p' s in
          let (p3, s'') = write p'' s' value in (none, p3, s''))

  unfoldable pub push : List (List Slot) → Producer → Shared A → A → Option (Producer × Shared A)
  push waits p s value = elim (wait_for_space waits p s 1) [
    | none ↦ none
    | some (p', s') ↦ let (p'', s'') = prepare_slot p' s' in some (write p'' s'' value)
  ]

  -- `try_claim`, whose slot is then committed by `write` or by `publish`.
  unfoldable pub try_claim : Producer → Shared A → Bool × Producer × Shared A
  try_claim p s =
      let (free, p') = has_space p s 1 in
      if not free then (false, p', s) else (let (p'', s') = prepare_slot p' s in (true, p'', s'))

  unfoldable pub drop_producer : Shared A → Shared A
  drop_producer s = record s { closed = 1; consumer_wakes = s.consumer_wakes + 1 }

  unfoldable pub consumer_count : Shared A → ℕ
  consumer_count s = active_count s.registry
