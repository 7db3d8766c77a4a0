-- ===== src/SpmcBytes.antt =====
-- The variable-size message ring of src/spmc_bytes.rs in which every consumer sees every message, over
-- the heap backing. Its framing is that of src/spsc_bytes.rs, and its registry that of the element
-- ring. A blocking call takes what the other side has published at the end of each wait.
pub mod Consumers
pub mod Gated
pub mod Holds
pub mod Push
pub mod Pop
pub mod Calls
pub mod Members
pub mod Fresh
pub mod Errors
pub mod Claims
pub mod Client
pub mod Refine
mod Tests
use rust_rb.Base.{
  ℕ, zero, suc, ◌+◌, ◌-◌, Bool, true, false, not, Option, none, some, List, [], ◌∷◌, if◌then◌else◌,
  ◌==◌, replicate, length, wrapping_add, wrapping_sub, bit_and, Outcome, returns, panics,
}
use rust_rb.Base.Memory.{write_bytes}
use rust_rb.Policy.{publish_batch, round_capacity, lacks_space}
use rust_rb.Frame.{header, min_capacity, record_len, max_message_len, frame, write_frame}
use rust_rb.Registry.{
  Slot, fresh_chunk, active_count, subscribe_slot, no_gate, scan_chunk_registry, rescan_gate,
}

abbrev pub max_publish_batch_bytes : ℕ
max_publish_batch_bytes = 4096

unfoldable pub publish_batch_bytes : ℕ → ℕ
publish_batch_bytes capacity = publish_batch capacity max_publish_batch_bytes

pub record Shared : Type 0 where
  pub buffer : List ℕ
  pub mask : ℕ
  pub write_cursor : ℕ
  pub closed : ℕ
  pub starving : ℕ
  pub registry : List Slot
  pub producer_wakes : ℕ
  pub consumer_wakes : ℕ

pub record BytesProducer : Type 0 where
  pub mask : ℕ
  pub next_seq : ℕ
  pub cached_min : ℕ
  pub cached_cursors : List ℕ
  pub raised_starving : Bool

pub record BytesConsumer : Type 0 where
  pub mask : ℕ
  pub slot_idx : ℕ
  pub read_cursor : ℕ
  pub published : ℕ
  pub write_cache : ℕ

-- `subscribe_from`: `none` where the ring is closed.
unfoldable pub subscribe_from : Shared → Option BytesConsumer × Shared
subscribe_from s =
    if not (s.closed == 0)
    then (none, s)
    else (let (slot, registry) = subscribe_slot s.registry s.write_cursor in
        (
          some (record {
            mask = s.mask;
            slot_idx = slot.slot_idx;
            read_cursor = slot.joined;
            published = slot.published;
            write_cache = slot.joined;
          }),
          record s { registry = registry },
        ))

unfoldable pub fresh_shared : ℕ → Shared
fresh_shared capacity = record {
  buffer = replicate capacity 0;
  mask = capacity - 1;
  write_cursor = 0;
  closed = 0;
  starving = 0;
  registry = fresh_chunk;
  producer_wakes = 0;
  consumer_wakes = 0;
}

unfoldable pub fresh_producer : ℕ → BytesProducer
fresh_producer capacity = record {
  mask = capacity - 1;
  next_seq = 0;
  cached_min = 0;
  cached_cursors = [];
  raised_starving = false;
}

fresh_of : Outcome ℕ → Outcome (Shared × BytesProducer × Option BytesConsumer)
fresh_of (panics cause) = panics cause
fresh_of (returns capacity) =
    let (c, s) = subscribe_from (fresh_shared capacity) in returns (s, fresh_producer capacity, c)

-- `with_wait_strategies`, and `new`; the consumer is there, since a fresh ring is open.
unfoldable pub with_wait_strategies : ℕ → Outcome (Shared × BytesProducer × Option BytesConsumer)
unfolding fresh_of
with_wait_strategies requested = fresh_of (round_capacity requested min_capacity)

-- The producer.
unfoldable pub rescan : BytesProducer → Shared → ℕ → Bool × BytesProducer
rescan p s needed =
    let capacity = p.mask + 1 in
    let (cached, g) =
      scan_chunk_registry p.next_seq needed capacity s.registry p.cached_cursors no_gate in
    let (cached_min, free) = rescan_gate p.next_seq needed capacity g in
    (free, record p { cached_min = cached_min; cached_cursors = cached })

-- A failed check leaves the request in `starving`; the next that passes clears it.
unfoldable pub has_space : BytesProducer → Shared → ℕ → Bool × BytesProducer × Shared
has_space p s needed =
    if lacks_space p.next_seq needed p.cached_min (p.mask + 1)
    then (let (free, p') = rescan p s needed in
        if free
        then (true, p', s)
        else (false, record p' { raised_starving = true }, record s { starving = needed }))
    else if p.raised_starving
    then (true, record p { raised_starving = false }, record s { starving = 0 })
    else (true, p, s)

-- The list holds the registry as it stands at the end of each wait, whose predicate rescans it.
unfoldable pub wait_for_space :
    List (List Slot) → BytesProducer → Shared → ℕ → Option (BytesProducer × Shared)
wait_for_space [] p s needed =
    let (free, p', s') = has_space p s needed in if free then some (p', s') else none
wait_for_space (registry ∷ later) p s needed =
    let (free, p', s') = has_space p s needed in
    let s'' = record s' { registry = registry } in
    let rest = wait_for_space later (rescan p' s'' needed).1 s'' needed in
    if free then some (p', s') else rest

unfoldable pub publish : BytesProducer → Shared → ℕ → BytesProducer × Shared
publish p s amount =
    let next = wrapping_add p.next_seq amount in
    (
      record p { next_seq = next },
      record s { write_cursor = next; consumer_wakes = s.consumer_wakes + 1 },
    )

-- `write_frame` with its publish.
unfoldable pub write_record :
    BytesProducer → Shared → ℕ → ℕ → Option (List ℕ) → BytesProducer × Shared
write_record p s pad len src =
    publish p (record s { buffer = write_frame s.buffer p.mask p.next_seq pad len src })
      (pad + record_len len)

-- `try_push` once the message is framed.
push_framed : BytesProducer → Shared → List ℕ → ℕ × ℕ → Bool × BytesProducer × Shared
push_framed p s msg (pad, total) =
    let (free, p', s') = has_space p s total in
    let (p'', s'') = write_record p' s' pad (length msg) (some msg) in
    if free then (true, p'', s'') else (false, p', s')

push_in :
    BytesProducer → Shared → List ℕ → Outcome (ℕ × ℕ) → Outcome (Bool × BytesProducer × Shared)
push_in p s msg (returns framed) = returns (push_framed p s msg framed)
push_in p s msg (panics cause) = panics cause

unfoldable pub try_push : BytesProducer → Shared → List ℕ → Outcome (Bool × BytesProducer × Shared)
unfolding push_in push_framed
try_push p s msg = push_in p s msg (frame p.mask p.next_seq (length msg))

-- `push` once the message is framed.
wait_push :
    List (List Slot)
    → BytesProducer
    → Shared
    → List ℕ
    → Outcome (ℕ × ℕ)
    → Outcome (Option (BytesProducer × Shared))
wait_push waits p s msg (panics cause) = panics cause
wait_push waits p s msg (returns (pad, total)) = returns (elim (wait_for_space waits p s total) [
  | none ↦ none
  | some (p', s') ↦ some (write_record p' s' pad (length msg) (some msg))
])

unfoldable pub push :
    List (List Slot) → BytesProducer → Shared → List ℕ → Outcome (Option (BytesProducer × Shared))
unfolding wait_push
push waits p s msg = wait_push waits p s msg (frame p.mask p.next_seq (length msg))

-- A claimed slot: its padding and its length.
pub record WriteSlot : Type 0 where
  pub pad : ℕ
  pub len : ℕ

claim_framed : BytesProducer → Shared → ℕ → ℕ × ℕ → Option WriteSlot × BytesProducer × Shared
claim_framed p s len (pad, total) =
    let (free, p', s') = has_space p s total in
    if free then (some (record { pad = pad; len = len }), p', s') else (none, p', s')

claim_in :
    BytesProducer
    → Shared
    → ℕ
    → Outcome (ℕ × ℕ)
    → Outcome (Option WriteSlot × BytesProducer × Shared)
claim_in p s len (returns framed) = returns (claim_framed p s len framed)
claim_in p s len (panics cause) = panics cause

unfoldable pub try_claim :
    BytesProducer → Shared → ℕ → Outcome (Option WriteSlot × BytesProducer × Shared)
unfolding claim_in claim_framed
try_claim p s len = claim_in p s len (frame p.mask p.next_seq len)

-- `claim` once the message is framed.
wait_claim :
    List (List Slot)
    → BytesProducer
    → Shared
    → ℕ
    → Outcome (ℕ × ℕ)
    → Outcome (Option (WriteSlot × BytesProducer × Shared))
wait_claim waits p s len (panics cause) = panics cause
wait_claim waits p s len (returns (pad, total)) = returns (elim (wait_for_space waits p s total) [
  | none ↦ none
  | some (p', s') ↦ some (record { pad = pad; len = len }, p', s')
])

unfoldable pub claim :
    List (List Slot)
    → BytesProducer
    → Shared
    → ℕ
    → Outcome (Option (WriteSlot × BytesProducer × Shared))
unfolding wait_claim
claim waits p s len = wait_claim waits p s len (frame p.mask p.next_seq len)

-- `payload_ptr`, as an offset in the buffer.
unfoldable pub payload_at : BytesProducer → ℕ → ℕ
payload_at p pad = bit_and (wrapping_add p.next_seq pad) p.mask + header

-- What the client serializes into the slice of a claimed slot, which starts at `payload_ptr`.
unfoldable pub fill : BytesProducer → Shared → WriteSlot → List ℕ → Shared
fill p s slot bytes = record s { buffer = write_bytes s.buffer (payload_at p slot.pad) bytes }

unfoldable pub commit : BytesProducer → Shared → WriteSlot → BytesProducer × Shared
commit p s slot = write_record p s slot.pad slot.len none

unfoldable pub drop_producer : Shared → Shared
drop_producer s = record s { closed = 1; consumer_wakes = s.consumer_wakes + 1 }

unfoldable pub consumer_count : Shared → ℕ
consumer_count s = active_count s.registry

unfoldable pub producer_is_empty : BytesProducer → Bool
producer_is_empty p = wrapping_sub p.next_seq p.cached_min == 0

unfoldable pub producer_capacity : BytesProducer → ℕ
producer_capacity p = p.mask + 1

unfoldable pub producer_max_message_len : BytesProducer → ℕ
producer_max_message_len p = max_message_len (p.mask + 1)
