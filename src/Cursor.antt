-- ===== src/Cursor.antt =====
-- The cursor engine of src/cursor.rs that the two single-consumer rings share. A method of
-- `ProducerCore` or `ConsumerCore` takes the handle and the shared words, and returns both anew.
-- Each atomic load is a read of a field of `Shared`, each atomic store an update of one; a `notify`
-- of a wait strategy counts one wake-up.
pub mod Invariant
pub mod Counts
pub mod Space
pub mod Publish
pub mod Waiting
mod Tests
use rust_rb.Base.{
  ℕ, ◌+◌, ◌-◌, Bool, true, false, not, ◌&&◌, ◌||◌, Option, none, some, List, [], ◌∷◌, bit_and,
  if◌then◌else◌, ltb, leb, ◌==◌, wrapping_add, wrapping_sub,
}
use rust_rb.Policy.{lacks_space, no_item}

-- The words both handles see: the two published cursors, the producer-starving flag, and how often
-- each side's wait strategy was notified.
pub record Shared : Type 0 where
  pub write_cursor : ℕ
  pub read_cursor : ℕ
  pub starving : ℕ
  pub producer_wakes : ℕ
  pub consumer_wakes : ℕ

-- `AnchorKind`. A shared-memory anchor stands by what its two checks answer: whether the lease word
-- still holds this handle's token, and whether this is the process that made the handle.
pub data Anchor : Type 0 where
  heap : Anchor
  shm : (lease process : Bool) → Anchor

unfoldable pub owns_ring : Anchor → Bool
owns_ring heap = true
owns_ring (shm lease process) = lease

unfoldable pub teardown_allowed : Anchor → Bool
teardown_allowed heap = true
teardown_allowed (shm lease process) = process && lease

pub record ProducerCore : Type 0 where
  pub mask : ℕ
  pub write_cursor : ℕ
  pub read_cursor_cache : ℕ
  pub raised_starving : Bool
  pub anchor : Anchor

pub record ConsumerCore : Type 0 where
  pub mask : ℕ
  pub read_cursor : ℕ
  pub published : ℕ
  pub write_cursor_cache : ℕ
  pub anchor : Anchor

-- `channel`: the shared words and the two handles of a fresh ring.
unfoldable pub channel : ℕ → Shared × ProducerCore × ConsumerCore
channel capacity = (
  record {
    write_cursor = 0;
    read_cursor = 0;
    starving = 0;
    producer_wakes = 0;
    consumer_wakes = 0;
  },
  record {
    mask = capacity - 1;
    write_cursor = 0;
    read_cursor_cache = 0;
    raised_starving = false;
    anchor = heap;
  },
  record {
    mask = capacity - 1;
    read_cursor = 0;
    published = 0;
    write_cursor_cache = 0;
    anchor = heap;
  },
)

unfoldable pub producer_core_from_raw : ℕ → Shared → Anchor → ProducerCore × Shared
producer_core_from_raw capacity s anchor = (
  record {
    mask = capacity - 1;
    write_cursor = s.write_cursor;
    read_cursor_cache = s.read_cursor;
    raised_starving = false;
    anchor = anchor;
  },
  record s { starving = 0 },
)

unfoldable pub consumer_core_from_raw : ℕ → Shared → Anchor → ConsumerCore
consumer_core_from_raw capacity s anchor = record {
  mask = capacity - 1;
  read_cursor = s.read_cursor;
  published = s.read_cursor;
  write_cursor_cache = s.write_cursor;
  anchor = anchor;
}

-- The failed branch of `has_space`: raise the flag unless it is up.
raise_starving : Shared → Shared
raise_starving s = if s.starving == 0 then record s { starving = 1 } else s

-- The branch of `has_space` whose cached check passed.
unstarved : ProducerCore → Shared → Bool × ProducerCore × Shared
unstarved p s =
    if p.raised_starving
    then (true, record p { raised_starving = false }, record s { starving = 0 })
    else (true, p, s)

-- The branch of `has_space` that reloaded the consumer's cursor.
reloaded : ProducerCore → Shared → ℕ → Bool × ProducerCore × Shared
unfolding raise_starving
reloaded p s needed =
    if lacks_space p.write_cursor needed p.read_cursor_cache (p.mask + 1)
    then (false, record p { raised_starving = true }, raise_starving s)
    else (true, p, s)

unfoldable pub has_space : ProducerCore → Shared → ℕ → Bool × ProducerCore × Shared
unfolding reloaded unstarved raise_starving
has_space p s needed =
    if lacks_space p.write_cursor needed p.read_cursor_cache (p.mask + 1)
    then reloaded (record p { read_cursor_cache = s.read_cursor }) s needed
    else unstarved p s

-- `wait_for_space`: a round of the loop whose check fails waits, and checks again on what the
-- consumer has published by then; the list holds the published cursor at the end of each wait.
-- `none`: still waiting at its end.
unfoldable pub wait_for_space : List ℕ → ProducerCore → Shared → ℕ → Option (ProducerCore × Shared)
wait_for_space [] p s needed =
    let (fits, p', s') = has_space p s needed in if fits then some (p', s') else none
wait_for_space (cursor ∷ cursors) p s needed =
    let (fits, p', s') = has_space p s needed in
    let rest = wait_for_space cursors p' (record s' { read_cursor = cursor }) needed in
    if fits then some (p', s') else rest

-- `publish`: one store, then the consumer's wait strategy is notified.
unfoldable pub publish : ProducerCore → Shared → ℕ → ProducerCore × Shared
publish p s amount =
    let next = wrapping_add p.write_cursor amount in
    (
      record p { write_cursor = next },
      record s { write_cursor = next; consumer_wakes = s.consumer_wakes + 1 },
    )

unfoldable pub occupancy : Shared → ℕ
occupancy s = wrapping_sub s.write_cursor s.read_cursor

unfoldable pub is_full_view : ProducerCore → Shared → Bool
is_full_view p s = ltb p.mask (wrapping_sub s.write_cursor s.read_cursor)

-- `slot_ptr`, as an index into the buffer; it serves both cores.
abbrev pub slot_index : ℕ → ℕ → ℕ
slot_index cursor mask = bit_and cursor mask

unfoldable pub refresh : ConsumerCore → Shared → ConsumerCore
refresh c s = record c { write_cursor_cache = s.write_cursor }

unfoldable pub has_item : ConsumerCore → Shared → Bool × ConsumerCore
has_item c s =
    if no_item c.write_cursor_cache c.read_cursor
    then (let c' = refresh c s in
        if no_item c'.write_cursor_cache c'.read_cursor then (false, c') else (true, c'))
    else (true, c)

-- `wait_for_item`; the list holds the producer's published cursor at the end of each wait.
unfoldable pub wait_for_item : List ℕ → ConsumerCore → Shared → Option (ConsumerCore × Shared)
wait_for_item [] c s = let (found, c') = has_item c s in if found then some (c', s) else none
wait_for_item (cursor ∷ cursors) c s =
    let (found, c') = has_item c s in
    let rest = wait_for_item cursors c' (record s { write_cursor = cursor }) in
    if found then some (c', s) else rest

-- A handle that has lost the ring only marks its progress as published.
unfoldable pub flush : ConsumerCore → Shared → ConsumerCore × Shared
flush c s = if not (owns_ring c.anchor) then (record c { published = c.read_cursor }, s) else (
  record c { published = c.read_cursor },
  record s { read_cursor = c.read_cursor; producer_wakes = s.producer_wakes + 1 },
)

-- The condition of `advance`, once the read cursor has moved.
unfoldable pub publishes : ConsumerCore → ℕ → Bool → Bool
publishes c batch publish_now =
    publish_now
    || c.read_cursor == c.write_cursor_cache
    || leb batch (wrapping_sub c.read_cursor c.published)

unfoldable pub advance : ConsumerCore → Shared → ℕ → ℕ → Bool → ConsumerCore × Shared
advance c s amount batch publish_now =
    let c' = record c { read_cursor = wrapping_add c.read_cursor amount } in
    if publishes c' batch publish_now then flush c' s else (c', s)

unfoldable pub producer_starving : Shared → Bool
producer_starving s = not (s.starving == 0)

unfoldable pub flush_pending : ConsumerCore → Shared → ConsumerCore × Shared
flush_pending c s = if not (c.read_cursor == c.published) then flush c s else (c, s)

unfoldable pub available : ConsumerCore → Shared → ℕ
available c s = wrapping_sub s.write_cursor c.read_cursor

-- The same difference, of a relaxed load.
unfoldable pub occupied_relaxed : ConsumerCore → Shared → ℕ
occupied_relaxed c s = wrapping_sub s.write_cursor c.read_cursor

-- `impl Drop for ConsumerCore`
unfoldable pub drop_consumer : ConsumerCore → Shared → ConsumerCore × Shared
drop_consumer c s = if teardown_allowed c.anchor then flush_pending c s else (c, s)
