-- ===== src/SpmcBytes/Consumers.antt =====
-- The consumers of the message ring of src/spmc_bytes.rs.
use rust_rb.Base.{
  ℕ, zero, suc, ◌+◌, Bool, true, false, not, ◌&&◌, ◌||◌, Option, none, some, List, [], ◌∷◌,
  if◌then◌else◌, ltb, leb, ◌==◌, set, wrapping_add, wrapping_sub,
}
use rust_rb.Frame.{record_len, max_message_len, decode_record, payload}
use rust_rb.Registry.{slot_at, detached, guard_sentinel, deactivate}
use rust_rb.SpmcBytes.{Shared, BytesConsumer, publish_batch_bytes}

abbrev pub available_cached : BytesConsumer → ℕ
available_cached c = wrapping_sub c.write_cache c.read_cursor

unfoldable pub refresh : BytesConsumer → Shared → BytesConsumer
refresh c s = record c { write_cache = s.write_cursor }

unfoldable pub has_item : BytesConsumer → Shared → Bool × BytesConsumer
has_item c s =
    if available_cached c == 0
    then (let c' = refresh c s in if available_cached c' == 0 then (false, c') else (true, c'))
    else (true, c)

-- `check_closed`: true for `Err(Closed)`.
unfoldable pub check_closed : BytesConsumer → Shared → Bool × BytesConsumer
check_closed c s =
    if not (s.closed == 0)
    then (let c' = refresh c s in (available_cached c' == 0, c'))
    else (false, c)

unfoldable pub flush : BytesConsumer → Shared → BytesConsumer × Shared
flush c s = (
  record c { published = c.read_cursor },
  record s {
    registry =
        set s.registry c.slot_idx
          (record (slot_at s.registry c.slot_idx) { cursor = guard_sentinel c.read_cursor });
    producer_wakes = s.producer_wakes + 1;
  },
)

unfoldable pub flush_pending : BytesConsumer → Shared → BytesConsumer × Shared
flush_pending c s = if not (c.read_cursor == c.published) then flush c s else (c, s)

-- `advance`: a starving producer gets the progress at once if what it waits for may be free.
unfoldable pub advance : BytesConsumer → Shared → ℕ → BytesConsumer × Shared
advance c s amount =
    let capacity = c.mask + 1 in
    let span = s.starving in
    let publish_now =
      not (span == 0)
      && leb (wrapping_sub capacity span) (wrapping_sub c.write_cache c.published) in
    let c' = record c { read_cursor = wrapping_add c.read_cursor amount } in
    if publish_now
      || c'.read_cursor == c'.write_cache
      || leb (publish_batch_bytes capacity) (wrapping_sub c'.read_cursor c'.published)
    then flush c' s
    else (c', s)

-- A received message: its length, and the offset of its payload in the ring.
pub record Msg : Type 0 where
  pub len : ℕ
  pub at : ℕ

-- `next_msg`: decode, and step over padding.
unfoldable pub next_msg : BytesConsumer → Shared → Msg × BytesConsumer
next_msg c s =
    let (cur, len, at) = decode_record s.buffer c.mask c.read_cursor in
    (record { len = len; at = at }, record c { read_cursor = cur })

-- `Msg::deref`, and `Drop for Msg`.
unfoldable pub view : Shared → Msg → List ℕ
view s msg = payload s.buffer (0, msg.len, msg.at)

unfoldable pub drop_msg : BytesConsumer → Shared → Msg → BytesConsumer × Shared
drop_msg c s msg = advance c s (record_len msg.len)

pub data Popped : Type 0 where
  closed : Popped
  nothing : Popped
  item : Msg → Popped

abbrev pub received : Msg × BytesConsumer → Popped × BytesConsumer
received (msg, c) = (item msg, c)

unfoldable pub try_pop : BytesConsumer → Shared → Popped × BytesConsumer
try_pop c s =
    let (found, c') = has_item c s in
    if found
    then received (next_msg c' s)
    else (let (ended, c'') = check_closed c' s in
        if ended
        then (closed, c'')
        else if not (available_cached c'' == 0)
        then received (next_msg c'' s)
        else (nothing, c''))

-- A round of `wait_for_item`: `none` for `Err(Closed)`, else whether it may return.
unfoldable pub poll_item : BytesConsumer → Shared → Option Bool × BytesConsumer
poll_item c s =
    let (found, c') = has_item c s in
    if found
    then (some true, c')
    else (let (ended, c'') = check_closed c' s in
        if ended then (none, c'') else (some (not (available_cached c'' == 0)), c''))

-- The list holds the shared state as it stands at the end of each wait; true for `Err(Closed)`, and
-- `none` if the consumer still waits when the list ends.
unfoldable pub wait_for_item :
    List Shared → BytesConsumer → Shared → Option (Bool × BytesConsumer × Shared)
wait_for_item [] c s =
    let (answer, c') = poll_item c s in
    elim answer [ none ↦ some (true, c', s) | some true ↦ some (false, c', s) | some false ↦ none ]
wait_for_item (later ∷ waits) c s =
    let (answer, c') = poll_item c s in
    let rest = wait_for_item waits c' later in
    elim answer [ none ↦ some (true, c', s) | some true ↦ some (false, c', s) | some false ↦ rest ]

unfoldable pub pop : List Shared → BytesConsumer → Shared → Option (Popped × BytesConsumer × Shared)
pop waits c s = elim (wait_for_item waits c s) [
  | none ↦ none
  | some (true, c', s') ↦ some (closed, c', s')
  | some (false, c', s') ↦ let (msg, c'') = next_msg c' s' in some (item msg, c'', s')
]

unfoldable pub consumer_capacity : BytesConsumer → ℕ
consumer_capacity c = c.mask + 1

unfoldable pub consumer_max_message_len : BytesConsumer → ℕ
consumer_max_message_len c = max_message_len (c.mask + 1)

-- The loop of `drain` up to `end`, within a batch from `start`, at most `rounds` times: the messages
-- handed to the callback.
unfoldable pub drain_loop : ℕ → BytesConsumer → Shared → ℕ → ℕ → List (List ℕ) × BytesConsumer
drain_loop zero c s end start = ([], c)
drain_loop (suc rounds) c s end start =
    let (cur, len, at) = decode_record s.buffer c.mask c.read_cursor in
    let c' = record c { read_cursor = wrapping_add cur (record_len len) } in
    let (seen, c'') = drain_loop rounds c' s end start in
    if not (wrapping_sub end c.read_cursor == 0)
      && ltb (wrapping_sub c.read_cursor start) (publish_batch_bytes (c.mask + 1))
    then (payload s.buffer (cur, len, at) ∷ seen, c'')
    else ([], c)

-- `drain`, with the publish of its guard.
unfoldable pub drain : ℕ → BytesConsumer → Shared → List (List ℕ) × BytesConsumer × Shared
drain rounds c s =
    let c' = refresh c s in
    let (seen, c'') = drain_loop rounds c' s c'.write_cache c'.read_cursor in
    let (c3, s') = flush_pending c'' s in
    if wrapping_sub c'.write_cache c'.read_cursor == 0 then ([], c', s) else (seen, c3, s')

-- `Drop for BytesConsumer`: flush, store the sentinel, then clear the bit and wake the producer.
unfoldable pub drop_consumer : BytesConsumer → Shared → Shared
drop_consumer c s =
    let (c', s') = flush_pending c s in
    let gone =
      set s'.registry c.slot_idx (record (slot_at s'.registry c.slot_idx) { cursor = detached }) in
    record s' { registry = deactivate gone c.slot_idx; producer_wakes = s'.producer_wakes + 1 }

unfoldable pub consumer_is_empty : BytesConsumer → Shared → Bool
consumer_is_empty c s = wrapping_sub s.write_cursor c.read_cursor == 0
