-- ===== src/Bytes.antt =====
-- The variable-size message ring of src/spsc_bytes.rs, with both of its handles over one buffer of
-- bytes. A method that may panic returns an `Outcome`; a blocking one takes the cursors that the
-- other side publishes in its waits.
pub mod Stored
pub mod Holds
pub mod Front
pub mod Calls
pub mod Client
mod Tests
use rust_rb.Base.{
  ℕ, zero, suc, ◌+◌, ◌%◌, ◌^◌, Bool, true, false, Option, none, some, List, [], ◌∷◌, if◌then◌else◌,
  ◌==◌, length, replicate, wrapping_add, wrapping_sub, bit_and, Outcome, returns, panics,
}
use rust_rb.Base.Memory.{write_bytes}
use rust_rb.Policy.{publish_batch, round_capacity}
use rust_rb.Frame.{
  header, min_capacity, record_len, max_message_len, frame, write_frame, decode_record, payload,
}
use rust_rb.Cursor.{
  Shared, ProducerCore, ConsumerCore, channel, has_space, wait_for_space, publish, has_item,
  wait_for_item, advance, refresh, flush_pending, producer_starving, occupancy, available,
}

abbrev pub max_publish_batch_bytes : ℕ
max_publish_batch_bytes = 4096

pub record Ring : Type 0 where
  pub buffer : List ℕ
  pub shared : Shared
  pub producer : ProducerCore
  pub consumer : ConsumerCore

-- `channel` over `capacity / 8` zeroed words, as bytes.
pub fresh : ℕ → Ring
fresh capacity =
    let (s, p, c) = channel capacity in
    record { buffer = replicate capacity 0; shared = s; producer = p; consumer = c }

fresh_of : Outcome ℕ → Outcome Ring
fresh_of (returns capacity) = returns (fresh capacity)
fresh_of (panics cause) = panics cause

-- `with_wait_strategies`, and `new`, which passes its argument on.
pub with_wait_strategies : ℕ → Outcome Ring
unfolding fresh fresh_of
with_wait_strategies requested = fresh_of (round_capacity requested min_capacity)

-- A claimed slot: its padding and its length. Its payload starts at `payload_at`.
pub record WriteSlot : Type 0 where
  pub pad : ℕ
  pub len : ℕ

-- `payload_ptr`
pub payload_at : ProducerCore → ℕ → ℕ
payload_at p pad = bit_and (wrapping_add p.write_cursor pad) p.mask + header

-- `write_frame` with its publish.
pub write_record : Ring → ℕ → ℕ → Option (List ℕ) → Ring
write_record r pad len src =
    let (p, s) = publish r.producer r.shared (pad + record_len len) in
    record r {
      buffer = write_frame r.buffer r.producer.mask r.producer.write_cursor pad len src;
      shared = s;
      producer = p;
    }

-- `try_claim` once the message is framed.
claim_framed : Ring → ℕ → ℕ × ℕ → Option WriteSlot × Ring
claim_framed r len (pad, total) =
    let (fits, p, s) = has_space r.producer r.shared total in
    let r' = record r { producer = p; shared = s } in
    if fits then (some (record { pad = pad; len = len }), r') else (none, r')

claim_in : Ring → ℕ → Outcome (ℕ × ℕ) → Outcome (Option WriteSlot × Ring)
claim_in r len (returns framed) = returns (claim_framed r len framed)
claim_in r len (panics cause) = panics cause

pub try_claim : Ring → ℕ → Outcome (Option WriteSlot × Ring)
unfolding claim_in claim_framed
try_claim r len = claim_in r len (frame r.producer.mask r.producer.write_cursor len)

-- `claim` once the message is framed.
wait_claim : List ℕ → Ring → ℕ → Outcome (ℕ × ℕ) → Outcome (Option (WriteSlot × Ring))
wait_claim cursors r len (panics cause) = panics cause
wait_claim cursors r len (returns (pad, total)) =
    returns (elim (wait_for_space cursors r.producer r.shared total) [
      | none ↦ none
      | some (p, s) ↦ some (record { pad = pad; len = len }, record r { producer = p; shared = s })
    ])

pub claim : List ℕ → Ring → ℕ → Outcome (Option (WriteSlot × Ring))
unfolding wait_claim
claim cursors r len = wait_claim cursors r len (frame r.producer.mask r.producer.write_cursor len)

-- What the client serializes into the slice of a claimed slot.
pub fill : Ring → WriteSlot → List ℕ → Ring
fill r slot bytes = record r {
  buffer = write_bytes r.buffer (payload_at r.producer slot.pad) bytes;
}

-- `WriteSlot::commit`
pub commit : Ring → WriteSlot → Ring
commit r slot = write_record r slot.pad slot.len none

-- `try_push` once the message is framed.
push_framed : Ring → List ℕ → ℕ × ℕ → Bool × Ring
push_framed r msg (pad, total) =
    let (fits, p, s) = has_space r.producer r.shared total in
    let r' = record r { producer = p; shared = s } in
    if fits then (true, write_record r' pad (length msg) (some msg)) else (false, r')

push_in : Ring → List ℕ → Outcome (ℕ × ℕ) → Outcome (Bool × Ring)
push_in r msg (returns framed) = returns (push_framed r msg framed)
push_in r msg (panics cause) = panics cause

pub try_push : Ring → List ℕ → Outcome (Bool × Ring)
unfolding push_in push_framed
try_push r msg = push_in r msg (frame r.producer.mask r.producer.write_cursor (length msg))

-- `push` once the message is framed.
wait_push : List ℕ → Ring → List ℕ → Outcome (ℕ × ℕ) → Outcome (Option Ring)
wait_push cursors r msg (panics cause) = panics cause
wait_push cursors r msg (returns (pad, total)) =
    returns (elim (wait_for_space cursors r.producer r.shared total) [
      | none ↦ none
      | some (p, s) ↦
          some (write_record (record r { producer = p; shared = s }) pad (length msg) (some msg))
    ])

pub push : List ℕ → Ring → List ℕ → Outcome (Option Ring)
unfolding wait_push
push cursors r msg =
    wait_push cursors r msg (frame r.producer.mask r.producer.write_cursor (length msg))

-- A received message: its length, and the offset of its payload in the ring.
pub record Msg : Type 0 where
  pub len : ℕ
  pub at : ℕ

-- `next_msg`: decode, and step over padding.
pub next_msg : Ring → Msg × Ring
next_msg r =
    let (cur, len, at) = decode_record r.buffer r.consumer.mask r.consumer.read_cursor in
    (record { len = len; at = at }, record r { consumer = record r.consumer { read_cursor = cur } })

-- `Msg::deref`
pub view : Ring → Msg → List ℕ
view r msg = payload r.buffer (0, msg.len, msg.at)

-- `Drop for Msg`
pub drop_msg : Ring → Msg → Ring
drop_msg r msg =
    let capacity = r.consumer.mask + 1 in
    let (c, s) =
      advance r.consumer r.shared (record_len msg.len)
        (publish_batch capacity max_publish_batch_bytes) (producer_starving r.shared) in
    record r { consumer = c; shared = s }

pub try_pop : Ring → Option Msg × Ring
unfolding next_msg
try_pop r =
    let (found, c) = has_item r.consumer r.shared in
    let r' = record r { consumer = c } in
    if found then (let (msg, r'') = next_msg r' in (some msg, r'')) else (none, r')

pub pop : List ℕ → Ring → Option (Msg × Ring)
unfolding next_msg
pop cursors r = elim (wait_for_item cursors r.consumer r.shared) [
  | none ↦ none
  | some (c, s) ↦ some (next_msg (record r { consumer = c; shared = s }))
]

-- The loop of `drain` up to `end`, at most `rounds` times: the messages handed to the callback.
drain_loop : ℕ → Ring → ℕ → List (List ℕ) × Ring
drain_loop zero r end = ([], r)
drain_loop (suc rounds) r end =
    let (cur, len, at) = decode_record r.buffer r.consumer.mask r.consumer.read_cursor in
    let moved : ConsumerCore = record r.consumer {
      read_cursor = wrapping_add cur (record_len len);
    } in
    let (seen, r') = drain_loop rounds (record r { consumer = moved }) end in
    if wrapping_sub end r.consumer.read_cursor == 0
    then ([], r)
    else (payload r.buffer (cur, len, at) ∷ seen, r')

-- The publish of `FlushOnDrop`.
flush_ring : Ring → Ring
flush_ring r =
    let (c, s) = flush_pending r.consumer r.shared in record r { consumer = c; shared = s }

-- `drain`: the messages in order (their number is what it returns), and the ring after its one publish.
pub drain : ℕ → Ring → List (List ℕ) × Ring
unfolding drain_loop flush_ring
drain rounds r =
    let c = refresh r.consumer r.shared in
    let r' = record r { consumer = c } in
    let (seen, r'') = drain_loop rounds r' c.write_cursor_cache in
    if wrapping_sub c.write_cursor_cache c.read_cursor == 0
    then ([], r')
    else (seen, flush_ring r'')

-- `is_empty`, `capacity` and `max_message_len` of the two handles.
pub producer_is_empty : Ring → Bool
producer_is_empty r = occupancy r.shared == 0

pub consumer_is_empty : Ring → Bool
consumer_is_empty r = available r.consumer r.shared == 0

pub producer_max_message_len : Ring → ℕ
producer_max_message_len r = max_message_len (r.producer.mask + 1)

pub consumer_max_message_len : Ring → ℕ
consumer_max_message_len r = max_message_len (r.consumer.mask + 1)

pub producer_capacity : Ring → ℕ
producer_capacity r = r.producer.mask + 1

pub consumer_capacity : Ring → ℕ
consumer_capacity r = r.consumer.mask + 1
