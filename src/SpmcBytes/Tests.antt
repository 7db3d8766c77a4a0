-- ===== src/SpmcBytes/Tests.antt =====
-- Runs of the message ring of several consumers at concrete inputs, and its theorems at inputs that
-- meet their hypotheses: a ring of 16 bytes.
use rust_rb.Base.{
  ◌+◌, List, inl, Bool, ℕ, ◌≤◌, ◌<◌, ◌≡◌, refl, true, false, some, [], ◌∷◌, arith, replicate,
  length, returns, panics, message_too_long, wrapping_add, wrapping_sub,
}
use rust_rb.Frame.{
  frame, max_message_len, record_len, align_up, write_frame, decode_record, payload,
}
use rust_rb.Frame.Fits.{IsPlaced}
use rust_rb.Bytes.Stored.{taken}
use rust_rb.SpmcBytes.{
  Shared, BytesProducer, BytesConsumer, fresh_shared, fresh_producer, write_record, try_push,
  try_claim, has_space, rescan, publish, subscribe_from, publish_batch_bytes,
}
use rust_rb.Base.Memory.{write_bytes, read_bytes, write_u32, read_u32}
use rust_rb.Policy.{publish_batch, lacks_space}
use rust_rb.Registry.{
  detached, guard_sentinel, is_free, claim_registry_slot, subscribe_slot, deactivate, gate_at,
  scan_slot, scan_chunk_registry, rescan_gate,
}
use rust_rb.Registry.Peers.{pop_at, leave_at}
use rust_rb.SpmcBytes.Fresh.{fresh-IsGated}
use rust_rb.Spmc.Consumers.{item, nothing}
use rust_rb.Spmc.Client.{Call, push, pop, join, leave, pushed, got, done, Follows}
use rust_rb.SpmcBytes.Errors.{AllEnd, sends-AllEnd}
use rust_rb.SpmcBytes.Claims.{send_claimed, try_claim-try_push}
use rust_rb.SpmcBytes.Client.{System, Message, run, step}
use rust_rb.SpmcBytes.Refine.{Serves, run-Serves}
use rust_rb.SpmcBytes.Consumers.{
  try_pop, refresh, has_item, check_closed, flush, flush_pending, advance, next_msg, view, drop_msg,
  drop_consumer,
}
use rust_rb.SpmcBytes.Gated.{IsGated, write_record-IsGated}
use rust_rb.SpmcBytes.Holds.{Holds, write_record-Holds}
use rust_rb.SpmcBytes.Push.{Queue, Reaches, try_push-Delivers}
use rust_rb.SpmcBytes.Calls.{Takes, try_pop-Serves}

-- A ring with one consumer and no message.
abbrev ring : Shared
ring = record {
  buffer = replicate 16 0;
  mask = 15;
  write_cursor = 0;
  closed = 0;
  starving = 0;
  registry = record { active = true; cursor = 0 } ∷ [];
  producer_wakes = 0;
  consumer_wakes = 0;
}

abbrev feeder : BytesProducer
feeder = record {
  mask = 15;
  next_seq = 0;
  cached_min = 0;
  cached_cursors = [];
  raised_starving = false;
}

abbrev reader : BytesConsumer
reader = record { mask = 15; slot_idx = 0; read_cursor = 0; published = 0; write_cache = 0 }

ring-IsGated : IsGated 16 feeder ring
unfolding wrapping_sub
ring-IsGated = record {
  power = (4, refl);
  legal = omega arith;
  small = omega arith;
  mask = refl;
  shared_mask = refl;
  written = refl;
  range = omega arith;
  storage = refl;
  aligned = refl;
  min_word = omega arith;
  min_near = omega arith;
  gated = (λ _. (omega arith, omega arith), tt);
  lower = tt;
}

reader-Holds : Holds 16 ring reader [] []
reader-Holds = record {
  mask = refl;
  slot = refl;
  published_read = omega arith;
  read_cached = omega arith;
  cached_written = omega arith;
  written_word = omega arith;
  read_aligned = refl;
  cache_aligned = refl;
  seen_stored = refl;
  unseen_stored = refl;
}

-- The ring with the message `5` in it.
abbrev fed : BytesProducer × Shared
fed = write_record feeder ring 0 1 (some (5 ∷ []))

five-IsPlaced : IsPlaced 16 15 0 1 0
unfolding record_len align_up wrapping_add
five-IsPlaced = record {
  at = inl (refl, refl);
  contiguous = omega arith;
  total = omega arith;
  multiple = refl;
}

fed-IsGated : IsGated 16 fed.0 fed.1
unfolding wrapping_sub record_len align_up wrapping_add
fed-IsGated =
    (write_record-IsGated ring-IsGated 0 1 (some (5 ∷ [])) five-IsPlaced (omega arith) refl
      (omega arith) (omega arith)).0

fed_range : fed.0.next_seq + 16 + 16 < detached
unfolding write_record publish record_len align_up wrapping_add
fed_range = omega arith

fed-Queue : Queue 16 fed.1 reader ((5 ∷ []) ∷ [])
unfolding wrapping_sub record_len align_up wrapping_add
fed-Queue = (
  [],
  (5 ∷ []) ∷ [],
  write_record-Holds ring-IsGated reader-Holds 0 (5 ∷ []) five-IsPlaced (omega arith) (omega arith)
      (omega arith),
  refl,
)

try_push-Delivers_example :
    (length {A = ℕ} (5 ∷ []) ≤ max_message_len 16
      → (pad : ℕ) × (out : Bool × BytesProducer × Shared) × (frame 15 0 1
          ≡ returns (pad, taken (5 ∷ []) pad))
        × (try_push feeder ring (5 ∷ []) ≡ returns out)
        × (taken (5 ∷ []) pad < 16)
        × Reaches 16 feeder ring (5 ∷ []) pad out)
    × (max_message_len 16 < length {A = ℕ} (5 ∷ [])
        → try_push feeder ring (5 ∷ []) ≡ panics message_too_long)
try_push-Delivers_example = try_push-Delivers ring-IsGated (5 ∷ []) (omega arith)

try_pop-Serves_example : Takes 16 fed.0 fed.1 reader ((5 ∷ []) ∷ []) (try_pop reader fed.1)
try_pop-Serves_example = try_pop-Serves ((5 ∷ []) ∷ []) fed-IsGated fed-Queue

-- A system without consumers over a new ring.
abbrev alone : System
alone = record { shared = fresh_shared 16; producer = fresh_producer 16; consumers = [] }

alone-Serves : Serves 16 alone []
unfolding fresh_shared
alone-Serves = record {
  gate = fresh-IsGated 16 (4, refl) (omega arith) (omega arith);
  open_ring = refl;
  peers = tt;
}

abbrev calls : List (Call Message)
calls =
    push (9 ∷ [])
    ∷ join
    ∷ push (1 ∷ [])
    ∷ join
    ∷ push []
    ∷ push (2 ∷ [])
    ∷ pop 1
    ∷ pop 0
    ∷ pop 1
    ∷ push (2 ∷ [])
    ∷ pop 1
    ∷ leave 0
    ∷ pop 0
    ∷ []

-- The second consumer joins behind a message, and the ring is full until the first reads it.
several_run :
    (run alone calls).0
    ≡ pushed true
      ∷ done
      ∷ pushed true
      ∷ done
      ∷ pushed true
      ∷ pushed false
      ∷ got (item (1 ∷ []))
      ∷ got (item [])
      ∷ got (item [])
      ∷ pushed true
      ∷ got (item (2 ∷ []))
      ∷ done
      ∷ got nothing
      ∷ []
unfolding run step pop_at leave_at fresh_shared fresh_producer subscribe_from subscribe_slot
    claim_registry_slot is_free guard_sentinel try_push has_space rescan scan_chunk_registry
    scan_slot gate_at rescan_gate lacks_space write_record publish frame record_len align_up
    max_message_len write_frame decode_record payload try_pop has_item check_closed refresh next_msg
    view drop_msg advance flush publish_batch_bytes publish_batch drop_consumer flush_pending
    deactivate wrapping_add wrapping_sub write_bytes read_bytes write_u32 read_u32
several_run = refl

run-Serves_example :
    (qs : List (List Message)) × Follows [] calls (run alone calls).0 qs
    × Serves 16 (run alone calls).1 qs
unfolding fresh_producer max_message_len wrapping_sub
run-Serves_example =
    run-Serves calls alone-Serves
      (
        omega arith,
        (
          tt,
          (
            omega arith,
            (
              tt,
              (omega arith, (omega arith, (tt, (tt, (tt, (omega arith, (tt, (tt, (tt, tt))))))))),
            ),
          ),
        ),
      )
      (omega arith)

try_claim-try_push_example :
    send_claimed (5 ∷ 6 ∷ []) (try_claim fed.0 fed.1 2) ≡ try_push fed.0 fed.1 (5 ∷ 6 ∷ [])
try_claim-try_push_example = try_claim-try_push (5 ∷ 6 ∷ []) fed-IsGated fed_range

abbrev long_message : List ℕ
long_message = 1 ∷ 2 ∷ 3 ∷ 4 ∷ 5 ∷ []

sends-AllEnd_example :
    (max_message_len 16 < length long_message → AllEnd true [] feeder ring long_message)
    × (length long_message ≤ max_message_len 16 → AllEnd false [] feeder ring long_message)
sends-AllEnd_example = sends-AllEnd [] long_message ring-IsGated
