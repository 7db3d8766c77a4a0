-- ===== src/Spsc.antt =====
-- The fixed-size ring of src/spsc.rs, with both of its handles: `Producer` and `Consumer` over one
-- buffer of slots. A slot is `MaybeUninit<T>` with what is known of it: `none` was never written, or
-- its value was moved or dropped.
pub mod Represents
pub mod Refine
pub mod Calls
pub mod Client
pub mod Teardown
mod Tests
use rust_rb.Base.{
  ℕ, zero, suc, ◌+◌, ◌-◌, Bool, Option, none, some, List, [], ◌∷◌, if◌then◌else◌, ltb, ◌==◌, get_or,
  set, replicate, wrapping_add, wrapping_sub, Outcome, returns, panics,
}
use rust_rb.Policy.{publish_batch, round_capacity}
use rust_rb.Cursor.{
  Shared, ProducerCore, ConsumerCore, channel, has_space, wait_for_space, publish, slot_index,
  has_item, wait_for_item, advance, occupancy, is_full_view, available, occupied_relaxed,
  drop_consumer,
}

abbrev pub max_publish_batch : ℕ
max_publish_batch = 64

pub record Ring {ℓ} (A : Type ℓ) : Type ℓ where
  pub buffer : List (Option A)
  pub shared : Shared
  pub producer : ProducerCore
  pub consumer : ConsumerCore

-- What taking the next element gives: the ring is empty, an element, or the remains of a slot that
-- holds none (undefined behaviour in the source).
pub data Popped {ℓ} (A : Type ℓ) : Type ℓ where
  nothing : Popped A
  item : A → Popped A
  undefined : Popped A

module _ {ℓ} {A : Type ℓ} where
  -- `channel` over a buffer of `capacity` uninitialised slots.
  pub fresh : ℕ → Ring A
  fresh capacity =
      let (s, p, c) = channel capacity in
      record { buffer = replicate capacity none; shared = s; producer = p; consumer = c }

  fresh_of : Outcome ℕ → Outcome (Ring A)
  fresh_of (returns capacity) = returns (fresh capacity)
  fresh_of (panics cause) = panics cause

  -- `with_wait_strategies`, and `new`, which passes its argument on.
  pub with_wait_strategies : ℕ → Outcome (Ring A)
  unfolding fresh fresh_of
  with_wait_strategies min_capacity = fresh_of (round_capacity min_capacity 1)

  -- `WriteSlot::uninit`, written through.
  pub init_slot : Ring A → A → Ring A
  init_slot r value = record r {
    buffer = set r.buffer (slot_index r.producer.write_cursor r.producer.mask) (some value);
  }

  -- `WriteSlot::commit_init`
  pub commit_init : Ring A → Ring A
  commit_init r =
      let (p, s) = publish r.producer r.shared 1 in record r { producer = p; shared = s }

  -- `write`, and `WriteSlot::commit`, which calls it.
  pub write : Ring A → A → Ring A
  unfolding init_slot commit_init
  write r value = commit_init (init_slot r value)

  -- `try_claim`: whether a slot is handed out.
  pub try_claim : Ring A → Bool × Ring A
  try_claim r =
      let (fits, p, s) = has_space r.producer r.shared 1 in
      (fits, record r { producer = p; shared = s })

  -- `try_push`: the value handed back, if the ring is full.
  pub try_push : Ring A → A → Option A × Ring A
  unfolding try_claim write
  try_push r value =
      let (fits, r') = try_claim r in if fits then (none, write r' value) else (some value, r')

  -- `claim`, with the cursors that the consumer publishes in the waits.
  pub claim : List ℕ → Ring A → Option (Ring A)
  claim cursors r = elim (wait_for_space cursors r.producer r.shared 1) [
    | none ↦ none
    | some (p, s) ↦ some (record r { producer = p; shared = s })
  ]

  pub push : List ℕ → Ring A → A → Option (Ring A)
  unfolding claim
  push cursors r value = elim (claim cursors r) [ none ↦ none | some r' ↦ some (write r' value) ]

  -- The consumer's `slot`, as its contents; `Deref` of `PopRef` reads it.
  pub front : Ring A → Option A
  front r = get_or r.buffer (slot_index r.consumer.read_cursor r.consumer.mask) none

  -- The slot once its value is moved out or dropped.
  vacate : Ring A → Ring A
  vacate r = record r {
    buffer = set r.buffer (slot_index r.consumer.read_cursor r.consumer.mask) none;
  }

  -- `advance_one`
  advance_one : Ring A → Ring A
  advance_one r =
      let capacity = r.consumer.mask + 1 in
      let was_full =
        ltb (capacity - 1) (wrapping_sub r.consumer.write_cursor_cache r.consumer.read_cursor) in
      let (c, s) =
        advance r.consumer r.shared 1 (publish_batch capacity max_publish_batch) was_full in
      record r { consumer = c; shared = s }

  -- `read`: what it took out, and the ring after it. Dropping a `PopRef` has the same effect on the
  -- ring: the element is dropped in place, and the slot released also where its destructor unwinds.
  pub read : Ring A → Ring A
  unfolding vacate advance_one
  read r = advance_one (vacate r)

  taken : Option A → Popped A
  taken none = undefined
  taken (some value) = item value

  -- `try_pop_ref`: whether a view is handed out.
  pub try_pop_ref : Ring A → Bool × Ring A
  try_pop_ref r =
      let (found, c) = has_item r.consumer r.shared in (found, record r { consumer = c })

  pub try_pop : Ring A → Popped A × Ring A
  unfolding try_pop_ref read front taken
  try_pop r =
      let (found, r') = try_pop_ref r in
      if found then (taken (front r'), read r') else (nothing, r')

  -- `pop_ref`, with the cursors that the producer publishes in the waits.
  pub pop_ref : List ℕ → Ring A → Option (Ring A)
  pop_ref cursors r = elim (wait_for_item cursors r.consumer r.shared) [
    | none ↦ none
    | some (c, s) ↦ some (record r { consumer = c; shared = s })
  ]

  pub pop : List ℕ → Ring A → Option (Popped A × Ring A)
  unfolding pop_ref read front taken
  pop cursors r = elim (pop_ref cursors r) [
    | none ↦ none
    | some r' ↦ some (taken (front r'), read r')
  ]

  -- `len`, `is_empty`, `is_full` and `capacity` of the two handles.
  pub producer_len : Ring A → ℕ
  producer_len r = occupancy r.shared

  pub producer_is_empty : Ring A → Bool
  producer_is_empty r = occupancy r.shared == 0

  pub producer_is_full : Ring A → Bool
  producer_is_full r = is_full_view r.producer r.shared

  pub producer_capacity : Ring A → ℕ
  producer_capacity r = r.producer.mask + 1

  pub consumer_len : Ring A → ℕ
  consumer_len r = available r.consumer r.shared

  pub consumer_is_empty : Ring A → Bool
  consumer_is_empty r = available r.consumer r.shared == 0

  pub consumer_is_full : Ring A → Bool
  consumer_is_full r = ltb r.consumer.mask (occupied_relaxed r.consumer r.shared)

  -- The loop of `Drop for Shared`: the slots that it cleans up. At most `rounds` of them.
  cleanup : ℕ → List (Option A) → ℕ → ℕ → ℕ → List (Option A)
  cleanup zero buffer mask head tail = []
  cleanup (suc rounds) buffer mask head tail =
      let rest = cleanup rounds buffer mask (wrapping_add head 1) tail in
      if head == tail then [] else get_or buffer (slot_index head mask) none ∷ rest

  -- Both handles gone: the consumer's drop publishes, then the shared state cleans up what is left.
  pub drop_ring : ℕ → Ring A → List (Option A)
  unfolding cleanup
  drop_ring rounds r =
      let (c, s) = drop_consumer r.consumer r.shared in
      cleanup rounds r.buffer r.consumer.mask s.read_cursor s.write_cursor
