-- ===== src/Broadcast.antt =====
-- The lossy broadcast ring of src/broadcast.rs with the slots of src/seqlock.rs, over the heap
-- backing, call by call. The producer never waits, and a consumer that it laps is told how many
-- elements it missed. The payload `data` of a slot is an option, what is known of a `MaybeUninit`.
pub mod Ring
pub mod Lag
pub mod Setup
mod Tests
use rust_rb.Base.{
  ℕ, ◌+◌, ◌*◌, ◌-◌, ◌/◌, max, min, bit_and, Bool, true, false, not, Option, none, some, List, [],
  if◌then◌else◌, ltb, leb, ◌==◌, get_or, set, replicate, word_max, wrapping_add, Outcome, returns,
  panics, slack_too_large, zero_sized,
}
use rust_rb.Policy.{round_capacity}

unfoldable pub default_slack : ℕ → ℕ
default_slack capacity =
    if capacity == 1 then 0 else (let slack = capacity / 8 in if slack == 0 then 1 else slack)

-- `tail.saturating_add(slack).saturating_sub(capacity)`
unfoldable pub reposition_target : ℕ → ℕ → ℕ → ℕ
reposition_target tail capacity slack = min (tail + slack) word_max - capacity

-- `seqlock::Slot`
pub record Slot {ℓ} (A : Type ℓ) : Type ℓ where
  pub seq : ℕ
  pub value : Option A

pub record Shared {ℓ} (A : Type ℓ) : Type ℓ where
  pub slots : List (Slot A)
  pub mask : ℕ
  pub slack : ℕ
  pub tail : ℕ
  pub closed : ℕ

pub record Producer : Type 0 where
  pub mask : ℕ
  pub slack : ℕ
  pub next_seq : ℕ
  pub tail_batch : ℕ
  pub unpublished : ℕ

pub record Consumer : Type 0 where
  pub mask : ℕ
  pub slack : ℕ
  pub pos : ℕ
  pub tail_cache : ℕ

-- `Result<Option<T>, PopError>`; `undefined` if a validated slot holds no element.
pub data Popped {ℓ} (A : Type ℓ) : Type ℓ where
  item : A → Popped A
  nothing : Popped A
  lagged : ℕ → Popped A
  closed : Popped A
  undefined : Popped A

abbrev pub available : Consumer → Bool
available c = ltb c.pos c.tail_cache

module _ {ℓ} {A : Type ℓ} where
  abbrev pub empty_slot : Slot A
  empty_slot = record { seq = 0; value = none }

  abbrev pub slot_at : List (Slot A) → ℕ → Slot A
  slot_at slots i = get_or slots i empty_slot

  unfoldable pub subscribe_from : Shared A → Consumer
  subscribe_from s = record { mask = s.mask; slack = s.slack; pos = s.tail; tail_cache = s.tail }

  -- The ring and the handles that `build` makes.
  unfoldable pub handles : ℕ → ℕ → Shared A × Producer × Consumer
  handles capacity slack =
      let s : Shared A = record {
        slots = replicate capacity empty_slot;
        mask = capacity - 1;
        slack = slack;
        tail = 0;
        closed = 0;
      } in
      (
        s,
        record { mask = s.mask; slack = s.slack; next_seq = 0; tail_batch = 1; unpublished = 0 },
        subscribe_from s,
      )

  -- `build`, for elements of `size` bytes: `size_of::<T>()`.
  unfoldable pub build : ℕ → ℕ → ℕ → Outcome (Shared A × Producer × Consumer)
  build size capacity slack =
      if not (size == 0) then returns (handles capacity slack) else panics zero_sized

  -- What `round_capacity` gives, and a slack that its capacity decides.
  unfoldable pub built : ℕ → (ℕ → ℕ) → Outcome ℕ → Outcome (Shared A × Producer × Consumer)
  built size slack (panics cause) = panics cause
  built size slack (returns capacity) = build size capacity (slack capacity)

  unfoldable pub with_wait_strategies : ℕ → ℕ → Outcome (Shared A × Producer × Consumer)
  unfolding built
  with_wait_strategies size min_capacity = built size default_slack (round_capacity min_capacity 1)

  slacked : ℕ → ℕ → Outcome ℕ → Outcome (Shared A × Producer × Consumer)
  slacked size slack (panics cause) = panics cause
  slacked size slack (returns capacity) =
      if ltb slack capacity then build size capacity slack else panics slack_too_large

  unfoldable pub with_slack : ℕ → ℕ → ℕ → Outcome (Shared A × Producer × Consumer)
  unfolding slacked
  with_slack size min_capacity slack = slacked size slack (round_capacity min_capacity 1)

  unfoldable pub publish_tail : Producer → Shared A → Producer × Shared A
  publish_tail p s = (record p { unpublished = 0 }, record s { tail = p.next_seq })

  unfoldable pub flush : Producer → Shared A → Producer × Shared A
  flush p s = if ltb 0 p.unpublished then publish_tail p s else (p, s)

  -- `set_tail_batch`: the batch that takes effect.
  unfoldable pub set_tail_batch : Producer → Shared A → ℕ → ℕ × Producer × Shared A
  set_tail_batch p s batch =
      let most = max (min ((p.mask + 1) / 8) p.slack) 1 in
      let clamped = min (max batch 1) most in
      let p' = record p { tail_batch = clamped } in
      let (p'', s') = if leb clamped p.unpublished then publish_tail p' s else (p', s) in
      (clamped, p'', s')

  unfoldable pub push : Producer → Shared A → A → Producer × Shared A
  push p s value =
      let n = p.next_seq in
      let i = bit_and n p.mask in
      let busy = set s.slots i (record (slot_at s.slots i) { seq = wrapping_add (2 * n) 1 }) in
      let stored = set busy i (record (slot_at busy i) { value = some value }) in
      let slots = set stored i (record (slot_at stored i) { seq = wrapping_add (2 * n) 2 }) in
      let p' = record p { next_seq = wrapping_add n 1; unpublished = p.unpublished + 1 } in
      let s' = record s { slots = slots } in
      if leb p'.tail_batch p'.unpublished then publish_tail p' s' else (p', s')

  unfoldable pub drop_producer : Producer → Shared A → Shared A
  drop_producer p s = record ((flush p s).1) { closed = 1 }

  -- `seqlock::read_valid`: the payload where the generation is the one expected, before and after.
  unfoldable pub read_valid : Slot A → ℕ → Option (Option A)
  read_valid slot expected = if slot.seq == expected then some slot.value else none

  unfoldable pub refresh : Consumer → Shared A → Consumer
  refresh c s = record c { tail_cache = s.tail }

  unfoldable pub has_item : Consumer → Shared A → Bool × Consumer
  has_item c s =
      if not (available c) then (let c' = refresh c s in (available c', c')) else (true, c)

  -- `check_closed`: true for `Err(Closed)`.
  unfoldable pub check_closed : Consumer → Shared A → Bool × Consumer
  check_closed c s =
      if not (s.closed == 0)
      then (let c' = refresh c s in (leb c'.tail_cache c'.pos, c'))
      else (false, c)

  -- `reposition`: how many elements the consumer skips.
  unfoldable pub reposition : Consumer → Shared A → ℕ × Consumer
  reposition c s =
      let c' = refresh c s in
      let new_pos = max (reposition_target c'.tail_cache (c'.mask + 1) c'.slack) c'.pos in
      (new_pos - c'.pos, record c' { pos = new_pos })

  abbrev pub validated : Option A → Popped A
  validated none = undefined
  validated (some x) = item x

  -- The rest of `read_slot`, after the read.
  abbrev pub after_read : Consumer → Shared A → Option (Option A) → Popped A × Consumer
  after_read c s (some value) = (validated value, record c { pos = wrapping_add c.pos 1 })
  after_read c s none = let (missed, c') = reposition c s in (lagged missed, c')

  unfoldable pub read_slot : Consumer → Shared A → Popped A × Consumer
  read_slot c s =
      after_read c s
        (read_valid (slot_at s.slots (bit_and c.pos c.mask)) (wrapping_add (2 * c.pos) 2))

  unfoldable pub try_pop : Consumer → Shared A → Popped A × Consumer
  try_pop c s =
      let (found, c') = has_item c s in
      if found
      then read_slot c' s
      else (let (ended, c'') = check_closed c' s in
          if ended
          then (closed, c'')
          else if available c''
          then read_slot c'' s
          else (nothing, c''))

  unfoldable pub skip_to_latest : Consumer → Shared A → ℕ × Consumer
  skip_to_latest c s =
      let c' = refresh c s in (c'.tail_cache - c'.pos, record c' { pos = max c'.pos c'.tail_cache })

  unfoldable pub lag : Consumer → Shared A → ℕ
  lag c s = s.tail - c.pos
