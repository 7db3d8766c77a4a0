-- ===== src/Spmc/Consumers.antt =====
-- The consumers of the element ring of src/spmc.rs, and the teardown of the shared state.
use rust_rb.Base.{
  ℕ, zero, suc, ◌+◌, ◌-◌, min, Bool, true, false, not, ◌||◌, Option, none, some, List, [], ◌∷◌,
  ◌++◌, if◌then◌else◌, ltb, leb, ◌==◌, get_or, set, wrapping_add, wrapping_sub,
}
use rust_rb.Registry.{slot_at, detached, guard_sentinel, publish_batch_elems, deactivate}
use rust_rb.Spmc.{Shared, Consumer, slot_index}

abbrev pub available_cached : Consumer → ℕ
available_cached c = wrapping_sub c.write_cache c.read_cursor

-- What `try_pop` returns; `undefined` if it reads a slot that holds no element.
pub data Popped {ℓ} (A : Type ℓ) : Type ℓ where
  closed : Popped A
  nothing : Popped A
  item : A → Popped A
  undefined : Popped A

module _ {ℓ} {A : Type ℓ} where
  unfoldable pub consumer_len : Consumer → Shared A → ℕ
  consumer_len c s = wrapping_sub s.write_cursor c.read_cursor

  unfoldable pub refresh : Consumer → Shared A → Consumer
  refresh c s = record c { write_cache = s.write_cursor }

  unfoldable pub has_item : Consumer → Shared A → Bool × Consumer
  has_item c s =
      if available_cached c == 0
      then (let c' = refresh c s in if available_cached c' == 0 then (false, c') else (true, c'))
      else (true, c)

  -- `check_closed`: true for `Err(Closed)`.
  unfoldable pub check_closed : Consumer → Shared A → Bool × Consumer
  check_closed c s =
      if not (s.closed == 0)
      then (let c' = refresh c s in (available_cached c' == 0, c'))
      else (false, c)

  unfoldable pub flush : Consumer → Shared A → Consumer × Shared A
  flush c s = (
    record c { published = c.read_cursor },
    record s {
      registry =
          set s.registry c.slot_idx
            (record (slot_at s.registry c.slot_idx) { cursor = guard_sentinel c.read_cursor });
      producer_wakes = s.producer_wakes + 1;
    },
  )

  unfoldable pub flush_pending : Consumer → Shared A → Consumer × Shared A
  flush_pending c s = if not (c.read_cursor == c.published) then flush c s else (c, s)

  unfoldable pub advance_one : Consumer → Shared A → Consumer × Shared A
  advance_one c s =
      let capacity = c.mask + 1 in
      let was_full = ltb (capacity - 1) (wrapping_sub c.write_cache c.read_cursor) in
      let c' = record c { read_cursor = wrapping_add c.read_cursor 1 } in
      if was_full
        || c'.read_cursor == c'.write_cache
        || leb (publish_batch_elems capacity) (wrapping_sub c'.read_cursor c'.published)
      then flush c' s
      else (c', s)

  -- `PopRef::deref`: what stands in the slot at the read cursor.
  unfoldable pub front : Consumer → Shared A → Option A
  front c s = get_or s.buffer (slot_index c.read_cursor c.mask) none

  abbrev pub popped : Option A → Popped A
  popped none = undefined
  popped (some x) = item x

  -- `read`: a clone of the element, and the step past it.
  unfoldable pub read : Consumer → Shared A → Popped A × Consumer × Shared A
  read c s = let (c', s') = advance_one c s in (popped (front c s), c', s')

  unfoldable pub try_pop : Consumer → Shared A → Popped A × Consumer × Shared A
  try_pop c s =
      let (found, c') = has_item c s in
      if found
      then read c' s
      else (let (ended, c'') = check_closed c' s in
          if ended
          then (closed, c'', s)
          else if not (available_cached c'' == 0)
          then read c'' s
          else (nothing, c'', s))

  -- `try_pop_ref`: whether there is a guard, or `none` for `Err(Closed)`. The guard's `deref` is
  -- `front`, and its drop `advance_one`.
  unfoldable pub try_pop_ref : Consumer → Shared A → Option Bool × Consumer
  try_pop_ref c s =
      let (found, c') = has_item c s in
      if found
      then (some true, c')
      else (let (ended, c'') = check_closed c' s in
          if ended then (none, c'') else (some (not (available_cached c'' == 0)), c''))

  -- The list holds the shared state as it stands at the end of each wait; true for `Err(Closed)`, and
  -- `none` if the consumer still waits when the list ends.
  unfoldable pub wait_for_item :
      List (Shared A) → Consumer → Shared A → Option (Bool × Consumer × Shared A)
  wait_for_item [] c s =
      let (answer, c') = try_pop_ref c s in
      elim answer [
        | none ↦ some (true, c', s)
        | some true ↦ some (false, c', s)
        | some false ↦ none
      ]
  wait_for_item (later ∷ waits) c s =
      let (answer, c') = try_pop_ref c s in
      let rest = wait_for_item waits c' later in
      elim answer [
        | none ↦ some (true, c', s)
        | some true ↦ some (false, c', s)
        | some false ↦ rest
      ]

  unfoldable pub pop :
      List (Shared A) → Consumer → Shared A → Option (Popped A × Consumer × Shared A)
  pop waits c s = elim (wait_for_item waits c s) [
    | none ↦ none
    | some (true, c', s') ↦ some (closed, c', s')
    | some (false, c', s') ↦ some (read c' s')
  ]

  -- The loop of `drain`: the slots handed to the callback.
  unfoldable pub drain_loop : ℕ → Consumer → Shared A → List (Option A) × Consumer
  drain_loop zero c s = ([], c)
  drain_loop (suc count) c s =
      let (seen, c') =
        drain_loop count (record c { read_cursor = wrapping_add c.read_cursor 1 }) s in
      (front c s ∷ seen, c')

  -- `drain`, with the publish of its guard.
  unfoldable pub drain : Consumer → Shared A → List (Option A) × Consumer × Shared A
  drain c s =
      let c' = refresh c s in
      let available = wrapping_sub c'.write_cache c'.read_cursor in
      let (seen, c'') = drain_loop (min available (publish_batch_elems (c'.mask + 1))) c' s in
      let (c3, s') = flush_pending c'' s in if available == 0 then ([], c', s) else (seen, c3, s')

  -- `Drop for Consumer`: flush, store the sentinel, then clear the bit and wake the producer.
  unfoldable pub drop_consumer : Consumer → Shared A → Shared A
  drop_consumer c s =
      let (c', s') = flush_pending c s in
      let gone =
        set s'.registry c.slot_idx
          (record (slot_at s'.registry c.slot_idx) { cursor = detached }) in
      record s' { registry = deactivate gone c.slot_idx; producer_wakes = s'.producer_wakes + 1 }

  -- The loop of `Drop for Shared`, of at most `rounds` rounds: what it drops.
  unfoldable pub drop_live : ℕ → Shared A → ℕ → ℕ → List (Option A)
  drop_live zero s head tail = []
  drop_live (suc rounds) s head tail =
      let rest = drop_live rounds s (wrapping_add head 1) tail in
      if head == tail then [] else get_or s.buffer (slot_index head s.mask) none ∷ rest

  unfoldable pub drop_shared : ℕ → Shared A → List (Option A)
  drop_shared rounds s =
      if s.needs_drop
      then s.drops ++ drop_live rounds s s.dropped_through s.write_cursor
      else s.drops
