-- ===== src/Registry.antt =====
-- The gating registry of the rings with several consumers, src/registry.rs, over its heap backing.
-- A slot is a bit of a chunk's bitmap with the cursor that stands under it. The chunks of the list
-- stand one behind the other, so slot `i` of chunk `k` is slot `64 * k + i`; the cached cursors of the
-- producer, one block for each chunk, likewise. Gating cursors are `u64`, which is `usize` here.
pub mod Scan
pub mod Rescan
pub mod Change
pub mod Join
pub mod Peers
mod Tests
use rust_rb.Base.{
  ℕ, zero, suc, ◌+◌, Bool, true, false, not, ◌&&◌, List, [], ◌∷◌, ◌++◌, if◌then◌else◌, ltb, ◌==◌,
  get_or, set, replicate, word_max, wrapping_sub,
}
use rust_rb.Policy.{publish_batch, lacks_space}

-- `u64::MAX`: no consumer owns this slot.
abbrev pub detached : ℕ
detached = word_max

abbrev pub chunk_slots : ℕ
chunk_slots = 64

abbrev pub max_publish_batch_elems : ℕ
max_publish_batch_elems = 64

unfoldable pub publish_batch_elems : ℕ → ℕ
publish_batch_elems capacity = publish_batch capacity max_publish_batch_elems

unfoldable pub guard_sentinel : ℕ → ℕ
guard_sentinel cursor = if cursor == detached then wrapping_sub cursor 1 else cursor

pub record Slot : Type 0 where
  pub active : Bool
  pub cursor : ℕ

abbrev pub free_slot : Slot
free_slot = record { active = false; cursor = detached }

-- `Chunk::new`
abbrev pub fresh_chunk : List Slot
fresh_chunk = replicate chunk_slots free_slot

abbrev pub slot_at : List Slot → ℕ → Slot
slot_at registry i = get_or registry i free_slot

-- `Chunk::deactivate`
unfoldable pub deactivate : List Slot → ℕ → List Slot
deactivate registry i = set registry i (record (slot_at registry i) { active = false })

-- `Chunk::active_count`: the ones of all the bitmaps.
unfoldable pub active_count : List Slot → ℕ
active_count [] = 0
active_count (s ∷ rest) = (if s.active then 1 else 0) + active_count rest

-- A slot that a joiner may take: its bit is clear, and the exchange against `detached` succeeds.
unfoldable pub is_free : Slot → Bool
is_free s = not s.active && s.cursor == detached

-- `claim_registry_slot` at the join cursor: the first free slot, or the first of a new chunk. The
-- slot holds the provisional cursor, and its bit is still clear.
unfoldable pub claim_registry_slot : List Slot → ℕ → ℕ × List Slot
claim_registry_slot [] join =
    (0, record { active = false; cursor = guard_sentinel join } ∷ replicate 63 free_slot)
claim_registry_slot (s ∷ rest) join =
    let (i, rest') = claim_registry_slot rest join in
    if is_free s
    then (0, record { active = false; cursor = guard_sentinel join } ∷ rest)
    else (suc i, s ∷ rest')

-- The coordinates of a registered slot, the join point, and its image in the slot.
pub record JoinedSlot : Type 0 where
  pub slot_idx : ℕ
  pub joined : ℕ
  pub published : ℕ

-- `subscribe_slot`: claim, set the bit, then read the producer's cursor again and publish it.
unfoldable pub subscribe_slot : List Slot → ℕ → JoinedSlot × List Slot
subscribe_slot registry join =
    let (i, claimed) = claim_registry_slot registry join in
    let marked = set claimed i (record (slot_at claimed i) { active = true }) in
    let published = guard_sentinel join in
    (
      record { slot_idx = i; joined = join; published = published },
      set marked i (record (slot_at marked i) { cursor = published }),
    )

-- A walk's findings so far: `any_active` and `max_lag`.
pub record Gate : Type 0 where
  pub any_active : Bool
  pub max_lag : ℕ

abbrev pub no_gate : Gate
no_gate = record { any_active = false; max_lag = 0 }

-- The step of a walk for a gating cursor.
unfoldable pub gate_at : ℕ → Gate → ℕ → Gate
gate_at next_seq g cursor =
    let lag = wrapping_sub next_seq cursor in
    record { any_active = true; max_lag = if ltb g.max_lag lag then lag else g.max_lag }

-- The step of a walk for one slot and its cached cursor: the cached cursor it leaves, and the
-- findings. Only a cached cursor that would gate is loaded again.
unfoldable pub scan_slot : ℕ → ℕ → ℕ → Slot → ℕ → Gate → ℕ × Gate
scan_slot next_seq needed capacity s cached g =
    if not s.active
    then (cached, g)
    else if not (lacks_space next_seq needed cached capacity)
    then (cached, gate_at next_seq g cached)
    else if s.cursor == detached
    then (cached, g)
    else (s.cursor, gate_at next_seq g s.cursor)

-- `scan_chunk_registry`: the cached cursors it leaves, and its findings. Where the cached cursors
-- end, a chunk begins, and a block of cursors that always gate is added for it.
unfoldable pub scan_chunk_registry : ℕ → ℕ → ℕ → List Slot → List ℕ → Gate → List ℕ × Gate
scan_chunk_registry next_seq needed capacity [] cached g = (cached, g)
scan_chunk_registry next_seq needed capacity (s ∷ rest) [] g =
    let seed = wrapping_sub next_seq capacity in
    let (c, g') = scan_slot next_seq needed capacity s seed g in
    let (cs, g'') = scan_chunk_registry next_seq needed capacity rest (replicate 63 seed) g' in
    (c ∷ cs, g'')
scan_chunk_registry next_seq needed capacity (s ∷ rest) (c ∷ cached) g =
    let (c', g') = scan_slot next_seq needed capacity s c g in
    let (cs, g'') = scan_chunk_registry next_seq needed capacity rest cached g' in (c' ∷ cs, g'')

-- `rescan_gate` once the walk is done: the cached minimum, and whether `needed` units are free.
unfoldable pub rescan_gate : ℕ → ℕ → ℕ → Gate → ℕ × Bool
rescan_gate next_seq needed capacity g =
    let cached_min =
      if g.any_active then wrapping_sub next_seq g.max_lag else wrapping_sub next_seq 1 in
    (cached_min, not (lacks_space next_seq needed cached_min capacity))
