-- ===== src/Spmc/Pop.antt =====
-- What a consumer's calls do, for its own queue, for the other consumers and for the gate.
use rust_rb.Base.{
  ℕ, ◌+◌, ◌-◌, ◌≤◌, ◌<◌, ◌≡◌, ◌≢◌, ◌∙◌, refl, sym, ap, inl, inr, Bool, Bool-cases, true, false,
  ◌||◌, leb, some, List, ◌∷◌, arith, word_mod, wrapping_add, wrapping_sub, set, get_or-set_self,
  get_or-set_ne, ◌==◌, ltb,
}
use rust_rb.Base.Words.{wrapping_sub_plain, wrapping_add_plain}
use rust_rb.Policy.Bounds.{publish_batch_bounds}
use rust_rb.Registry.{Slot, free_slot, slot_at, detached, guard_sentinel, publish_batch_elems}
use rust_rb.Registry.Change.{Within-slot, Within-change, Lower-change}
use rust_rb.Registry.Join.{slot_inside}
use rust_rb.Spmc.{Shared, Producer, Consumer}
use rust_rb.Spmc.Consumers.{flush, advance_one, front}
use rust_rb.Spmc.Queued.{Queued-head, Queued-tail}
use rust_rb.Spmc.Gated.{IsGated}
use rust_rb.Spmc.Holds.{Holds, Holds-Gates}

pub guard_sentinel_live : (cursor : ℕ) → cursor < detached → guard_sentinel cursor ≡ cursor
unfolding guard_sentinel
guard_sentinel_live cursor h = ground arith

module _ {ℓ} {A : Type ℓ} where
  -- The gate, and the queues of all consumers but one, are as they were.
  abbrev pub Keeps : ℕ → Producer → Shared A → ℕ → Shared A → Type ℓ
  Keeps capacity p s i s' =
      IsGated capacity p s'
      × ((d : Consumer) (q : List A)
          → d.slot_idx ≢ i
          → Holds capacity s d q
          → Holds capacity s' d q)

  -- A registry that differs in one slot keeps the other consumers.
  pub other-Holds :
      {capacity : ℕ} (s : Shared A) (registry : List Slot) (wakes i : ℕ)
      → ((j : ℕ) → j ≢ i → slot_at registry j ≡ slot_at s.registry j)
      → (d : Consumer) (q : List A) → d.slot_idx ≢ i
      → Holds capacity s d q
      → Holds capacity (record s { registry = registry; producer_wakes = wakes }) d q
  other-Holds s registry wakes i others d q ne h = record {
    mask = h.mask;
    slot = others d.slot_idx ne ∙ h.slot;
    published_read = h.published_read;
    read_cached = h.read_cached;
    cached_written = h.cached_written;
    written_word = h.written_word;
    count = h.count;
    items = h.items;
  }

  module _ {capacity : ℕ} {p : Producer} {s : Shared A} {c : Consumer} {q : List A}
      (v : IsGated capacity p s) (h : Holds capacity s c q) where
    pub flush_lem :
        let (c', s') = flush c s in
        Holds capacity s' c' q
        × Keeps capacity p s c.slot_idx s'
        × (c'.published ≡ c'.read_cursor)
        × (c'.slot_idx ≡ c.slot_idx)
    unfolding flush
    flush_lem =
        let i = c.slot_idx in
        let read = c.read_cursor in
        let next = p.next_seq in
        let live = guard_sentinel_live read (let w = h.written_word in omega arith) in
        let new : Slot = record (slot_at s.registry i) { cursor = guard_sentinel read } in
        let inside = slot_inside s.registry i (ap (λ (t : Slot). t.active) h.slot) in
        let others : (j : ℕ) → j ≢ i → slot_at (set s.registry i new) j ≡ slot_at s.registry j =
          λ j ne. get_or-set_ne s.registry i j new free_slot (λ e. ne (sym e)) in
        let here : slot_at (set s.registry i new) i ≡ record { active = true; cursor = read } =
          get_or-set_self s.registry i new free_slot inside ∙ rw (live, h.slot) refl in
        let at = ap (λ (t : Slot). t.cursor) h.slot in
        let old = wrapping_sub_plain next c.published (omega arith) (omega arith) in
        let moved = wrapping_sub_plain next read (omega arith) (omega arith) in
        let closer : wrapping_sub next read ≤ wrapping_sub next c.published = omega arith in
        let (_, lag) =
          Within-slot next (wrapping_sub next p.cached_min) s.registry v.gated i (Holds-Gates h) in
        (
          record {
            mask = h.mask;
            slot = here;
            published_read = omega arith;
            read_cached = h.read_cached;
            cached_written = h.cached_written;
            written_word = h.written_word;
            count = h.count;
            items = h.items;
          },
          (
            record {
              power = v.power;
              two = v.two;
              small = v.small;
              mask = v.mask;
              shared_mask = v.shared_mask;
              written = v.written;
              range = v.range;
              storage = v.storage;
              min_word = v.min_word;
              min_near = v.min_near;
              gated =
                  Within-change next s.registry (set s.registry i new) i others _ v.gated
                    (λ _. rw here (omega arith, omega (arith, rw at at lag)));
              lower =
                  Lower-change next s.registry (set s.registry i new) i others _ p.cached_cursors
                    v.lower (λ _ b low. rw here (omega (arith, rw at at (low (Holds-Gates h)))));
            },
            other-Holds s (set s.registry i new) (s.producer_wakes + 1) i others,
          ),
          refl,
          refl,
        )

-- Less than a batch of progress is unpublished, and none once the consumer has caught up with its view.
pub record IsPrompt (capacity : ℕ) (c : Consumer) : Type 0 where
  pub bounded : c.read_cursor < c.published + publish_batch_elems capacity
  pub caught_up : c.read_cursor ≡ c.write_cache → c.published ≡ c.read_cursor

batch_pos : (capacity : ℕ) → 0 < publish_batch_elems capacity
unfolding publish_batch_elems
batch_pos capacity = (publish_batch_bounds capacity 64 (omega arith)).0

IsPrompt-of_flushed :
    (capacity : ℕ) (c : Consumer) → c.published ≡ c.read_cursor → IsPrompt capacity c
IsPrompt-of_flushed capacity c e = let b = batch_pos capacity in omega arith

-- The condition of `advance_one`.
abbrev must_flush : ℕ → ℕ → Consumer → Bool
must_flush capacity before c =
    ltb (capacity - 1) before
    || c.read_cursor == c.write_cache
    || leb (publish_batch_elems capacity) (wrapping_sub c.read_cursor c.published)

must_flush_not :
    (capacity before : ℕ) (c : Consumer)
    → 0 < capacity
    → c.read_cursor < word_mod
    → c.published ≤ c.read_cursor
    → must_flush capacity before c ≡ false
    → IsPrompt capacity c × (before < capacity)
must_flush_not capacity before c pos w le e =
    let plain = wrapping_sub_plain c.read_cursor c.published w le in
    (record { bounded = ground arith; caught_up = λ k. ground arith }, ground arith)

module _ {ℓ} {A : Type ℓ} where
  module _ {capacity : ℕ} {p : Producer} {s : Shared A} {c : Consumer} (x : A) (rest : List A)
      (v : IsGated capacity p s) (h : Holds capacity s c (x ∷ rest))
      (seen : c.read_cursor < c.write_cache) where
    -- The consumer once it has read the first element of its queue.
    abbrev stepped : Consumer
    stepped = record c { read_cursor = wrapping_add c.read_cursor 1 }

    stepped-Holds : Holds capacity s stepped rest × (stepped.read_cursor ≡ c.read_cursor + 1)
    stepped-Holds =
        let next =
          wrapping_add_plain c.read_cursor 1
            (let w = h.written_word in let l = h.cached_written in omega arith) in
        (
          record {
            mask = h.mask;
            slot = h.slot;
            published_read = (let l = h.published_read in omega arith);
            read_cached = omega arith;
            cached_written = h.cached_written;
            written_word = h.written_word;
            count = (let n = h.count in omega arith);
            items = Queued-tail capacity s.buffer c.read_cursor x rest h.items;
          },
          next,
        )

    pub advance_one_lem :
        let (c', s') = advance_one c s in
        Holds capacity s' c' rest
        × Keeps capacity p s c.slot_idx s'
        × IsPrompt capacity c'
        × (c'.slot_idx ≡ c.slot_idx)
        × (capacity ≤ c.write_cache - c.read_cursor → c'.published ≡ c'.read_cursor)
    unfolding advance_one
    advance_one_lem =
        let (on, next) = stepped-Holds in
        let before = wrapping_sub c.write_cache c.read_cursor in
        let plain =
          wrapping_sub_plain c.write_cache c.read_cursor
            (let l = h.cached_written in let w = h.written_word in omega arith) (omega arith) in
        let size : c.mask + 1 ≡ capacity = h.mask in
        elim (Bool-cases (must_flush capacity before stepped)) [
          | inl now ↦
              let (held, keeps, published, same) = flush_lem v on in
              rw (size, now)
                (held, keeps, IsPrompt-of_flushed capacity _ published, same, λ _. published)
          | inr later ↦
              let (prompt, few) =
                must_flush_not capacity before stepped (let t = v.two in omega arith)
                  (let w = h.written_word in
                    let l = on.read_cached in let m = h.cached_written in omega arith)
                  on.published_read later in
              rw (size, later) (on, (v, λ d q _ k. k), prompt, refl, λ full. absurd (omega arith))
        ]

    -- The first element is what stands in its slot.
    pub front_lem : front c s ≡ some x
    unfolding front
    front_lem =
        let mask : c.mask ≡ capacity - 1 = let m = h.mask in omega arith in
        rw mask (
          Queued-head capacity s.buffer c.read_cursor x rest
            (let w = h.written_word in let l = h.cached_written in omega arith) h.items)
