-- ===== src/SpmcBytes/Pop.antt =====
-- What a consumer's calls do, for its own messages, for the other consumers and for the gate.
use rust_rb.Base.{
  ℕ, ◌+◌, ◌≤◌, ◌<◌, ◌≡◌, ◌≢◌, ◌∙◌, refl, sym, ap, inl, inr, Bool, Bool-cases, true, false, not,
  ◌&&◌, ◌||◌, leb, ◌==◌, List, arith, word_mod, wrapping_add, wrapping_sub, set, get_or-set_self,
  get_or-set_ne,
}
use rust_rb.Base.Words.{wrapping_sub_plain}
use rust_rb.Policy.Bounds.{publish_batch_bounds}
use rust_rb.Registry.{Slot, free_slot, slot_at, guard_sentinel}
use rust_rb.Registry.Change.{Within-slot, Within-change, Lower-change}
use rust_rb.Registry.Join.{slot_inside}
use rust_rb.Spmc.Pop.{guard_sentinel_live}
use rust_rb.SpmcBytes.{Shared, BytesProducer, BytesConsumer, publish_batch_bytes}
use rust_rb.SpmcBytes.Consumers.{flush, advance}
use rust_rb.SpmcBytes.Gated.{IsGated}
use rust_rb.SpmcBytes.Holds.{Holds, Holds-Gates}
use rust_rb.SpmcBytes.Push.{Queue}

-- The gate, and the messages of all consumers but one, are as they were.
abbrev pub Keeps : ℕ → BytesProducer → Shared → ℕ → Shared → Type 0
Keeps capacity p s i s' =
    IsGated capacity p s'
    × ((d : BytesConsumer) (q : List (List ℕ))
        → d.slot_idx ≢ i
        → Queue capacity s d q
        → Queue capacity s' d q)

-- A registry that differs in one slot keeps the other consumers.
pub other-Queue :
    {capacity : ℕ} (s : Shared) (registry : List Slot) (wakes i : ℕ)
    → ((j : ℕ) → j ≢ i → slot_at registry j ≡ slot_at s.registry j)
    → (d : BytesConsumer) (q : List (List ℕ)) → d.slot_idx ≢ i
    → Queue capacity s d q
    → Queue capacity (record s { registry = registry; producer_wakes = wakes }) d q
other-Queue s registry wakes i others d q ne (seen, unseen, h, e) = (
  seen,
  unseen,
  record {
    mask = h.mask;
    slot = others d.slot_idx ne ∙ h.slot;
    published_read = h.published_read;
    read_cached = h.read_cached;
    cached_written = h.cached_written;
    written_word = h.written_word;
    read_aligned = h.read_aligned;
    cache_aligned = h.cache_aligned;
    seen_stored = h.seen_stored;
    unseen_stored = h.unseen_stored;
  },
  e,
)

module _ {capacity : ℕ} {p : BytesProducer} {s : Shared} {c : BytesConsumer}
    {seen unseen : List (List ℕ)} (v : IsGated capacity p s)
    (h : Holds capacity s c seen unseen) where
  pub flush_lem :
      let (c', s') = flush c s in
      Holds capacity s' c' seen unseen
      × Keeps capacity p s c.slot_idx s'
      × (c'.published ≡ c'.read_cursor)
  unfolding flush
  flush_lem =
      let i = c.slot_idx in
      let read = c.read_cursor in
      let next = p.next_seq in
      let live = guard_sentinel_live read (let w = h.written_word in omega arith) in
      let new : Slot = record (slot_at s.registry i) { cursor = guard_sentinel read } in
      let inside = slot_inside s.registry i (ap (λ (t : Slot). t.active) h.slot) in
      let others : (j : ℕ) → j ≢ i → slot_at (set s.registry i new) j ≡ slot_at s.registry j =
        λ j ne. get_or-set_ne s.registry i j new free_slot (λ e. ne (sym e)) in
      let here : slot_at (set s.registry i new) i ≡ record { active = true; cursor = read } =
        get_or-set_self s.registry i new free_slot inside ∙ rw (live, h.slot) refl in
      let at = ap (λ (t : Slot). t.cursor) h.slot in
      let old = wrapping_sub_plain next c.published (omega arith) (omega arith) in
      let moved = wrapping_sub_plain next read (omega arith) (omega arith) in
      let closer : wrapping_sub next read ≤ wrapping_sub next c.published = omega arith in
      let (_, lag) =
        Within-slot next (wrapping_sub next p.cached_min) s.registry v.gated i (Holds-Gates h) in
      (
        record {
          mask = h.mask;
          slot = here;
          published_read = omega arith;
          read_cached = h.read_cached;
          cached_written = h.cached_written;
          written_word = h.written_word;
          read_aligned = h.read_aligned;
          cache_aligned = h.cache_aligned;
          seen_stored = h.seen_stored;
          unseen_stored = h.unseen_stored;
        },
        (
          record {
            power = v.power;
            legal = v.legal;
            small = v.small;
            mask = v.mask;
            shared_mask = v.shared_mask;
            written = v.written;
            range = v.range;
            storage = v.storage;
            aligned = v.aligned;
            min_word = v.min_word;
            min_near = v.min_near;
            gated =
                Within-change next s.registry (set s.registry i new) i others _ v.gated
                  (λ _. rw here (omega arith, omega (arith, rw at at lag)));
            lower =
                Lower-change next s.registry (set s.registry i new) i others _ p.cached_cursors
                  v.lower (λ _ b low. rw here (omega (arith, rw at at (low (Holds-Gates h)))));
          },
          other-Queue s (set s.registry i new) (s.producer_wakes + 1) i others,
        ),
        refl,
      )

-- Less than a batch of progress is unpublished, and none once the consumer has caught up with its view.
pub record IsPrompt (capacity : ℕ) (c : BytesConsumer) : Type 0 where
  pub bounded : c.read_cursor < c.published + publish_batch_bytes capacity
  pub caught_up : c.read_cursor ≡ c.write_cache → c.published ≡ c.read_cursor

batch_pos : (capacity : ℕ) → 0 < publish_batch_bytes capacity
unfolding publish_batch_bytes
batch_pos capacity = (publish_batch_bounds capacity 4096 (omega arith)).0

-- What a starving producer waits for may be free by the consumer's progress.
abbrev pub answers : ℕ → Shared → BytesConsumer → Bool
answers capacity s c =
    not (s.starving == 0)
    && leb (wrapping_sub capacity s.starving) (wrapping_sub c.write_cache c.published)

-- The condition of `advance` with the consumer past the record.
abbrev must_flush : ℕ → Shared → BytesConsumer → Bool
must_flush capacity s c =
    answers capacity s c
    || c.read_cursor == c.write_cache
    || leb (publish_batch_bytes capacity) (wrapping_sub c.read_cursor c.published)

must_flush_not :
    (capacity : ℕ) (s : Shared) (c : BytesConsumer)
    → c.read_cursor < word_mod
    → c.published ≤ c.read_cursor
    → must_flush capacity s c ≡ false
    → IsPrompt capacity c × (answers capacity s c ≡ false)
must_flush_not capacity s c w le e =
    let plain = wrapping_sub_plain c.read_cursor c.published w le in
    (record { bounded = ground arith; caught_up = λ k. ground arith }, ground arith)

-- A consumer at the record that it drops: what `advance` leaves.
pub advance_lem :
    {capacity : ℕ} {p : BytesProducer} {s : Shared} {seen unseen : List (List ℕ)}
    (c : BytesConsumer) (amount : ℕ)
    → IsGated capacity p s
    → Holds capacity s (record c { read_cursor = wrapping_add c.read_cursor amount }) seen unseen
    → let (c', s') = advance c s amount in
      Holds capacity s' c' seen unseen
      × Keeps capacity p s c.slot_idx s'
      × IsPrompt capacity c'
      × (c'.slot_idx ≡ c.slot_idx)
      × (answers capacity s c ≡ true → c'.published ≡ c'.read_cursor)
unfolding advance flush
advance_lem {capacity} {p} {s} c amount v on =
    let after : BytesConsumer = record c { read_cursor = wrapping_add c.read_cursor amount } in
    let size : c.mask + 1 ≡ capacity = on.mask in
    elim (Bool-cases (must_flush capacity s after)) [
      | inl now ↦
          let (held, keeps, published) = flush_lem v on in
          rw (size, now)
            (
              held,
              keeps,
              record {
                bounded = (let b = batch_pos capacity in omega arith);
                caught_up = λ _. published;
              },
              refl,
              λ _. published,
            )
      | inr later ↦
          let (prompt, silent) =
            must_flush_not capacity s after
              (let w = on.written_word in
                let l = on.read_cached in let m = on.cached_written in omega arith)
              on.published_read later in
          rw (size, later) (on, (v, λ d q _ k. k), prompt, refl, λ e. cc)
    ]
