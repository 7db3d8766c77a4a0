-- ===== src/Spmc/Members.antt =====
-- How consumers join the ring and leave it.
use rust_rb.Base.{
  ℕ, suc, ◌+◌, ◌<◌, ◌≡◌, ◌≢◌, ◌∙◌, refl, sym, ap, inl, inr, Bool, Bool-cases, true, false, none,
  some, List, [], arith, word_mod, wrapping_sub, set, get_or-set_self, get_or-set_ne, ◌==◌, ==_iff,
  ne→==_false,
}
use rust_rb.Base.Words.{wrapping_sub_self}
use rust_rb.Registry.{
  Slot, free_slot, slot_at, detached, guard_sentinel, subscribe_slot, deactivate, active_count,
}
use rust_rb.Registry.Scan.{Gates}
use rust_rb.Registry.Change.{Within-change, Lower-change}
use rust_rb.Registry.Join.{
  subscribe_slot_lem, deactivate_lem, is_free_idle, active_count-set, slot_inside,
}
use rust_rb.Spmc.{Shared, Producer, Consumer, subscribe_from, consumer_count}
use rust_rb.Spmc.Consumers.{flush, flush_pending, drop_consumer}
use rust_rb.Spmc.Gated.{IsGated}
use rust_rb.Spmc.Holds.{Holds}
use rust_rb.Spmc.Pop.{Keeps, flush_lem, other-Holds, guard_sentinel_live}

pub absurd_of : {b : Bool} → b ≡ false → b ≡ true → ⊥
absurd_of e h = cc

-- The last two stores of a consumer that leaves: the sentinel, and its bit.
abbrev pub left_registry : List Slot → ℕ → List Slot
left_registry registry i =
    deactivate (set registry i (record (slot_at registry i) { cursor = detached })) i

pub left_registry_lem :
    (registry : List Slot) (i : ℕ)
    → (slot_at registry i).active ≡ true
    → (¬ Gates (slot_at (left_registry registry i) i))
      × ((j : ℕ) → j ≢ i → slot_at (left_registry registry i) j ≡ slot_at registry j)
      × (suc (active_count (left_registry registry i)) ≡ active_count registry)
left_registry_lem registry i on =
    let inside = slot_inside registry i on in
    let last : Slot = record (slot_at registry i) { cursor = detached } in
    let stored = get_or-set_self registry i last free_slot inside in
    let still : (slot_at (set registry i last) i).active ≡ true =
      ap (λ (t : Slot). t.active) stored ∙ on in
    let (idle, others, count) = deactivate_lem (set registry i last) i still in
    (
      λ t. absurd_of idle (t.active),
      λ j ne. others j ne ∙ get_or-set_ne registry i j last free_slot (λ e. ne (sym e)),
      let same = active_count-set registry i last inside in omega (arith, count, same),
    )

module _ {ℓ} {A : Type ℓ} where
  -- A gate keeps over a change of one slot that then lags no further than any bound of it before.
  IsGated-change :
      {capacity : ℕ} {p : Producer} {s : Shared A} (registry : List Slot) (wakes i : ℕ)
      → IsGated capacity p s
      → ((j : ℕ) → j ≢ i → slot_at registry j ≡ slot_at s.registry j)
      → (Gates (slot_at registry i)
          → ((slot_at registry i).cursor < word_mod)
            × (wrapping_sub p.next_seq (slot_at registry i).cursor ≡ 0))
      → IsGated capacity p (record s { registry = registry; producer_wakes = wakes })
  IsGated-change {capacity} {p} {s} registry wakes i v others fresh = record {
    power = v.power;
    two = v.two;
    small = v.small;
    mask = v.mask;
    shared_mask = v.shared_mask;
    written = v.written;
    range = v.range;
    storage = v.storage;
    min_word = v.min_word;
    min_near = v.min_near;
    gated =
        Within-change p.next_seq s.registry registry i others _ v.gated
          (λ t. let (w, e) = fresh t in (w, omega arith));
    lower =
        Lower-change p.next_seq s.registry registry i others _ p.cached_cursors v.lower
          (λ t b low. let (w, e) = fresh t in omega arith);
  }

  -- A consumer that joins an open ring has the empty queue, in a slot that no other consumer owns;
  -- nothing changes for the others, and the producer's gate holds. A closed ring takes none.
  pub subscribe_from_lem :
      {capacity : ℕ} {p : Producer} {s : Shared A}
      → IsGated capacity p s
      → (s.closed ≡ 0
          → (c : Consumer) × (s' : Shared A) × (subscribe_from s ≡ (some c, s'))
            × Holds capacity s' c []
            × IsGated capacity p s'
            × ((d : Consumer) (q : List A)
                → Holds capacity s d q
                → Holds capacity s' d q × (d.slot_idx ≢ c.slot_idx))
            × (consumer_count s' ≡ suc (consumer_count s)))
        × (s.closed ≢ 0 → subscribe_from s ≡ (none, s))
  unfolding subscribe_from consumer_count
  subscribe_from_lem {capacity} {p} {s} v =
      let (free, inside, here, others, count, joined, published) =
        subscribe_slot_lem s.registry s.write_cursor in
      let live =
        guard_sentinel_live s.write_cursor (let r = v.range in let t = v.two in omega arith) in
      let i = (subscribe_slot s.registry s.write_cursor).0.slot_idx in
      let registry = (subscribe_slot s.registry s.write_cursor).1 in
      let at = ap (λ (t : Slot). t.cursor) here ∙ published ∙ live in
      (
        λ e. rw ((==_iff s.closed 0).1 e) (
          _,
          _,
          refl,
          record {
            mask = v.shared_mask;
            slot = here;
            published_read = omega (arith, published, live, joined);
            read_cached = omega arith;
            cached_written = omega (arith, joined);
            written_word = (let r = v.range in let t = v.two in omega arith);
            count = omega (arith, joined);
            items = λ i h. absurd (omega arith);
          },
          IsGated-change registry s.producer_wakes i v others (λ _. (
            omega (arith, at, v.range),
            rw (at, v.written) (wrapping_sub_self p.next_seq (let r = v.range in omega arith)),
          )),
          (λ d q h.
              let other : d.slot_idx ≢ i = λ same.
                let idle = is_free_idle (slot_at s.registry i) free in
                let on : (slot_at s.registry i).active ≡ true =
                  rw same at (ap (λ (t : Slot). t.active) h.slot) in
                absurd_of idle on in
              (other-Holds s registry s.producer_wakes i others d q other h, other)),
          count,
        ),
        λ ne. rw (ne→==_false s.closed 0 ne),
      )

  flush_count :
      {capacity : ℕ} {s : Shared A} {c : Consumer} {q : List A}
      → Holds capacity s c q
      → consumer_count (flush c s).1 ≡ consumer_count s
  unfolding flush consumer_count
  flush_count {s} {c} h =
      let on = ap (λ (t : Slot). t.active) h.slot in
      let same =
        active_count-set s.registry c.slot_idx
          (record (slot_at s.registry c.slot_idx) { cursor = guard_sentinel c.read_cursor })
          (slot_inside s.registry c.slot_idx on) in
      omega arith

  flush_pending_lem :
      {capacity : ℕ} {p : Producer} {s : Shared A} {c : Consumer} {q : List A}
      → IsGated capacity p s
      → Holds capacity s c q
      → let (c', s') = flush_pending c s in
        Holds capacity s' c' q
        × Keeps capacity p s c.slot_idx s'
        × (c'.slot_idx ≡ c.slot_idx)
        × (consumer_count s' ≡ consumer_count s)
  unfolding flush_pending
  flush_pending_lem {s} {c} v h = elim (Bool-cases (c.read_cursor == c.published)) [
    | inl done ↦ rw done (h, (v, λ d q _ k. k), refl, refl)
    | inr behind ↦
        let (held, keeps, _, same) = flush_lem v h in rw behind (held, keeps, same, flush_count h)
  ]

  -- A consumer that leaves frees its slot, and no longer gates; nothing changes for the others, and
  -- the producer's gate holds.
  pub drop_consumer-Keeps :
      {capacity : ℕ} {p : Producer} {s : Shared A} {c : Consumer} {q : List A}
      → IsGated capacity p s
      → Holds capacity s c q
      → let s' = drop_consumer c s in
        Keeps capacity p s c.slot_idx s'
        × (¬ Gates (slot_at s'.registry c.slot_idx))
        × (suc (consumer_count s') ≡ consumer_count s)
  unfolding drop_consumer consumer_count
  drop_consumer-Keeps {s} {c} v h =
      let (held, (v', kept), same, count) = flush_pending_lem v h in
      let s1 = (flush_pending c s).1 in
      let i = c.slot_idx in
      let on : (slot_at s1.registry i).active ≡ true =
        rw same at (ap (λ (t : Slot). t.active) held.slot) in
      let (gone, others, fewer) = left_registry_lem s1.registry i on in
      (
        (
          IsGated-change (left_registry s1.registry i) (s1.producer_wakes + 1) i v' others
              (λ t. absurd (gone t)),
          λ d q ne k.
              other-Holds s1 (left_registry s1.registry i) (s1.producer_wakes + 1) i others d q ne
                (kept d q ne k),
        ),
        gone,
        omega (arith, fewer, count),
      )
