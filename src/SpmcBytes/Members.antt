-- ===== src/SpmcBytes/Members.antt =====
-- How consumers join the message ring and leave it, and the ring with its first consumer.
use rust_rb.Base.{
  ℕ, suc, ◌+◌, ◌<◌, ◌≡◌, ◌≢◌, ◌∙◌, refl, ap, inl, inr, Bool-cases, true, none, some, List, [],
  arith, word_mod, wrapping_sub, ◌==◌, ==_iff, ne→==_false,
}
use rust_rb.Base.Words.{wrapping_sub_self}
use rust_rb.Registry.{Slot, slot_at, guard_sentinel, subscribe_slot}
use rust_rb.Registry.Scan.{Gates}
use rust_rb.Registry.Change.{Within-change, Lower-change}
use rust_rb.Registry.Join.{subscribe_slot_lem, is_free_idle, active_count-set, slot_inside}
use rust_rb.Spmc.Pop.{guard_sentinel_live}
use rust_rb.Spmc.Members.{absurd_of, left_registry, left_registry_lem}
use rust_rb.SpmcBytes.{Shared, BytesProducer, BytesConsumer, subscribe_from, consumer_count}
use rust_rb.SpmcBytes.Consumers.{flush, flush_pending, drop_consumer}
use rust_rb.SpmcBytes.Gated.{IsGated}
use rust_rb.SpmcBytes.Holds.{Holds}
use rust_rb.SpmcBytes.Push.{Queue}
use rust_rb.SpmcBytes.Pop.{Keeps, flush_lem, other-Queue}

-- A gate keeps over a change of one slot that then lags no further than any bound of it before.
IsGated-change :
    {capacity : ℕ} {p : BytesProducer} {s : Shared} (registry : List Slot) (wakes i : ℕ)
    → IsGated capacity p s
    → ((j : ℕ) → j ≢ i → slot_at registry j ≡ slot_at s.registry j)
    → (Gates (slot_at registry i)
        → ((slot_at registry i).cursor < word_mod)
          × (wrapping_sub p.next_seq (slot_at registry i).cursor ≡ 0))
    → IsGated capacity p (record s { registry = registry; producer_wakes = wakes })
IsGated-change {capacity} {p} {s} registry wakes i v others fresh = record {
  power = v.power;
  legal = v.legal;
  small = v.small;
  mask = v.mask;
  shared_mask = v.shared_mask;
  written = v.written;
  range = v.range;
  storage = v.storage;
  aligned = v.aligned;
  min_word = v.min_word;
  min_near = v.min_near;
  gated =
      Within-change p.next_seq s.registry registry i others _ v.gated
        (λ t. let (w, e) = fresh t in (w, omega arith));
  lower =
      Lower-change p.next_seq s.registry registry i others _ p.cached_cursors v.lower
        (λ t b low. let (w, e) = fresh t in omega arith);
}

-- A consumer that joins an open ring has no messages to read, in a slot that no other consumer owns;
-- the messages of the others and the producer's gate are kept. A closed ring takes none.
pub subscribe_from-Joins :
    {capacity : ℕ} {p : BytesProducer} {s : Shared}
    → IsGated capacity p s
    → (s.closed ≡ 0
        → (c : BytesConsumer) × (s' : Shared) × (subscribe_from s ≡ (some c, s'))
          × Queue capacity s' c []
          × IsGated capacity p s'
          × ((d : BytesConsumer) (q : List (List ℕ))
              → Queue capacity s d q
              → Queue capacity s' d q × (d.slot_idx ≢ c.slot_idx))
          × (consumer_count s' ≡ suc (consumer_count s)))
      × (s.closed ≢ 0 → subscribe_from s ≡ (none, s))
unfolding subscribe_from consumer_count
subscribe_from-Joins {capacity} {p} {s} v =
    let (free, inside, here, others, count, joined, published) =
      subscribe_slot_lem s.registry s.write_cursor in
    let live =
      guard_sentinel_live s.write_cursor (let r = v.range in let t = v.legal in omega arith) in
    let i = (subscribe_slot s.registry s.write_cursor).0.slot_idx in
    let registry = (subscribe_slot s.registry s.write_cursor).1 in
    let at = ap (λ (t : Slot). t.cursor) here ∙ published ∙ live in
    let place : s.write_cursor ≡ p.next_seq = v.written in
    let four = v.aligned in
    (
      λ e. rw ((==_iff s.closed 0).1 e) (
        _,
        _,
        refl,
        (
          [],
          [],
          record {
            mask = v.shared_mask;
            slot = here;
            published_read = omega (arith, published, live, joined);
            read_cached = omega arith;
            cached_written = omega (arith, joined);
            written_word = (let r = v.range in let t = v.legal in omega arith);
            read_aligned = rw (joined, place) four;
            cache_aligned = rw (joined, place) four;
            seen_stored = omega arith;
            unseen_stored = omega (arith, joined);
          },
          refl,
        ),
        IsGated-change registry s.producer_wakes i v others (λ _. (
          omega (arith, at, v.range),
          rw (at, v.written) (wrapping_sub_self p.next_seq (let r = v.range in omega arith)),
        )),
        (λ d q (seen, unseen, h, split).
            let other : d.slot_idx ≢ i = λ same.
              let idle = is_free_idle (slot_at s.registry i) free in
              let on : (slot_at s.registry i).active ≡ true =
                rw same at (ap (λ (t : Slot). t.active) h.slot) in
              absurd_of idle on in
            (
              other-Queue s registry s.producer_wakes i others d q other (seen, unseen, h, split),
              other,
            )),
        count,
      ),
      λ ne. rw (ne→==_false s.closed 0 ne),
    )

flush_count :
    {capacity : ℕ} {s : Shared} {c : BytesConsumer} {seen unseen : List (List ℕ)}
    → Holds capacity s c seen unseen
    → consumer_count (flush c s).1 ≡ consumer_count s
unfolding flush consumer_count
flush_count {s} {c} h =
    let on = ap (λ (t : Slot). t.active) h.slot in
    let same =
      active_count-set s.registry c.slot_idx
        (record (slot_at s.registry c.slot_idx) { cursor = guard_sentinel c.read_cursor })
        (slot_inside s.registry c.slot_idx on) in
    omega arith

module _ {capacity : ℕ} {p : BytesProducer} {s : Shared} {c : BytesConsumer} {q : List (List ℕ)}
    (v : IsGated capacity p s) (h : Queue capacity s c q) where
  flush_pending_lem :
      let (c', s') = flush_pending c s in
      Queue capacity s' c' q
      × Keeps capacity p s c.slot_idx s'
      × (c'.slot_idx ≡ c.slot_idx)
      × (consumer_count s' ≡ consumer_count s)
  unfolding flush_pending flush
  flush_pending_lem =
      let (seen, unseen, held, split) = h in
      elim (Bool-cases (c.read_cursor == c.published)) [
        | inl done ↦ rw done (h, (v, λ d r _ k. k), refl, refl)
        | inr behind ↦
            let (held', keeps, _) = flush_lem v held in
            rw behind ((seen, unseen, held', split), keeps, refl, flush_count held)
      ]

  -- A consumer that leaves frees its slot, and no longer gates; the messages of the others and the
  -- producer's gate are kept.
  pub drop_consumer-Leaves :
      let s' = drop_consumer c s in
      Keeps capacity p s c.slot_idx s'
      × (¬ Gates (slot_at s'.registry c.slot_idx))
      × (suc (consumer_count s') ≡ consumer_count s)
  unfolding drop_consumer consumer_count
  drop_consumer-Leaves =
      let ((_, _, held, _), (v', kept), same, count) = flush_pending_lem in
      let s1 = (flush_pending c s).1 in
      let i = c.slot_idx in
      let on : (slot_at s1.registry i).active ≡ true =
        rw same at (ap (λ (t : Slot). t.active) held.slot) in
      let (gone, others, fewer) = left_registry_lem s1.registry i on in
      (
        (
          IsGated-change (left_registry s1.registry i) (s1.producer_wakes + 1) i v' others
              (λ t. absurd (gone t)),
          λ d r ne k.
              other-Queue s1 (left_registry s1.registry i) (s1.producer_wakes + 1) i others d r ne
                (kept d r ne k),
        ),
        gone,
        omega (arith, fewer, count),
      )
