-- ===== src/Spsc/Refine.antt =====
-- The ring against the queue that it holds: what each call returns, and which queue it leaves.
use rust_rb.Base.{
  ℕ, suc, ◌+◌, ◌-◌, ◌^◌, ◌≤◌, ◌<◌, ◌≡◌, ◌≢◌, ◌↔◌, ◌∙◌, refl, sym, ap, true, none, some, List, [],
  ◌∷◌, ◌++◌, arith, IsPow2, wrapping_add, wrapping_sub, length, length-append, length-set,
  length-replicate, get_or-replicate,
}
use rust_rb.Base.Words.{wrapping_add-wrapping_sub, wrapping_add_zero}
use rust_rb.Policy.{publish_batch}
use rust_rb.Policy.Bounds.{publish_batch_bounds}
use rust_rb.Cursor.{owns_ring, publish, channel}
use rust_rb.Cursor.Invariant.{
  ahead, channel-IsValid, has_space-IsValid, publish-IsValid, has_item-IsValid, advance-IsValid,
}
use rust_rb.Cursor.Counts.{count-write, count-read, count-bound, count_published, pos_of_ne}
use rust_rb.Cursor.Space.{IsSane-of_IsValid, has_space_room, has_space_iff, write_cursor-has_space}
use rust_rb.Cursor.Waiting.{has_item_found, has_item_keeps}
use rust_rb.Cursor.Publish.{read_cursor-advance, anchor-advance, advance-IsPrompt, has_item_iff}
use rust_rb.Spsc.{
  Ring, fresh, init_slot, commit_init, write, try_claim, front, vacate, advance_one, read,
  try_pop_ref,
}
use rust_rb.Spsc.Represents.{Slots, Holds, Slots-set, Slots-step}

module _ {ℓ} {A : Type ℓ} where
  pub fresh-Holds :
      (capacity : ℕ)
      → IsPow2 capacity
      → 0 < capacity
      → capacity ≤ 2 ^ 63
      → Holds {A = A} capacity (fresh capacity) []
  unfolding fresh channel wrapping_sub owns_ring
  fresh-Holds capacity p pos small = record {
    power = p;
    engine = channel-IsValid capacity pos small;
    prompt = omega (arith, publish_batch_bounds capacity 64);
    owned = refl;
    storage = length-replicate capacity none;
    count = omega arith;
    slots = λ i _. get_or-replicate capacity none _;
  }

  module _ {capacity : ℕ} {r : Ring A} {q : List A} (h : Holds capacity r q) where
    mask_eq : (r.producer.mask ≡ capacity - 1) × (r.consumer.mask ≡ capacity - 1)
    mask_eq = let v = h.engine in omega arith

    -- An element written where a slot is free of the cached view joins the queue at its end.
    pub write-Holds :
        (x : A)
        → ahead r.producer r.producer.write_cursor + 1 ≤ capacity
        → Holds capacity (write r x) (q ++ (x ∷ []))
    unfolding write init_slot commit_init publish
    write-Holds x room =
        let v = h.engine in
        let (free, next) = count-write 1 v (omega arith) room in
        let at : r.producer.write_cursor ≡ wrapping_add r.consumer.read_cursor (length q) =
          sym (rw (← h.count) (wrapping_add-wrapping_sub _ _ v.write_word v.read_word)) in
        record {
          power = h.power;
          engine = publish-IsValid 1 v room;
          prompt = h.prompt;
          owned = h.owned;
          storage = length-set r.buffer _ (some x) ∙ h.storage;
          count = next ∙ omega (arith, h.count, length-append q (x ∷ []));
          slots = rw (mask_eq.0) (
              Slots-set capacity r.buffer r.consumer.read_cursor r.producer.write_cursor q x h.power
                v.small h.storage (rw (← h.count) free) at h.slots);
        }

    -- The front slot of a queue holds its first element, and taking that leaves the rest.
    pub read-Holds :
        (x : A) (rest : List A)
        → q ≡ x ∷ rest
        → r.consumer.write_cursor_cache ≢ r.consumer.read_cursor
        → (front r ≡ some x) × Holds capacity (read r) rest
    unfolding front read vacate advance_one
    read-Holds x rest e seen =
        let v = h.engine in
        let one = pos_of_ne _ _ v.write_cache_word v.read_word seen in
        let (room, next) = count-read 1 v one in
        let held : Slots capacity r.buffer r.consumer.read_cursor (x ∷ rest) = rw (← e) h.slots in
        let start = wrapping_add_zero r.consumer.read_cursor v.read_word in
        let size : length q ≡ suc (length rest) = ap length e in
        let bound = count-bound v in
        let batch = publish_batch_bounds capacity 64 (omega arith) in
        (
          rw (mask_eq.1) (rw start at (held 0 (omega arith))),
          record {
            power = h.power;
            engine = advance-IsValid 1 _ _ v h.owned room;
            prompt =
                rw (v.consumer_mask)
                  (advance-IsPrompt r.consumer r.shared 1 (publish_batch capacity 64) _ batch.0
                    v.read_word).0;
            owned = rw anchor-advance h.owned;
            storage = length-set r.buffer _ none ∙ h.storage;
            count = rw read_cursor-advance (omega (arith, next, h.count, size));
            slots =
                rw (read_cursor-advance, mask_eq.1)
                  (Slots-step capacity r.buffer r.consumer.read_cursor x rest h.power v.small
                    v.read_word h.storage (omega (arith, size, h.count, bound)) held);
          },
        )

    pub try_claim-Holds : Holds capacity (try_claim r).1 q
    unfolding try_claim
    try_claim-Holds = record {
      power = h.power;
      engine = has_space-IsValid 1 h.engine;
      prompt = h.prompt;
      owned = h.owned;
      storage = h.storage;
      count = rw write_cursor-has_space h.count;
      slots = h.slots;
    }

    -- A slot is handed out exactly when the queue and what is read but not published leave one; the
    -- queue stays as it is.
    pub try_claim_iff :
        ((try_claim r).0 ≡ true)
        ↔ (length q + wrapping_sub r.consumer.read_cursor r.consumer.published < capacity)
    unfolding try_claim
    try_claim_iff =
        let v = h.engine in
        let (exact, _) = has_space_iff 1 v (omega arith) in
        (
          λ t. omega (arith, exact.0 t, count_published v, h.count),
          λ t. exact.1 (omega (arith, count_published v, h.count)),
        )

    pub try_claim_room :
        (try_claim r).0 ≡ true
        → ahead (try_claim r).1.producer (try_claim r).1.producer.write_cursor + 1 ≤ capacity
    unfolding try_claim
    try_claim_room fits = (has_space_room 1 (IsSane-of_IsValid h.engine) (omega arith) fits).0

    pub try_pop_ref-Holds : Holds capacity (try_pop_ref r).1 q
    unfolding try_pop_ref
    try_pop_ref-Holds =
        let (_, prompt, _) = has_item_iff _ h.engine h.prompt in
        let (read, anchor) = has_item_keeps r.consumer r.shared in
        record {
          power = h.power;
          engine = has_item-IsValid h.engine;
          prompt = prompt;
          owned = rw anchor h.owned;
          storage = h.storage;
          count = rw read h.count;
          slots = rw read h.slots;
        }

    -- A view is handed out exactly when the queue is not empty.
    pub try_pop_ref_iff : ((try_pop_ref r).0 ≡ true) ↔ (0 < length q)
    unfolding try_pop_ref wrapping_sub
    try_pop_ref_iff =
        let v = h.engine in
        let ((found, past), _, _) = has_item_iff _ h.engine h.prompt in
        (λ t. let ne = found t in omega (arith, h.count), λ t. past (λ e. omega (arith, h.count)))

    pub try_pop_ref_seen :
        (try_pop_ref r).0 ≡ true
        → (try_pop_ref r).1.consumer.write_cursor_cache ≢ (try_pop_ref r).1.consumer.read_cursor
    unfolding try_pop_ref
    try_pop_ref_seen t =
        let v = h.engine in
        let (past, read, _) =
          has_item_found r.consumer r.shared v.read_word v.write_cache_word
            (rw (v.write_published) v.write_word) t in
        rw read past
