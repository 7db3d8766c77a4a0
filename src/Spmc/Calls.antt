-- ===== src/Spmc/Calls.antt =====
-- What a consumer's `try_pop` answers, and how consumers join and leave.
use rust_rb.Base.{
  ℕ, ◌+◌, ◌≤◌, ◌<◌, ◌≡◌, refl, ap, inl, inr, Bool-cases, true, false, not, List, [], ◌∷◌, arith,
  length, ◌==◌, if◌then◌else◌,
}
use native.Mathlib.Decide.{ℕ_discrete}
use rust_rb.Base.Words.{wrapping_sub_plain, wrapping_sub_self}
use rust_rb.Spmc.{Shared, Producer, Consumer}
use rust_rb.Spmc.Consumers.{
  Popped, closed, nothing, item, popped, available_cached, refresh, has_item, check_closed, read,
  try_pop,
}
use rust_rb.Spmc.Gated.{IsGated}
use rust_rb.Spmc.Holds.{Holds}
use rust_rb.Spmc.Pop.{Keeps, IsPrompt, advance_one_lem, front_lem}

module _ {ℓ} {A : Type ℓ} where
  module _ (c : Consumer) (s : Shared A) where
    has_item_known : 1 ≤ available_cached c → has_item c s ≡ (true, c)
    unfolding has_item
    has_item_known h = ground arith

    has_item_refreshed :
        available_cached c ≡ 0
        → 1 ≤ available_cached (refresh c s)
        → has_item c s ≡ (true, refresh c s)
    unfolding has_item
    has_item_refreshed h k = ground arith

    has_item_none :
        available_cached c ≡ 0
        → available_cached (refresh c s) ≡ 0
        → has_item c s ≡ (false, refresh c s)
    unfolding has_item
    has_item_none h k = ground arith

    check_closed_drained :
        available_cached (refresh c s) ≡ 0
        → check_closed (refresh c s) s ≡ (not (s.closed == 0), refresh c s)
    unfolding check_closed refresh
    check_closed_drained h = ground arith

  -- What `try_pop` may answer of a consumer with the queue.
  abbrev pub Takes :
      ℕ → Producer → Shared A → Consumer → List A → Popped A × Consumer × Shared A → Type ℓ
  Takes capacity p s c [] (out, c', s') =
      (out ≡ (if s.closed == 0 then nothing else closed))
      × (s' ≡ s)
      × Holds capacity s c' []
      × (c'.slot_idx ≡ c.slot_idx)
  Takes capacity p s c (x ∷ rest) (out, c', s') =
      (out ≡ item x)
      × Holds capacity s' c' rest
      × Keeps capacity p s c.slot_idx s'
      × IsPrompt capacity c'
      × (c'.slot_idx ≡ c.slot_idx)

  refresh-Holds :
      {capacity : ℕ} {s : Shared A} {c : Consumer} {q : List A}
      → Holds capacity s c q
      → Holds capacity s (refresh c s) q
  unfolding refresh
  refresh-Holds h = record {
    mask = h.mask;
    slot = h.slot;
    published_read = h.published_read;
    read_cached = (let l = h.read_cached in let m = h.cached_written in omega arith);
    cached_written = omega arith;
    written_word = h.written_word;
    count = h.count;
    items = h.items;
  }

  refreshed :
      {capacity : ℕ} {s : Shared A} {c : Consumer} {q : List A}
      → Holds capacity s c q
      → (available_cached (refresh c s) ≡ length q)
        × ((refresh c s).write_cache ≡ length q + c.read_cursor)
  unfolding refresh
  refreshed {s} {c} h =
      let plain =
        wrapping_sub_plain s.write_cursor c.read_cursor (let w = h.written_word in omega arith)
          (let n = h.count in omega arith) in
      let n = h.count in (omega arith, omega arith)

  read_lem :
      {capacity : ℕ} {p : Producer} {s : Shared A} {c : Consumer} (x : A) (rest : List A)
      → IsGated capacity p s
      → Holds capacity s c (x ∷ rest)
      → c.read_cursor < c.write_cache
      → Takes capacity p s c (x ∷ rest) (read c s)
  unfolding read
  read_lem x rest v h seen =
      let (held, keeps, prompt, same, _) = advance_one_lem x rest v h seen in
      (ap popped (front_lem x rest v h seen), held, keeps, prompt, same)

  -- `try_pop` takes the first element off the consumer's queue, whatever else the ring is used for,
  -- and leaves the queues of the other consumers; it answers "empty" for the empty queue of an open
  -- ring only, and "closed" for that of a closed one only.
  pub try_pop-Takes :
      {capacity : ℕ} {p : Producer} {s : Shared A} {c : Consumer} (q : List A)
      → IsGated capacity p s
      → Holds capacity s c q
      → Takes capacity p s c q (try_pop c s)
  unfolding try_pop refresh
  try_pop-Takes {s} {c} [] v h =
      let plain = wrapping_sub_plain c.write_cache c.read_cursor (omega arith) (omega arith) in
      let fresh : available_cached (refresh c s) ≡ 0 = (refreshed h).0 in
      let none_cached : available_cached c ≡ 0 = omega arith in
      rw (has_item_none c s none_cached fresh, check_closed_drained c s fresh)
        (elim (Bool-cases (s.closed == 0)) [
          | inl open_ring ↦ rw (open_ring, fresh) (refl, refl, refresh-Holds h, refl)
          | inr ended ↦ rw (ended) (refl, refl, refresh-Holds h, refl)
        ])
  try_pop-Takes {s} {c} (x ∷ rest) v h = elim (ℕ_discrete c.read_cursor c.write_cache) [
    | yes caught ↦
        let none_cached : available_cached c ≡ 0 = rw caught (
          wrapping_sub_self c.write_cache
            (let w = h.written_word in let l = h.cached_written in omega arith)) in
        let some_left : 1 ≤ available_cached (refresh c s) = omega (arith, (refreshed h).0) in
        rw (has_item_refreshed c s none_cached some_left)
          (read_lem x rest v (refresh-Holds h) (let w = h.count in omega arith))
    | no behind ↦
        let plain =
          wrapping_sub_plain c.write_cache c.read_cursor
            (let w = h.written_word in let l = h.cached_written in omega arith) h.read_cached in
        rw (has_item_known c s (let l = h.read_cached in omega arith))
          (read_lem x rest v h (let l = h.read_cached in omega arith))
  ]
