-- ===== src/Broadcast/Setup.antt =====
-- How a broadcast ring starts, and how its tail is kept behind by a batch and caught up.
use rust_rb.Base.{
  ℕ, ◌+◌, ◌/◌, ◌^◌, ◌≤◌, ◌<◌, ◌≡◌, refl, inl, inr, Bool-cases, List, [], arith, IsPow2, max, min,
  ltb, leb, length, length-replicate, returns, panics, zero_capacity, capacity_too_large,
  slack_too_large, zero_sized, lt→ltb, le→ltb_false, ==_iff, ne→==_false,
}
use rust_rb.Policy.Rounding.{round_capacity_lem}
use rust_rb.Base.Slots.{max_capacity}
use rust_rb.Broadcast.{
  with_slack, slacked, Shared, Producer, Consumer, default_slack, handles, build,
  with_wait_strategies, built, subscribe_from, empty_slot, flush, publish_tail, set_tail_batch,
  drop_producer,
}
use rust_rb.Broadcast.Ring.{IsRing}
use rust_rb.Broadcast.Lag.{Reads}

default_slack-lt : (capacity : ℕ) → 0 < capacity → default_slack capacity < capacity
unfolding default_slack
default_slack-lt capacity h = ground arith

module _ {ℓ} {A : Type ℓ} where
  pub handles-IsRing :
      (capacity slack : ℕ)
      → IsPow2 capacity
      → capacity ≤ max_capacity
      → slack < capacity
      → let (s, p, c) = handles {A = A} capacity slack in
        IsRing capacity p s [] × Reads capacity s c
  unfolding handles subscribe_from
  handles-IsRing capacity slack power small less = (
    record {
      power = power;
      small = small;
      mask = refl;
      shared_mask = refl;
      slack = less;
      shared_slack = refl;
      count = refl;
      range = omega arith;
      storage = length-replicate capacity empty_slot;
      frontier = refl;
      debt = omega arith;
      batch = omega arith;
      live = λ pos h _. absurd (omega arith);
      gone = λ pos h. absurd (omega arith);
    },
    record { mask = refl; slack = refl; pos = omega arith; cached = omega arith },
  )

  -- A ring asked for from 1 to `2 ^ 63` slots, for elements that take up space, is made, holds nothing,
  -- and has at least as many slots, with a consumer at its start. For elements of no size it panics,
  -- and so it does, whatever the size, for 0 slots and for more than `2 ^ 63`.
  pub with_wait_strategies-IsRing :
      (size n : ℕ)
      → (0 < n
          → n ≤ 2 ^ 63
          → (0 < size
              → (capacity : ℕ) × (s : Shared A) × (p : Producer) × (c : Consumer)
                × (with_wait_strategies size n ≡ returns (s, p, c))
                × IsRing capacity p s []
                × Reads capacity s c
                × (n ≤ capacity))
            × (size ≡ 0 → with_wait_strategies {A = A} size n ≡ panics zero_sized))
        × (with_wait_strategies {A = A} size 0 ≡ panics zero_capacity)
        × (2 ^ 63 < n → with_wait_strategies {A = A} size n ≡ panics capacity_too_large)
  unfolding with_wait_strategies built build
  with_wait_strategies-IsRing size n =
      let (none_asked, large, made) = round_capacity_lem n 1 (0, refl) (omega arith) in
      (
        λ pos small.
            let (capacity, e, power, above, floor, below, _) = made pos small in
            let (ring, reads) =
              handles-IsRing capacity (default_slack capacity) power below
                (default_slack-lt capacity (omega arith)) in
            (
              (λ some_size. (
                capacity,
                _,
                _,
                _,
                rw (e, ne→==_false size 0 (omega arith)) refl,
                ring,
                reads,
                above,
              )),
              λ no_size. rw (e, (==_iff size 0).1 no_size) refl,
            ),
        rw none_asked refl,
        λ over. rw (large over) refl,
      )

  -- With a slack below the capacity that the request rounds to, and elements that take up space, the
  -- ring is made with that slack and holds nothing; any other slack panics, and so do elements of no
  -- size.
  pub with_slack-IsRing :
      (size n slack : ℕ)
      → 0 < n
      → n ≤ 2 ^ 63
      → (capacity : ℕ) × (n ≤ capacity)
        × (slack < capacity
            → (0 < size
                → (s : Shared A) × (p : Producer) × (c : Consumer) × (with_slack size n slack
                    ≡ returns (s, p, c))
                  × IsRing capacity p s []
                  × Reads capacity s c
                  × (s.slack ≡ slack))
              × (size ≡ 0 → with_slack {A = A} size n slack ≡ panics zero_sized))
        × (capacity ≤ slack → with_slack {A = A} size n slack ≡ panics slack_too_large)
  unfolding with_slack slacked build handles
  with_slack-IsRing size n slack pos small =
      let (_, _, made) = round_capacity_lem n 1 (0, refl) (omega arith) in
      let (capacity, e, power, above, floor, below, _) = made pos small in
      (
        capacity,
        above,
        (λ less.
            let (ring, reads) = handles-IsRing capacity slack power below less in
            let fits = lt→ltb slack capacity less in
            (
              (λ some_size. (
                _,
                _,
                _,
                rw (e, fits, ne→==_false size 0 (omega arith)) refl,
                ring,
                reads,
                refl,
              )),
              λ no_size. rw (e, fits, (==_iff size 0).1 no_size) refl,
            )),
        λ more. rw (e, le→ltb_false slack capacity more) refl,
      )

  module _ {capacity : ℕ} {p : Producer} {s : Shared A} {all : List A}
      (v : IsRing capacity p s all) where
    -- The ring with the whole frontier shown, and any batch that the slack allows.
    published-IsRing :
        (batch : ℕ)
        → 1 ≤ batch
        → batch ≤ max p.slack 1
        → IsRing capacity
            (record p { tail_batch = batch; unpublished = 0 })
            (record s { tail = p.next_seq })
            all
    published-IsRing batch pos less = record {
      power = v.power;
      small = v.small;
      mask = v.mask;
      shared_mask = v.shared_mask;
      slack = v.slack;
      shared_slack = v.shared_slack;
      count = v.count;
      range = v.range;
      storage = v.storage;
      frontier = omega arith;
      debt = omega arith;
      batch = less;
      live = v.live;
      gone = v.gone;
    }

    -- The batch that takes effect is at least 1, and at most the slack or 1, so that a consumer is
    -- never moved to an element that is overwritten already. The ring holds what it held.
    pub set_tail_batch-IsRing :
        (batch : ℕ)
        → let (clamped, p', s') = set_tail_batch p s batch in
          IsRing capacity p' s' all
          × (1 ≤ clamped)
          × (clamped ≤ max p.slack 1)
          × (p'.tail_batch ≡ clamped)
          × (p'.unpublished < clamped)
    unfolding set_tail_batch publish_tail
    set_tail_batch-IsRing batch =
        let clamped = min (max batch 1) (max (min ((p.mask + 1) / 8) p.slack) 1) in
        let pos : 1 ≤ clamped = omega arith in
        let less : clamped ≤ max p.slack 1 = omega arith in
        elim (Bool-cases (leb clamped p.unpublished)) [
          | inl now ↦ rw now (published-IsRing clamped pos less, pos, less, refl, omega arith)
          | inr later ↦
              let debt : p.unpublished < clamped = ground arith in
              rw later (
                record {
                  power = v.power;
                  small = v.small;
                  mask = v.mask;
                  shared_mask = v.shared_mask;
                  slack = v.slack;
                  shared_slack = v.shared_slack;
                  count = v.count;
                  range = v.range;
                  storage = v.storage;
                  frontier = v.frontier;
                  debt = debt;
                  batch = less;
                  live = v.live;
                  gone = v.gone;
                },
                pos,
                less,
                refl,
                debt,
              )
        ]

    -- A dropped producer leaves a closed ring whose tail shows every element pushed.
    pub drop_producer-all :
        ((drop_producer p s).tail ≡ length all) × ((drop_producer p s).closed ≡ 1)
    unfolding drop_producer flush publish_tail
    drop_producer-all =
        let frontier = v.frontier in
        let count = v.count in
        elim (Bool-cases (ltb 0 p.unpublished)) [
          | inl behind ↦ rw (drop_producer, behind) (count, refl)
          | inr level ↦ rw (drop_producer, level) (ground arith, refl)
        ]
