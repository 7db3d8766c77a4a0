-- ===== src/Spmc/Gated.antt =====
-- What the producer knows of its consumers: its cached minimum lags at least as far as every gating
-- cursor, and within a capacity.
use rust_rb.Base.{
  ℕ, ◌+◌, ◌≤◌, ◌<◌, ◌≡◌, ◌↔◌, ◌⊎◌, ◌∙◌, lt→ltb, le→ltb_false, inl, inr, refl, true, false,
  Bool-cases, some, none, arith, IsPow2, word_mod, wrapping_add, wrapping_sub, length, length-set,
}
use native.Mathlib.Decide.{dec_lt}
use rust_rb.Base.Slots.{max_capacity}
use rust_rb.Policy.{lacks_space}
use rust_rb.Policy.Bounds.{lacks_space_iff}
use rust_rb.Registry.Scan.{Within, Lower, HasRoom, not_full}
use rust_rb.Registry.Rescan.{rescan_gate_lem, HasRoom-of_Within}
use rust_rb.Registry.Change.{Within-mono, lag_step, Within-advance, Lower-advance}
use rust_rb.Spmc.{
  Shared, Producer, rescan, has_space, drop_overwritten, prepare_slot, publish, write,
}

wadd_plain : (n : ℕ) → n + 1 < word_mod → wrapping_add n 1 ≡ n + 1
unfolding wrapping_add
wadd_plain n h = omega arith

module _ {ℓ} {A : Type ℓ} where
  -- `range`: the cursors are words that have not wrapped.
  pub record IsGated (capacity : ℕ) (p : Producer) (s : Shared A) : Type 0 where
    pub power : IsPow2 capacity
    pub two : 2 ≤ capacity
    pub small : capacity ≤ max_capacity
    pub mask : p.mask + 1 ≡ capacity
    pub shared_mask : s.mask + 1 ≡ capacity
    pub written : s.write_cursor ≡ p.next_seq
    pub range : p.next_seq + capacity < word_mod
    pub storage : length s.buffer ≡ capacity
    pub min_word : p.cached_min < word_mod
    pub min_near : wrapping_sub p.next_seq p.cached_min ≤ capacity
    pub gated : Within p.next_seq (wrapping_sub p.next_seq p.cached_min) s.registry
    pub lower : Lower p.next_seq (p.next_seq + capacity) s.registry p.cached_cursors

  -- What a space check tells, and leaves.
  abbrev pub Checked : ℕ → Producer → Shared A → Producer → Type 0
  Checked capacity p s p' =
      IsGated capacity p' s
      × (p'.next_seq ≡ p.next_seq)
      × (p'.dropped_through_local ≡ p.dropped_through_local)

  module _ {capacity : ℕ} {p : Producer} {s : Shared A} (needed : ℕ) (v : IsGated capacity p s)
      (less : needed < capacity) (in_range : p.next_seq + capacity + needed < word_mod) where
    near : Within p.next_seq capacity s.registry
    near = Within-mono p.next_seq _ capacity s.registry v.min_near v.gated

    pub rescan_lem :
        let (free, p') = rescan p s needed in
        ((free ≡ true) ↔ HasRoom p.next_seq needed capacity s.registry)
        × (free ≡ true → wrapping_sub p.next_seq p'.cached_min + needed ≤ capacity)
        × Checked capacity p s p'
    unfolding rescan
    rescan_lem = rw v.mask (
        let (exact, low, within, close, word, room) =
          rescan_gate_lem p.next_seq needed capacity (p.next_seq + capacity) s.registry
            p.cached_cursors (let r = v.range in omega arith) (let t = v.two in omega arith) less
            (omega arith) in_range near v.lower in
        (
          exact,
          room,
          (
            record {
              power = v.power;
              two = v.two;
              small = v.small;
              mask = v.mask;
              shared_mask = v.shared_mask;
              written = v.written;
              range = v.range;
              storage = v.storage;
              min_word = word;
              min_near = close;
              gated = within;
              lower = low;
            },
            refl,
            refl,
          ),
        ))

    -- The check passes exactly if every gating consumer leaves room, whether it rescans or not.
    pub has_space_lem :
        let (free, p') = has_space p s needed in
        ((free ≡ true) ↔ HasRoom p.next_seq needed capacity s.registry)
        × (free ≡ true → wrapping_sub p.next_seq p'.cached_min + needed ≤ capacity)
        × Checked capacity p s p'
    unfolding has_space
    has_space_lem =
        let (full, over) =
          lacks_space_iff p.next_seq needed p.cached_min (p.mask + 1)
            (let r = v.range in omega arith) v.min_word
            (let m = v.mask in let r = v.range in omega arith)
            (let m = v.min_near in omega arith) in
        elim (Bool-cases (lacks_space p.next_seq needed p.cached_min (p.mask + 1))) [
          | inl behind ↦ rw behind rescan_lem
          | inr past ↦
              let room : wrapping_sub p.next_seq p.cached_min + needed ≤ capacity =
                omega (arith, not_full past over, v.mask) in
              rw past (
                (
                  λ _. HasRoom-of_Within p.next_seq needed capacity _ s.registry room v.gated,
                  λ _. refl,
                ),
                λ _. room,
                (v, refl, refl),
              )
        ]

  -- What `prepare_slot` may do: nothing, or drop the occupant of the producer's slot.
  pub prepare_slot_cases :
      (p : Producer) (s : Shared A)
      → ((prepare_slot p s ≡ (p, s))
          × ((s.needs_drop ≡ false) ⊎ (wrapping_sub p.next_seq p.dropped_through_local ≤ p.mask)))
        ⊎ ((prepare_slot p s ≡ drop_overwritten p s)
            × (s.needs_drop ≡ true)
            × (p.mask < wrapping_sub p.next_seq p.dropped_through_local))
  unfolding prepare_slot
  prepare_slot_cases p s = elim (Bool-cases s.needs_drop) [
    | inr never ↦ rw never (inl (refl, inl refl))
    | inl drops ↦ elim (dec_lt p.mask (wrapping_sub p.next_seq p.dropped_through_local)) [
      | yes far ↦ rw (drops, lt→ltb _ _ far) (inr (refl, refl, far))
      | no close ↦
          rw
            (
              drops,
              le→ltb_false p.mask (wrapping_sub p.next_seq p.dropped_through_local) (omega arith),
            )
            (inl (refl, inr (omega arith)))
    ]
  ]

  drop_overwritten_keeps :
      (p : Producer) (s : Shared A)
      → let (p', s') = drop_overwritten p s in
        (p'.next_seq ≡ p.next_seq)
        × (p'.mask ≡ p.mask)
        × (p'.cached_min ≡ p.cached_min)
        × (s'.registry ≡ s.registry)
        × (s'.write_cursor ≡ s.write_cursor)
        × (s'.needs_drop ≡ s.needs_drop)
  unfolding drop_overwritten
  drop_overwritten_keeps p s = (refl, refl, refl, refl, refl, refl)

  pub drop_overwritten-IsGated :
      {capacity : ℕ} {p : Producer} {s : Shared A}
      → IsGated capacity p s
      → let (p', s') = drop_overwritten p s in IsGated capacity p' s'
  unfolding drop_overwritten
  drop_overwritten-IsGated v = record {
    power = v.power;
    two = v.two;
    small = v.small;
    mask = v.mask;
    shared_mask = v.shared_mask;
    written = v.written;
    range = v.range;
    storage = length-set _ _ none ∙ v.storage;
    min_word = v.min_word;
    min_near = v.min_near;
    gated = v.gated;
    lower = v.lower;
  }

  pub write-IsGated :
      {capacity : ℕ} {p : Producer} {s : Shared A} (x : A)
      → IsGated capacity p s
      → wrapping_sub p.next_seq p.cached_min + 1 ≤ capacity
      → p.next_seq + capacity + 1 < word_mod
      → let (p', s') = write p s x in IsGated capacity p' s' × (p'.next_seq ≡ p.next_seq + 1)
  unfolding write publish
  write-IsGated {capacity} {p} {s} x v room range =
      let next : wrapping_add p.next_seq 1 ≡ p.next_seq + 1 = wadd_plain p.next_seq (omega arith) in
      let lag = lag_step p.next_seq p.cached_min 1 (omega arith) v.min_word (omega arith) in
      let more : p.next_seq + capacity + 1 ≡ wrapping_add p.next_seq 1 + capacity = omega arith in
      (
        record {
          power = v.power;
          two = v.two;
          small = v.small;
          mask = v.mask;
          shared_mask = v.shared_mask;
          written = refl;
          range = omega arith;
          storage = length-set _ _ (some x) ∙ v.storage;
          min_word = v.min_word;
          min_near = omega arith;
          gated =
              rw lag (Within-advance p.next_seq _ 1 s.registry (omega arith) (omega arith) v.gated);
          lower = rw (← more) (
              Lower-advance p.next_seq (p.next_seq + capacity) capacity 1 s.registry
                p.cached_cursors (omega arith) (omega arith) (omega arith)
                (Within-mono p.next_seq _ capacity s.registry v.min_near v.gated) v.lower);
        },
        next,
      )

  pub prepare_slot-IsGated :
      {capacity : ℕ} {p : Producer} {s : Shared A}
      → IsGated capacity p s
      → let (p', s') = prepare_slot p s in IsGated capacity p' s'
  prepare_slot-IsGated {p} {s} v = elim (prepare_slot_cases p s) [
    | inl (e, _) ↦ rw e v
    | inr (e, _, _) ↦ rw e (drop_overwritten-IsGated v)
  ]

  -- What both stores of a push leave as it was.
  pub prepare_slot_keeps :
      (p : Producer) (s : Shared A)
      → let (p', s') = prepare_slot p s in
        (p'.next_seq ≡ p.next_seq)
        × (p'.mask ≡ p.mask)
        × (p'.cached_min ≡ p.cached_min)
        × (s'.registry ≡ s.registry)
        × (s'.write_cursor ≡ s.write_cursor)
        × (s'.needs_drop ≡ s.needs_drop)
  prepare_slot_keeps p s = elim (prepare_slot_cases p s) [
    | inl (e, _) ↦ rw e (refl, refl, refl, refl, refl, refl)
    | inr (e, _, _) ↦ rw e (drop_overwritten_keeps p s)
  ]
