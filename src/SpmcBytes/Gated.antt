-- ===== src/SpmcBytes/Gated.antt =====
-- What the producer of the message ring knows of its consumers: its cached minimum lags at least as
-- far as every gating cursor, and within a capacity.
use rust_rb.Base.{
  ℕ, ◌+◌, ◌-◌, ◌%◌, ◌≤◌, ◌<◌, ◌≡◌, ◌↔◌, ◌∙◌, inl, inr, refl, true, false, Bool, Bool-cases, Option,
  List, arith, IsPow2, word_mod, wrapping_add, wrapping_sub, length,
}
use rust_rb.Base.Slots.{max_capacity}
use rust_rb.Base.Words.{wrapping_add_plain}
use rust_rb.Policy.{lacks_space}
use rust_rb.Policy.Bounds.{lacks_space_iff}
use rust_rb.Registry.Scan.{Within, Lower, HasRoom, not_full}
use rust_rb.Registry.Rescan.{rescan_gate_lem, HasRoom-of_Within}
use rust_rb.Registry.Change.{Within-mono, lag_step, Within-advance, Lower-advance}
use rust_rb.Frame.{padding, record_len}
use rust_rb.Frame.Fits.{IsPlace, IsPlaced}
use rust_rb.Frame.Trip.{Fills, length-write_frame}
use rust_rb.SpmcBytes.{Shared, BytesProducer, rescan, has_space, publish, write_record}

-- `range`: the cursors are words that have not wrapped.
pub record IsGated (capacity : ℕ) (p : BytesProducer) (s : Shared) : Type 0 where
  pub power : IsPow2 capacity
  pub legal : 8 ≤ capacity
  pub small : capacity ≤ max_capacity
  pub mask : p.mask + 1 ≡ capacity
  pub shared_mask : s.mask + 1 ≡ capacity
  pub written : s.write_cursor ≡ p.next_seq
  pub range : p.next_seq + capacity < word_mod
  pub storage : length s.buffer ≡ capacity
  pub aligned : p.next_seq % 4 ≡ 0
  pub min_word : p.cached_min < word_mod
  pub min_near : wrapping_sub p.next_seq p.cached_min ≤ capacity
  pub gated : Within p.next_seq (wrapping_sub p.next_seq p.cached_min) s.registry
  pub lower : Lower p.next_seq (p.next_seq + capacity) s.registry p.cached_cursors

-- What a space check leaves: it touches the request for space alone.
abbrev pub Checked : ℕ → BytesProducer → Shared → BytesProducer × Shared → Type 0
Checked capacity p s (p', s') =
    IsGated capacity p' s' × (p'.next_seq ≡ p.next_seq) × (s' ≡ record s { starving = s'.starving })

-- Neither the flag nor the request for space matters to the gate.
flagged-IsGated :
    {capacity : ℕ} {p : BytesProducer} {s : Shared} (raised : Bool) (request : ℕ)
    → IsGated capacity p s
    → IsGated capacity (record p { raised_starving = raised }) (record s { starving = request })
flagged-IsGated raised request v = record {
  power = v.power;
  legal = v.legal;
  small = v.small;
  mask = v.mask;
  shared_mask = v.shared_mask;
  written = v.written;
  range = v.range;
  storage = v.storage;
  aligned = v.aligned;
  min_word = v.min_word;
  min_near = v.min_near;
  gated = v.gated;
  lower = v.lower;
}

module _ {capacity : ℕ} {p : BytesProducer} {s : Shared} (v : IsGated capacity p s) where
  pub place : IsPlace capacity (capacity - 1) p.next_seq
  place = record {
    power = v.power;
    legal = v.legal;
    small = v.small;
    mask_eq = refl;
    word = (let r = v.range in omega arith);
    aligned = v.aligned;
  }

  module _ (needed : ℕ) (less : needed < capacity)
      (in_range : p.next_seq + capacity + needed < word_mod) where
    rescan_lem :
        let (free, p') = rescan p s needed in
        ((free ≡ true) ↔ HasRoom p.next_seq needed capacity s.registry)
        × (free ≡ true → wrapping_sub p.next_seq p'.cached_min + needed ≤ capacity)
        × IsGated capacity p' s
        × (p'.next_seq ≡ p.next_seq)
    unfolding rescan
    rescan_lem = rw v.mask (
        let (exact, low, within, close, word, room) =
          rescan_gate_lem p.next_seq needed capacity (p.next_seq + capacity) s.registry
            p.cached_cursors (let r = v.range in omega arith) (let l = v.legal in omega arith) less
            (omega arith) in_range (Within-mono p.next_seq _ capacity s.registry v.min_near v.gated)
            v.lower in
        (
          exact,
          room,
          record {
            power = v.power;
            legal = v.legal;
            small = v.small;
            mask = v.mask;
            shared_mask = v.shared_mask;
            written = v.written;
            range = v.range;
            storage = v.storage;
            aligned = v.aligned;
            min_word = word;
            min_near = close;
            gated = within;
            lower = low;
          },
          refl,
        ))

    -- The check passes exactly if every gating consumer leaves room, whether it rescans or not; one
    -- that fails leaves its request.
    pub has_space_lem :
        let (free, p', s') = has_space p s needed in
        ((free ≡ true) ↔ HasRoom p.next_seq needed capacity s.registry)
        × (free ≡ true → wrapping_sub p.next_seq p'.cached_min + needed ≤ capacity)
        × (free ≡ false → s'.starving ≡ needed)
        × Checked capacity p s (p', s')
    unfolding has_space
    has_space_lem =
        let (full, over) =
          lacks_space_iff p.next_seq needed p.cached_min (p.mask + 1)
            (let r = v.range in omega arith) v.min_word
            (let m = v.mask in let r = v.range in omega arith)
            (let m = v.min_near in omega arith) in
        elim (Bool-cases (lacks_space p.next_seq needed p.cached_min (p.mask + 1))) [
          | inl behind ↦
              let ((fits, free), room, v', next) = rescan_lem in
              rw behind (elim (Bool-cases (rescan p s needed).0) [
                | inl passed ↦
                    rw passed (
                      (λ _. fits passed, λ _. refl),
                      (λ _. room passed),
                      (λ e. cc),
                      (v', next, refl),
                    )
                | inr failed ↦ rw failed (
                  (λ e. cc, λ h. cc (free h)),
                  (λ e. cc),
                  (λ _. refl),
                  (flagged-IsGated true needed v', next, refl),
                )
              ])
          | inr past ↦
              let room : wrapping_sub p.next_seq p.cached_min + needed ≤ capacity =
                omega (arith, not_full past over, v.mask) in
              let all = HasRoom-of_Within p.next_seq needed capacity _ s.registry room v.gated in
              rw past (elim (Bool-cases p.raised_starving) [
                | inl raised ↦ rw raised (
                  (λ _. all, λ _. refl),
                  (λ _. room),
                  (λ e. cc),
                  (flagged-IsGated false 0 v, refl, refl),
                )
                | inr calm ↦ rw calm (
                  (λ _. all, λ _. refl),
                  (λ _. room),
                  (λ e. cc),
                  (flagged-IsGated false s.starving v, refl, refl),
                )
              ])
        ]

  -- A record written with room for it.
  pub write_record-IsGated :
      (pad len : ℕ) (src : Option (List ℕ))
      → IsPlaced capacity (capacity - 1) p.next_seq len pad
      → len < padding
      → Fills len src
      → wrapping_sub p.next_seq p.cached_min + (pad + record_len len) ≤ capacity
      → p.next_seq + capacity + (pad + record_len len) < word_mod
      → let (p', s') = write_record p s pad len src in
        IsGated capacity p' s' × (p'.next_seq ≡ p.next_seq + (pad + record_len len))
  unfolding write_record publish
  write_record-IsGated pad len src f short fills room range =
      let total = pad + record_len len in
      let mask : p.mask ≡ capacity - 1 = let m = v.mask in omega arith in
      let next = wrapping_add_plain p.next_seq total (omega arith) in
      let lag = lag_step p.next_seq p.cached_min total (omega arith) v.min_word (omega arith) in
      let more : p.next_seq + capacity + total ≡ wrapping_add p.next_seq total + capacity =
        omega arith in
      let four = f.multiple in
      let two = v.aligned in
      (
        record {
          power = v.power;
          legal = v.legal;
          small = v.small;
          mask = v.mask;
          shared_mask = v.shared_mask;
          written = refl;
          range = omega arith;
          storage =
              rw mask (length-write_frame place f s.buffer v.storage short src fills ∙ v.storage);
          aligned = omega arith;
          min_word = v.min_word;
          min_near = omega arith;
          gated =
              rw lag
                (Within-advance p.next_seq _ total s.registry (omega arith) (omega arith) v.gated);
          lower = rw (← more) (
              Lower-advance p.next_seq (p.next_seq + capacity) capacity total s.registry
                p.cached_cursors (omega arith) (omega arith) (omega arith)
                (Within-mono p.next_seq _ capacity s.registry v.min_near v.gated) v.lower);
        },
        next,
      )
