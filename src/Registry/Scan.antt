-- ===== src/Registry/Scan.antt =====
-- What the producer's walk over the registry finds: cached cursors stay lower bounds, and the largest
-- lag decides the gate as the live cursors do.
use rust_rb.Base.{
  ℕ, ◌+◌, ◌-◌, ◌≤◌, ◌<◌, ◌≡◌, ◌≢◌, ◌⊎◌, inl, inr, refl, zero, suc, Bool-cases, ne→==_false, ==_iff,
  true, false, Bool, List, [], ◌∷◌, arith, word_mod, wrapping_sub, replicate,
}
use native.Mathlib.Decide.{dec_lt, ℕ_discrete}
use rust_rb.Policy.{lacks_space}
use rust_rb.Policy.Bounds.{lacks_space_iff}
use rust_rb.Registry.{detached, Slot, free_slot, Gate, gate_at, scan_slot, scan_chunk_registry}

-- A slot constrains the producer: its bit is set and its cursor is no sentinel.
pub record Gates (s : Slot) : Type 0 where
  pub active : s.active ≡ true
  pub live : s.cursor ≢ detached

-- Every gating slot lags by at most `bound`.
abbrev pub Within : ℕ → ℕ → List Slot → Type 0
Within next_seq bound [] = Unit {0}
Within next_seq bound (s ∷ rest) =
    (Gates s → (s.cursor < word_mod) × (wrapping_sub next_seq s.cursor ≤ bound))
    × Within next_seq bound rest

-- Each cached cursor lags by at most `limit`, and at least as much as its slot, if that gates.
abbrev pub Lower : ℕ → ℕ → List Slot → List ℕ → Type 0
Lower next_seq limit [] [] = Unit {0}
Lower next_seq limit [] (c ∷ cached) =
    ((c < word_mod) × (wrapping_sub next_seq c ≤ limit)) × Lower next_seq limit [] cached
Lower next_seq limit (s ∷ rest) [] = Unit {0}
Lower next_seq limit (s ∷ rest) (c ∷ cached) =
    ((c < word_mod)
      × (wrapping_sub next_seq c ≤ limit)
      × (Gates s → wrapping_sub next_seq s.cursor ≤ wrapping_sub next_seq c))
    × Lower next_seq limit rest cached

-- The findings cover every gating slot.
abbrev pub Found : ℕ → Gate → List Slot → Type 0
Found next_seq g [] = Unit {0}
Found next_seq g (s ∷ rest) =
    (Gates s → (g.any_active ≡ true) × (wrapping_sub next_seq s.cursor ≤ g.max_lag))
    × Found next_seq g rest

-- `needed` units are free of every gating slot.
abbrev pub HasRoom : ℕ → ℕ → ℕ → List Slot → Type 0
HasRoom next_seq needed capacity [] = Unit {0}
HasRoom next_seq needed capacity (s ∷ rest) =
    (Gates s → wrapping_sub next_seq s.cursor + needed ≤ capacity)
    × HasRoom next_seq needed capacity rest

gate_at-max :
    (next_seq : ℕ) (g : Gate) (c : ℕ)
    → let g' = gate_at next_seq g c in
      (g'.any_active ≡ true)
      × (wrapping_sub next_seq c ≤ g'.max_lag)
      × (g.max_lag ≤ g'.max_lag)
      × ((bound : ℕ) → g.max_lag ≤ bound → wrapping_sub next_seq c ≤ bound → g'.max_lag ≤ bound)
unfolding gate_at
gate_at-max next_seq g c = (refl, ground arith, ground arith, λ bound h k. ground arith)

-- What a walk knows of one slot, the cached cursor and the findings that it leaves.
pub record Scanned (next_seq needed capacity limit : ℕ) (s : Slot) (g : Gate) (c' : ℕ) (g' : Gate)
    : Type 0 where
  pub word : c' < word_mod
  pub near : wrapping_sub next_seq c' ≤ limit
  pub low : Gates s → wrapping_sub next_seq s.cursor ≤ wrapping_sub next_seq c'
  pub found : Gates s → (g'.any_active ≡ true) × (wrapping_sub next_seq s.cursor ≤ g'.max_lag)
  pub more : g.max_lag ≤ g'.max_lag
  pub kept : g.any_active ≡ true → g'.any_active ≡ true
  pub bounded : g.max_lag ≤ capacity → g'.max_lag ≤ capacity
  pub free :
      (Gates s → wrapping_sub next_seq s.cursor + needed ≤ capacity)
      → g.max_lag + needed ≤ capacity
      → g'.max_lag + needed ≤ capacity

-- What a test does not say is false.
pub not_full : {a b : ℕ} {t : Bool} → t ≡ false → (a < b → t ≡ true) → b ≤ a
not_full {a} {b} e h = elim (dec_lt a b) [ yes lt ↦ cc (h lt) | no ge ↦ omega arith ]

module _ (next_seq needed capacity limit : ℕ) (word : next_seq < word_mod) (wide : capacity ≤ limit)
    (room : limit + needed < word_mod) where
  -- A slot is passed over, is known to be past the wrap point, or is loaded.
  scan_slot_cases :
      (s : Slot) (c : ℕ) (g : Gate)
      → c < word_mod
      → wrapping_sub next_seq c ≤ limit
      → ((scan_slot next_seq needed capacity s c g ≡ (c, g)) × ¬ Gates s)
        ⊎ ((scan_slot next_seq needed capacity s c g ≡ (c, gate_at next_seq g c))
            × (wrapping_sub next_seq c + needed ≤ capacity))
        ⊎ ((scan_slot next_seq needed capacity s c g ≡ (s.cursor, gate_at next_seq g s.cursor))
            × Gates s)
  unfolding scan_slot
  scan_slot_cases s c g cw cl = elim (Bool-cases s.active) [
    | inr idle ↦ rw idle (inl (refl, λ t. cc (t.active)))
    | inl active ↦ rw active (
        let (_, full) =
          lacks_space_iff next_seq needed c capacity word cw (omega arith) (omega arith) in
        elim (Bool-cases (lacks_space next_seq needed c capacity)) [
          | inr past ↦ rw past (inr (inl (refl, not_full past full)))
          | inl behind ↦ rw behind (elim (ℕ_discrete s.cursor detached) [
            | yes gone ↦ rw ((==_iff s.cursor detached).1 gone) (inl (refl, λ t. t.live gone))
            | no live ↦
                rw (ne→==_false s.cursor detached live)
                  (inr (inr (refl, record { active = refl; live = live })))
          ])
        ])
  ]

  scan_slot_lem :
      (s : Slot) (c : ℕ) (g : Gate)
      → (Gates s → (s.cursor < word_mod) × (wrapping_sub next_seq s.cursor ≤ capacity))
      → c < word_mod
      → wrapping_sub next_seq c ≤ limit
      → (Gates s → wrapping_sub next_seq s.cursor ≤ wrapping_sub next_seq c)
      → let (c', g') = scan_slot next_seq needed capacity s c g in
        Scanned next_seq needed capacity limit s g c' g'
  scan_slot_lem s c g near cw cl low = elim (scan_slot_cases s c g cw cl) [
    | inl (e, idle) ↦ rw e (record {
      word = cw;
      near = cl;
      low = low;
      found = λ t. absurd (idle t);
      more = omega arith;
      kept = λ t. t;
      bounded = λ t. t;
      free = λ _ t. t;
    })
    | inr (inl (e, past)) ↦
        let (any, above, more, most) = gate_at-max next_seq g c in
        rw e (record {
          word = cw;
          near = cl;
          low = low;
          found = λ t. (any, omega (arith, low t));
          more = more;
          kept = λ _. any;
          bounded = λ t. most capacity t (omega arith);
          free = λ _ t. omega (arith, most (capacity - needed) (omega arith) (omega arith));
        })
    | inr (inr (e, gates)) ↦
        let (any, above, more, most) = gate_at-max next_seq g s.cursor in
        let (sw, sl) = near gates in
        rw e (record {
          word = sw;
          near = omega arith;
          low = λ _. omega arith;
          found = λ _. (any, above);
          more = more;
          kept = λ _. any;
          bounded = λ t. most capacity t sl;
          free = λ h t.
              omega
                (arith, h gates, most (capacity - needed) (omega arith) (omega (arith, h gates)));
        })
  ]

  seed_near :
      (s : Slot)
      → (Gates s → (s.cursor < word_mod) × (wrapping_sub next_seq s.cursor ≤ capacity))
      → let c = wrapping_sub next_seq capacity in
        (c < word_mod)
        × (wrapping_sub next_seq c ≤ limit)
        × (Gates s → wrapping_sub next_seq s.cursor ≤ wrapping_sub next_seq c)
  unfolding wrapping_sub
  seed_near s near = (omega arith, omega arith, λ t. omega (arith, near t))

  Lower-seed :
      (n : ℕ) (registry : List Slot)
      → Within next_seq capacity registry
      → Lower next_seq limit registry (replicate n (wrapping_sub next_seq capacity))
  Lower-seed zero [] near = tt
  Lower-seed (suc n) [] near =
      let (cw, cl, _) = seed_near free_slot (λ t. cc (t.active)) in ((cw, cl), Lower-seed n [] near)
  Lower-seed zero (s ∷ rest) near = tt
  Lower-seed (suc n) (s ∷ rest) near = (seed_near s near.0, Lower-seed n rest near.1)

  -- What a walk over a registry leaves: cached cursors that are lower bounds, and findings that cover
  -- every gating slot, that only grow, and that leave room where all the slots do.
  abbrev pub Walked : List Slot → Gate → List ℕ → Gate → Type 0
  Walked registry g cs g' =
      Lower next_seq limit registry cs
      × Found next_seq g' registry
      × (g.max_lag ≤ g'.max_lag)
      × (g.any_active ≡ true → g'.any_active ≡ true)
      × (g.max_lag ≤ capacity → g'.max_lag ≤ capacity)
      × (HasRoom next_seq needed capacity registry
          → g.max_lag + needed ≤ capacity
          → g'.max_lag + needed ≤ capacity)

  walk_on :
      (s : Slot) (rest : List Slot) (g : Gate) (c' : ℕ) (g1 : Gate) (cs : List ℕ) (g2 : Gate)
      → Scanned next_seq needed capacity limit s g c' g1
      → Walked rest g1 cs g2
      → Walked (s ∷ rest) g (c' ∷ cs) g2
  walk_on s rest g c' g1 cs g2 v (low, found, more, kept, bounded, free) = (
    ((v.word, v.near, v.low), low),
    (λ t. let (any, lag) = v.found t in (kept any, omega arith), found),
    (let m = v.more in omega arith),
    (λ t. kept (v.kept t)),
    (λ t. bounded (v.bounded t)),
    λ h t. free h.1 (v.free h.0 t),
  )

  -- A whole walk leaves lower bounds, finds every gating slot, and no lag beyond theirs.
  pub scan_chunk_registry_lem :
      (registry : List Slot) (cached : List ℕ) (g : Gate)
      → Within next_seq capacity registry
      → Lower next_seq limit registry cached
      → let (cs, g') = scan_chunk_registry next_seq needed capacity registry cached g in
        Walked registry g cs g'
  unfolding scan_chunk_registry
  scan_chunk_registry_lem [] cached g near low = (low, tt, omega arith, λ t. t, λ t. t, λ _ t. t)
  scan_chunk_registry_lem (s ∷ rest) [] g near low =
      let seed = wrapping_sub next_seq capacity in
      let (cw, cl, cs) = seed_near s near.0 in
      walk_on s rest g _ _ _ _ (scan_slot_lem s seed g near.0 cw cl cs) (
        scan_chunk_registry_lem rest (replicate 63 seed)
          (scan_slot next_seq needed capacity s seed g).1 near.1 (Lower-seed 63 rest near.1))
  scan_chunk_registry_lem (s ∷ rest) (c ∷ cached) g near (here, low) =
      let (cw, cl, cs) = here in
      walk_on s rest g _ _ _ _ (scan_slot_lem s c g near.0 cw cl cs) (
        scan_chunk_registry_lem rest cached (scan_slot next_seq needed capacity s c g).1 near.1 low)
