-- ===== src/Registry/Rescan.antt =====
-- The gate of the producer: a rescan decides exactly whether every gating consumer leaves room.
use rust_rb.Base.{
  ℕ, ◌+◌, ◌≤◌, ◌<◌, ◌≡◌, ◌↔◌, true, List, [], ◌∷◌, arith, word_mod, wrapping_add, wrapping_sub,
  if◌then◌else◌,
}
use rust_rb.Policy.{lacks_space}
use rust_rb.Registry.{Slot, Gate, no_gate, scan_chunk_registry, rescan_gate}
use rust_rb.Registry.Scan.{Within, Lower, Found, HasRoom, scan_chunk_registry_lem}

pub HasRoom-of_Within :
    (next_seq needed capacity bound : ℕ) (registry : List Slot)
    → bound + needed ≤ capacity
    → Within next_seq bound registry
    → HasRoom next_seq needed capacity registry
HasRoom-of_Within next_seq needed capacity bound [] h v = tt
HasRoom-of_Within next_seq needed capacity bound (s ∷ rest) h (near, v) =
    (λ t. omega (arith, near t), HasRoom-of_Within next_seq needed capacity bound rest h v)

Within-of_Found :
    (next_seq capacity : ℕ) (g : Gate) (registry : List Slot) (bound : ℕ)
    → (g.any_active ≡ true → g.max_lag ≤ bound)
    → Within next_seq capacity registry
    → Found next_seq g registry
    → Within next_seq bound registry
Within-of_Found next_seq capacity g [] bound h v f = tt
Within-of_Found next_seq capacity g (s ∷ rest) bound h (near, v) (found, f) = (
  λ t. let (any, lag) = found t in ((near t).0, omega (arith, h any)),
  Within-of_Found next_seq capacity g rest bound h v f,
)

-- The lag of the cached minimum: the largest found, or 1.
abbrev lag_of : Gate → ℕ
lag_of g = if g.any_active then g.max_lag else 1

rescan_gate_eq :
    (next_seq needed capacity : ℕ) (g : Gate)
    → next_seq < word_mod
    → capacity < word_mod
    → lag_of g + needed < word_mod
    → let (m, free) = rescan_gate next_seq needed capacity g in
      (m < word_mod)
      × (wrapping_sub next_seq m ≡ lag_of g)
      × ((free ≡ true) ↔ (lag_of g + needed ≤ capacity))
unfolding rescan_gate lacks_space wrapping_sub wrapping_add
rescan_gate_eq next_seq needed capacity g w c h =
    (ground arith, ground arith, (λ t. ground arith, λ t. ground arith))

-- A rescan over lower bounds passes exactly if every gating consumer leaves `needed` units free. It
-- leaves lower bounds again, and a cached minimum that lags within a capacity, and at least as far as
-- every gating consumer.
pub rescan_gate_lem :
    (next_seq needed capacity limit : ℕ) (registry : List Slot) (cached : List ℕ)
    → next_seq < word_mod
    → 0 < capacity
    → needed < capacity
    → capacity ≤ limit
    → limit + needed < word_mod
    → Within next_seq capacity registry
    → Lower next_seq limit registry cached
    → let (cs, g) = scan_chunk_registry next_seq needed capacity registry cached no_gate in
      let (cached_min, free) = rescan_gate next_seq needed capacity g in
      ((free ≡ true) ↔ HasRoom next_seq needed capacity registry)
      × Lower next_seq limit registry cs
      × Within next_seq (wrapping_sub next_seq cached_min) registry
      × (wrapping_sub next_seq cached_min ≤ capacity)
      × (cached_min < word_mod)
      × (free ≡ true → wrapping_sub next_seq cached_min + needed ≤ capacity)
rescan_gate_lem next_seq needed capacity limit registry cached w pos less wide room near low =
    let (low', found, _, _, bounded, free) =
      scan_chunk_registry_lem next_seq needed capacity limit w wide room registry cached no_gate
        near low in
    let g = (scan_chunk_registry next_seq needed capacity registry cached no_gate).1 in
    let lag : lag_of g ≤ capacity = ground (arith, bounded) in
    let (mw, e, exact) = rescan_gate_eq next_seq needed capacity g w (omega arith) (omega arith) in
    let all =
      Within-of_Found next_seq capacity g registry (lag_of g) (λ t. ground arith) near found in
    (
      (
        λ t. HasRoom-of_Within next_seq needed capacity (lag_of g) registry (exact.0 t) all,
        λ h. let most = free h (omega arith) in exact.1 (ground arith),
      ),
      low',
      rw e all,
      omega arith,
      mw,
      λ t. omega (arith, exact.0 t),
    )
