-- ===== src/Registry/Change.antt =====
-- The gate's facts slot by slot, and what a change of one slot keeps of them.
use rust_rb.Base.{
  ℕ, zero, suc, ◌+◌, ◌≤◌, ◌<◌, ◌≡◌, ◌≢◌, refl, List, [], ◌∷◌, arith, word_mod, wrapping_add,
  wrapping_sub, get_or, length,
}
use native.Mathlib.Decide.{ℕ_discrete}
use rust_rb.Registry.{Slot, free_slot, slot_at}
use rust_rb.Registry.Scan.{Gates, Within, Lower, HasRoom}

pub free_slot-Gates : ¬ Gates free_slot
free_slot-Gates t = t.live refl

-- Each cached cursor lags by at most `limit`.
abbrev Capped : ℕ → ℕ → List ℕ → Type 0
Capped next_seq limit [] = Unit {0}
Capped next_seq limit (c ∷ cached) =
    ((c < word_mod) × (wrapping_sub next_seq c ≤ limit)) × Capped next_seq limit cached

module _ (next_seq : ℕ) where
  pub Within-slot :
      (bound : ℕ) (registry : List Slot)
      → Within next_seq bound registry
      → (i : ℕ) → Gates (slot_at registry i)
      → ((slot_at registry i).cursor < word_mod)
        × (wrapping_sub next_seq (slot_at registry i).cursor ≤ bound)
  Within-slot bound [] v i t = absurd (free_slot-Gates t)
  Within-slot bound (s ∷ rest) v zero t = v.0 t
  Within-slot bound (s ∷ rest) v (suc i) t = Within-slot bound rest v.1 i t

  pub Within-of_slots :
      (bound : ℕ) (registry : List Slot)
      → ((i : ℕ)
          → Gates (slot_at registry i)
          → ((slot_at registry i).cursor < word_mod)
            × (wrapping_sub next_seq (slot_at registry i).cursor ≤ bound))
      → Within next_seq bound registry
  Within-of_slots bound [] h = tt
  Within-of_slots bound (s ∷ rest) h = (h 0, Within-of_slots bound rest (λ i. h (suc i)))

  pub Within-mono :
      (bound more : ℕ) (registry : List Slot)
      → bound ≤ more
      → Within next_seq bound registry
      → Within next_seq more registry
  Within-mono bound more [] h v = tt
  Within-mono bound more (s ∷ rest) h (near, v) =
      (λ t. let (w, l) = near t in (w, omega arith), Within-mono bound more rest h v)

  pub HasRoom-slot :
      (needed capacity : ℕ) (registry : List Slot)
      → HasRoom next_seq needed capacity registry
      → (i : ℕ) → Gates (slot_at registry i)
      → wrapping_sub next_seq (slot_at registry i).cursor + needed ≤ capacity
  HasRoom-slot needed capacity [] v i t = absurd (free_slot-Gates t)
  HasRoom-slot needed capacity (s ∷ rest) v zero t = v.0 t
  HasRoom-slot needed capacity (s ∷ rest) v (suc i) t = HasRoom-slot needed capacity rest v.1 i t

  pub HasRoom-of_slots :
      (needed capacity : ℕ) (registry : List Slot)
      → ((i : ℕ)
          → Gates (slot_at registry i)
          → wrapping_sub next_seq (slot_at registry i).cursor + needed ≤ capacity)
      → HasRoom next_seq needed capacity registry
  HasRoom-of_slots needed capacity [] h = tt
  HasRoom-of_slots needed capacity (s ∷ rest) h =
      (h 0, HasRoom-of_slots needed capacity rest (λ i. h (suc i)))

  Lower-Capped :
      (limit : ℕ) (registry : List Slot) (cached : List ℕ)
      → Lower next_seq limit registry cached
      → Capped next_seq limit cached
  Lower-Capped limit [] [] v = tt
  Lower-Capped limit [] (c ∷ cached) v = (v.0, Lower-Capped limit [] cached v.1)
  Lower-Capped limit (s ∷ rest) [] v = tt
  Lower-Capped limit (s ∷ rest) (c ∷ cached) ((w, l, _), v) =
      ((w, l), Lower-Capped limit rest cached v)

  Lower-slot :
      (limit : ℕ) (registry : List Slot) (cached : List ℕ)
      → Lower next_seq limit registry cached
      → (i : ℕ) → i < length cached
      → Gates (slot_at registry i)
      → wrapping_sub next_seq (slot_at registry i).cursor
        ≤ wrapping_sub next_seq (get_or cached i 0)
  Lower-slot limit [] cached v i h t = absurd (free_slot-Gates t)
  Lower-slot limit (s ∷ rest) [] v i h t = absurd (omega arith)
  Lower-slot limit (s ∷ rest) (c ∷ cached) v zero h t = v.0.2 t
  Lower-slot limit (s ∷ rest) (c ∷ cached) v (suc i) h t =
      Lower-slot limit rest cached v.1 i (omega arith) t

  Lower-of_slots :
      (limit : ℕ) (registry : List Slot) (cached : List ℕ)
      → Capped next_seq limit cached
      → ((i : ℕ)
          → i < length cached
          → Gates (slot_at registry i)
          → wrapping_sub next_seq (slot_at registry i).cursor
            ≤ wrapping_sub next_seq (get_or cached i 0))
      → Lower next_seq limit registry cached
  Lower-of_slots limit [] [] v h = tt
  Lower-of_slots limit [] (c ∷ cached) v h =
      (v.0, Lower-of_slots limit [] cached v.1 (λ i _ t. absurd (free_slot-Gates t)))
  Lower-of_slots limit (s ∷ rest) [] v h = tt
  Lower-of_slots limit (s ∷ rest) (c ∷ cached) ((w, l), v) h = (
    (w, l, h 0 (omega arith)),
    Lower-of_slots limit rest cached v (λ i k. h (suc i) (omega arith)),
  )

  module _ (registry registry' : List Slot) (i : ℕ)
      (others : (j : ℕ) → j ≢ i → slot_at registry' j ≡ slot_at registry j) where
    pub Within-change :
        (bound : ℕ)
        → Within next_seq bound registry
        → (Gates (slot_at registry' i)
            → ((slot_at registry' i).cursor < word_mod)
              × (wrapping_sub next_seq (slot_at registry' i).cursor ≤ bound))
        → Within next_seq bound registry'
    Within-change bound v h = Within-of_slots bound registry' λ j. elim (ℕ_discrete j i) [
      | yes here ↦ rw here h
      | no other ↦ rw (others j other) (Within-slot bound registry v j)
    ]

    -- The new cursor of the slot must lag no further than any bound of the old one.
    pub Lower-change :
        (limit : ℕ) (cached : List ℕ)
        → Lower next_seq limit registry cached
        → (Gates (slot_at registry' i)
            → (c : ℕ)
            → (Gates (slot_at registry i)
                → wrapping_sub next_seq (slot_at registry i).cursor ≤ wrapping_sub next_seq c)
            → wrapping_sub next_seq (slot_at registry' i).cursor ≤ wrapping_sub next_seq c)
        → Lower next_seq limit registry' cached
    Lower-change limit cached v h =
        Lower-of_slots limit registry' cached (Lower-Capped limit registry cached v) λ j k.
          elim (ℕ_discrete j i) [
            | yes here ↦ rw here (λ t.
                h t (get_or cached i 0) (Lower-slot limit registry cached v i (rw (← here) k)))
            | no other ↦ rw (others j other) (Lower-slot limit registry cached v j k)
          ]

-- When the producer steps on, every lag grows by as much.
pub lag_step :
    (next_seq c step : ℕ)
    → next_seq < word_mod
    → c < word_mod
    → wrapping_sub next_seq c + step < word_mod
    → wrapping_sub (wrapping_add next_seq step) c ≡ wrapping_sub next_seq c + step
unfolding wrapping_add wrapping_sub
lag_step next_seq c step w h k = omega arith

pub Within-advance :
    (next_seq bound step : ℕ) (registry : List Slot)
    → next_seq < word_mod
    → bound + step < word_mod
    → Within next_seq bound registry
    → Within (wrapping_add next_seq step) (bound + step) registry
Within-advance next_seq bound step [] w h v = tt
Within-advance next_seq bound step (s ∷ rest) w h (near, v) = (
  λ t.
      let (cw, l) = near t in
      (cw, omega (arith, lag_step next_seq s.cursor step w cw (omega arith))),
  Within-advance next_seq bound step rest w h v,
)

pub Lower-advance :
    (next_seq limit bound step : ℕ) (registry : List Slot) (cached : List ℕ)
    → next_seq < word_mod
    → limit + step < word_mod
    → bound ≤ limit
    → Within next_seq bound registry
    → Lower next_seq limit registry cached
    → Lower (wrapping_add next_seq step) (limit + step) registry cached
Lower-advance next_seq limit bound step [] [] w h k near v = tt
Lower-advance next_seq limit bound step [] (c ∷ cached) w h k near ((cw, l), v) = (
  (cw, omega (arith, lag_step next_seq c step w cw (omega arith))),
  Lower-advance next_seq limit bound step [] cached w h k near v,
)
Lower-advance next_seq limit bound step (s ∷ rest) [] w h k near v = tt
Lower-advance next_seq limit bound step (s ∷ rest) (c ∷ cached) w h k (near, ns) ((cw, l, low), v) =
    let on = lag_step next_seq c step w cw (omega arith) in
    (
      (
        cw,
        omega (arith, on),
        λ t.
            let (sw, sl) = near t in
            omega (arith, on, low t, lag_step next_seq s.cursor step w sw (omega arith)),
      ),
      Lower-advance next_seq limit bound step rest cached w h k ns v,
    )
