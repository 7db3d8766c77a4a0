-- ===== src/Registry/Tests.antt =====
-- The registry's theorems at inputs that meet their hypotheses: one consumer that lags three behind,
-- one that has left, and free slots.
use rust_rb.Base.{ℕ, ◌+◌, ◌≤◌, ◌<◌, ◌≡◌, ◌↔◌, true, List, [], ◌∷◌, arith, word_mod, wrapping_sub}
use rust_rb.Registry.{Slot, free_slot, no_gate, scan_chunk_registry, rescan_gate}
use rust_rb.Registry.Scan.{Within, Lower, HasRoom}
use rust_rb.Registry.Change.{free_slot-Gates}
use rust_rb.Registry.Rescan.{rescan_gate_lem}

abbrev slots : List Slot
slots = record { active = true; cursor = 6 } ∷ free_slot ∷ record { active = true; cursor = 8 } ∷ []

slots-Within : Within 9 4 slots
unfolding wrapping_sub
slots-Within = (
  λ _. (omega arith, omega arith),
  (λ t. absurd (free_slot-Gates t), (λ _. (omega arith, omega arith), tt)),
)

-- The first cursor was seen when it stood at 5.
slots-Lower : Lower 9 13 slots (5 ∷ [])
unfolding wrapping_sub
slots-Lower = ((omega arith, omega arith, λ _. omega arith), tt)

abbrev walked : List ℕ
walked = (scan_chunk_registry 9 2 4 slots (5 ∷ []) no_gate).0

abbrev gate : ℕ
gate = (rescan_gate 9 2 4 (scan_chunk_registry 9 2 4 slots (5 ∷ []) no_gate).1).0

rescan_gate_lem_example :
    (((rescan_gate 9 2 4 (scan_chunk_registry 9 2 4 slots (5 ∷ []) no_gate).1).1 ≡ true)
      ↔ HasRoom 9 2 4 slots)
    × Lower 9 13 slots walked
    × Within 9 (wrapping_sub 9 gate) slots
    × (wrapping_sub 9 gate ≤ 4)
    × (gate < word_mod)
    × ((rescan_gate 9 2 4 (scan_chunk_registry 9 2 4 slots (5 ∷ []) no_gate).1).1 ≡ true
        → wrapping_sub 9 gate + 2 ≤ 4)
rescan_gate_lem_example =
    rescan_gate_lem 9 2 4 13 slots (5 ∷ []) (omega arith) (omega arith) (omega arith) (omega arith)
      (omega arith) slots-Within slots-Lower
