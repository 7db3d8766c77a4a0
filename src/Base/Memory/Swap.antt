-- ===== src/Base/Memory/Swap.antt =====
-- Copies into ranges of a buffer that do not meet, in either order.
use Prim.Native.Nat.{ℕ, zero, suc, ◌+◌, ◌≤◌, ◌<◌}
use mathlib.Core.Path.{◌≡◌, refl, ap, ◌∙◌}
use mathlib.Core.Logic.{◌≢◌, ◌⊎◌, inl, inr}
use mathlib.Core.List.{List, [], ◌∷◌}
use native.Mathlib.Omega.{arith}
use rust_rb.Base.Lists.{length, set}
use rust_rb.Base.Memory.{write_bytes, write_u32, u32_bytes}

set_comm : (xs : List ℕ) (i j x y : ℕ) → i ≢ j → set (set xs i x) j y ≡ set (set xs j y) i x
set_comm [] i j x y ne = refl
set_comm (a ∷ xs) zero zero x y ne = absurd (ne refl)
set_comm (a ∷ xs) zero (suc j) x y ne = refl
set_comm (a ∷ xs) (suc i) zero x y ne = refl
set_comm (a ∷ xs) (suc i) (suc j) x y ne =
    ap (λ l. a ∷ l) (set_comm xs i j x y (λ e. ne (ap suc e)))

write_bytes-set :
    (ys xs : List ℕ) (i j x : ℕ)
    → (i < j) ⊎ (j + length ys ≤ i)
    → write_bytes (set xs i x) j ys ≡ set (write_bytes xs j ys) i x
unfolding write_bytes
write_bytes-set [] xs i j x apart = refl
write_bytes-set (y ∷ ys) xs i j x apart =
    ap (λ l. write_bytes l (j + 1) ys) (set_comm xs i j x y (λ e. omega arith))
    ∙ write_bytes-set ys (set xs j y) i (j + 1) x
        (elim apart [ inl before ↦ inl (omega arith) | inr after ↦ inr (omega arith) ])

-- Copies to ranges that do not meet can be swapped.
write_bytes_comm :
    (bs ys xs : List ℕ) (i j : ℕ)
    → (i + length bs ≤ j) ⊎ (j + length ys ≤ i)
    → write_bytes (write_bytes xs i bs) j ys ≡ write_bytes (write_bytes xs j ys) i bs
unfolding write_bytes
write_bytes_comm [] ys xs i j apart = refl
write_bytes_comm (b ∷ bs) ys xs i j apart =
    write_bytes_comm bs ys (set xs i b) (i + 1) j
      (elim apart [ inl before ↦ inl (omega arith) | inr after ↦ inr (omega arith) ])
    ∙ ap (λ l. write_bytes l (i + 1) bs)
        (write_bytes-set ys xs i j b
          (elim apart [ inl before ↦ inl (omega arith) | inr after ↦ inr (omega arith) ]))

-- So can a word and a copy, of which one ends where the other starts at the latest.
pub write_u32-write_bytes :
    (bs xs : List ℕ) (i j n : ℕ)
    → (j + 4 ≤ i) ⊎ (i + length bs ≤ j)
    → write_u32 (write_bytes xs i bs) j n ≡ write_bytes (write_u32 xs j n) i bs
unfolding write_u32 u32_bytes
write_u32-write_bytes bs xs i j n apart =
    write_bytes_comm bs (u32_bytes n) xs i j
      (elim apart [ inl after ↦ inr (omega arith) | inr before ↦ inl (omega arith) ])
