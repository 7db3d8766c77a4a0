-- ===== src/Base/Slots.antt =====
-- Which slot of a ring a cursor designates: two cursors less than a capacity apart never share one,
-- and a cursor one capacity on designates the same.
use Prim.Native.Nat.{ℕ, ◌+◌, ◌-◌, ◌%◌, ◌^◌, ◌≤◌, ◌<◌, ◌∣◌, bit_and}
use mathlib.Core.Path.{◌≡◌, sym, ap, ◌∙◌}
use native.Mathlib.Nat.{
  mod-mod_of_dvd, mod-add-mod, mod-eq_of_lt, mod-eq-sub-mod, mod-lt, add-mod_right,
  pow-le-pow_right,
}
use mathlib.Core.Logic.{◌⊎◌, inl, inr}
use native.Mathlib.Decide.{dec_lt}
use native.Mathlib.Omega.{arith}
use rust_rb.Base.Words.{word_mod, wrapping_add, wrapping_add_zero}
use rust_rb.Base.Bits.{IsPow2, IsPow2-pos, bit_and_mask_pow, pow-dvd_of_le}

-- The largest power of two that a word holds.
abbrev pub max_capacity : ℕ
max_capacity = 2 ^ 63

le_exponent : (k : ℕ) → 2 ^ k ≤ max_capacity → k ≤ 64
le_exponent k h = elim (dec_lt 64 k) [
  | yes big ↦ absurd (omega (arith, pow-le-pow_right {n = 2} (omega arith) big))
  | no small ↦ omega arith
]

-- `cursor & mask` as a remainder, the wrap of the word taken away.
pub slot-eq-mod :
    (capacity cursor i : ℕ)
    → IsPow2 capacity
    → capacity ≤ max_capacity
    → bit_and (wrapping_add cursor i) (capacity - 1) ≡ (cursor + i) % capacity
unfolding wrapping_add
slot-eq-mod capacity cursor i (k, e) h =
    let divides : 2 ^ k ∣ 2 ^ 64 = pow-dvd_of_le k 64 (le_exponent k (rw (← e) h)) in
    rw e (bit_and_mask_pow k (wrapping_add cursor i) ∙ mod-mod_of_dvd (2 ^ k) (cursor + i) divides)

-- With the remainder of the cursor at hand the remainder of a sum is by a case split.
pub mod_near :
    (m cursor i : ℕ)
    → 0 < m
    → i < m
    → ((cursor % m + i < m) × ((cursor + i) % m ≡ cursor % m + i))
      ⊎ ((m ≤ cursor % m + i) × ((cursor + i) % m ≡ cursor % m + i - m))
mod_near m cursor i pos h = elim (dec_lt (cursor % m + i) m) [
  | yes p ↦ inl (p, sym (mod-add-mod cursor m i) ∙ mod-eq_of_lt p)
  | no p ↦
      let e : (cursor % m + i) % m ≡ (cursor % m + i - m) % m = mod-eq-sub-mod (omega arith) in
      inr (
        omega arith,
        sym (mod-add-mod cursor m i) ∙ e ∙ mod-eq_of_lt (omega (arith, mod-lt cursor pos)),
      )
]

pub mod-inj :
    (m cursor i j : ℕ) → 0 < m → i < m → j < m → (cursor + i) % m ≡ (cursor + j) % m → i ≡ j
mod-inj m cursor i j pos hi hj e =
    omega (arith, mod_near m cursor i pos hi, mod_near m cursor j pos hj, mod-lt cursor pos)

-- The same for the cursor itself.
pub slot-eq-mod_self :
    (capacity cursor : ℕ)
    → IsPow2 capacity
    → capacity ≤ max_capacity
    → cursor < word_mod
    → bit_and cursor (capacity - 1) ≡ cursor % capacity
slot-eq-mod_self capacity cursor p h w =
    ap (λ t. bit_and t (capacity - 1)) (sym (wrapping_add_zero cursor w))
    ∙ slot-eq-mod capacity cursor 0 p h
    ∙ ap (λ t. t % capacity) (omega arith)

-- The slots of two cursors fewer than a capacity past a third are different.
pub slot-inj :
    (capacity cursor i j : ℕ)
    → IsPow2 capacity
    → capacity ≤ max_capacity
    → i < capacity
    → j < capacity
    → bit_and (wrapping_add cursor i) (capacity - 1)
      ≡ bit_and (wrapping_add cursor j) (capacity - 1)
    → i ≡ j
slot-inj capacity cursor i j p h hi hj e =
    mod-inj capacity cursor i j (IsPow2-pos p) hi hj
      (sym (slot-eq-mod capacity cursor i p h) ∙ e ∙ slot-eq-mod capacity cursor j p h)

pub slot-lt :
    (capacity cursor i : ℕ)
    → IsPow2 capacity
    → capacity ≤ max_capacity
    → bit_and (wrapping_add cursor i) (capacity - 1) < capacity
slot-lt capacity cursor i p h =
    rw (slot-eq-mod capacity cursor i p h) (mod-lt (cursor + i) (IsPow2-pos p))

-- A slot comes round again after a whole capacity.
slot_period :
    (capacity cursor i : ℕ)
    → IsPow2 capacity
    → capacity ≤ max_capacity
    → bit_and (wrapping_add cursor (i + capacity)) (capacity - 1)
      ≡ bit_and (wrapping_add cursor i) (capacity - 1)
slot_period capacity cursor i p h =
    slot-eq-mod capacity cursor (i + capacity) p h
    ∙ (ap (λ t. t % capacity) (omega arith) ∙ add-mod_right (cursor + i) capacity)
    ∙ sym (slot-eq-mod capacity cursor i p h)

pub slot_around :
    (capacity cursor : ℕ)
    → IsPow2 capacity
    → capacity ≤ max_capacity
    → cursor < word_mod
    → bit_and (wrapping_add cursor capacity) (capacity - 1) ≡ bit_and cursor (capacity - 1)
slot_around capacity cursor p h w =
    ap (λ t. bit_and (wrapping_add cursor t) (capacity - 1)) (omega arith)
    ∙ slot_period capacity cursor 0 p h
    ∙ ap (λ t. bit_and t (capacity - 1)) (wrapping_add_zero cursor w)
