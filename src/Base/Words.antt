-- ===== src/Base/Words.antt =====
-- `usize` and `u64` on a 64-bit target: wrapping addition and subtraction, and the distance that a
-- cursor lies ahead of a base.
use mathlib.Core.Logic.{◌≢◌}
use Prim.Native.Nat.{ℕ, suc, ◌+◌, ◌-◌, ◌%◌, ◌^◌, ◌≤◌, ◌<◌}
use mathlib.Core.Path.{◌≡◌}
use native.Mathlib.Omega.{arith}

abbrev pub word_mod : ℕ
word_mod = 2 ^ 64

-- `usize::MAX` and `u64::MAX`
abbrev pub word_max : ℕ
word_max = 2 ^ 64 - 1

-- `a.wrapping_add(b)`
unfoldable pub wrapping_add : ℕ → ℕ → ℕ
wrapping_add a b = (a + b) % word_mod

-- `a.wrapping_sub(b)`, for `b` a word: `-` on ℕ is truncated, so the modulus is added first.
unfoldable pub wrapping_sub : ℕ → ℕ → ℕ
wrapping_sub a b = (a + word_mod - b) % word_mod

pub wrapping_add-lt : (a b : ℕ) → wrapping_add a b < word_mod
unfolding wrapping_add
wrapping_add-lt a b = omega arith

pub wrapping_sub-lt : (a b : ℕ) → wrapping_sub a b < word_mod
unfolding wrapping_sub
wrapping_sub-lt a b = omega arith

pub wrapping_sub_self : (a : ℕ) → a < word_mod → wrapping_sub a a ≡ 0
unfolding wrapping_sub
wrapping_sub_self a h = omega arith

pub wrapping_sub-wrapping_add :
    (a b : ℕ) → a < word_mod → b < word_mod → wrapping_sub (wrapping_add a b) a ≡ b
unfolding wrapping_add wrapping_sub
wrapping_sub-wrapping_add a b ha hb = omega arith

pub wrapping_add-wrapping_sub :
    (a b : ℕ) → a < word_mod → b < word_mod → wrapping_add b (wrapping_sub a b) ≡ a
unfolding wrapping_add wrapping_sub
wrapping_add-wrapping_sub a b ha hb = omega arith

pub wrapping_add_zero : (a : ℕ) → a < word_mod → wrapping_add a 0 ≡ a
unfolding wrapping_add
wrapping_add_zero a h = omega arith

pub wrapping_add_assoc : (a b c : ℕ) → wrapping_add (wrapping_add a b) c ≡ wrapping_add a (b + c)
unfolding wrapping_add
wrapping_add_assoc a b c = omega arith

-- Advancing a cursor by less than the free range moves its distance from a base by as much.
pub wrapping_sub-advance :
    (a n base : ℕ)
    → a < word_mod
    → base < word_mod
    → wrapping_sub a base + n < word_mod
    → wrapping_sub (wrapping_add a n) base ≡ wrapping_sub a base + n
unfolding wrapping_add wrapping_sub
wrapping_sub-advance a n base ha hb h = omega arith

-- Where two cursors lie ahead of a base, their difference is that of their distances.
pub wrapping_sub_split :
    (a b base : ℕ)
    → a < word_mod
    → b < word_mod
    → base < word_mod
    → wrapping_sub b base ≤ wrapping_sub a base
    → wrapping_sub a b + wrapping_sub b base ≡ wrapping_sub a base
unfolding wrapping_sub
wrapping_sub_split a b base ha hb hc h = omega arith

pub eq_of_sub-zero : (a b : ℕ) → a < word_mod → b < word_mod → wrapping_sub a b ≡ 0 → b ≡ a
unfolding wrapping_sub
eq_of_sub-zero a b ha hb h = omega arith

-- A cursor behind another steps towards it.
pub sub-advance_one :
    (a b n : ℕ)
    → a < word_mod
    → b < word_mod
    → wrapping_sub a b ≡ suc n
    → (b ≢ a) × (wrapping_sub a (wrapping_add b 1) ≡ n)
unfolding wrapping_add wrapping_sub
sub-advance_one a b n ha hb h = omega arith

-- Where no cursor has wrapped, the wrapped difference is the plain one.
pub wrapping_sub_plain : (a b : ℕ) → a < word_mod → b ≤ a → wrapping_sub a b ≡ a - b
unfolding wrapping_sub
wrapping_sub_plain a b w h = omega arith

pub wrapping_add_plain : (a b : ℕ) → a + b < word_mod → wrapping_add a b ≡ a + b
unfolding wrapping_add
wrapping_add_plain a b h = omega arith
