-- ===== src/Base/Bits.antt =====
-- `cursor & mask`: with a mask of ones the bitwise and is the remainder, for every width.
use Prim.Native.Nat.{
  ℕ, zero, suc, ◌+◌, ◌-◌, ◌*◌, ◌/◌, ◌%◌, ◌^◌, ◌≤◌, ◌<◌, ◌∣◌, min, bit_and, digits, bit_and-bitwise,
}
use mathlib.Core.Path.{◌≡◌, ap, ◌∙◌, ◌≡⟨◌⟩◌, ◌∎}
use native.Mathlib.Nat.{
  pow-suc, one-le-pow, dvd_refl, dvd-mul_right_of_dvd, div-add-mod, mod-lt, mod-eq_of_lt,
  mul-add-mod_self_left, add-zero, zero-mod, pow-le-pow_right,
}
use native.Mathlib.Decide.{dec_lt}
use native.Mathlib.Omega.{arith}

mod_double : (a p : ℕ) → 0 < p → a % (2 * p) ≡ a / 2 % p * 2 + a % 2
mod_double a p h =
    a % (2 * p)
    ≡⟨ ap (λ t. t % (2 * p)) (omega (arith, div-add-mod (a / 2) p)) ⟩
      (2 * p * (a / 2 / p) + (a / 2 % p * 2 + a % 2)) % (2 * p)
    ≡⟨ mul-add-mod_self_left (2 * p) (a / 2 / p) (a / 2 % p * 2 + a % 2) ⟩
      (a / 2 % p * 2 + a % 2) % (2 * p)
    ≡⟨ mod-eq_of_lt (omega (arith, mod-lt (a / 2) h)) ⟩ a / 2 % p * 2 + a % 2 ∎

-- The powers of two from 1 on: positive, and each twice the one before.
pow_pos : (k : ℕ) → 0 < 2 ^ k
pow_pos k = one-le-pow k 2 (omega arith)

pow_double : (k : ℕ) → 2 ^ suc k ≡ 2 * 2 ^ k
pow_double k = omega (arith, pow-suc 2 k)

-- A mask of ones without its lowest digit is the mask one digit shorter, and that digit is 1.
mask_digits : (k : ℕ) → ((2 ^ suc k - 1) / 2 ≡ 2 ^ k - 1) × ((2 ^ suc k - 1) % 2 ≡ 1)
mask_digits k = omega (arith, pow_double k, pow_pos k)

-- Digit by digit, on any count of digits that is large enough.
masked : (count k a : ℕ) → a ≤ count → digits (λ _. 0) min count a (2 ^ k - 1) ≡ a % 2 ^ k
masked zero k zero h = omega (arith, zero-mod (2 ^ k))
masked zero k (suc a) h = absurd (omega arith)
masked (suc count) k zero h = omega (arith, zero-mod (2 ^ k))
masked (suc count) zero (suc a) h = omega (arith, masked count zero (suc a / 2) (omega arith))
masked (suc count) (suc k) (suc a) h = omega (
  arith,
  mask_digits k,
  ap (λ m. digits (λ _. 0) min count (suc a / 2) m) (mask_digits k).0,
  masked count k (suc a / 2) (omega arith),
  mod_double (suc a) (2 ^ k) (pow_pos k),
  ap (λ m. suc a % m) (pow_double k),
)

pub bit_and_mask_pow : (k a : ℕ) → bit_and a (2 ^ k - 1) ≡ a % 2 ^ k
bit_and_mask_pow k a = bit_and-bitwise a (2 ^ k - 1) ∙ masked a k a (omega arith)

-- A mask whose lowest digit is 0 keeps what the shorter mask keeps of the other digits.
digits_double :
    (count a b r : ℕ)
    → a ≤ count
    → ((c : ℕ) → a / 2 ≤ c → digits (λ _. 0) min c (a / 2) b ≡ r)
    → digits (λ _. 0) min count a (b * 2) ≡ r * 2
digits_double zero zero b r h ih = omega (arith, ih 0)
digits_double zero (suc a) b r h ih = absurd (omega arith)
digits_double (suc count) zero b r h ih = omega (arith, ih 0)
digits_double (suc count) (suc a) b r h ih =
    let half : b * 2 / 2 ≡ b = omega arith in
    let inner : digits (λ _. 0) min count (suc a / 2) (b * 2 / 2) ≡ r =
      rw half (ih count (omega arith)) in
    omega (arith, inner)

-- `x & !3` takes a word down to a multiple of 4.
pub bit_and_align : (x : ℕ) → x < 2 ^ 64 → bit_and x (2 ^ 64 - 4) ≡ x / 4 * 4
bit_and_align x h =
    let quarter : x / 2 / 2 % 2 ^ 62 ≡ x / 4 = omega arith in
    bit_and-bitwise x (2 ^ 64 - 4)
    ∙ digits_double x x (2 ^ 63 - 2) (x / 4 * 2) (omega arith) (λ c hc.
      digits_double c (x / 2) (2 ^ 62 - 1) (x / 4) hc
        (λ d hd. masked d 62 (x / 2 / 2) hd ∙ quarter))
    ∙ omega arith

-- A power of two, with its exponent.
abbrev pub IsPow2 : ℕ → Type 0
IsPow2 n = (k : ℕ) × (n ≡ 2 ^ k)

pub IsPow2-pos : {n : ℕ} → IsPow2 n → 0 < n
IsPow2-pos (k, e) = rw e (one-le-pow k 2 (omega arith))

pow-lt-pow_right : (k j : ℕ) → k < j → 2 ^ k < 2 ^ j
pow-lt-pow_right k j h =
    omega (arith, pow_double k, pow_pos k, pow-le-pow_right {n = 2} (omega arith) h)

-- A power of two up to a larger one divides it.
pub pow-dvd-pow : (k d : ℕ) → 2 ^ k ∣ 2 ^ (k + d)
pow-dvd-pow k zero = rw add-zero (dvd_refl (2 ^ k))
pow-dvd-pow k (suc d) =
    let e : k + suc d ≡ suc (k + d) = omega arith in
    rw (e, pow-suc) (dvd-mul_right_of_dvd (2 ^ k) (pow-dvd-pow k d) 2)

pub pow-dvd_of_le : (k m : ℕ) → k ≤ m → 2 ^ k ∣ 2 ^ m
pow-dvd_of_le k m h = let e : m ≡ k + (m - k) = omega arith in rw e (pow-dvd-pow k (m - k))

-- A power of two from `2 ^ j` on is a multiple of it.
pub IsPow2-dvd : (j : ℕ) {n : ℕ} → IsPow2 n → 2 ^ j ≤ n → 2 ^ j ∣ n
IsPow2-dvd j {n} (k, e) h = elim (dec_lt k j) [
  | yes small ↦ absurd (omega (arith, pow-lt-pow_right k j small))
  | no large ↦ rw e (pow-dvd_of_le j k (omega arith))
]
