-- ===== src/Policy/Rounding.antt =====
-- The capacity that a ring really has.
use rust_rb.Base.{
  ℕ, zero, suc, ◌+◌, ◌*◌, ◌^◌, ◌≤◌, ◌<◌, max, ◌≡◌, refl, inl, inr, none, some, arith, leb, leb→le,
  le→leb, ne→==_false, Bool-cases, IsPow2, returns, panics, zero_capacity, capacity_too_large,
}
use native.Mathlib.Nat.{pow-suc, pow-le-pow_right}
use native.Mathlib.Decide.{dec_lt}
use rust_rb.Policy.{pow2_from, checked_next_power_of_two, rounded, round_capacity}

pow_mono : (i j : ℕ) → i ≤ j → 2 ^ i ≤ 2 ^ j
pow_mono i j h = pow-le-pow_right {n = 2} (omega arith) h

-- What a search from `2 ^ k` finds: the least power of two from there that is at least `n`.
record Found (k rounds n c : ℕ) : Type 0 where
  power : IsPow2 c
  above : n ≤ c
  below : c ≤ 2 ^ (k + rounds)
  least : (j : ℕ) → k ≤ j → n ≤ 2 ^ j → c ≤ 2 ^ j

Found-here : (k rounds n : ℕ) → n ≤ 2 ^ k → Found k rounds n (2 ^ k)
Found-here k rounds n h = record {
  power = (k, refl);
  above = h;
  below = pow_mono k (k + rounds) (omega arith);
  least = λ j hj _. pow_mono k j hj;
}

Found-later : (k rounds n c : ℕ) → 2 ^ k < n → Found (suc k) rounds n c → Found k (suc rounds) n c
Found-later k rounds n c h f = record {
  power = f.power;
  above = f.above;
  below = let e : k + suc rounds ≡ suc k + rounds = omega arith in rw e f.below;
  least = λ j hj hn. elim (dec_lt k j) [
    | yes lt ↦ f.least j lt hn
    | no ge ↦ absurd (omega (arith, pow_mono j k (omega arith)))
  ];
}

pow2_from-Found :
    (rounds k n : ℕ)
    → n ≤ 2 ^ (k + rounds)
    → (c : ℕ) × (pow2_from (suc rounds) (2 ^ k) n ≡ some c) × Found k rounds n c
unfolding pow2_from
pow2_from-Found zero k n h =
    let h' : n ≤ 2 ^ k = omega (arith, pow_mono (k + 0) k (omega arith)) in
    (2 ^ k, rw (le→leb n (2 ^ k) h'), Found-here k 0 n h')
pow2_from-Found (suc rounds) k n h = elim (Bool-cases (leb n (2 ^ k))) [
  | inl le ↦ (2 ^ k, rw le, Found-here k (suc rounds) n (leb→le n (2 ^ k) le))
  | inr gt ↦
      let shift : k + suc rounds ≡ suc k + rounds = omega arith in
      let (c, found, f) = pow2_from-Found rounds (suc k) n (rw (← shift) h) in
      let double : 2 ^ suc k ≡ 2 * 2 ^ k = omega (arith, pow-suc 2 k) in
      (c, rw (gt, ← double) found, Found-later k rounds n c (ground arith) f)
]

pow2_from-none : (rounds k n : ℕ) → 2 ^ (k + rounds) < n → pow2_from (suc rounds) (2 ^ k) n ≡ none
unfolding pow2_from
pow2_from-none zero k n h = ground (arith, pow_mono k (k + 0))
pow2_from-none (suc rounds) k n h =
    let shift : k + suc rounds ≡ suc k + rounds = omega arith in
    let double : 2 ^ suc k ≡ 2 * 2 ^ k = omega (arith, pow-suc 2 k) in
    let rest = pow2_from-none rounds (suc k) n (rw (← shift) h) in
    elim (Bool-cases (leb n (2 ^ k))) [
      | inl le ↦ absurd (omega (arith, leb→le n (2 ^ k) le, pow_mono k (k + suc rounds)))
      | inr gt ↦ rw (gt, ← double) rest
    ]

-- The larger of two powers of two is one of them.
IsPow2-max : (a b : ℕ) → IsPow2 a → IsPow2 b → IsPow2 (max a b)
IsPow2-max a b p q = elim (dec_lt a b) [
  | yes lt ↦ let e : max a b ≡ b = omega arith in rw e q
  | no ge ↦ let e : max a b ≡ a = omega arith in rw e p
]

-- A request of at least 1 and at most `2 ^ 63` gets a capacity that is a power of two, at least the
-- request and the floor (a power of two itself, at most `2 ^ 63`), at most `2 ^ 63`, and no larger
-- than any other power of two that is at least both. A request of 0, and one beyond `2 ^ 63`, panics.
pub round_capacity_lem :
    (n floor : ℕ)
    → IsPow2 floor
    → floor ≤ 2 ^ 63
    → (round_capacity 0 floor ≡ panics zero_capacity)
      × (2 ^ 63 < n → round_capacity n floor ≡ panics capacity_too_large)
      × (0 < n
          → n ≤ 2 ^ 63
          → (c : ℕ) × (round_capacity n floor ≡ returns c)
            × IsPow2 c
            × (n ≤ c)
            × (floor ≤ c)
            × (c ≤ 2 ^ 63)
            × ((j : ℕ) → n ≤ 2 ^ j → floor ≤ 2 ^ j → c ≤ 2 ^ j))
unfolding rounded checked_next_power_of_two round_capacity
round_capacity_lem n floor fp fl = (refl, large, fitting)
  where
    large : 2 ^ 63 < n → round_capacity n floor ≡ panics capacity_too_large
    large h = rw (ne→==_false n 0 (omega arith), pow2_from-none 63 0 n h)

    fitting :
        0 < n
        → n ≤ 2 ^ 63
        → (c : ℕ) × (round_capacity n floor ≡ returns c)
          × IsPow2 c
          × (n ≤ c)
          × (floor ≤ c)
          × (c ≤ 2 ^ 63)
          × ((j : ℕ) → n ≤ 2 ^ j → floor ≤ 2 ^ j → c ≤ 2 ^ j)
    fitting pos h =
        let (c, found, f) = pow2_from-Found 63 0 n h in
        (
          max c floor,
          rw (ne→==_false n 0 (omega arith), found),
          IsPow2-max c floor f.power fp,
          omega (arith, f.above),
          omega arith,
          omega (arith, f.below),
          λ j hn hf. omega (arith, f.least j (omega arith) hn),
        )
