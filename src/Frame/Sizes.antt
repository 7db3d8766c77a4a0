-- ===== src/Frame/Sizes.antt =====
-- The sizes of records and messages.
use rust_rb.Base.{
  ℕ, ◌+◌, ◌*◌, ◌/◌, ◌%◌, ◌^◌, ◌≤◌, ◌<◌, ◌≡◌, ◌∙◌, arith, word_mod, wrapping_add, wrapping_sub,
}
use rust_rb.Base.Bits.{bit_and_align}
use rust_rb.Frame.{header, padding, align_up, record_len, max_message_len}

-- `align_up` is the least multiple of 4 from `n` on.
pub align_up_lem : (n : ℕ) → n + 3 < word_mod → align_up n ≡ (n + 3) / 4 * 4
unfolding align_up wrapping_add
align_up_lem n h =
    let small : (n + 3) % word_mod ≡ n + 3 = omega arith in
    bit_and_align ((n + 3) % word_mod) (omega arith) ∙ omega (arith, small)

-- A record holds its header and its payload, is a multiple of 4, and wastes less than 4 bytes.
pub record_len_bounds :
    (len : ℕ)
    → len + 7 < word_mod
    → (record_len len % 4 ≡ 0) × (4 + len ≤ record_len len) × (record_len len < len + 8)
unfolding record_len wrapping_add
record_len_bounds len h =
    let small : (header + len) % word_mod ≡ header + len = omega arith in
    omega (arith, small, align_up_lem ((header + len) % word_mod) (omega arith))

max_message_len_limits :
    (capacity len : ℕ)
    → 8 ≤ capacity
    → capacity ≤ 2 ^ 63
    → len ≤ max_message_len capacity
    → (len + 4 ≤ capacity / 2) × (len < padding)
unfolding max_message_len wrapping_sub
max_message_len_limits capacity len h small fits = (ground arith, ground arith)

-- On a legal capacity no message fills more than half of the ring with its record, and its length
-- is no padding mark.
pub max_message_len_bounds :
    (capacity len : ℕ)
    → 8 ≤ capacity
    → capacity ≤ 2 ^ 63
    → capacity % 8 ≡ 0
    → len ≤ max_message_len capacity
    → (record_len len ≤ capacity / 2) × (len < padding)
max_message_len_bounds capacity len h small whole fits =
    let (half, short) = max_message_len_limits capacity len h small fits in
    (omega (arith, record_len_bounds len (omega arith)), short)
