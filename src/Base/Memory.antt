-- ===== src/Base/Memory.antt =====
-- Byte ranges of a buffer: what a copy in leaves to a copy out, at the same place and beside it.
pub mod Swap
use Prim.Native.Nat.{ℕ, zero, suc, ◌+◌, ◌*◌, ◌/◌, ◌%◌, ◌^◌, ◌≤◌, ◌<◌}
use mathlib.Core.Path.{◌≡◌, refl, ap, ap₂, ◌∙◌}
use mathlib.Core.List.{List, [], ◌∷◌}
use native.Mathlib.Omega.{arith}
use rust_rb.Base.Lists.{length, get_or, set, length-set, get_or-set_self, get_or-set_ne}

-- The byte of a buffer at an offset.
abbrev pub byte : List ℕ → ℕ → ℕ
byte buffer i = get_or buffer i 0

-- `copy_nonoverlapping` of a whole source to an offset of the buffer.
unfoldable pub write_bytes : List ℕ → ℕ → List ℕ → List ℕ
write_bytes buffer at [] = buffer
write_bytes buffer at (b ∷ bs) = write_bytes (set buffer at b) (at + 1) bs

-- `from_raw_parts` of `n` bytes from an offset.
unfoldable pub read_bytes : List ℕ → ℕ → ℕ → List ℕ
read_bytes buffer at zero = []
read_bytes buffer at (suc n) = byte buffer at ∷ read_bytes buffer (at + 1) n

pub length-write_bytes :
    (bs : List ℕ) (buffer : List ℕ) (at : ℕ) → length (write_bytes buffer at bs) ≡ length buffer
unfolding write_bytes
length-write_bytes [] buffer at = refl
length-write_bytes (b ∷ bs) buffer at =
    length-write_bytes bs (set buffer at b) (at + 1) ∙ length-set buffer at b

-- A byte outside the range written stays.
pub byte-write_bytes :
    (bs : List ℕ) (buffer : List ℕ) (at i : ℕ)
    → (at ≤ i → at + length bs ≤ i)
    → byte (write_bytes buffer at bs) i ≡ byte buffer i
unfolding write_bytes
byte-write_bytes [] buffer at i h = refl
byte-write_bytes (b ∷ bs) buffer at i h =
    byte-write_bytes bs (set buffer at b) (at + 1) i (λ k. omega (arith, h (omega arith)))
    ∙ get_or-set_ne buffer at i b 0 (λ e. absurd (omega (arith, h (omega arith))))

-- Equal bytes make equal copies.
pub read_bytes_congr :
    (n : ℕ) (xs ys : List ℕ) (at : ℕ)
    → ((i : ℕ) → at ≤ i → i < at + n → byte xs i ≡ byte ys i)
    → read_bytes xs at n ≡ read_bytes ys at n
unfolding read_bytes
read_bytes_congr zero xs ys at h = refl
read_bytes_congr (suc n) xs ys at h =
    ap₂ ◌∷◌ (h at (omega arith) (omega arith))
      (read_bytes_congr n xs ys (at + 1) (λ i l u. h i (omega arith) (omega arith)))

-- What is copied in is copied out.
pub read_bytes-write_bytes :
    (bs : List ℕ) (buffer : List ℕ) (at : ℕ)
    → at + length bs ≤ length buffer
    → read_bytes (write_bytes buffer at bs) at (length bs) ≡ bs
unfolding read_bytes write_bytes
read_bytes-write_bytes [] buffer at h = refl
read_bytes-write_bytes (b ∷ bs) buffer at h =
    ap₂ ◌∷◌ first
      (read_bytes-write_bytes bs (set buffer at b) (at + 1) (omega (arith, length-set buffer at b)))
  where
    first : byte (write_bytes (set buffer at b) (at + 1) bs) at ≡ b
    first =
        byte-write_bytes bs (set buffer at b) (at + 1) at (λ k. absurd (omega arith))
        ∙ get_or-set_self buffer at b 0 (omega arith)

-- A `u32` as its little-endian bytes, `to_le` written through a pointer, and back, `from_le`.
pub u32_bytes : ℕ → List ℕ
u32_bytes n = (n % 256) ∷ (n / 256 % 256) ∷ (n / 65536 % 256) ∷ (n / 16777216 % 256) ∷ []

unfoldable pub write_u32 : List ℕ → ℕ → ℕ → List ℕ
unfolding u32_bytes
write_u32 buffer at n = write_bytes buffer at (u32_bytes n)

little_endian : List ℕ → ℕ
little_endian [] = 0
little_endian (b ∷ bs) = b + 256 * little_endian bs

unfoldable pub read_u32 : List ℕ → ℕ → ℕ
unfolding little_endian read_bytes
read_u32 buffer at = little_endian (read_bytes buffer at 4)

pub length-write_u32 : (buffer : List ℕ) (at n : ℕ) → length (write_u32 buffer at n) ≡ length buffer
unfolding write_u32
length-write_u32 buffer at n = length-write_bytes (u32_bytes n) buffer at

pub byte-write_u32 :
    (buffer : List ℕ) (at n i : ℕ)
    → (at ≤ i → at + 4 ≤ i)
    → byte (write_u32 buffer at n) i ≡ byte buffer i
unfolding write_u32
byte-write_u32 buffer at n i h = byte-write_bytes (u32_bytes n) buffer at i h

pub read_u32_congr :
    (xs ys : List ℕ) (at : ℕ)
    → ((i : ℕ) → at ≤ i → i < at + 4 → byte xs i ≡ byte ys i)
    → read_u32 xs at ≡ read_u32 ys at
unfolding read_u32
read_u32_congr xs ys at h = ap little_endian (read_bytes_congr 4 xs ys at h)

u32_round : (n : ℕ) → n < 2 ^ 32 → little_endian (u32_bytes n) ≡ n
unfolding little_endian u32_bytes
u32_round n h = omega arith

pub read_u32-write_u32 :
    (buffer : List ℕ) (at n : ℕ)
    → at + 4 ≤ length buffer
    → n < 2 ^ 32
    → read_u32 (write_u32 buffer at n) at ≡ n
unfolding u32_bytes read_u32 write_u32
read_u32-write_u32 buffer at n h small =
    ap little_endian (read_bytes-write_bytes (u32_bytes n) buffer at h) ∙ u32_round n small
