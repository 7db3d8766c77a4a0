-- ===== src/Bytes/Stored.antt =====
-- A list of messages laid out in the buffer as records from a cursor on.
use rust_rb.Base.{
  ℕ, ◌+◌, ◌-◌, ◌≤◌, ◌<◌, ◌≡◌, ◌≢◌, ◌∙◌, refl, sym, ap, arith, List, [], ◌∷◌, ◌++◌, Option, bit_and,
  length, word_mod, wrapping_add,
}
use native.Mathlib.Decide.{dec_lt}
use rust_rb.Base.Memory.{byte, read_bytes, read_u32, read_u32_congr, read_bytes_congr}
use rust_rb.Base.Words.{wrapping_add_zero, wrapping_add_assoc, wrapping_add-lt}
use rust_rb.Base.Slots.{slot-inj}
use rust_rb.Frame.{padding, record_len, write_frame}
use rust_rb.Frame.Sizes.{record_len_bounds}
use rust_rb.Frame.Fits.{IsPlace, IsPlaced, record_pos, record_pos_eq, offset_step, IsPlace-after}
use rust_rb.Frame.Trip.{Fills, byte-write_frame}

-- The record of a message at a cursor, behind `pad` bytes of padding.
pub record IsFront (capacity mask : ℕ) (buffer : List ℕ) (cursor : ℕ) (msg : List ℕ) (pad : ℕ)
    : Type 0 where
  pub placed : IsPlaced capacity mask cursor (length msg) pad
  pub short : length msg < padding
  pub header : read_u32 buffer (record_pos mask cursor pad) ≡ length msg
  pub mark : 4 ≤ pad → read_u32 buffer (bit_and cursor mask) ≡ padding
  pub body : read_bytes buffer (record_pos mask cursor pad + 4) (length msg) ≡ msg

-- The bytes that a message takes with its padding.
abbrev pub taken : List ℕ → ℕ → ℕ
taken msg pad = pad + record_len (length msg)

-- The messages fill exactly `n` bytes from the cursor on.
abbrev pub Stored : ℕ → ℕ → List ℕ → ℕ → List (List ℕ) → ℕ → Type 0
Stored capacity mask buffer cursor [] n = n ≡ 0
Stored capacity mask buffer cursor (msg ∷ msgs) n =
    (pad : ℕ) × IsFront capacity mask buffer cursor msg pad
    × (taken msg pad ≤ n)
    × Stored capacity mask buffer (wrapping_add cursor (taken msg pad)) msgs (n - taken msg pad)

-- Two buffers hold the same `n` bytes from the cursor on.
abbrev pub Agree : ℕ → ℕ → ℕ → List ℕ → List ℕ → Type 0
Agree mask cursor n xs ys =
    (i : ℕ)
    → i < n
    → byte xs (bit_and (wrapping_add cursor i) mask)
      ≡ byte ys (bit_and (wrapping_add cursor i) mask)

pub Agree-after :
    (mask cursor n k : ℕ) (xs ys : List ℕ)
    → k ≤ n
    → Agree mask cursor n xs ys
    → Agree mask (wrapping_add cursor k) (n - k) xs ys
Agree-after mask cursor n k xs ys h same i hi =
    rw (wrapping_add_assoc cursor k i) (same (k + i) (omega arith))

-- Agreement in the offsets of a part of the buffer that does not wrap.
Agree-range :
    {capacity mask cursor : ℕ} (n m start : ℕ) (xs ys : List ℕ)
    → IsPlace capacity mask cursor
    → Agree mask cursor n xs ys
    → start + m ≤ n
    → bit_and cursor mask + start + m ≤ capacity
    → (i : ℕ) → bit_and cursor mask + start ≤ i
    → i < bit_and cursor mask + start + m
    → byte xs i ≡ byte ys i
Agree-range {capacity} {mask} {cursor} n m start xs ys v same h fits i low high =
    let j = i - bit_and cursor mask in
    let at : bit_and cursor mask + j ≡ i = omega arith in
    let e = sym at ∙ offset_step v j (omega arith) in rw e (same j (omega arith))

-- A record is the same in a buffer that agrees on its bytes.
IsFront-congr :
    {capacity mask cursor pad : ℕ} (n : ℕ) (xs ys : List ℕ) (msg : List ℕ)
    → IsPlace capacity mask cursor
    → Agree mask cursor n xs ys
    → taken msg pad ≤ n
    → IsFront capacity mask xs cursor msg pad
    → IsFront capacity mask ys cursor msg pad
IsFront-congr {capacity} {mask} {cursor} {pad} n xs ys msg v same h f =
    let start = record_pos_eq v (length msg) pad in
    let size = record_len_bounds (length msg) (let s = f.short in omega arith) in
    let whole = f.placed.contiguous in
    let rest = Agree-after mask cursor n pad xs ys (omega arith) same in
    let m = f.placed.multiple in
    let next = IsPlace-after v pad (omega arith) in
    record {
      placed = f.placed;
      short = f.short;
      header =
          sym (
            read_u32_congr xs ys _ (λ i l u.
              Agree-range (n - pad) 4 0 xs ys next rest (omega arith) (omega arith) i (omega arith)
                (omega arith)))
          ∙ f.header;
      mark = λ many.
          let at = f.placed.at in
          sym (
            read_u32_congr xs ys _ (λ i l u.
              Agree-range n 4 0 xs ys v same (omega arith) (omega arith) i (omega arith)
                (omega arith)))
          ∙ f.mark many;
      body =
          sym (
            read_bytes_congr (length msg) xs ys _ (λ i l u.
              Agree-range (n - pad) (length msg) 4 xs ys next rest (omega arith) (omega arith) i
                (omega arith) (omega arith)))
          ∙ f.body;
    }

module _ (capacity mask : ℕ) where
  -- Messages stay stored in a buffer that agrees on their bytes.
  pub Stored-congr :
      (msgs : List (List ℕ)) {cursor : ℕ} (n : ℕ) (xs ys : List ℕ)
      → IsPlace capacity mask cursor
      → Agree mask cursor n xs ys
      → Stored capacity mask xs cursor msgs n
      → Stored capacity mask ys cursor msgs n
  Stored-congr [] n xs ys v same s = s
  Stored-congr (msg ∷ msgs) {cursor} n xs ys v same (pad, front, h, s) =
      let m = front.placed.multiple in
      (
        pad,
        IsFront-congr n xs ys msg v same h front,
        h,
        Stored-congr msgs (n - taken msg pad) xs ys (IsPlace-after v (taken msg pad) m)
            (Agree-after mask cursor n (taken msg pad) xs ys h same) s,
      )

  -- Messages stored behind others are stored with them.
  pub Stored-append :
      (xs ys : List (List ℕ)) (buffer : List ℕ) (cursor n k : ℕ)
      → cursor < word_mod
      → Stored capacity mask buffer cursor xs n
      → Stored capacity mask buffer (wrapping_add cursor n) ys k
      → Stored capacity mask buffer cursor (xs ++ ys) (n + k)
  Stored-append [] ys buffer cursor n k w e s =
      let none_before : n + k ≡ k = omega arith in
      rw none_before (rw (e, wrapping_add_zero cursor w) at s)
  Stored-append (msg ∷ xs) ys buffer cursor n k w (pad, front, h, s) t =
      let used = taken msg pad in
      let left : n + k - used ≡ n - used + k = omega arith in
      let on : used + (n - used) ≡ n = omega arith in
      (
        pad,
        front,
        omega arith,
        rw left (
            Stored-append xs ys buffer (wrapping_add cursor used) (n - used) k
              (wrapping_add-lt cursor used) s
              (rw (wrapping_add_assoc cursor used (n - used), on) t)),
      )

  -- Stored messages take at least four bytes each: none are stored exactly if there are no bytes.
  pub Stored-nil :
      (msgs : List (List ℕ)) (buffer : List ℕ) (cursor : ℕ)
      → Stored capacity mask buffer cursor msgs 0
      → msgs ≡ []
  Stored-nil [] buffer cursor s = refl
  Stored-nil (msg ∷ msgs) buffer cursor (pad, front, h, s) =
      let short = front.short in
      absurd (omega (arith, record_len_bounds (length msg) (omega arith)))

not_within : (base m p : ℕ) → ((j : ℕ) → j < m → p ≢ base + j) → base ≤ p → base + m ≤ p
not_within base m p h low = elim (dec_lt p (base + m)) [
  | yes inside ↦ absurd (h (p - base) (omega arith) (omega arith))
  | no beyond ↦ omega arith
]

-- A frame written behind `used` bytes, with room for it, leaves them as they are.
pub write_frame-Agree :
    {capacity mask read pad : ℕ} (used len : ℕ) (buffer : List ℕ) (src : Option (List ℕ))
    → IsPlace capacity mask read
    → IsPlace capacity mask (wrapping_add read used)
    → IsPlaced capacity mask (wrapping_add read used) len pad
    → length buffer ≡ capacity
    → len < padding
    → Fills len src
    → used + (pad + record_len len) ≤ capacity
    → Agree mask read used buffer (write_frame buffer mask (wrapping_add read used) pad len src)
write_frame-Agree {capacity} {mask} {read} {pad} used len buffer src v w f storage short fills room
      i hi =
    let size = record_len_bounds len (omega arith) in
    let at = bit_and (wrapping_add read i) mask in
    let apart : (j : ℕ)
        → j < pad + record_len len
        → at ≢ bit_and (wrapping_add read (used + j)) mask =
      λ j hj e. absurd (
        omega (
          arith,
          slot-inj capacity read i (used + j) v.power v.small (omega arith) (omega arith)
              (rw v.mask_eq at e),
        )) in
    let four = f.multiple in
    let next : IsPlace capacity mask (wrapping_add (wrapping_add read used) pad) =
      IsPlace-after w pad (omega arith) in
    let start = record_pos_eq w len pad in
    let whole = f.contiguous in
    sym (
      byte-write_frame w f buffer storage short src fills at
        (λ padded. not_within _ 4 at (λ j hj e.
          let place = f.at in
          apart j (omega arith) (
            e
            ∙ offset_step w j (omega arith)
            ∙ ap (λ c. bit_and c mask) (wrapping_add_assoc read used j))))
        (λ low. omega (
          arith,
          not_within _ (4 + len) at
              (λ j hj e. apart (pad + j) (omega arith) (
                e
                ∙ ap (λ b. b + j) start
                ∙ offset_step next j (omega arith)
                ∙ ap (λ c. bit_and c mask)
                    (wrapping_add_assoc (wrapping_add read used) pad j
                      ∙ wrapping_add_assoc read used (pad + j))))
              low,
        )))
