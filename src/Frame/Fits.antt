-- ===== src/Frame/Fits.antt =====
-- Where `frame` puts a record: never across the end of the buffer, and never more than a capacity.
use rust_rb.Base.{
  ℕ, zero, suc, ◌+◌, ◌-◌, ◌/◌, ◌%◌, ◌≤◌, ◌<◌, ◌≡◌, ◌≢◌, ◌⊎◌, ◌∙◌, inl, inr, refl, ap, arith,
  bit_and, Bool-cases, true, leb, leb→le, le→leb, ltb, lt→ltb, leb_false→lt, lt→leb_false,
  if◌then◌else◌, returns, panics, message_too_long, IsPow2, word_mod, wrapping_add,
}
use rust_rb.Base.Bits.{IsPow2-dvd}
use rust_rb.Base.Slots.{max_capacity, slot-eq-mod, slot-eq-mod_self, mod_near}
use rust_rb.Base.Words.{wrapping_add_zero}
use native.Mathlib.Nat.{mod-mod_of_dvd, mod-eq-zero_of_dvd, mod-lt}
use rust_rb.Frame.{frame, record_len, max_message_len}
use rust_rb.Frame.Sizes.{record_len_bounds, max_message_len_bounds}

-- A byte ring's capacity, its mask and a cursor at a record boundary.
pub record IsPlace (capacity mask cursor : ℕ) : Type 0 where
  pub power : IsPow2 capacity
  pub legal : 8 ≤ capacity
  pub small : capacity ≤ max_capacity
  pub mask_eq : mask ≡ capacity - 1
  pub word : cursor < word_mod
  pub aligned : cursor % 4 ≡ 0

module _ {capacity mask cursor : ℕ} (v : IsPlace capacity mask cursor) where
  pub whole : capacity % 8 ≡ 0
  whole = mod-eq-zero_of_dvd 8 (IsPow2-dvd 3 v.power v.legal)

  pub offset_eq : bit_and cursor mask ≡ cursor % capacity
  offset_eq = rw v.mask_eq (slot-eq-mod_self capacity cursor v.power v.small v.word)

  pub offset_bounds : (bit_and cursor mask < capacity) × (bit_and cursor mask % 4 ≡ 0)
  offset_bounds =
      let low = mod-lt cursor {m = capacity} (omega arith) in
      let four = mod-mod_of_dvd 4 cursor (IsPow2-dvd 2 v.power (omega arith)) in
      rw offset_eq (low, four ∙ v.aligned)

  -- Within the buffer the offsets after a cursor's are those of the cursors after it.
  pub offset_step :
      (j : ℕ)
      → bit_and cursor mask + j < capacity
      → bit_and cursor mask + j ≡ bit_and (wrapping_add cursor j) mask
  offset_step j h =
      let e = offset_eq in
      let next : bit_and (wrapping_add cursor j) mask ≡ (cursor + j) % capacity =
        rw v.mask_eq (slot-eq-mod capacity cursor j v.power v.small) in
      let near = mod_near capacity cursor j (omega arith) (omega arith) in
      omega (arith, e, next, near)

  -- A multiple of 4 further on stands another such cursor.
  pub IsPlace-after : (n : ℕ) → n % 4 ≡ 0 → IsPlace capacity mask (wrapping_add cursor n)
  unfolding wrapping_add
  IsPlace-after n h = record {
    power = v.power;
    legal = v.legal;
    small = v.small;
    mask_eq = v.mask_eq;
    word = omega arith;
    aligned = let a = v.aligned in omega arith;
  }

  -- Stepping over the rest of the buffer leads to its start.
  pub offset_end :
      bit_and cursor mask ≢ 0
      → bit_and (wrapping_add cursor (capacity - bit_and cursor mask)) mask ≡ 0
  offset_end ne =
      let e = offset_eq in
      let i = capacity - cursor % capacity in
      let low = offset_bounds.0 in
      rw (e, v.mask_eq)
        (slot-eq-mod capacity cursor i v.power v.small
          ∙ omega (arith, mod_near capacity cursor i (omega arith) (omega (arith, e, ne)), e, low))

-- Where the record of a frame starts, past its padding.
abbrev pub record_pos : ℕ → ℕ → ℕ → ℕ
record_pos mask cursor pad = bit_and (if ltb 0 pad then wrapping_add cursor pad else cursor) mask

-- A frame whose record lies whole in the buffer: with no padding at the cursor, or with padding from
-- the cursor to the end and the record at the start; padding and record are multiples of 4 and
-- together less than a capacity.
pub record IsPlaced (capacity mask cursor len pad : ℕ) : Type 0 where
  pub at :
      ((pad ≡ 0) × (record_pos mask cursor pad ≡ bit_and cursor mask))
      ⊎ ((4 ≤ pad) × (pad ≡ capacity - bit_and cursor mask) × (record_pos mask cursor pad ≡ 0))
  pub contiguous : record_pos mask cursor pad + record_len len ≤ capacity
  pub total : pad + record_len len < capacity
  pub multiple : (pad + record_len len) % 4 ≡ 0

module _ {capacity mask cursor : ℕ} (v : IsPlace capacity mask cursor) (len : ℕ) where
  IsPlaced-here :
      record_len len ≤ capacity / 2
      → record_len len % 4 ≡ 0
      → record_len len ≤ capacity - bit_and cursor mask
      → IsPlaced capacity mask cursor len 0
  IsPlaced-here half four h = record {
    at = inl (refl, refl);
    contiguous = let low = (offset_bounds v).0 in omega arith;
    total = omega arith;
    multiple = omega arith;
  }

  IsPlaced-wrapped :
      record_len len ≤ capacity / 2
      → record_len len % 4 ≡ 0
      → capacity - bit_and cursor mask < record_len len
      → IsPlaced capacity mask cursor len (capacity - bit_and cursor mask)
  IsPlaced-wrapped half four h =
      let (low, aligned) = offset_bounds v in
      let whole8 = whole v in
      let some_pad : ltb 0 (capacity - bit_and cursor mask) ≡ true = lt→ltb _ _ (omega arith) in
      let start : record_pos mask cursor (capacity - bit_and cursor mask) ≡ 0 =
        rw some_pad (offset_end v (omega arith)) in
      record {
        at = inr (omega arith, refl, start);
        contiguous = omega (arith, start);
        total = omega arith;
        multiple = omega arith;
      }

  pub record_pos_eq :
      (pad : ℕ) → record_pos mask cursor pad ≡ bit_and (wrapping_add cursor pad) mask
  record_pos_eq zero = rw (wrapping_add_zero cursor v.word)
  record_pos_eq (suc pad) = rw (lt→ltb 0 (suc pad) (omega arith))

  -- A message of legal length is framed where its record lies whole: at the cursor and with no padding
  -- if the rest of the buffer has room for it, and else at the start, behind padding that is exactly
  -- that rest. Any longer message panics.
  pub frame_lem :
      (len ≤ max_message_len capacity
        → (pad : ℕ) × (frame mask cursor len ≡ returns (pad, pad + record_len len))
          × IsPlaced capacity mask cursor len pad
          × (record_len len ≤ capacity - bit_and cursor mask → pad ≡ 0)
          × (capacity - bit_and cursor mask < record_len len
              → pad ≡ capacity - bit_and cursor mask))
      × (max_message_len capacity < len → frame mask cursor len ≡ panics message_too_long)
  unfolding frame
  frame_lem =
      let size : mask + 1 ≡ capacity = omega arith in
      (
        λ legal.
            let (half, short) =
              max_message_len_bounds capacity len v.legal v.small (whole v) legal in
            let (four, _, _) = record_len_bounds len (omega arith) in
            rw (size, le→leb _ _ legal)
              (elim (Bool-cases (leb (record_len len) (capacity - bit_and cursor mask))) [
                | inl here ↦ rw here (
                  0,
                  ap (λ (t : ℕ). returns (0, t)) (omega arith),
                  IsPlaced-here half four (leb→le _ _ here),
                  (λ _. refl),
                  λ over. absurd (let fits = leb→le _ _ here in omega arith),
                )
                | inr wraps ↦
                    let over = leb_false→lt _ _ wraps in
                    rw wraps (
                      _,
                      refl,
                      IsPlaced-wrapped half four over,
                      (λ fits. absurd (omega arith)),
                      λ _. refl,
                    )
              ]),
        λ long. rw (size, lt→leb_false _ _ long),
      )
