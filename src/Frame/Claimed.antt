-- ===== src/Frame/Claimed.antt =====
-- A record whose payload is serialized in place before its headers are written.
use rust_rb.Base.{
  ℕ, ◌+◌, ◌%◌, ◌^◌, ◌≤◌, ◌<◌, ◌≡◌, ◌∙◌, inl, inr, refl, ap, arith, bit_and, List, none, some,
  Bool-cases, ltb→lt, ltb, length,
}
use rust_rb.Base.Memory.{write_bytes, write_u32}
use rust_rb.Base.Memory.Swap.{write_u32-write_bytes}
use rust_rb.Frame.{padding, write_padding, write_payload, write_frame}
use rust_rb.Frame.Sizes.{record_len_bounds}
use rust_rb.Frame.Fits.{IsPlace, IsPlaced, record_pos, offset_bounds}

module _ {capacity mask cursor pad : ℕ} (buffer msg : List ℕ) (v : IsPlace capacity mask cursor)
    (f : IsPlaced capacity mask cursor (length msg) pad) (short : length msg < padding) where
  write_padding-write_bytes :
      write_padding (write_bytes buffer (record_pos mask cursor pad + 4) msg) mask cursor pad
      ≡ write_bytes (write_padding buffer mask cursor pad) (record_pos mask cursor pad + 4) msg
  unfolding write_padding
  write_padding-write_bytes = elim (Bool-cases (ltb 0 pad)) [
    | inl some_pad ↦
        let size = record_len_bounds (length msg) (omega arith) in
        let low = (offset_bounds v).0 in
        let behind : record_pos mask cursor pad + 4 + length msg ≤ bit_and cursor mask = elim f.at [
          | inl (none_pad, _) ↦ absurd (let l = ltb→lt 0 pad some_pad in omega arith)
          | inr (many, rest, start) ↦ let t = f.total in omega arith
        ] in
        let behind' = rw some_pad at behind in
        rw some_pad (write_u32-write_bytes msg buffer _ _ padding (inr behind'))
    | inr no_pad ↦ rw no_pad refl
  ]

  -- Serializing the payload in place and then writing the headers leaves the buffer that writing the
  -- whole frame leaves.
  pub write_frame-claimed :
      write_frame
        (write_bytes buffer (record_pos mask cursor pad + 4) msg)
        mask
        cursor
        pad
        (length msg)
        none
      ≡ write_frame buffer mask cursor pad (length msg) (some msg)
  unfolding write_frame write_payload
  write_frame-claimed =
      ap (λ l. write_u32 l (record_pos mask cursor pad) (length msg % 2 ^ 32))
        write_padding-write_bytes
      ∙ write_u32-write_bytes msg (write_padding buffer mask cursor pad) _ _ (length msg % 2 ^ 32)
          (inl (omega arith))
