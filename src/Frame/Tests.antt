-- ===== src/Frame/Tests.antt =====
-- The framing at concrete inputs: a buffer of 16 bytes with the cursor at offset 12, where a record of
-- 8 bytes does not fit before the end.
use rust_rb.Base.{
  ℕ, ◌+◌, ◌-◌, bit_and, ◌≤◌, ◌<◌, ◌≡◌, refl, inr, List, [], ◌∷◌, some, arith, returns, panics,
  message_too_long, replicate, wrapping_add, wrapping_sub,
}
use rust_rb.Base.Memory.{write_bytes, write_u32}
use rust_rb.Frame.{
  align_up, record_len, max_message_len, frame, write_frame, decode_record, payload,
}
use rust_rb.Frame.Fits.{IsPlace, IsPlaced, record_pos, frame_lem}
use rust_rb.Frame.Trip.{decode_record-write_frame}

end-IsPlace : IsPlace 16 15 12
end-IsPlace = record {
  power = (4, refl);
  legal = omega arith;
  small = omega arith;
  mask_eq = refl;
  word = omega arith;
  aligned = refl;
}

wrapped-IsPlaced : IsPlaced 16 15 12 2 4
unfolding record_len align_up wrapping_add
wrapped-IsPlaced = record {
  at = inr (omega arith, refl, refl);
  contiguous = omega arith;
  total = omega arith;
  multiple = refl;
}

abbrev written : List ℕ
written = write_frame (replicate 16 0) 15 12 4 2 (some (7 ∷ 8 ∷ []))

frame_lem_example :
    (2 ≤ max_message_len 16
      → (pad : ℕ) × (frame 15 12 2 ≡ returns (pad, pad + record_len 2))
        × IsPlaced 16 15 12 2 pad
        × (record_len 2 ≤ 16 - bit_and 12 15 → pad ≡ 0)
        × (16 - bit_and 12 15 < record_len 2 → pad ≡ 16 - bit_and 12 15))
    × (max_message_len 16 < 2 → frame 15 12 2 ≡ panics message_too_long)
frame_lem_example = frame_lem end-IsPlace 2

decode_record-write_frame_example :
    (decode_record written 15 12 ≡ (wrapping_add 12 4, 2, record_pos 15 12 4 + 4))
    × (record_pos 15 12 4 + 4 + 2 ≤ 16)
    × ((message : List ℕ)
        → some (7 ∷ 8 ∷ []) ≡ some message
        → payload written (decode_record written 15 12) ≡ message)
decode_record-write_frame_example =
    decode_record-write_frame end-IsPlace wrapped-IsPlaced (replicate 16 0) refl (omega arith)
      (some (7 ∷ 8 ∷ [])) refl

written_bytes : written ≡ 2 ∷ 0 ∷ 0 ∷ 0 ∷ 7 ∷ 8 ∷ 0 ∷ 0 ∷ 0 ∷ 0 ∷ 0 ∷ 0 ∷ 255 ∷ 255 ∷ 255 ∷ 255 ∷ []
unfolding write_frame wrapping_add write_bytes write_u32
written_bytes = refl

too_long : frame 15 12 5 ≡ panics message_too_long
unfolding frame max_message_len wrapping_sub
too_long = refl
