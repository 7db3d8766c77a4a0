-- ===== src/Frame/Trip.antt =====
-- What is written as a frame is decoded as that record.
use rust_rb.Base.{
  ℕ, ◌+◌, ◌-◌, ◌%◌, ◌^◌, ◌≤◌, ◌<◌, ◌≡◌, ◌∙◌, inl, inr, refl, arith, bit_and, List, Option, none,
  some, true, Bool-cases, lt→ltb, ltb→lt, ltb, ne→==_false, length, wrapping_add,
}
use rust_rb.Base.Memory.{
  byte, write_bytes, read_bytes, read_u32, length-write_bytes, byte-write_bytes,
  read_bytes-write_bytes, length-write_u32, byte-write_u32, read_u32_congr, read_u32-write_u32,
}
use rust_rb.Frame.{padding, write_padding, write_payload, write_frame, decode_record, payload}
use rust_rb.Frame.Sizes.{record_len_bounds}
use rust_rb.Base.Words.{wrapping_add_zero}
use rust_rb.Frame.Fits.{IsPlace, IsPlaced, record_pos, offset_bounds}

-- A header survives the payload written behind it.
read_u32-write_payload :
    (buffer : List ℕ) (pos at : ℕ) (src : Option (List ℕ))
    → pos + 4 ≤ at
    → read_u32 (write_payload buffer at src) pos ≡ read_u32 buffer pos
unfolding write_payload
read_u32-write_payload buffer pos at none h = refl
read_u32-write_payload buffer pos at (some src) h =
    read_u32_congr _ _ pos (λ i l u. byte-write_bytes src buffer at i (λ k. absurd (omega arith)))

length-write_padding :
    (buffer : List ℕ) (mask cursor pad : ℕ)
    → length (write_padding buffer mask cursor pad) ≡ length buffer
unfolding write_padding
length-write_padding buffer mask cursor pad = elim (Bool-cases (ltb 0 pad)) [
  | inl some_pad ↦ rw some_pad (length-write_u32 buffer _ padding)
  | inr no_pad ↦ rw no_pad
]

length-write_payload :
    (buffer : List ℕ) (at : ℕ) (src : Option (List ℕ))
    → length (write_payload buffer at src) ≡ length buffer
unfolding write_payload
length-write_payload buffer at none = refl
length-write_payload buffer at (some src) = length-write_bytes src buffer at

-- A source fills its record: one that is given has the record's length.
abbrev pub Fills : ℕ → Option (List ℕ) → Type 0
Fills len none = Unit
Fills len (some src) = length src ≡ len

-- The payload written touches no byte before it or past its length.
byte-write_payload :
    (buffer : List ℕ) (at len : ℕ) (src : Option (List ℕ)) (i : ℕ)
    → Fills len src
    → (at ≤ i → at + len ≤ i)
    → byte (write_payload buffer at src) i ≡ byte buffer i
unfolding write_payload
byte-write_payload buffer at len none i f h = refl
byte-write_payload buffer at len (some src) i f h =
    byte-write_bytes src buffer at i (λ k. omega (arith, h k))

read_whole :
    (buffer : List ℕ) (at len : ℕ) (message : List ℕ)
    → length message ≡ len
    → at + len ≤ length buffer
    → read_bytes (write_bytes buffer at message) at len ≡ message
read_whole buffer at len message e h =
    rw (← e) (read_bytes-write_bytes message buffer at (omega arith))

decode_plain :
    (buffer : List ℕ) (mask cursor len : ℕ)
    → read_u32 buffer (bit_and cursor mask) ≡ len
    → len < padding
    → decode_record buffer mask cursor ≡ (cursor, len, bit_and cursor mask + 4)
unfolding decode_record
decode_plain buffer mask cursor len e h = rw (e, ne→==_false len padding (omega arith))

decode_padded :
    (buffer : List ℕ) (mask cursor len : ℕ)
    → read_u32 buffer (bit_and cursor mask) ≡ padding
    → read_u32 buffer 0 ≡ len
    → decode_record buffer mask cursor
      ≡ (wrapping_add cursor (mask + 1 - bit_and cursor mask), len, 4)
unfolding decode_record
decode_padded buffer mask cursor len e h = rw (e, h)

-- A record header at its place, and a padding header where there is padding, decode to the record.
pub decode_marked :
    {capacity mask cursor len pad : ℕ} (buffer : List ℕ)
    → IsPlace capacity mask cursor
    → IsPlaced capacity mask cursor len pad
    → len < padding
    → read_u32 buffer (record_pos mask cursor pad) ≡ len
    → (4 ≤ pad → read_u32 buffer (bit_and cursor mask) ≡ padding)
    → decode_record buffer mask cursor
      ≡ (wrapping_add cursor pad, len, record_pos mask cursor pad + 4)
decode_marked {capacity} {mask} {cursor} {len} {pad} buffer v f short first mark = elim f.at [
  | inl (none_pad, here) ↦
      let same : wrapping_add cursor pad ≡ cursor = rw none_pad (wrapping_add_zero cursor v.word) in
      decode_plain buffer mask cursor len (rw here at first) short ∙ ground (arith, same)
  | inr (many, rest, start) ↦
      let skip : mask + 1 - bit_and cursor mask ≡ pad = omega arith in
      decode_padded buffer mask cursor len (mark many) (rw start at first) ∙ rw (skip, start)
]

module _ {capacity mask cursor len pad : ℕ} (v : IsPlace capacity mask cursor)
    (f : IsPlaced capacity mask cursor len pad) (buffer : List ℕ)
    (storage : length buffer ≡ capacity) (short : len < padding) (src : Option (List ℕ))
    (fills : Fills len src) where
  room : record_pos mask cursor pad + 4 + len ≤ capacity
  room = let size = record_len_bounds len (omega arith) in omega arith

  -- The header of the record, after all the stores.
  pub header_read :
      read_u32 (write_frame buffer mask cursor pad len src) (record_pos mask cursor pad) ≡ len
  unfolding write_frame
  header_read =
      let whole = length-write_padding buffer mask cursor pad in
      let fits = room in
      read_u32-write_payload _ _ _ src (omega arith)
      ∙ read_u32-write_u32 (write_padding buffer mask cursor pad) _ (len % 2 ^ 32) (omega arith)
          (omega arith)
      ∙ omega arith

  room_at : record_pos mask cursor pad + 4 + len ≤ capacity
  room_at = room

  -- The payload, where a source is given.
  pub payload_read :
      (message : List ℕ)
      → src ≡ some message
      → read_bytes (write_frame buffer mask cursor pad len src) (record_pos mask cursor pad + 4) len
        ≡ message
  unfolding write_frame write_payload
  payload_read message e =
      let size : length message ≡ len = rw e at fills in
      let whole = length-write_padding buffer mask cursor pad in
      let sized =
        length-write_u32 (write_padding buffer mask cursor pad) (record_pos mask cursor pad)
          (len % 2 ^ 32) in
      let fits = room in rw e (read_whole _ _ len message size (omega arith))

  -- The padding header, which the record at the start of the buffer does not reach.
  padding_read :
      4 ≤ pad
      → pad ≡ capacity - bit_and cursor mask
      → record_pos mask cursor pad ≡ 0
      → read_u32 (write_frame buffer mask cursor pad len src) (bit_and cursor mask) ≡ padding
  unfolding write_frame write_padding
  padding_read many rest start =
      let some_pad : ltb 0 pad ≡ true = lt→ltb 0 pad (omega arith) in
      let size = record_len_bounds len (omega arith) in
      let low = (offset_bounds v).0 in
      read_u32_congr _ _ _ (λ i l u.
        byte-write_payload _ _ len src i fills (λ k. omega arith)
        ∙ byte-write_u32 _ _ (len % 2 ^ 32) i (λ k. omega arith))
      ∙ rw some_pad (read_u32-write_u32 buffer _ padding (omega arith) (omega arith))

  pub mark_read :
      4 ≤ pad
      → read_u32 (write_frame buffer mask cursor pad len src) (bit_and cursor mask) ≡ padding
  mark_read many = elim f.at [
    | inl (none_pad, _) ↦ absurd (omega arith)
    | inr (_, rest, start) ↦ padding_read many rest start
  ]

  decoded_frame :
      decode_record (write_frame buffer mask cursor pad len src) mask cursor
      ≡ (wrapping_add cursor pad, len, record_pos mask cursor pad + 4)
  decoded_frame = decode_marked _ v f short header_read mark_read

  -- A frame of a legal message, written at the write cursor and decoded there, gives the cursor past
  -- the padding, the message's length, and the offset of the payload, which lies whole in the buffer.
  -- With a source given, the payload decoded is the source.
  pub decode_record-write_frame :
      let out = write_frame buffer mask cursor pad len src in
      let at = record_pos mask cursor pad + 4 in
      (decode_record out mask cursor ≡ (wrapping_add cursor pad, len, at))
      × (at + len ≤ capacity)
      × ((message : List ℕ)
          → src ≡ some message
          → payload out (decode_record out mask cursor) ≡ message)
  unfolding payload
  decode_record-write_frame =
      let decoded = decoded_frame in
      (decoded, room_at, λ message e. rw decoded (payload_read message e))

  -- The stores of a frame touch its two headers and its payload alone.
  pub byte-write_frame :
      (i : ℕ)
      → (0 < pad → bit_and cursor mask ≤ i → bit_and cursor mask + 4 ≤ i)
      → (record_pos mask cursor pad ≤ i → record_pos mask cursor pad + 4 + len ≤ i)
      → byte (write_frame buffer mask cursor pad len src) i ≡ byte buffer i
  unfolding write_frame write_padding
  byte-write_frame i marks record' =
      byte-write_payload _ _ len src i fills (λ k. omega (arith, record'))
      ∙ byte-write_u32 _ _ (len % 2 ^ 32) i (λ k. omega (arith, record'))
      ∙ elim (Bool-cases (ltb 0 pad)) [
        | inl some_pad ↦
            rw some_pad (byte-write_u32 buffer _ padding i (marks (ltb→lt 0 pad some_pad)))
        | inr no_pad ↦ rw no_pad
      ]

  pub length-write_frame : length (write_frame buffer mask cursor pad len src) ≡ length buffer
  unfolding write_frame
  length-write_frame =
      length-write_payload _ _ src
      ∙ length-write_u32 (write_padding buffer mask cursor pad) _ (len % 2 ^ 32)
      ∙ length-write_padding buffer mask cursor pad
