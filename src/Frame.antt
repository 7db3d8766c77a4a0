-- ===== src/Frame.antt =====
-- The framing of the variable-size single-consumer ring, src/spsc_bytes.rs: a record is a 4-byte
-- length header and its payload, rounded up to 4 bytes; a padding header fills the end of the
-- buffer where a record would wrap. src/spmc_bytes.rs shares the constants and the sizes.
pub mod Sizes
pub mod Fits
pub mod Trip
pub mod Claimed
mod Tests
use rust_rb.Base.{
  ℕ, ◌+◌, ◌-◌, ◌/◌, ◌%◌, ◌^◌, List, Option, none, some, bit_and, if◌then◌else◌, ltb, leb, ◌==◌,
  Outcome, returns, panics, message_too_long, word_max, wrapping_add, wrapping_sub,
}
use rust_rb.Base.Memory.{write_bytes, read_bytes, write_u32, read_u32}

abbrev pub header : ℕ
header = 4

abbrev pub align : ℕ
align = 4

abbrev pub min_capacity : ℕ
min_capacity = 8

-- `u32::MAX`
abbrev pub padding : ℕ
padding = 2 ^ 32 - 1

-- `!(ALIGN - 1)` is the word of ones without the two lowest.
unfoldable pub align_up : ℕ → ℕ
align_up n = bit_and (wrapping_add n (align - 1)) (word_max - (align - 1))

unfoldable pub record_len : ℕ → ℕ
record_len len = align_up (wrapping_add header len)

unfoldable pub max_message_len : ℕ → ℕ
max_message_len capacity =
    let cap = wrapping_sub (capacity / 2) header in
    let header_space = padding - 1 in if ltb cap header_space then cap else header_space

-- `frame` of a handle at the write cursor: the padding, and the padding with the record.
unfoldable pub frame : ℕ → ℕ → ℕ → Outcome (ℕ × ℕ)
frame mask write_cursor len =
    let capacity = mask + 1 in
    if leb len (max_message_len capacity)
    then (let record' = record_len len in
        let to_end = capacity - bit_and write_cursor mask in
        returns (if leb record' to_end then (0, record') else (to_end, to_end + record')))
    else panics message_too_long

-- The stores of `write_frame` for padding `pad`: the padding header, if any.
write_padding : List ℕ → ℕ → ℕ → ℕ → List ℕ
write_padding buffer mask cur pad =
    if ltb 0 pad then write_u32 buffer (bit_and cur mask) padding else buffer

-- The payload is copied in where a source is given; a claimed slot holds it already.
write_payload : List ℕ → ℕ → Option (List ℕ) → List ℕ
write_payload buffer at none = buffer
write_payload buffer at (some src) = write_bytes buffer at src

-- `write_frame` without its publish: the buffer it leaves, for a record of `len` bytes at the
-- cursor `cur`.
unfoldable pub write_frame : List ℕ → ℕ → ℕ → ℕ → ℕ → Option (List ℕ) → List ℕ
unfolding write_padding write_payload
write_frame buffer mask cur pad len src =
    let pos = bit_and (if ltb 0 pad then wrapping_add cur pad else cur) mask in
    write_payload (write_u32 (write_padding buffer mask cur pad) pos (len % 2 ^ 32)) (pos + header)
      src

-- `decode_record`: the cursor at the record header, the payload's length, and its offset.
unfoldable pub decode_record : List ℕ → ℕ → ℕ → ℕ × ℕ × ℕ
decode_record buffer mask cur =
    let pos = bit_and cur mask in
    let first = read_u32 buffer pos in
    if first == padding
    then (wrapping_add cur (mask + 1 - pos), read_u32 buffer 0, header)
    else (cur, first, pos + header)

-- The payload of a decoded record, as `Msg::deref` shows it.
unfoldable pub payload : List ℕ → ℕ × ℕ × ℕ → List ℕ
payload buffer (_, len, at) = read_bytes buffer at len
