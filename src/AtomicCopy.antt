-- ===== src/AtomicCopy.antt =====
-- The copies of src/atomic_copy.rs between private memory and a slot that others read meanwhile:
-- a machine word for each atomic access, and the last bytes one by one.
pub mod Whole
use rust_rb.Base.{ℕ, zero, suc, ◌+◌, ◌-◌, List, [], ◌∷◌, ◌++◌, if◌then◌else◌, ltb, leb, replicate}
use rust_rb.Base.Memory.{read_bytes, write_bytes}

-- The bytes of the access at an offset: a word while one fits, then a byte.
abbrev pub chunk_len : ℕ → ℕ → ℕ
chunk_len len off = if leb (off + 8) len then 8 else 1

-- One store of `copy_in_words`.
unfoldable pub store_chunk : List ℕ → List ℕ → ℕ → ℕ → List ℕ
store_chunk src dst len off = write_bytes dst off (read_bytes src off (chunk_len len off))

-- One load of `copy_out_words`: what it has copied then.
unfoldable pub load_chunk : List ℕ → List ℕ → ℕ → ℕ → List ℕ
load_chunk src out len off = out ++ read_bytes src off (chunk_len len off)

-- The two loops from an offset, in at most so many accesses.
unfoldable pub copy_in_words : ℕ → List ℕ → List ℕ → ℕ → ℕ → List ℕ
copy_in_words zero src dst len off = dst
copy_in_words (suc fuel) src dst len off =
    let rest = copy_in_words fuel src (store_chunk src dst len off) len (off + chunk_len len off) in
    if ltb off len then rest else dst

unfoldable pub copy_out_words : ℕ → List ℕ → List ℕ → ℕ → ℕ → List ℕ
copy_out_words zero src out len off = out
copy_out_words (suc fuel) src out len off =
    let rest = copy_out_words fuel src (load_chunk src out len off) len (off + chunk_len len off) in
    if ltb off len then rest else out

-- `write_payload` and `read_payload` of `len` bytes, which take at most `len` accesses.
unfoldable pub write_payload : List ℕ → List ℕ → ℕ → List ℕ
write_payload dst value len = copy_in_words len value dst len 0

unfoldable pub read_payload : List ℕ → ℕ → List ℕ
read_payload src len = copy_out_words len src [] len 0

-- The lanes of 4 bytes in which the byte rings copy; the last, partial one is padded with zeros.
unfoldable pub copy_in_lanes : ℕ → List ℕ → List ℕ → ℕ → ℕ → List ℕ
copy_in_lanes zero src dst len off = dst
copy_in_lanes (suc fuel) src dst len off =
    let rest = copy_in_lanes fuel src (write_bytes dst off (read_bytes src off 4)) len (off + 4) in
    if leb (off + 4) len
    then rest
    else if ltb off len
    then write_bytes dst off (read_bytes src off (len - off) ++ replicate (4 - (len - off)) 0)
    else dst

unfoldable pub copy_out_lanes : ℕ → List ℕ → List ℕ → ℕ → ℕ → List ℕ
copy_out_lanes zero src out len off = out
copy_out_lanes (suc fuel) src out len off =
    let rest = copy_out_lanes fuel src (out ++ read_bytes src off 4) len (off + 4) in
    if leb (off + 4) len
    then rest
    else if ltb off len
    then out ++ read_bytes src off (len - off)
    else out
