-- ===== src/AtomicCopy/Whole.antt =====
-- What one access of a copy does, and what the copies give where nothing interferes.
use rust_rb.Base.{
  ℕ, zero, suc, ◌+◌, ◌-◌, ◌*◌, ◌/◌, ◌%◌, ◌≤◌, ◌<◌, ◌≡◌, ◌∙◌, refl, ap, inl, inr, Bool-cases, List,
  [], ◌∷◌, ◌++◌, arith, length, set, length-set, get_or-set_self, ltb, leb, replicate,
}
use native.Mathlib.Decide.{ℕ_discrete, dec_lt}
use rust_rb.Base.Memory.{
  byte, read_bytes, write_bytes, length-write_bytes, byte-write_bytes, read_bytes_congr,
}
use rust_rb.AtomicCopy.{
  chunk_len, store_chunk, load_chunk, copy_in_words, copy_out_words, write_payload, read_payload,
  copy_in_lanes, copy_out_lanes,
}

pub length-read_bytes : (xs : List ℕ) (at n : ℕ) → length (read_bytes xs at n) ≡ n
unfolding read_bytes
length-read_bytes xs at zero = refl
length-read_bytes xs at (suc n) = ap suc (length-read_bytes xs (at + 1) n)

read_bytes-append :
    (xs : List ℕ) (at n m : ℕ)
    → read_bytes xs at n ++ read_bytes xs (at + n) m ≡ read_bytes xs at (n + m)
unfolding read_bytes
read_bytes-append xs at zero m =
    ap (λ (k : ℕ). read_bytes xs k m) (omega arith) ∙ ap (read_bytes xs at) (omega arith)
read_bytes-append xs at (suc n) m =
    let e : at + suc n ≡ at + 1 + n = omega arith in
    let e' : suc n + m ≡ suc (n + m) = omega arith in
    rw (e, e') (ap (λ l. byte xs at ∷ l) (read_bytes-append xs (at + 1) n m))

read_bytes-append_start :
    (xs : List ℕ) (off m : ℕ)
    → read_bytes xs 0 off ++ read_bytes xs off m ≡ read_bytes xs 0 (off + m)
read_bytes-append_start xs off m =
    ap (λ (k : ℕ). read_bytes xs 0 off ++ read_bytes xs k m) (omega arith)
    ∙ read_bytes-append xs 0 off m

read_bytes-shift :
    (x : ℕ) (xs : List ℕ) (at n : ℕ) → read_bytes (x ∷ xs) (suc at) n ≡ read_bytes xs at n
unfolding read_bytes
read_bytes-shift x xs at zero = refl
read_bytes-shift x xs at (suc n) =
    let e : suc at + 1 ≡ suc (at + 1) = omega arith in
    rw e (ap (λ l. byte xs at ∷ l) (read_bytes-shift x xs (at + 1) n))

pub read_bytes-all : (xs : List ℕ) → read_bytes xs 0 (length xs) ≡ xs
unfolding read_bytes
read_bytes-all [] = refl
read_bytes-all (x ∷ xs) =
    let e : 0 + 1 ≡ suc 0 = omega arith in
    rw e (ap (λ l. x ∷ l) (read_bytes-shift x xs 0 (length xs) ∙ read_bytes-all xs))

-- The bytes of a range copied to the same place are those of the source.
pub byte-copied :
    (n : ℕ) (src dst : List ℕ) (at i : ℕ)
    → at ≤ i
    → i < at + n
    → at + n ≤ length dst
    → byte (write_bytes dst at (read_bytes src at n)) i ≡ byte src i
unfolding read_bytes write_bytes
byte-copied zero src dst at i low high inside = absurd (omega arith)
byte-copied (suc n) src dst at i low high inside = elim (ℕ_discrete i at) [
  | yes e ↦ rw e (
      byte-write_bytes (read_bytes src (at + 1) n) (set dst at (byte src at)) (at + 1) at
        (λ h. absurd (omega arith))
      ∙ get_or-set_self dst at (byte src at) 0 (omega arith))
  | no ne ↦
      byte-copied n src (set dst at (byte src at)) (at + 1) i (omega arith) (omega arith)
        (omega (arith, length-set dst at (byte src at)))
]

pub chunk_len_bounds :
    (len off : ℕ) → off < len → (1 ≤ chunk_len len off) × (off + chunk_len len off ≤ len)
chunk_len_bounds len off h = ground arith

-- A store leaves what was copied before, and copies its chunk.
pub store_chunk_lem :
    (src dst : List ℕ) (len off : ℕ)
    → off < len
    → length dst ≡ len
    → ((i : ℕ) → i < off → byte dst i ≡ byte src i)
    → (length (store_chunk src dst len off) ≡ len)
      × ((i : ℕ) → i < off + chunk_len len off → byte (store_chunk src dst len off) i ≡ byte src i)
unfolding store_chunk
store_chunk_lem src dst len off h size before =
    let n = chunk_len len off in
    let (pos, fits) = chunk_len_bounds len off h in
    (
      length-write_bytes (read_bytes src off n) dst off ∙ size,
      λ i below. elim (dec_lt i off) [
        | yes old ↦
            byte-write_bytes (read_bytes src off n) dst off i (λ k. absurd (omega arith))
            ∙ before i old
        | no new ↦ byte-copied n src dst off i (omega arith) below (omega arith)
      ],
    )

-- A load adds its chunk to what was copied before.
pub load_chunk_lem :
    (src message : List ℕ) (len off : ℕ)
    → off < len
    → ((i : ℕ) → i < len → byte src i ≡ byte message i)
    → load_chunk src (read_bytes message 0 off) len off
      ≡ read_bytes message 0 (off + chunk_len len off)
unfolding load_chunk
load_chunk_lem src message len off h same =
    let n = chunk_len len off in
    let (pos, fits) = chunk_len_bounds len off h in
    ap (λ l. read_bytes message 0 off ++ l)
      (read_bytes_congr n src message off (λ i low high. same i (omega arith)))
    ∙ read_bytes-append_start message off n

copy_in_words_lem :
    (fuel : ℕ) (src dst : List ℕ) (len off : ℕ)
    → len ≤ fuel + off
    → length dst ≡ len
    → ((i : ℕ) → i < off → byte dst i ≡ byte src i)
    → (length (copy_in_words fuel src dst len off) ≡ len)
      × ((i : ℕ) → i < len → byte (copy_in_words fuel src dst len off) i ≡ byte src i)
unfolding copy_in_words
copy_in_words_lem zero src dst len off fits size before = (size, λ i h. before i (omega arith))
copy_in_words_lem (suc fuel) src dst len off fits size before = elim (Bool-cases (ltb off len)) [
  | inl more ↦
      let h : off < len = ground arith in
      let (size', before') = store_chunk_lem src dst len off h size before in
      let (pos, _) = chunk_len_bounds len off h in
      rw more (
        copy_in_words_lem fuel src (store_chunk src dst len off) len (off + chunk_len len off)
          (omega arith) size' before')
  | inr done ↦ let e : len ≤ off = ground arith in rw done (size, λ i h. before i (omega arith))
]

copy_out_words_lem :
    (fuel : ℕ) (src : List ℕ) (len off : ℕ)
    → len ≤ fuel + off
    → off ≤ len
    → copy_out_words fuel src (read_bytes src 0 off) len off ≡ read_bytes src 0 len
unfolding copy_out_words
copy_out_words_lem zero src len off fits low = ap (read_bytes src 0) (omega arith)
copy_out_words_lem (suc fuel) src len off fits low = elim (Bool-cases (ltb off len)) [
  | inl more ↦
      let h : off < len = ground arith in
      let (pos, inside) = chunk_len_bounds len off h in
      rw (more, load_chunk_lem src src len off h (λ i _. refl))
        (copy_out_words_lem fuel src len (off + chunk_len len off) (omega arith) inside)
  | inr done ↦ let e : off ≡ len = ground arith in rw done (ap (read_bytes src 0) e)
]

-- A payload copied in and out again, with nothing between, is the payload.
pub read_payload-write_payload :
    (dst value : List ℕ)
    → length dst ≡ length value
    → read_payload (write_payload dst value (length value)) (length value) ≡ value
unfolding read_payload write_payload read_bytes
read_payload-write_payload dst value size =
    let n = length value in
    let (_, same) =
      copy_in_words_lem n value dst n 0 (omega arith) size (λ i h. absurd (omega arith)) in
    copy_out_words_lem n (copy_in_words n value dst n 0) n 0 (omega arith) (omega arith)
    ∙ read_bytes_congr n (copy_in_words n value dst n 0) value 0 (λ i _ h. same i (omega arith))
    ∙ read_bytes-all value

-- What `read_payload` gives of a payload that stays as it is.
pub read_payload_lem : (src : List ℕ) → read_payload src (length src) ≡ src
unfolding read_payload read_bytes
read_payload_lem src =
    copy_out_words_lem (length src) src (length src) 0 (omega arith) (omega arith)
    ∙ read_bytes-all src

write_bytes-append :
    (dst : List ℕ) (at : ℕ) (xs ys : List ℕ)
    → write_bytes dst at (xs ++ ys) ≡ write_bytes (write_bytes dst at xs) (at + length xs) ys
unfolding write_bytes
write_bytes-append dst at [] ys = ap (λ (k : ℕ). write_bytes dst k ys) (omega arith)
write_bytes-append dst at (x ∷ xs) ys =
    write_bytes-append (set dst at x) (at + 1) xs ys
    ∙ ap (λ (k : ℕ). write_bytes (write_bytes (set dst at x) (at + 1) xs) k ys) (omega arith)

-- The partial lane: its bytes of the payload, and zeros behind them.
lane_lem :
    (src dst : List ℕ) (off n i : ℕ)
    → off ≤ i
    → i < off + n
    → off + n ≤ length dst
    → (byte (write_bytes dst off (read_bytes src off n ++ replicate (4 - n) 0)) i ≡ byte src i)
lane_lem src dst off n i low high inside =
    let size = length-read_bytes src off n in
    ap (λ l. byte l i) (write_bytes-append dst off (read_bytes src off n) (replicate (4 - n) 0))
    ∙ byte-write_bytes (replicate (4 - n) 0) (write_bytes dst off (read_bytes src off n)) _ i
        (λ k. absurd (omega arith))
    ∙ byte-copied n src dst off i low high inside

copy_in_lanes_lem :
    (fuel : ℕ) (src dst : List ℕ) (len off : ℕ)
    → len ≤ fuel + off
    → off % 4 ≡ 0
    → (len + 3) / 4 * 4 ≤ length dst
    → ((i : ℕ) → i < off → i < len → byte dst i ≡ byte src i)
    → (i : ℕ) → i < len
    → byte (copy_in_lanes fuel src dst len off) i ≡ byte src i
unfolding copy_in_lanes
copy_in_lanes_lem zero src dst len off fits lane room before i h = before i (omega arith) h
copy_in_lanes_lem (suc fuel) src dst len off fits lane room before i h =
    elim (Bool-cases (leb (off + 4) len)) [
      | inl more ↦
          let k : off + 4 ≤ len = ground arith in
          rw more (
            copy_in_lanes_lem fuel src (write_bytes dst off (read_bytes src off 4)) len (off + 4)
              (omega arith) (omega arith)
              (omega (arith, length-write_bytes (read_bytes src off 4) dst off))
              (λ j low high. elim (dec_lt j off) [
                | yes old ↦
                    byte-write_bytes (read_bytes src off 4) dst off j (λ k. absurd (omega arith))
                    ∙ before j old high
                | no new ↦ byte-copied 4 src dst off j (omega arith) low (omega arith)
              ])
              i h)
      | inr last ↦
          let k : len < off + 4 = ground arith in
          elim (Bool-cases (ltb off len)) [
            | inr done ↦
                let e : len ≤ off = ground arith in rw (last, done) (before i (omega arith) h)
            | inl part ↦
                let e : off < len = ground arith in
                rw (last, part)
                  (elim (dec_lt i off) [
                    | yes old ↦
                        byte-write_bytes
                          (read_bytes src off (len - off) ++ replicate (4 - (len - off)) 0) dst off
                          i (λ k. absurd (omega arith))
                        ∙ before i old h
                    | no new ↦
                        lane_lem src dst off (len - off) i (omega arith) (omega arith) (omega arith)
                  ])
          ]
    ]

copy_out_lanes_lem :
    (fuel : ℕ) (src : List ℕ) (len off : ℕ)
    → len ≤ fuel + off
    → off ≤ len
    → copy_out_lanes fuel src (read_bytes src 0 off) len off ≡ read_bytes src 0 len
unfolding copy_out_lanes
copy_out_lanes_lem zero src len off fits low = ap (read_bytes src 0) (omega arith)
copy_out_lanes_lem (suc fuel) src len off fits low = elim (Bool-cases (leb (off + 4) len)) [
  | inl more ↦
      let k : off + 4 ≤ len = ground arith in
      rw (more, read_bytes-append_start src off 4)
        (copy_out_lanes_lem fuel src len (off + 4) (omega arith) k)
  | inr last ↦
      let k : len < off + 4 = ground arith in
      elim (Bool-cases (ltb off len)) [
        | inl part ↦
            let e : off < len = ground arith in
            rw (last, part)
              (read_bytes-append_start src off (len - off) ∙ ap (read_bytes src 0) (omega arith))
        | inr done ↦ let e : off ≡ len = ground arith in rw (last, done) (ap (read_bytes src 0) e)
      ]
]

-- Copied in and out again in lanes, a message is itself, whatever the footprint held, as long as the
-- footprint has room for the last lane.
pub copy_out_lanes-copy_in_lanes :
    (dst message : List ℕ)
    → (length message + 3) / 4 * 4 ≤ length dst
    → copy_out_lanes
        (length message)
        (copy_in_lanes (length message) message dst (length message) 0)
        []
        (length message)
        0
      ≡ message
unfolding read_bytes
copy_out_lanes-copy_in_lanes dst message room =
    let n = length message in
    let same =
      copy_in_lanes_lem n message dst n 0 (omega arith) (omega arith) room
        (λ i h _. absurd (omega arith)) in
    copy_out_lanes_lem n (copy_in_lanes n message dst n 0) n 0 (omega arith) (omega arith)
    ∙ read_bytes_congr n (copy_in_lanes n message dst n 0) message 0 (λ i _ h. same i (omega arith))
    ∙ read_bytes-all message
