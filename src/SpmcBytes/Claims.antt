-- ===== src/SpmcBytes/Claims.antt =====
-- A message sent by a claimed slot against one sent by its bytes.
use rust_rb.Base.{
  ℕ, ◌+◌, ◌-◌, ◌≤◌, ◌<◌, ◌≡◌, ◌∙◌, inl, inr, ap, refl, Bool, Bool-cases, true, false, Option, some,
  none, List, Outcome, returns, panics, length, arith, bit_and, wrapping_add,
}
use native.Mathlib.Decide.{dec_lt}
use rust_rb.Base.Memory.{write_bytes}
use rust_rb.Registry.{detached}
use rust_rb.Frame.{header, padding, frame, max_message_len, record_len, write_frame}
use rust_rb.Frame.Sizes.{max_message_len_bounds}
use rust_rb.Frame.Fits.{IsPlaced, whole, record_pos_eq, frame_lem}
use rust_rb.Frame.Claimed.{write_frame-claimed}
use rust_rb.Bytes.Stored.{taken}
use rust_rb.SpmcBytes.{
  Shared, BytesProducer, WriteSlot, has_space, try_push, push_in, push_framed, try_claim, claim_in,
  claim_framed, fill, commit, payload_at, write_record, publish,
}
use rust_rb.SpmcBytes.Gated.{IsGated, place, has_space_lem}

-- The client of a claim: it serializes the message into the slot that it is given, and commits it.
abbrev pub send_claimed :
    List ℕ
    → Outcome (Option WriteSlot × BytesProducer × Shared)
    → Outcome (Bool × BytesProducer × Shared)
send_claimed msg (panics cause) = panics cause
send_claimed msg (returns (none, p, s)) = returns (false, p, s)
send_claimed msg (returns (some slot, p, s)) =
    let (p', s') = commit p (fill p s slot msg) slot in returns (true, p', s')

module _ {capacity : ℕ} {p : BytesProducer} {s : Shared} (v : IsGated capacity p s)
    (msg : List ℕ) where
  commit-fill :
      (pad : ℕ)
      → IsPlaced capacity (capacity - 1) p.next_seq (length msg) pad
      → length msg < padding
      → let slot : WriteSlot = record { pad = pad; len = length msg } in
        commit p (fill p s slot msg) slot ≡ write_record p s pad (length msg) (some msg)
  unfolding commit fill payload_at write_record
  commit-fill pad f short =
      let mask : p.mask ≡ capacity - 1 = let m = v.mask in omega arith in
      let at = record_pos_eq (place v) (length msg) pad in
      let same : write_frame
            (write_bytes s.buffer (bit_and (wrapping_add p.next_seq pad) p.mask + header) msg)
            p.mask p.next_seq pad (length msg) none
          ≡ write_frame s.buffer p.mask p.next_seq pad (length msg) (some msg) =
        rw (mask, ← at) (write_frame-claimed s.buffer msg (place v) f short) in
      ap (λ b. publish p (record s { buffer = b }) (pad + record_len (length msg))) same

-- Claiming a slot of a message's length, serializing the message into it and committing it does exactly
-- what pushing the message does, panics and refusals included.
pub try_claim-try_push :
    {capacity : ℕ} {p : BytesProducer} {s : Shared} (msg : List ℕ)
    → IsGated capacity p s
    → p.next_seq + capacity + capacity < detached
    → send_claimed msg (try_claim p s (length msg)) ≡ try_push p s msg
unfolding try_claim claim_in claim_framed try_push push_in push_framed
try_claim-try_push {capacity} {p} {s} msg v range =
    let mask : p.mask ≡ capacity - 1 = let m = v.mask in omega arith in
    let at = ap (λ (m : ℕ). frame m p.next_seq (length msg)) mask in
    let (legal, long) = frame_lem (place v) (length msg) in
    elim (dec_lt (max_message_len capacity) (length msg)) [
      | yes over ↦ rw (at ∙ long over) refl
      | no low ↦
          let k : length msg ≤ max_message_len capacity = omega arith in
          let (pad, framed, f, _, _) = legal k in
          let (_, short) =
            max_message_len_bounds capacity (length msg) v.legal v.small (whole (place v)) k in
          let (_, _, _, (v', next, _)) =
            has_space_lem v (taken msg pad) f.total (let t = f.total in omega arith) in
          let same = commit-fill v' msg pad (rw (← next) at f) short in
          rw (at ∙ framed) (elim (Bool-cases (has_space p s (taken msg pad)).0) [
            | inl passed ↦
                rw passed (ap (λ (t : BytesProducer × Shared). returns (true, t.0, t.1)) same)
            | inr failed ↦ rw failed refl
          ])
    ]
