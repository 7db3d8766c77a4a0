-- ===== src/Bytes/Front.antt =====
-- The first message that the consumer has seen: what is read of it, and the ring once it is dropped.
use rust_rb.Base.{ℕ, ◌+◌, ◌-◌, ◌≤◌, ◌≡◌, List, ◌∷◌, arith, length, wrapping_add, wrapping_sub}
use rust_rb.Base.Words.{wrapping_add_assoc, wrapping_add-lt}
use rust_rb.Policy.{publish_batch}
use rust_rb.Policy.Bounds.{publish_batch_bounds}
use rust_rb.Cursor.Invariant.{advance-IsValid}
use rust_rb.Cursor.Counts.{skip-IsValid, count-read}
use rust_rb.Cursor.Publish.{
  read_cursor-advance, write_cursor_cache-advance, anchor-advance, advance-IsPrompt,
}
use rust_rb.Frame.{record_len, decode_record, payload}
use rust_rb.Frame.Fits.{record_pos, IsPlace-after}
use rust_rb.Frame.Trip.{decode_marked}
use rust_rb.Bytes.{Ring, next_msg, view, drop_msg}
use rust_rb.Bytes.Stored.{IsFront, taken, Stored}
use rust_rb.Bytes.Holds.{Holds, place, masks}

-- The consumer past the padding of its first record, and then past the record.
module _ {capacity : ℕ} {r : Ring} {msg : List ℕ} {seen unseen : List (List ℕ)} (pad : ℕ)
    (h : Holds capacity r (msg ∷ seen) unseen)
    (front : IsFront capacity (capacity - 1) r.buffer r.consumer.read_cursor msg pad)
    (fits : taken msg pad ≤ wrapping_sub r.consumer.write_cursor_cache r.consumer.read_cursor)
    (rest : Stored capacity
      (capacity - 1)
      r.buffer
      (wrapping_add r.consumer.read_cursor (taken msg pad))
      seen
      (wrapping_sub r.consumer.write_cursor_cache r.consumer.read_cursor - taken msg pad)) where
  -- The ring that the consumer has after `next_msg`.
  abbrev stepped : Ring
  stepped = record r {
    consumer = record r.consumer { read_cursor = wrapping_add r.consumer.read_cursor pad };
  }

  decoded : decode_record r.buffer r.consumer.mask r.consumer.read_cursor ≡ (
    wrapping_add r.consumer.read_cursor pad,
    length msg,
    record_pos (capacity - 1) r.consumer.read_cursor pad + 4,
  )
  decoded =
      let v = h.engine in
      rw ((masks h).1) (
        decode_marked r.buffer (place h r.consumer.read_cursor v.read_word h.read_aligned)
          front.placed front.short front.header front.mark)

  step_lem :
      (next_msg r ≡ (
        record { len = length msg; at = record_pos (capacity - 1) r.consumer.read_cursor pad + 4 },
        stepped,
      ))
      × (view stepped (record {
        len = length msg;
        at = record_pos (capacity - 1) r.consumer.read_cursor pad + 4;
      })
          ≡ msg)
  unfolding next_msg view payload
  step_lem = (rw decoded, front.body)

  drop-Holds :
      (at : ℕ)
      → Holds capacity (drop_msg stepped (record { len = length msg; at = at })) seen unseen
  unfolding drop_msg
  drop-Holds at =
      let v = h.engine in
      let read = r.consumer.read_cursor in
      let reader = place h read v.read_word h.read_aligned in
      let (v1, less) = skip-IsValid pad v (omega arith) in
      let (room, _) = count-read (record_len (length msg)) v1 (omega arith) in
      let (_, left) = count-read (taken msg pad) v fits in
      let (_, gone) = skip-IsValid (taken msg pad) v fits in
      let on = wrapping_add_assoc read pad (record_len (length msg)) in
      let behind : wrapping_sub r.consumer.write_cursor_cache (wrapping_add read (taken msg pad))
          ≡ wrapping_sub r.consumer.write_cursor_cache read - taken msg pad =
        omega (arith, gone) in
      let batch = publish_batch_bounds capacity 4096 (omega arith) in
      record {
        power = h.power;
        legal = h.legal;
        engine = advance-IsValid (record_len (length msg)) _ _ v1 h.owned room;
        prompt =
            rw v.consumer_mask
              (advance-IsPrompt stepped.consumer r.shared (record_len (length msg))
                (publish_batch capacity 4096) _ batch.0 (wrapping_add-lt read pad)).0;
        owned = rw anchor-advance h.owned;
        storage = h.storage;
        read_aligned =
            rw (read_cursor-advance, on)
              (IsPlace-after reader (taken msg pad) front.placed.multiple).aligned;
        cache_aligned = rw write_cursor_cache-advance h.cache_aligned;
        write_aligned = h.write_aligned;
        seen_stored = rw (write_cursor_cache-advance, read_cursor-advance, on, behind) rest;
        unseen_stored = rw write_cursor_cache-advance h.unseen_stored;
      }

-- The consumer reads the first message that it has seen, and dropping that leaves the rest.
pub next_msg-Holds :
    {capacity : ℕ} {r : Ring} {msg : List ℕ} {seen unseen : List (List ℕ)}
    → Holds capacity r (msg ∷ seen) unseen
    → let (m, r') = next_msg r in (view r' m ≡ msg) × Holds capacity (drop_msg r' m) seen unseen
next_msg-Holds h =
    let (pad, front, fits, rest) = h.seen_stored in
    let (e, body) = step_lem pad h front fits rest in
    rw e (body, drop-Holds pad h front fits rest _)
