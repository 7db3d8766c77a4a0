-- ===== src/Bytes/Holds.antt =====
-- Which messages a byte ring holds: those that the consumer has seen published, and those behind.
use rust_rb.Base.{
  ℕ, ◌+◌, ◌-◌, ◌%◌, ◌^◌, ◌≤◌, ◌<◌, ◌≡◌, ◌∙◌, refl, subst, true, Option, List, [], ◌∷◌, ◌++◌, arith,
  IsPow2, length, length-replicate, word_mod, wrapping_sub,
}
use rust_rb.Base.Memory.{read_bytes}
use rust_rb.Base.Words.{wrapping_sub_self}
use rust_rb.Policy.{publish_batch}
use rust_rb.Policy.Bounds.{publish_batch_bounds}
use rust_rb.Cursor.{owns_ring, publish, channel, refresh}
use rust_rb.Cursor.Invariant
use rust_rb.Cursor.Invariant.{
  ahead, channel-IsValid, publish-IsValid, refresh-IsValid, advance-IsValid,
}
use rust_rb.Cursor.Counts.{count_seen, count_unseen-write}
use rust_rb.Cursor.Publish.{IsPrompt, refresh-IsPrompt}
use rust_rb.Frame.{padding, write_frame}
use rust_rb.Frame.Fits.{IsPlace, IsPlaced, record_pos, IsPlace-after}
use rust_rb.Frame.Trip.{Fills, header_read, mark_read, length-write_frame}
use rust_rb.Bytes.{Ring, fresh, write_record, max_publish_batch_bytes}
use rust_rb.Bytes.Stored.{
  IsFront, taken, Stored, Agree, Agree-after, Stored-congr, Stored-append, write_frame-Agree,
}

pub record Holds (capacity : ℕ) (r : Ring) (seen unseen : List (List ℕ)) : Type 0 where
  pub power : IsPow2 capacity
  pub legal : 8 ≤ capacity
  pub engine : Invariant.IsValid capacity r.producer r.consumer r.shared
  pub prompt : IsPrompt (publish_batch capacity max_publish_batch_bytes) r.consumer
  pub owned : owns_ring r.consumer.anchor ≡ true
  pub storage : length r.buffer ≡ capacity
  pub read_aligned : r.consumer.read_cursor % 4 ≡ 0
  pub cache_aligned : r.consumer.write_cursor_cache % 4 ≡ 0
  pub write_aligned : r.producer.write_cursor % 4 ≡ 0
  pub seen_stored :
      Stored capacity
        (capacity - 1)
        r.buffer
        r.consumer.read_cursor
        seen
        (wrapping_sub r.consumer.write_cursor_cache r.consumer.read_cursor)
  pub unseen_stored :
      Stored capacity
        (capacity - 1)
        r.buffer
        r.consumer.write_cursor_cache
        unseen
        (wrapping_sub r.producer.write_cursor r.consumer.write_cursor_cache)

pub fresh-Holds :
    (capacity : ℕ)
    → IsPow2 capacity
    → 8 ≤ capacity
    → capacity ≤ 2 ^ 63
    → Holds capacity (fresh capacity) [] []
unfolding fresh channel wrapping_sub owns_ring
fresh-Holds capacity p legal small = record {
  power = p;
  legal = legal;
  engine = channel-IsValid capacity (omega arith) small;
  prompt = omega (arith, publish_batch_bounds capacity 4096);
  owned = refl;
  storage = length-replicate capacity 0;
  read_aligned = refl;
  cache_aligned = refl;
  write_aligned = refl;
  seen_stored = refl;
  unseen_stored = refl;
}

module _ {capacity : ℕ} {r : Ring} {seen unseen : List (List ℕ)}
    (h : Holds capacity r seen unseen) where
  pub place :
      (cursor : ℕ) → cursor < word_mod → cursor % 4 ≡ 0 → IsPlace capacity (capacity - 1) cursor
  place cursor w a =
      let v = h.engine in
      record {
        power = h.power;
        legal = h.legal;
        small = v.small;
        mask_eq = refl;
        word = w;
        aligned = a;
      }

  pub masks : (r.producer.mask ≡ capacity - 1) × (r.consumer.mask ≡ capacity - 1)
  masks = let v = h.engine in omega arith

  -- A reload shows the consumer all that is published.
  pub refresh-Holds :
      Holds capacity (record r { consumer = refresh r.consumer r.shared }) (seen ++ unseen) []
  unfolding refresh
  refresh-Holds =
      let v = h.engine in
      let (sum, to_cache, to_write, _) = count_seen v in
      record {
        power = h.power;
        legal = h.legal;
        engine = refresh-IsValid v;
        prompt = refresh-IsPrompt _ v h.prompt;
        owned = h.owned;
        storage = h.storage;
        read_aligned = h.read_aligned;
        cache_aligned = rw v.write_published h.write_aligned;
        write_aligned = h.write_aligned;
        seen_stored =
            rw (v.write_published, ← sum)
              (Stored-append capacity (capacity - 1) seen unseen r.buffer r.consumer.read_cursor _ _
                v.read_word h.seen_stored (rw to_cache h.unseen_stored));
        unseen_stored = rw v.write_published (wrapping_sub_self _ v.write_word);
      }

  -- A record written with room for it joins the messages not yet seen, if its payload is the message:
  -- copied from a source, or written in place before.
  pub write_record-Holds :
      (pad : ℕ) (msg : List ℕ) (src : Option (List ℕ))
      → IsPlaced capacity (capacity - 1) r.producer.write_cursor (length msg) pad
      → length msg < padding
      → ahead r.producer r.producer.write_cursor + taken msg pad ≤ capacity
      → Fills (length msg) src
      → read_bytes
          (write_record r pad (length msg) src).buffer
          (record_pos (capacity - 1) r.producer.write_cursor pad + 4)
          (length msg)
        ≡ msg
      → Holds capacity (write_record r pad (length msg) src) seen (unseen ++ (msg ∷ []))
  unfolding write_record publish
  write_record-Holds pad msg src f short room fills body =
      let v = h.engine in
      let (mask, _) = masks in
      let b = r.buffer in
      let w = r.producer.write_cursor in
      let b' = write_frame b (capacity - 1) w pad (length msg) src in
      let (sum, to_cache, to_write, from_cache) = count_seen v in
      let (more, enough) = count_unseen-write (taken msg pad) v room in
      let at = place w v.write_word h.write_aligned in
      let reader = place r.consumer.read_cursor v.read_word h.read_aligned in
      let cached = place r.consumer.write_cursor_cache v.write_cache_word h.cache_aligned in
      let kept : Agree (capacity - 1) r.consumer.read_cursor (wrapping_sub w r.consumer.read_cursor)
          b b' =
        subst
          (λ t.
            Agree (capacity - 1) r.consumer.read_cursor (wrapping_sub w r.consumer.read_cursor) b
              (write_frame b (capacity - 1) t pad (length msg) src))
          to_write
          (write_frame-Agree (wrapping_sub w r.consumer.read_cursor) (length msg) b src reader
            (rw to_write at) (rw to_write f) h.storage short fills enough) in
      let behind = rw to_cache at (
        Agree-after (capacity - 1) r.consumer.read_cursor (wrapping_sub w r.consumer.read_cursor)
          (wrapping_sub r.consumer.write_cursor_cache r.consumer.read_cursor) b b' (omega arith)
          kept) in
      let front : IsFront capacity (capacity - 1) b' w msg pad = record {
        placed = f;
        short = short;
        header = header_read at f b h.storage short src fills;
        mark = mark_read at f b h.storage short src fills;
        body = rw mask at body;
      } in
      let single : Stored capacity (capacity - 1) b' w (msg ∷ []) (taken msg pad) =
        (pad, front, omega arith, omega arith) in
      record {
        power = h.power;
        legal = h.legal;
        engine = publish-IsValid (taken msg pad) v room;
        prompt = h.prompt;
        owned = h.owned;
        storage = rw mask (length-write_frame at f b h.storage short src fills ∙ h.storage);
        read_aligned = h.read_aligned;
        cache_aligned = h.cache_aligned;
        write_aligned = (IsPlace-after at (taken msg pad) f.multiple).aligned;
        seen_stored = rw mask (
            Stored-congr capacity (capacity - 1) seen _ b b' reader (λ i hi. kept i (omega arith))
              h.seen_stored);
        unseen_stored =
            rw (mask, more)
              (Stored-append capacity (capacity - 1) unseen (msg ∷ []) b'
                r.consumer.write_cursor_cache _ (taken msg pad) v.write_cache_word
                (Stored-congr capacity (capacity - 1) unseen _ b b' cached
                  (λ i hi. behind i (omega arith)) h.unseen_stored)
                (rw from_cache single));
      }
