-- ===== src/SpmcBytes/Holds.antt =====
-- Which messages a consumer still has to read: those that it has seen published, and those behind.
use rust_rb.Base.{
  ℕ, ◌+◌, ◌-◌, ◌%◌, ◌≤◌, ◌<◌, ◌≡◌, ◌∙◌, refl, ap, subst, true, some, List, [], ◌∷◌, ◌++◌, arith,
  length, wrapping_add, wrapping_sub,
}
use rust_rb.Base.Words.{wrapping_sub_plain, wrapping_add_plain}
use rust_rb.Registry.{Slot, slot_at, detached}
use rust_rb.Registry.Scan.{Gates}
use rust_rb.Registry.Change.{Within-slot}
use rust_rb.Frame.{padding, write_frame}
use rust_rb.Frame.Fits.{IsPlace, IsPlaced}
use rust_rb.Frame.Trip.{header_read, payload_read, mark_read}
use rust_rb.Bytes.Stored.{
  IsFront, taken, Stored, Agree, Agree-after, Stored-congr, Stored-append, write_frame-Agree,
}
use rust_rb.SpmcBytes.{Shared, BytesProducer, BytesConsumer, publish, write_record}
use rust_rb.SpmcBytes.Gated.{IsGated, place}

-- The consumer owns a marked slot with its published cursor, and has the messages left to read.
pub record Holds (capacity : ℕ) (s : Shared) (c : BytesConsumer) (seen unseen : List (List ℕ))
    : Type 0 where
  pub mask : c.mask + 1 ≡ capacity
  pub slot : slot_at s.registry c.slot_idx ≡ record { active = true; cursor = c.published }
  pub published_read : c.published ≤ c.read_cursor
  pub read_cached : c.read_cursor ≤ c.write_cache
  pub cached_written : c.write_cache ≤ s.write_cursor
  pub written_word : s.write_cursor < detached
  pub read_aligned : c.read_cursor % 4 ≡ 0
  pub cache_aligned : c.write_cache % 4 ≡ 0
  pub seen_stored :
      Stored capacity (capacity - 1) s.buffer c.read_cursor seen (c.write_cache - c.read_cursor)
  pub unseen_stored :
      Stored capacity (capacity - 1) s.buffer c.write_cache unseen (s.write_cursor - c.write_cache)

pub Holds-Gates :
    {capacity : ℕ} {s : Shared} {c : BytesConsumer} {seen unseen : List (List ℕ)}
    → Holds capacity s c seen unseen
    → Gates (slot_at s.registry c.slot_idx)
Holds-Gates h =
    let w = h.written_word in rw h.slot (record { active = refl; live = λ e. absurd (omega arith) })

module _ {capacity : ℕ} {p : BytesProducer} {s : Shared} {c : BytesConsumer}
    {seen unseen : List (List ℕ)} (v : IsGated capacity p s)
    (h : Holds capacity s c seen unseen) where
  -- A consumer lies within the lag of the cached minimum.
  pub Holds-lag : s.write_cursor ≤ c.published + wrapping_sub p.next_seq p.cached_min
  Holds-lag =
      let (_, l) =
        Within-slot p.next_seq (wrapping_sub p.next_seq p.cached_min) s.registry v.gated c.slot_idx
          (Holds-Gates h) in
      let at = ap (λ (t : Slot). t.cursor) h.slot in
      let plain = wrapping_sub_plain p.next_seq c.published (omega arith) (omega arith) in
      omega (arith, rw at at l)

  pub cursor-IsPlace :
      (cursor : ℕ)
      → cursor ≤ s.write_cursor
      → cursor % 4 ≡ 0
      → IsPlace capacity (capacity - 1) cursor
  cursor-IsPlace cursor low a = record {
    power = v.power;
    legal = v.legal;
    small = v.small;
    mask_eq = refl;
    word = (let w = h.written_word in omega arith);
    aligned = a;
  }

  -- A message pushed with room for it joins the messages that the consumer has not seen.
  pub write_record-Holds :
      (pad : ℕ) (msg : List ℕ)
      → IsPlaced capacity (capacity - 1) p.next_seq (length msg) pad
      → length msg < padding
      → wrapping_sub p.next_seq p.cached_min + taken msg pad ≤ capacity
      → p.next_seq + capacity + taken msg pad < detached
      → Holds capacity
          (write_record p s pad (length msg) (some msg)).1
          c
          seen
          (unseen ++ (msg ∷ []))
  unfolding write_record publish
  write_record-Holds pad msg f short room range =
      let mask : p.mask ≡ capacity - 1 = let m = v.mask in omega arith in
      let b = s.buffer in
      let w = p.next_seq in
      let total = taken msg pad in
      let b' = write_frame b (capacity - 1) w pad (length msg) (some msg) in
      let lag = Holds-lag in
      let next = wrapping_add_plain w total (omega arith) in
      let at = place v in
      let reader = cursor-IsPlace c.read_cursor (omega arith) h.read_aligned in
      let cached = cursor-IsPlace c.write_cache h.cached_written h.cache_aligned in
      let used = w - c.read_cursor in
      let to_write : wrapping_add c.read_cursor used ≡ w =
        wrapping_add_plain c.read_cursor used (omega arith) ∙ omega arith in
      let from_cache : wrapping_add c.write_cache (w - c.write_cache) ≡ w =
        wrapping_add_plain c.write_cache (w - c.write_cache) (omega arith) ∙ omega arith in
      let to_cache : wrapping_add c.read_cursor (c.write_cache - c.read_cursor) ≡ c.write_cache =
        wrapping_add_plain c.read_cursor (c.write_cache - c.read_cursor) (omega arith)
        ∙ omega arith in
      let kept : Agree (capacity - 1) c.read_cursor used b b' =
        subst
          (λ t.
            Agree (capacity - 1) c.read_cursor used b
              (write_frame b (capacity - 1) t pad (length msg) (some msg)))
          to_write
          (write_frame-Agree used (length msg) b (some msg) reader (rw to_write at) (rw to_write f)
            v.storage short refl (omega arith)) in
      let behind = rw to_cache at (
        Agree-after (capacity - 1) c.read_cursor used (c.write_cache - c.read_cursor) b b'
          (omega arith) kept) in
      let front : IsFront capacity (capacity - 1) b' w msg pad = record {
        placed = f;
        short = short;
        header = header_read at f b v.storage short (some msg) refl;
        mark = mark_read at f b v.storage short (some msg) refl;
        body = payload_read at f b v.storage short (some msg) refl msg refl;
      } in
      let single : Stored capacity (capacity - 1) b' w (msg ∷ []) total =
        (pad, front, omega arith, omega arith) in
      let more : w - c.write_cache + total ≡ wrapping_add w total - c.write_cache = omega arith in
      rw mask (record {
        mask = h.mask;
        slot = h.slot;
        published_read = h.published_read;
        read_cached = h.read_cached;
        cached_written = omega arith;
        written_word = omega arith;
        read_aligned = h.read_aligned;
        cache_aligned = h.cache_aligned;
        seen_stored =
            Stored-congr capacity (capacity - 1) seen _ b b' reader (λ i hi. kept i (omega arith))
              h.seen_stored;
        unseen_stored = rw (← more) (
            Stored-append capacity (capacity - 1) unseen (msg ∷ []) b' c.write_cache _ total
              cached.word
              (Stored-congr capacity (capacity - 1) unseen _ b b' cached
                (λ i hi. behind i (omega arith)) (let e = v.written in rw e at h.unseen_stored))
              (rw from_cache single));
      })
