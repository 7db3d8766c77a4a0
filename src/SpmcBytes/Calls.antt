-- ===== src/SpmcBytes/Calls.antt =====
-- What `try_pop` answers a consumer of the message ring, and what dropping the message leaves.
use rust_rb.Base.{
  ℕ, ◌+◌, ◌-◌, ◌≤◌, ◌≡◌, ◌∙◌, refl, ap, subst, inl, inr, Bool-cases, true, false, not, ◌==◌, List,
  [], ◌∷◌, ◌++◌, append-nil, arith, wrapping_add, length, if◌then◌else◌,
}
use rust_rb.Base.Words.{wrapping_sub_plain, wrapping_add_plain, wrapping_add_assoc}
use rust_rb.Frame.{record_len, decode_record, payload}
use rust_rb.Frame.Sizes.{record_len_bounds}
use rust_rb.Frame.Fits.{record_pos, IsPlace-after}
use rust_rb.Frame.Trip.{decode_marked}
use rust_rb.Bytes.Stored.{IsFront, taken, Stored, Stored-append}
use rust_rb.SpmcBytes.{Shared, BytesProducer, BytesConsumer}
use rust_rb.SpmcBytes.Consumers.{
  available_cached, refresh, has_item, check_closed, Msg, next_msg, view, drop_msg, Popped, closed,
  nothing, item, try_pop,
}
use rust_rb.SpmcBytes.Gated.{IsGated}
use rust_rb.SpmcBytes.Holds.{Holds, cursor-IsPlace}
use rust_rb.SpmcBytes.Push.{Queue}
use rust_rb.SpmcBytes.Pop.{Keeps, IsPrompt, answers, advance_lem}

-- What a consumer has of its first message, and what dropping that leaves.
abbrev pub Serves :
    ℕ
    → BytesProducer
    → Shared
    → BytesConsumer
    → List ℕ
    → List (List ℕ)
    → Msg
    → BytesConsumer
    → Type 0
Serves capacity p s c msg rest m c' =
    let (c'', s') = drop_msg c' s m in
    (view s m ≡ msg)
    × Queue capacity s' c'' rest
    × Keeps capacity p s c.slot_idx s'
    × IsPrompt capacity c''
    × (c''.slot_idx ≡ c.slot_idx)
    × (answers capacity s c' ≡ true → c''.published ≡ c''.read_cursor)

module _ {capacity : ℕ} {p : BytesProducer} {s : Shared} {c : BytesConsumer} {msg : List ℕ}
    {seen unseen : List (List ℕ)} (pad : ℕ) (v : IsGated capacity p s)
    (h : Holds capacity s c (msg ∷ seen) unseen)
    (front : IsFront capacity (capacity - 1) s.buffer c.read_cursor msg pad)
    (fits : taken msg pad ≤ c.write_cache - c.read_cursor)
    (rest : Stored capacity
      (capacity - 1)
      s.buffer
      (wrapping_add c.read_cursor (taken msg pad))
      seen
      (c.write_cache - c.read_cursor - taken msg pad)) where
  -- The consumer past the padding of its first message.
  abbrev stepped : BytesConsumer
  stepped = record c { read_cursor = wrapping_add c.read_cursor pad }

  abbrev found : Msg
  found = record { len = length msg; at = record_pos (capacity - 1) c.read_cursor pad + 4 }

  next_msg_eq : next_msg c s ≡ (found, stepped)
  unfolding next_msg
  next_msg_eq =
      let mask : c.mask ≡ capacity - 1 = let m = h.mask in omega arith in
      let e : decode_record s.buffer c.mask c.read_cursor ≡ (
        wrapping_add c.read_cursor pad,
        length msg,
        record_pos (capacity - 1) c.read_cursor pad + 4,
      ) =
        ap (λ (m : ℕ). decode_record s.buffer m c.read_cursor) mask
        ∙ decode_marked s.buffer
            (cursor-IsPlace v h c.read_cursor
              (let m = h.read_cached in let w = h.cached_written in omega arith) h.read_aligned)
            front.placed front.short front.header front.mark in
      rw e refl

  dropped-Holds :
      Holds capacity s
        (record stepped {
          read_cursor = wrapping_add stepped.read_cursor (record_len (length msg));
        })
        seen
        unseen
  dropped-Holds =
      let total = taken msg pad in
      let next = wrapping_add_plain c.read_cursor total (
        let w = h.written_word in
        let m = h.cached_written in let l = h.read_cached in omega arith) in
      let on = wrapping_add_assoc c.read_cursor pad (record_len (length msg)) in
      let left : c.write_cache - c.read_cursor - total
          ≡ c.write_cache - wrapping_add c.read_cursor total =
        omega arith in
      let reader =
        cursor-IsPlace v h c.read_cursor
          (let m = h.read_cached in let w = h.cached_written in omega arith) h.read_aligned in
      rw on (record {
        mask = h.mask;
        slot = h.slot;
        published_read = (let l = h.published_read in omega arith);
        read_cached = (let l = h.read_cached in omega arith);
        cached_written = h.cached_written;
        written_word = h.written_word;
        read_aligned = (IsPlace-after reader total front.placed.multiple).aligned;
        cache_aligned = h.cache_aligned;
        seen_stored = rw (← left) rest;
        unseen_stored = h.unseen_stored;
      })

  first-Serves : Serves capacity p s c msg (seen ++ unseen) found stepped
  unfolding view payload drop_msg
  first-Serves =
      let (held, keeps, prompt, same, answered) =
        advance_lem stepped (record_len (length msg)) v dropped-Holds in
      (front.body, (seen, unseen, held, refl), keeps, prompt, same, answered)

-- What `try_pop` may answer of a consumer with the messages.
abbrev pub Takes :
    ℕ → BytesProducer → Shared → BytesConsumer → List (List ℕ) → Popped × BytesConsumer → Type 0
Takes capacity p s c [] (out, c') =
    (out ≡ (if s.closed == 0 then nothing else closed))
    × Queue capacity s c' []
    × (c'.slot_idx ≡ c.slot_idx)
Takes capacity p s c (msg ∷ rest) (out, c') =
    (m : Msg) × (out ≡ item m) × Serves capacity p s c msg rest m c'

module _ (c : BytesConsumer) (s : Shared) where
  has_item_known : 1 ≤ available_cached c → has_item c s ≡ (true, c)
  unfolding has_item
  has_item_known h = ground arith

  has_item_refreshed :
      available_cached c ≡ 0
      → 1 ≤ available_cached (refresh c s)
      → has_item c s ≡ (true, refresh c s)
  unfolding has_item
  has_item_refreshed h k = ground arith

  has_item_none :
      available_cached c ≡ 0
      → available_cached (refresh c s) ≡ 0
      → has_item c s ≡ (false, refresh c s)
  unfolding has_item
  has_item_none h k = ground arith

  check_closed_drained :
      available_cached (refresh c s) ≡ 0
      → check_closed (refresh c s) s ≡ (not (s.closed == 0), refresh c s)
  unfolding check_closed refresh
  check_closed_drained h = ground arith

-- Stored messages have at least a byte.
Stored-pos :
    {capacity mask : ℕ} {buffer : List ℕ} {cursor n : ℕ} (msg : List ℕ) (msgs : List (List ℕ))
    → Stored capacity mask buffer cursor (msg ∷ msgs) n
    → 1 ≤ n
Stored-pos msg msgs (pad, front, h, _) =
    let short = front.short in omega (arith, record_len_bounds (length msg) (omega arith))

module _ {capacity : ℕ} {p : BytesProducer} {s : Shared} {c : BytesConsumer}
    {seen unseen : List (List ℕ)} (v : IsGated capacity p s)
    (h : Holds capacity s c seen unseen) where
  -- A reload shows the consumer all that is published.
  refresh-Holds : Holds capacity s (refresh c s) (seen ++ unseen) []
  unfolding refresh
  refresh-Holds =
      let w = h.written_word in
      let m = h.cached_written in
      let l = h.read_cached in
      let to_cache : wrapping_add c.read_cursor (c.write_cache - c.read_cursor) ≡ c.write_cache =
        wrapping_add_plain c.read_cursor (c.write_cache - c.read_cursor) (omega arith)
        ∙ omega arith in
      let sum : c.write_cache - c.read_cursor + (s.write_cursor - c.write_cache)
          ≡ s.write_cursor - c.read_cursor =
        omega arith in
      record {
        mask = h.mask;
        slot = h.slot;
        published_read = h.published_read;
        read_cached = omega arith;
        cached_written = omega arith;
        written_word = h.written_word;
        read_aligned = h.read_aligned;
        cache_aligned = rw v.written v.aligned;
        seen_stored = rw (← sum) (
            Stored-append capacity (capacity - 1) seen unseen s.buffer c.read_cursor _ _
              (omega arith) h.seen_stored (rw to_cache h.unseen_stored));
        unseen_stored = omega arith;
      }

  cached_count : available_cached c ≡ c.write_cache - c.read_cursor
  cached_count =
      wrapping_sub_plain c.write_cache c.read_cursor
        (let w = h.written_word in let m = h.cached_written in omega arith) h.read_cached

  fresh_count : available_cached (refresh c s) ≡ s.write_cursor - c.read_cursor
  unfolding refresh
  fresh_count =
      wrapping_sub_plain s.write_cursor c.read_cursor (let w = h.written_word in omega arith)
        (let m = h.cached_written in let l = h.read_cached in omega arith)

-- A consumer that has seen a message is handed it.
next_msg-Serves :
    {capacity : ℕ} {p : BytesProducer} {s : Shared} {c : BytesConsumer} (msg : List ℕ)
    (seen unseen : List (List ℕ))
    → IsGated capacity p s
    → Holds capacity s c (msg ∷ seen) unseen
    → let (m, c') = next_msg c s in Serves capacity p s c msg (seen ++ unseen) m c'
next_msg-Serves msg seen unseen v h =
    let (pad, front, fits, rest) = h.seen_stored in
    rw (next_msg_eq pad v h front fits rest) (first-Serves pad v h front fits rest)

-- `try_pop` hands out the first message of the consumer, with its bytes. Dropping it leaves the rest,
-- and nothing changes for the other consumers; less than a batch of progress is unpublished then, and
-- none if the consumer has caught up with its view or the producer has asked for what may be free.
-- "empty" is answered for no messages and an open ring only, and "closed" for none and a closed one.
pub try_pop-Serves :
    {capacity : ℕ} {p : BytesProducer} {s : Shared} {c : BytesConsumer} (q : List (List ℕ))
    → IsGated capacity p s
    → Queue capacity s c q
    → Takes capacity p s c q (try_pop c s)
unfolding try_pop refresh
try_pop-Serves {capacity} {p} {s} {c} q v (msg ∷ seen, unseen, h, e) =
    let some_left = Stored-pos msg seen h.seen_stored in
    let known = has_item_known c s (omega (arith, cached_count v h)) in
    subst (λ t. Takes capacity p s c t (try_pop c s)) e
      (rw known (_, refl, next_msg-Serves msg seen unseen v h))
try_pop-Serves {capacity} {p} {s} {c} q v ([], msg ∷ unseen, h, e) =
    let some_left = Stored-pos msg unseen h.unseen_stored in
    let none_seen = h.seen_stored in
    let more =
      has_item_refreshed c s (omega (arith, cached_count v h))
        (let l = h.read_cached in let m = h.cached_written in omega (arith, fresh_count v h)) in
    let served = next_msg-Serves msg unseen [] v (refresh-Holds v h) in
    let same : unseen ++ [] ≡ unseen = append-nil unseen in
    subst (λ t. Takes capacity p s c t (try_pop c s)) e (rw more (_, refl, rw same at served))
try_pop-Serves {capacity} {p} {s} {c} q v ([], [], h, e) =
    let none_seen = h.seen_stored in
    let none_unseen = h.unseen_stored in
    let fresh : available_cached (refresh c s) ≡ 0 =
      (let l = h.read_cached in let m = h.cached_written in omega (arith, fresh_count v h)) in
    let none_cached : available_cached c ≡ 0 = omega (arith, cached_count v h) in
    subst (λ t. Takes capacity p s c t (try_pop c s)) e
      (rw (has_item_none c s none_cached fresh, check_closed_drained c s fresh)
        (elim (Bool-cases (s.closed == 0)) [
          | inl open_ring ↦ rw (open_ring, fresh) (refl, ([], [], refresh-Holds v h, refl), refl)
          | inr ended ↦ rw ended (refl, ([], [], refresh-Holds v h, refl), refl)
        ]))
