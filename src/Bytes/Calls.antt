-- ===== src/Bytes/Calls.antt =====
-- What a client of the byte ring sees of each call.
use rust_rb.Base.{
  ℕ, ◌+◌, ◌-◌, ◌^◌, ◌≤◌, ◌<◌, ◌≡◌, ◌⊎◌, inl, inr, refl, sym, subst, Bool, true, false, Bool-cases,
  Option, none, some, List, [], ◌∷◌, ◌++◌, append_assoc, append-nil, arith, length, wrapping_sub,
  returns, panics, message_too_long,
}
use native.Mathlib.Decide.{dec_lt}
use rust_rb.Policy.{no_item}
use rust_rb.Policy.Rounding.{round_capacity_lem}
use rust_rb.Cursor.{Shared, ConsumerCore, has_space, refresh, has_item}
use rust_rb.Cursor.Invariant
use rust_rb.Cursor.Invariant.{has_space-IsValid}
use rust_rb.Cursor.Space.{IsSane-of_IsValid, has_space_iff, has_space_room, write_cursor-has_space}
use rust_rb.Cursor.Counts.{count_seen}
use rust_rb.Frame.{frame, padding, max_message_len}
use rust_rb.Frame.Sizes.{record_len_bounds, max_message_len_bounds}
use rust_rb.Frame.Fits.{IsPlaced, whole, frame_lem}
use rust_rb.Frame.Trip.{payload_read}
use rust_rb.Bytes.{
  Ring, fresh, fresh_of, with_wait_strategies, Msg, write_record, try_push, push_in, push_framed,
  view, drop_msg, try_pop,
}
use rust_rb.Bytes.Stored.{taken, Stored}
use rust_rb.Bytes.Holds.{Holds, fresh-Holds, place, masks, refresh-Holds, write_record-Holds}
use rust_rb.Bytes.Front.{next_msg-Holds}

-- The ring holds the messages of the queue, of which the consumer has seen the first.
abbrev pub Queue : ℕ → Ring → List (List ℕ) → Type 0
Queue capacity r q =
    (seen : List (List ℕ)) × (unseen : List (List ℕ)) × Holds capacity r seen unseen
    × (seen ++ unseen ≡ q)

module _ (c : ConsumerCore) (s : Shared) where
  has_item_known : 1 ≤ wrapping_sub c.write_cursor_cache c.read_cursor → has_item c s ≡ (true, c)
  unfolding has_item no_item
  has_item_known h = ground arith

  has_item_reload :
      wrapping_sub c.write_cursor_cache c.read_cursor ≡ 0
      → 1 ≤ wrapping_sub s.write_cursor c.read_cursor
      → has_item c s ≡ (true, refresh c s)
  unfolding has_item no_item refresh
  has_item_reload h k = ground arith

  has_item_none :
      wrapping_sub c.write_cursor_cache c.read_cursor ≡ 0
      → wrapping_sub s.write_cursor c.read_cursor ≡ 0
      → has_item c s ≡ (false, refresh c s)
  unfolding has_item no_item refresh
  has_item_none h k = ground arith

-- Stored messages have at least a byte.
Stored-pos :
    {capacity mask : ℕ} {buffer : List ℕ} {cursor n : ℕ} (msg : List ℕ) (msgs : List (List ℕ))
    → Stored capacity mask buffer cursor (msg ∷ msgs) n
    → 1 ≤ n
Stored-pos msg msgs (pad, front, h, _) =
    let short = front.short in omega (arith, record_len_bounds (length msg) (omega arith))

-- What `try_pop` may answer of a ring that holds the queue.
abbrev pub Pops : ℕ → List (List ℕ) → Option Msg × Ring → Type 0
Pops capacity [] (out, r') = (out ≡ none) × Queue capacity r' []
Pops capacity (msg ∷ rest) (out, r') =
    (slot : Msg) × (out ≡ some slot) × (view r' slot ≡ msg) × Queue capacity (drop_msg r' slot) rest

pop_seen :
    {capacity : ℕ} {r : Ring} (msg : List ℕ) (seen unseen : List (List ℕ))
    → Holds capacity r (msg ∷ seen) unseen
    → has_item r.consumer r.shared ≡ (true, r.consumer)
    → Pops capacity (msg ∷ (seen ++ unseen)) (try_pop r)
unfolding try_pop
pop_seen msg seen unseen h e =
    let (body, left) = next_msg-Holds h in rw e (_, refl, body, (seen, unseen, left, refl))

-- `try_pop` hands out the first message of the queue, with its bytes, and dropping that leaves the
-- rest; it answers "empty" for the empty queue only.
pub try_pop-Pops :
    {capacity : ℕ} {r : Ring} (q : List (List ℕ)) → Queue capacity r q → Pops capacity q (try_pop r)
unfolding try_pop
try_pop-Pops {capacity} {r} q (msg ∷ seen, unseen, h, e) =
    let known = has_item_known r.consumer r.shared (Stored-pos msg seen h.seen_stored) in
    subst (λ t. Pops capacity t (try_pop r)) e (pop_seen msg seen unseen h known)
try_pop-Pops {capacity} {r} q ([], [], h, e) =
    let v = h.engine in
    let none_left : wrapping_sub r.shared.write_cursor r.consumer.read_cursor ≡ 0 =
      rw v.write_published (omega (arith, (count_seen v).0, h.seen_stored, h.unseen_stored)) in
    let over = has_item_none r.consumer r.shared h.seen_stored none_left in
    subst (λ t. Pops capacity t (try_pop r)) e (rw over (refl, ([], [], refresh-Holds h, refl)))
try_pop-Pops {capacity} {r} q ([], msg ∷ unseen, h, e) =
    let v = h.engine in
    let one_left : 1 ≤ wrapping_sub r.shared.write_cursor r.consumer.read_cursor =
      rw v.write_published
        (omega (arith, (count_seen v).0, h.seen_stored, Stored-pos msg unseen h.unseen_stored)) in
    let more = has_item_reload r.consumer r.shared h.seen_stored one_left in
    let (body, left) = next_msg-Holds (refresh-Holds h) in
    subst (λ t. Pops capacity t (try_pop r)) e
      (rw more (_, refl, body, (unseen, [], left, append-nil unseen)))

-- A ring asked for from 1 to `2 ^ 63` bytes is made, holds no message, and has at least as many.
pub with_wait_strategies-Queue :
    (n : ℕ)
    → 0 < n
    → n ≤ 2 ^ 63
    → (capacity : ℕ) × (r : Ring) × (with_wait_strategies n ≡ returns r)
      × Queue capacity r []
      × (n ≤ capacity)
unfolding with_wait_strategies fresh_of
with_wait_strategies-Queue n pos small =
    let (capacity, e, power, above, floor, below, _) =
      (round_capacity_lem n 8 (3, refl) (omega arith)).2 pos small in
    (capacity, fresh capacity, rw e, ([], [], fresh-Holds capacity power floor below, refl), above)

-- What `try_push` may answer of a message that frames with `pad` bytes of padding.
abbrev pub Pushes : ℕ → Ring → List (List ℕ) → List ℕ → ℕ → Bool × Ring → Type 0
Pushes capacity r q msg pad (taken_in, r') =
    ((wrapping_sub r.producer.write_cursor r.shared.read_cursor + taken msg pad ≤ capacity)
      × (taken_in ≡ true)
      × Queue capacity r' (q ++ (msg ∷ [])))
    ⊎ ((capacity < wrapping_sub r.producer.write_cursor r.shared.read_cursor + taken msg pad)
        × (taken_in ≡ false)
        × Queue capacity r' q)

module _ {capacity : ℕ} {r : Ring} {seen unseen : List (List ℕ)}
    (h : Holds capacity r seen unseen) where
  -- A space check leaves the messages.
  checked-Holds :
      (needed : ℕ)
      → let (_, p, s) = has_space r.producer r.shared needed in
        Holds capacity (record r { producer = p; shared = s }) seen unseen
  checked-Holds needed = record {
    power = h.power;
    legal = h.legal;
    engine = has_space-IsValid needed h.engine;
    prompt = h.prompt;
    owned = h.owned;
    storage = h.storage;
    read_aligned = h.read_aligned;
    cache_aligned = h.cache_aligned;
    write_aligned = rw write_cursor-has_space h.write_aligned;
    seen_stored = h.seen_stored;
    unseen_stored = rw write_cursor-has_space h.unseen_stored;
  }

  -- A message pushed with room for it joins the queue.
  pub push_record-Holds :
      (pad : ℕ) (msg : List ℕ)
      → IsPlaced capacity (capacity - 1) r.producer.write_cursor (length msg) pad
      → length msg < padding
      → Invariant.ahead r.producer r.producer.write_cursor + taken msg pad ≤ capacity
      → Holds capacity (write_record r pad (length msg) (some msg)) seen (unseen ++ (msg ∷ []))
  unfolding write_record
  push_record-Holds pad msg f short room =
      let at = place h r.producer.write_cursor h.engine.write_word h.write_aligned in
      write_record-Holds h pad msg (some msg) f short room refl
        (rw ((masks h).0) (payload_read at f r.buffer h.storage short (some msg) refl msg refl))

push_framed_lem :
    {capacity : ℕ} {r : Ring} {seen unseen : List (List ℕ)}
    → Holds capacity r seen unseen
    → (pad : ℕ) (msg : List ℕ)
    → IsPlaced capacity (capacity - 1) r.producer.write_cursor (length msg) pad
    → length msg < padding
    → Pushes capacity r (seen ++ unseen) msg pad (push_framed r msg (pad, taken msg pad))
unfolding push_framed
push_framed_lem {capacity} {r} {seen} {unseen} h pad msg f short =
    let v = h.engine in
    let total = taken msg pad in
    let small : total < 2 ^ 63 = let t = f.total in omega arith in
    let ((fits, free), _) = has_space_iff total v small in
    let kept = write_cursor-has_space r.producer r.shared total in
    elim (Bool-cases (has_space r.producer r.shared total).0) [
      | inl passed ↦
          let (room, _, _, _, _) = has_space_room total (IsSane-of_IsValid v) small passed in
          rw passed (
            inl (
              fits passed,
              refl,
              (
                seen,
                unseen ++ (msg ∷ []),
                push_record-Holds (checked-Holds h total) pad msg (rw kept f) short room,
                sym (append_assoc seen unseen (msg ∷ [])),
              ),
            ))
      | inr failed ↦ rw failed (
          inr (
            elim (dec_lt capacity
                (wrapping_sub r.producer.write_cursor r.shared.read_cursor + total)) [
                  | yes lt ↦ lt
                  | no ge ↦ cc (free (omega arith))
                ],
            refl,
            (seen, unseen, checked-Holds h total, refl),
          ))
    ]

-- A message of legal length is pushed, behind the padding that `frame` gives it, exactly when it and
-- its padding fit beside what lies behind the read cursor that the consumer last published, and then
-- joins the queue at its end; else the push answers "full" and leaves the queue. A longer message
-- panics.
pub try_push-Pushes :
    {capacity : ℕ} {r : Ring} {q : List (List ℕ)} (msg : List ℕ)
    → Queue capacity r q
    → (length msg ≤ max_message_len capacity
        → (pad : ℕ) × (out : Bool × Ring) × (frame
              (capacity - 1)
              r.producer.write_cursor
              (length msg)
            ≡ returns (pad, taken msg pad))
          × (try_push r msg ≡ returns out)
          × Pushes capacity r q msg pad out)
      × (max_message_len capacity < length msg → try_push r msg ≡ panics message_too_long)
unfolding try_push push_in
try_push-Pushes {capacity} {r} {q} msg (seen, unseen, h, e) =
    let at = place h r.producer.write_cursor h.engine.write_word h.write_aligned in
    let (legal, long) = frame_lem at (length msg) in
    let mask = (masks h).0 in
    (
      λ k.
          let (pad, framed, f, _, _) = legal k in
          let (_, short) =
            max_message_len_bounds capacity (length msg) h.legal h.engine.small (whole at) k in
          (
            pad,
            _,
            framed,
            rw (mask, framed) refl,
            subst (λ t. Pushes capacity r t msg pad (push_framed r msg (pad, taken msg pad))) e
                (push_framed_lem h pad msg f (omega arith)),
          ),
      λ k. rw (mask, long k),
    )
