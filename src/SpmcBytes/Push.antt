-- ===== src/SpmcBytes/Push.antt =====
-- What a push does, for the producer and for every consumer at once.
use rust_rb.Base.{
  ℕ, ◌+◌, ◌-◌, ◌≤◌, ◌<◌, ◌≡◌, ◌⊎◌, inl, inr, refl, sym, ap, subst, ◌∙◌, Bool-cases, Bool, true,
  false, some, List, [], ◌∷◌, ◌++◌, append_assoc, arith, length, wrapping_sub, returns, panics,
  message_too_long,
}
use rust_rb.Registry.{detached}
use rust_rb.Registry.Scan.{HasRoom}
use rust_rb.Frame.{frame, padding, max_message_len}
use rust_rb.Frame.Sizes.{max_message_len_bounds}
use rust_rb.Frame.Fits.{IsPlaced, whole, frame_lem}
use rust_rb.Bytes.Stored.{taken}
use rust_rb.SpmcBytes.{
  Shared, BytesProducer, BytesConsumer, has_space, try_push, push_in, push_framed,
}
use rust_rb.SpmcBytes.Gated.{IsGated, place, has_space_lem, write_record-IsGated}
use rust_rb.SpmcBytes.Holds.{Holds, write_record-Holds}

-- The messages that a consumer still has to read, of which it has seen the first.
abbrev pub Queue : ℕ → Shared → BytesConsumer → List (List ℕ) → Type 0
Queue capacity s c q =
    (seen : List (List ℕ)) × (unseen : List (List ℕ)) × Holds capacity s c seen unseen
    × (seen ++ unseen ≡ q)

starved-Queue :
    {capacity : ℕ} {s s' : Shared} (c : BytesConsumer) (q : List (List ℕ))
    → s' ≡ record s { starving = s'.starving }
    → Queue capacity s c q
    → Queue capacity s' c q
starved-Queue {capacity} {s} {s'} c q same (seen, unseen, h, e) = (
  seen,
  unseen,
  subst (λ t. Holds capacity t c seen unseen) (sym same)
      (record {
        mask = h.mask;
        slot = h.slot;
        published_read = h.published_read;
        read_cached = h.read_cached;
        cached_written = h.cached_written;
        written_word = h.written_word;
        read_aligned = h.read_aligned;
        cache_aligned = h.cache_aligned;
        seen_stored = h.seen_stored;
        unseen_stored = h.unseen_stored;
      }),
  e,
)

-- What `try_push` may answer of a message that frames with `pad` bytes of padding.
abbrev pub Reaches :
    ℕ → BytesProducer → Shared → List ℕ → ℕ → Bool × BytesProducer × Shared → Type 0
Reaches capacity p s msg pad (taken_in, p', s') =
    (HasRoom p.next_seq (taken msg pad) capacity s.registry
      × (taken_in ≡ true)
      × IsGated capacity p' s'
      × (p'.next_seq ≡ p.next_seq + taken msg pad)
      × ((c : BytesConsumer) (q : List (List ℕ))
          → Queue capacity s c q
          → Queue capacity s' c (q ++ (msg ∷ []))))
    ⊎ ((¬ HasRoom p.next_seq (taken msg pad) capacity s.registry)
        × (taken_in ≡ false)
        × IsGated capacity p' s'
        × (p'.next_seq ≡ p.next_seq)
        × (s'.starving ≡ taken msg pad)
        × ((c : BytesConsumer) (q : List (List ℕ)) → Queue capacity s c q → Queue capacity s' c q))

module _ {capacity : ℕ} {p : BytesProducer} {s : Shared} (v : IsGated capacity p s) (msg : List ℕ)
    (range : p.next_seq + capacity + capacity < detached) where
  push_framed-Reaches :
      (pad : ℕ)
      → IsPlaced capacity (capacity - 1) p.next_seq (length msg) pad
      → length msg < padding
      → Reaches capacity p s msg pad (push_framed p s msg (pad, taken msg pad))
  unfolding push_framed
  push_framed-Reaches pad f short =
      let total = taken msg pad in
      let less = f.total in
      let ((fits, free), room, request, (v', next, same)) =
        has_space_lem v total less (omega arith) in
      elim (Bool-cases (has_space p s total).0) [
        | inl passed ↦
            let room' : wrapping_sub (has_space p s total).1.next_seq
                    (has_space p s total).1.cached_min
                  + total
                ≤ capacity =
              rw next (room passed) in
            let f' = rw (← next) at f in
            let (w, e) =
              write_record-IsGated v' pad (length msg) (some msg) f' short refl room'
                (omega arith) in
            rw passed (
              inl (
                fits passed,
                refl,
                w,
                omega arith,
                λ c q held.
                    let (seen, unseen, h, split) =
                      starved-Queue {s = s} {s' = (has_space p s total).2} c q same held in
                    (
                      seen,
                      unseen ++ (msg ∷ []),
                      write_record-Holds v' h pad msg f' short room' (omega arith),
                      sym (append_assoc seen unseen (msg ∷ [])) ∙ ap (λ l. l ++ (msg ∷ [])) split,
                    ),
              ))
        | inr failed ↦ rw failed (
            inr (
              λ h. cc (free h),
              refl,
              v',
              next,
              request failed,
              λ c q held. starved-Queue {s = s} {s' = (has_space p s total).2} c q same held,
            ))
      ]

  -- A message of legal length fits the ring with its padding, and is taken exactly if every consumer
  -- in the registry leaves room for both; it then joins the messages of every consumer. Else nothing
  -- changes for them, and the producer has asked for that room. A longer message panics. The cursors
  -- stay below 2 ^ 64.
  pub try_push-Delivers :
      (length msg ≤ max_message_len capacity
        → (pad : ℕ) × (out : Bool × BytesProducer × Shared) × (frame
              (capacity - 1)
              p.next_seq
              (length msg)
            ≡ returns (pad, taken msg pad))
          × (try_push p s msg ≡ returns out)
          × (taken msg pad < capacity)
          × Reaches capacity p s msg pad out)
      × (max_message_len capacity < length msg → try_push p s msg ≡ panics message_too_long)
  unfolding try_push push_in
  try_push-Delivers =
      let (legal, long) = frame_lem (place v) (length msg) in
      let mask : p.mask ≡ capacity - 1 = let m = v.mask in omega arith in
      (
        λ k.
            let (pad, framed, f, _, _) = legal k in
            let (_, short) =
              max_message_len_bounds capacity (length msg) v.legal v.small (whole (place v)) k in
            let e : frame p.mask p.next_seq (length msg) ≡ returns (pad, taken msg pad) =
              ap (λ (m : ℕ). frame m p.next_seq (length msg)) mask ∙ framed in
            (pad, _, framed, rw e refl, f.total, push_framed-Reaches pad f short),
        λ k.
            let e : frame p.mask p.next_seq (length msg) ≡ panics message_too_long =
              ap (λ (m : ℕ). frame m p.next_seq (length msg)) mask ∙ long k in
            rw e refl,
      )
