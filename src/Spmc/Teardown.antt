-- ===== src/Spmc/Teardown.antt =====
-- The elements of a ring whose type needs dropping, over any calls and the teardown.
use rust_rb.Base.{
  ℕ, zero, suc, ◌+◌, ◌≤◌, ◌<◌, ◌≡◌, refl, sym, ap, ◌∙◌, inl, inr, Bool-cases, true, false, some,
  List, [], ◌∷◌, ◌++◌, map, append_assoc, append-nil, arith, word_mod, length,
}
use rust_rb.Spmc.{Shared, Producer, Consumer, subscribe_from, has_space, try_push}
use rust_rb.Registry.Peers.{pop_at, leave_at}
use rust_rb.Spmc.Consumers.{
  try_pop, read, advance_one, flush, flush_pending, drop_consumer, drop_shared,
}
use rust_rb.Spmc.Gated.{IsGated, has_space_lem}
use rust_rb.Spmc.Client.{
  Call, push, pop, join, leave, Answer, pushed, got, done, System, pop_of, step, run, accepted,
}
use rust_rb.Spmc.Refine.{Serves, step-Follow}
use rust_rb.Spmc.Drops.{Owns, push_on-Owns, drop_shared-all}

module _ {A : Type 0} where
  -- The elements, and the account of those dropped, are as they were.
  abbrev Kept : Shared A → Shared A → Type 0
  Kept s s' =
      (s'.needs_drop ≡ s.needs_drop)
      × (s'.dropped_through ≡ s.dropped_through)
      × (s'.buffer ≡ s.buffer)
      × (s'.drops ≡ s.drops)

  try_pop-Kept : (c : Consumer) (s : Shared A) → Kept s (try_pop c s).2
  unfolding try_pop read advance_one flush
  try_pop-Kept c s = (ground arith, ground arith, ground arith, ground arith)

  drop_consumer-Kept : (c : Consumer) (s : Shared A) → Kept s (drop_consumer c s)
  unfolding drop_consumer flush_pending flush
  drop_consumer-Kept c s = (ground arith, ground arith, ground arith, ground arith)

  subscribe_from-Kept : (s : Shared A) → Kept s (subscribe_from s).1
  unfolding subscribe_from
  subscribe_from-Kept s = (ground arith, ground arith, ground arith, ground arith)

  pop_at-Kept : (i : ℕ) (cs : List Consumer) (s : Shared A) → Kept s (pop_at pop_of done i cs s).2
  unfolding pop_at
  pop_at-Kept i [] s = (refl, refl, refl, refl)
  pop_at-Kept zero (c ∷ cs) s = try_pop-Kept c s
  pop_at-Kept (suc i) (c ∷ cs) s = pop_at-Kept i cs s

  leave_at-Kept :
      (i : ℕ) (cs : List Consumer) (s : Shared A) → Kept s (leave_at drop_consumer i cs s).1
  unfolding leave_at
  leave_at-Kept i [] s = (refl, refl, refl, refl)
  leave_at-Kept zero (c ∷ cs) s = drop_consumer-Kept c s
  leave_at-Kept (suc i) (c ∷ cs) s = leave_at-Kept i cs s

  Owns-Kept :
      {capacity : ℕ} {p : Producer} {s s' : Shared A} {pushed live : List A}
      → Kept s s'
      → Owns capacity p s pushed live
      → Owns capacity p s' pushed live
  Owns-Kept {capacity} {live = live} (needs, through, buffer, drops) o = record {
    needed = needs ∙ o.needed;
    mark = o.mark ∙ sym through;
    count = rw through o.count;
    lap = o.lap;
    held = rw (buffer, through) o.held;
    all = rw drops o.all;
  }

  -- Nothing more of the producer than its cursor and its watermark counts.
  Owns-checked :
      {capacity : ℕ} {p p' : Producer} {s : Shared A} {pushed live : List A}
      → p'.next_seq ≡ p.next_seq
      → p'.dropped_through_local ≡ p.dropped_through_local
      → Owns capacity p s pushed live
      → Owns capacity p' s pushed live
  Owns-checked next local o = record {
    needed = o.needed;
    mark = local ∙ o.mark;
    count = o.count ∙ sym next;
    lap = o.lap;
    held = o.held;
    all = o.all;
  }

  -- One call accounts for the element that it takes, if it takes one.
  step-Owns :
      {capacity : ℕ} (call : Call A) (y : System A) {all live : List A}
      → IsGated capacity y.producer y.shared
      → y.producer.next_seq + capacity + 1 < word_mod
      → Owns capacity y.producer y.shared all live
      → let (a, y') = step y call in
        (live' : List A) × Owns capacity y'.producer y'.shared
          (all ++ accepted (call ∷ []) (a ∷ []))
          live'
  unfolding step try_push
  step-Owns {capacity} (push x) y {all} {live} v range o =
      let (_, room, (v', next, local)) = has_space_lem 1 v (let t = v.two in omega arith) range in
      let o' = Owns-checked next local o in
      elim (Bool-cases (has_space y.producer y.shared 1).0) [
        | inl passed ↦ rw passed (push_on-Owns x live v' (rw next range) o')
        | inr failed ↦ rw (failed, append-nil all) (live, o')
      ]
  step-Owns (pop i) y {all} {live} v range o =
      (live, rw (append-nil all) (Owns-Kept (pop_at-Kept i y.consumers y.shared) o))
  step-Owns join y {all} {live} v range o =
      (live, rw (append-nil all) (Owns-Kept (subscribe_from-Kept y.shared) o))
  step-Owns (leave i) y {all} {live} v range o =
      (live, rw (append-nil all) (Owns-Kept (leave_at-Kept i y.consumers y.shared) o))

  accepted-cons :
      (call : Call A) (a : Answer A) (calls : List (Call A)) (as' : List (Answer A))
      → accepted (call ∷ calls) (a ∷ as') ≡ accepted (call ∷ []) (a ∷ []) ++ accepted calls as'
  accepted-cons (push x) (pushed true) calls as' = refl
  accepted-cons (push x) (pushed false) calls as' = refl
  accepted-cons (push x) (got out) calls as' = refl
  accepted-cons (push x) done calls as' = refl
  accepted-cons (pop i) a calls as' = refl
  accepted-cons join a calls as' = refl
  accepted-cons (leave i) a calls as' = refl

  -- Whatever the calls, few enough that no cursor wraps: once the shared state is dropped, each element
  -- that the ring has taken has been dropped in place, once and in the order of the pushes, and the
  -- loop of the teardown ends within a capacity of rounds. The elements taken before the calls count
  -- in, and the type needs dropping.
  pub run-drop_shared :
      {capacity : ℕ} (calls : List (Call A)) (rounds : ℕ) {y : System A} {qs : List (List A)}
      {all live : List A}
      → Serves capacity y qs
      → Owns capacity y.producer y.shared all live
      → y.producer.next_seq + capacity + length calls < word_mod
      → capacity ≤ rounds
      → let (as', y') = run y calls in
        drop_shared rounds y'.shared ≡ map some (all ++ accepted calls as')
  unfolding run
  run-drop_shared [] rounds {all = all} v o few fits =
      rw (append-nil all) (drop_shared-all rounds v.gate o fits)
  run-drop_shared (call ∷ calls) rounds {y} {all = all} v o few fits =
      let (_, _, serves, next) = step-Follow call v (omega arith) in
      let (_, owns) = step-Owns call y v.gate (omega arith) o in
      let rest = run-drop_shared calls rounds serves owns (omega arith) fits in
      let (a, y') = step y call in
      let as' = (run y' calls).0 in
      rest
      ∙ ap (map some) (
          append_assoc all (accepted (call ∷ []) (a ∷ [])) (accepted calls as')
          ∙ ap (λ l. all ++ l) (sym (accepted-cons call a calls as')))
