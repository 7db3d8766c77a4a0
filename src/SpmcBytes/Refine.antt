-- ===== src/SpmcBytes/Refine.antt =====
-- The message ring with all its consumers against a queue of messages for each.
use rust_rb.Base.{
  ℕ, ◌+◌, ◌≤◌, ◌<◌, ◌≡◌, ◌∙◌, refl, sym, ap, inl, inr, Bool, Outcome, returns, panics, Option, List,
  [], ◌∷◌, arith, ==_iff,
}
use rust_rb.Registry.{detached}
use rust_rb.Registry.Peers.{
  Others, Pops, Peers, Peers-push, Peers-mono, Peers-join, pop_at_lem, leave_at_lem,
}
use rust_rb.Spmc.Consumers
use rust_rb.Spmc.Client.{Call, push, pop, join, leave, got, pushed, done, front_of, Follow, Follows}
use rust_rb.SpmcBytes.{
  Shared, BytesProducer, BytesConsumer, subscribe_from, has_space, publish, write_record, push_in,
  push_framed, try_push,
}
use rust_rb.SpmcBytes.Consumers.{
  nothing, advance, drop_msg, flush, flush_pending, try_pop, drop_consumer,
}
use rust_rb.SpmcBytes.Gated.{IsGated}
use rust_rb.SpmcBytes.Push.{Queue, try_push-Delivers}
use rust_rb.SpmcBytes.Calls.{try_pop-Serves}
use rust_rb.SpmcBytes.Members.{subscribe_from-Joins, drop_consumer-Leaves}
use rust_rb.SpmcBytes.Client.{System, Message, pop_of, step, run, IsLegal, AllLegal, reach}

abbrev pub slot_of : BytesConsumer → ℕ
slot_of c = c.slot_idx

abbrev pub Readers : ℕ → Shared → List BytesConsumer → List (List Message) → Type 0
Readers capacity = Peers slot_of (Queue capacity)

-- The producer gates the consumers of an open ring.
abbrev pub IsOpen : ℕ → BytesProducer → Shared → Type 0
IsOpen capacity p s = IsGated capacity p s × (s.closed ≡ 0)

-- Only the producer's drop closes the ring.
closed-subscribe_from : (s : Shared) → (subscribe_from s).1.closed ≡ s.closed
unfolding subscribe_from
closed-subscribe_from s = ground arith

closed-advance :
    (c : BytesConsumer) (s : Shared) (amount : ℕ) → (advance c s amount).1.closed ≡ s.closed
unfolding advance flush
closed-advance c s amount = ground arith

closed-drop_consumer : (c : BytesConsumer) (s : Shared) → (drop_consumer c s).closed ≡ s.closed
unfolding drop_consumer flush_pending flush
closed-drop_consumer c s = ground arith

closed-push_framed :
    (p : BytesProducer) (s : Shared) (msg : Message) (framed : ℕ × ℕ)
    → (push_framed p s msg framed).2.closed ≡ s.closed
unfolding push_framed has_space write_record publish
closed-push_framed p s msg (pad, total) = ground arith

-- The flag of closing after a push, whose outcome may be a panic.
abbrev closed_of : ℕ → Outcome (Bool × BytesProducer × Shared) → ℕ
closed_of flag (returns (taken_in, p, s)) = s.closed
closed_of flag (panics cause) = flag

closed-push_in :
    (p : BytesProducer) (s : Shared) (msg : Message) (framed : Outcome (ℕ × ℕ))
    → closed_of s.closed (push_in p s msg framed) ≡ s.closed
unfolding push_in
closed-push_in p s msg (returns framed) = closed-push_framed p s msg framed
closed-push_in p s msg (panics cause) = refl

closed-try_push :
    (p : BytesProducer) (s : Shared) (msg : Message) (out : Bool × BytesProducer × Shared)
    → try_push p s msg ≡ returns out
    → out.2.closed ≡ s.closed
unfolding try_push
closed-try_push p s msg out e = sym (ap (closed_of s.closed) e) ∙ closed-push_in p s msg _

pop_of-Pops :
    {capacity : ℕ} {p : BytesProducer} (c : BytesConsumer) (s : Shared) (q : List Message)
    → IsOpen capacity p s
    → Queue capacity s c q
    → Pops slot_of (Queue capacity) front_of (IsOpen capacity p) c s q (pop_of c s)
unfolding drop_msg
pop_of-Pops c s [] (v, alive) h =
    let (out, held, slot) = try_pop-Serves [] v h in
    let empty : (try_pop c s).0 ≡ nothing = out ∙ rw ((==_iff s.closed 0).1 alive) refl in
    rw empty (refl, (v, alive), held, slot, λ d q _ k. k)
pop_of-Pops c s (msg ∷ q) (v, alive) h =
    let (m, out, (body, held, (v', keep), _, slot, _)) = try_pop-Serves (msg ∷ q) v h in
    rw out (
      ap (λ (t : Message). got (Consumers.item t)) body,
      (v', closed-advance _ s _ ∙ alive),
      held,
      slot,
      keep,
    )

drop_consumer-Others :
    {capacity : ℕ} {p : BytesProducer} (c : BytesConsumer) (s : Shared) (q : List Message)
    → IsOpen capacity p s
    → Queue capacity s c q
    → IsOpen capacity p (drop_consumer c s)
      × Others slot_of (Queue capacity) s c.slot_idx (drop_consumer c s)
drop_consumer-Others c s q (v, alive) h =
    let ((v', keep), _, _) = drop_consumer-Leaves v h in
    ((v', closed-drop_consumer c s ∙ alive), keep)

-- A system of an open ring whose producer gates its consumers, with a queue of messages for each.
pub record Serves (capacity : ℕ) (y : System) (qs : List (List Message)) : Type 0 where
  pub gate : IsGated capacity y.producer y.shared
  pub open_ring : y.shared.closed ≡ 0
  pub peers : Readers capacity y.shared y.consumers qs

-- One call follows its answer, and leaves a system that serves the new queues.
step-Follow :
    {capacity : ℕ} (call : Call Message) {y : System} {qs : List (List Message)}
    → Serves capacity y qs
    → IsLegal capacity call
    → y.producer.next_seq + capacity + capacity < detached
    → (qs' : List (List Message)) × Follow qs call (step y call).0 qs'
      × Serves capacity (step y call).1 qs'
      × ((step y call).1.producer.next_seq ≤ y.producer.next_seq + capacity)
unfolding step
step-Follow {capacity} (push msg) {y} {qs} v legal few =
    let (pad, out, _, e, small, reaches) = (try_push-Delivers v.gate msg few).0 legal in
    let alive = closed-try_push y.producer y.shared msg out e ∙ v.open_ring in
    rw e (elim reaches [
      | inl (_, back, gate, next, all) ↦ (
        _,
        inl (ap pushed back, refl),
        record {
          gate = gate;
          open_ring = alive;
          peers = Peers-push slot_of (Queue capacity) msg y.consumers qs all v.peers;
        },
        omega arith,
      )
      | inr (_, back, gate, next, _, same) ↦ (
        _,
        inr (ap pushed back, refl),
        record {
          gate = gate;
          open_ring = alive;
          peers = Peers-mono slot_of (Queue capacity) y.consumers qs same v.peers;
        },
        omega arith,
      )
    ])
step-Follow {capacity} (pop i) {y} {qs} v legal few =
    let (out, (gate, alive), peers, _, _) =
      pop_at_lem slot_of (Queue capacity) pop_of done front_of (IsOpen capacity y.producer)
        pop_of-Pops i y.consumers qs (v.gate, v.open_ring) v.peers in
    (_, (out, refl), record { gate = gate; open_ring = alive; peers = peers }, omega arith)
step-Follow {capacity} join {y} {qs} v legal few =
    let (c, s', e, held, gate, others, _) = (subscribe_from-Joins v.gate).0 v.open_ring in
    let (rest, apart) =
      Peers-join slot_of (Queue capacity) c.slot_idx y.consumers qs others v.peers in
    let alive =
      ap (λ (t : Option BytesConsumer × Shared). t.1.closed) (sym e)
      ∙ closed-subscribe_from y.shared
      ∙ v.open_ring in
    rw e (
      _,
      (refl, refl),
      record { gate = gate; open_ring = alive; peers = (held, apart, rest) },
      omega arith,
    )
step-Follow {capacity} (leave i) {y} {qs} v legal few =
    let ((gate, alive), peers, _, _) =
      leave_at_lem slot_of (Queue capacity) drop_consumer (IsOpen capacity y.producer)
        drop_consumer-Others i y.consumers qs (v.gate, v.open_ring) v.peers in
    (_, (refl, refl), record { gate = gate; open_ring = alive; peers = peers }, omega arith)

-- Any calls of the producer and of any number of consumers, in any order, with messages of legal length
-- and few enough that no cursor wraps: what the pops answer is what a queue for each consumer answers
-- to the same calls, to which every push that is not refused adds its message, and which is empty when
-- its consumer joins. So every consumer reads every message pushed since it joined, whole, once and in
-- order.
pub run-Serves :
    {capacity : ℕ} (calls : List (Call Message)) {y : System} {qs : List (List Message)}
    → Serves capacity y qs
    → AllLegal capacity calls
    → y.producer.next_seq + capacity + reach capacity calls < detached
    → (qs' : List (List Message)) × Follows qs calls (run y calls).0 qs'
      × Serves capacity (run y calls).1 qs'
unfolding run
run-Serves [] {qs = qs} v legal few = (qs, refl, v)
run-Serves (call ∷ calls) v (one_legal, legal) few =
    let (mid, follow, serves, next) = step-Follow call v one_legal (omega arith) in
    let (qs', follows, served) = run-Serves calls serves legal (omega arith) in
    (qs', (mid, follow, follows), served)
