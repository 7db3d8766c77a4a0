-- ===== src/Spmc/Refine.antt =====
-- The ring with all its consumers against a queue for each.
use rust_rb.Base.{
  ℕ, ◌+◌, ◌≤◌, ◌<◌, ◌≡◌, subst, ◌∙◌, refl, sym, ap, inl, inr, Option, List, [], ◌∷◌, arith,
  word_mod, length,
}
use rust_rb.Spmc.{Shared, Consumer}
use rust_rb.Spmc.Gated.{IsGated}
use rust_rb.Spmc.Push.{try_push-Reaches}
use rust_rb.Spmc.Members.{subscribe_from_lem}
use rust_rb.Spmc.Client.{
  Call, push, pop, join, leave, pushed, done, pop_of, front_of, System, is_taken, step, run, Follow,
  Follows,
}
use rust_rb.Registry.Peers.{Peers-push, Peers-join, pop_at_lem, leave_at_lem}
use rust_rb.Spmc.Consumers.{drop_consumer}
use rust_rb.Spmc.Holds.{Holds}
use rust_rb.Spmc.Peers.{
  slot_of, Readers, IsOpen, pop_of-Pops, drop_consumer-Others, closed-try_push,
  closed-subscribe_from,
}

module _ {A : Type 0} where
  -- A system of an open ring whose producer gates its consumers, with a queue for each.
  pub record Serves (capacity : ℕ) (y : System A) (qs : List (List A)) : Type 0 where
    pub gate : IsGated capacity y.producer y.shared
    pub open_ring : y.shared.closed ≡ 0
    pub peers : Readers capacity y.shared y.consumers qs

  -- One call follows its answer, and leaves a system that serves the new queues.
  pub step-Follow :
      {capacity : ℕ} (call : Call A) {y : System A} {qs : List (List A)}
      → Serves capacity y qs
      → y.producer.next_seq + capacity + 1 < word_mod
      → (qs' : List (List A)) × Follow qs call (step y call).0 qs'
        × Serves capacity (step y call).1 qs'
        × ((step y call).1.producer.next_seq ≤ y.producer.next_seq + 1)
  unfolding step
  step-Follow {capacity} (push x) {y} {qs} v few =
      let alive = closed-try_push y.producer y.shared x ∙ v.open_ring in
      elim (try_push-Reaches x v.gate few) [
        | inl (_, back, gate, next, all) ↦ (
          _,
          inl (ap (λ b. pushed (is_taken b)) back, refl),
          record {
            gate = gate;
            open_ring = alive;
            peers = Peers-push slot_of (Holds capacity) x y.consumers qs all v.peers;
          },
          omega arith,
        )
        | inr (_, back, gate, next, same) ↦ (
          _,
          inr (ap (λ b. pushed (is_taken b)) back, refl),
          record {
            gate = rw same gate;
            open_ring = alive;
            peers = subst (λ t. Readers capacity t y.consumers qs) (sym same) v.peers;
          },
          omega arith,
        )
      ]
  step-Follow {capacity} (pop i) {y} {qs} v few =
      let (out, (gate, alive), peers, _, _) =
        pop_at_lem slot_of (Holds capacity) pop_of done front_of (IsOpen capacity y.producer)
          pop_of-Pops i y.consumers qs (v.gate, v.open_ring) v.peers in
      (_, (out, refl), record { gate = gate; open_ring = alive; peers = peers }, omega arith)
  step-Follow {capacity} join {y} {qs} v few =
      let (c, s', e, held, gate, others, _) = (subscribe_from_lem v.gate).0 v.open_ring in
      let (rest, apart) =
        Peers-join slot_of (Holds capacity) c.slot_idx y.consumers qs others v.peers in
      let alive =
        ap (λ (t : Option Consumer × Shared A). t.1.closed) (sym e)
        ∙ closed-subscribe_from y.shared
        ∙ v.open_ring in
      rw e (
        _,
        (refl, refl),
        record { gate = gate; open_ring = alive; peers = (held, apart, rest) },
        omega arith,
      )
  step-Follow {capacity} (leave i) {y} {qs} v few =
      let ((gate, alive), peers, _, _) =
        leave_at_lem slot_of (Holds capacity) drop_consumer (IsOpen capacity y.producer)
          drop_consumer-Others i y.consumers qs (v.gate, v.open_ring) v.peers in
      (_, (refl, refl), record { gate = gate; open_ring = alive; peers = peers }, omega arith)

  -- Any calls of the producer and of any number of consumers, in any order, few enough that no cursor
  -- wraps: what the pops answer is what a queue for each consumer answers to the same calls, to which
  -- every push that is not refused adds its element, and which is empty when its consumer joins. So
  -- every consumer sees every element pushed since it joined, once and in order.
  pub run-Follows :
      {capacity : ℕ} (calls : List (Call A)) {y : System A} {qs : List (List A)}
      → Serves capacity y qs
      → y.producer.next_seq + capacity + length calls < word_mod
      → (qs' : List (List A)) × Follows qs calls (run y calls).0 qs'
        × Serves capacity (run y calls).1 qs'
  unfolding run
  run-Follows [] {qs = qs} v few = (qs, refl, v)
  run-Follows (call ∷ calls) v few =
      let (mid, follow, serves, next) = step-Follow call v (omega arith) in
      let (qs', follows, served) = run-Follows calls serves (omega arith) in
      (qs', (mid, follow, follows), served)
