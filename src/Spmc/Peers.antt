-- ===== src/Spmc/Peers.antt =====
-- The consumers of a ring, each in a slot of its own with a queue to read, over one call of one of them.
use rust_rb.Base.{ℕ, ◌≡◌, ◌∙◌, refl, ap, List, [], ◌∷◌, ==_iff, arith}
use rust_rb.Registry.Peers.{Others, Pops}
use rust_rb.Registry.Peers
use rust_rb.Spmc.{
  Shared, Producer, Consumer, subscribe_from, prepare_slot, drop_overwritten, write, publish,
  try_push,
}
use rust_rb.Spmc.Consumers.{read, advance_one, flush, flush_pending, try_pop, drop_consumer}
use rust_rb.Spmc.Gated.{IsGated}
use rust_rb.Spmc.Holds.{Holds}
use rust_rb.Spmc.Calls.{try_pop-Takes}
use rust_rb.Spmc.Members.{drop_consumer-Keeps}
use rust_rb.Spmc.Client.{got, pop_of, front_of}

abbrev pub slot_of : Consumer → ℕ
slot_of c = c.slot_idx

module _ {A : Type 0} where
  -- Each consumer owns a slot of its own, and has its queue to read.
  abbrev pub Readers : ℕ → Shared A → List Consumer → List (List A) → Type 0
  Readers capacity = Peers.Peers slot_of (Holds capacity)

  -- The producer gates the consumers of an open ring.
  abbrev pub IsOpen : ℕ → Producer → Shared A → Type 0
  IsOpen capacity p s = IsGated capacity p s × (s.closed ≡ 0)

  pub closed-subscribe_from : (s : Shared A) → (subscribe_from s).1.closed ≡ s.closed
  unfolding subscribe_from
  closed-subscribe_from s = ground arith

  -- Only the producer's drop closes the ring.
  closed-try_pop : (c : Consumer) (s : Shared A) → (try_pop c s).2.closed ≡ s.closed
  unfolding try_pop read advance_one flush
  closed-try_pop c s = ground arith

  pub closed-try_push : (p : Producer) (s : Shared A) (x : A) → (try_push p s x).2.closed ≡ s.closed
  unfolding try_push prepare_slot drop_overwritten write publish
  closed-try_push p s x = ground arith

  closed-drop_consumer : (c : Consumer) (s : Shared A) → (drop_consumer c s).closed ≡ s.closed
  unfolding drop_consumer flush_pending flush
  closed-drop_consumer c s = ground arith

  pub pop_of-Pops :
      {capacity : ℕ} {p : Producer} (c : Consumer) (s : Shared A) (q : List A)
      → IsOpen capacity p s
      → Holds capacity s c q
      → Pops slot_of (Holds capacity) front_of (IsOpen capacity p) c s q (pop_of c s)
  pop_of-Pops c s [] (v, alive) h =
      let (out, same, held, slot) = try_pop-Takes [] v h in
      (
        ap got (out ∙ rw ((==_iff s.closed 0).1 alive) refl),
        (rw same v, rw same alive),
        rw same held,
        slot,
        λ d q _ k. rw same k,
      )
  pop_of-Pops c s (x ∷ q) (v, alive) h =
      let (out, held, (v', keep), _, slot) = try_pop-Takes (x ∷ q) v h in
      (ap got out, (v', closed-try_pop c s ∙ alive), held, slot, keep)

  pub drop_consumer-Others :
      {capacity : ℕ} {p : Producer} (c : Consumer) (s : Shared A) (q : List A)
      → IsOpen capacity p s
      → Holds capacity s c q
      → IsOpen capacity p (drop_consumer c s)
        × Others slot_of (Holds capacity) s c.slot_idx (drop_consumer c s)
  drop_consumer-Others c s q (v, alive) h =
      let ((v', keep), _, _) = drop_consumer-Keeps v h in
      ((v', closed-drop_consumer c s ∙ alive), keep)
