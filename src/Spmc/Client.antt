-- ===== src/Spmc/Client.antt =====
-- Any sequence of calls of the producer and of any number of consumers, against a queue for each.
use rust_rb.Base.{ℕ, ◌≡◌, ◌⊎◌, Bool, true, false, Option, none, some, List, [], ◌∷◌}
use rust_rb.Registry.Peers.{pop_at, leave_at, spec_pop_at, spec_leave_at, snoc_all}
use rust_rb.Spmc.{Shared, Producer, Consumer, subscribe_from, try_push}
use rust_rb.Spmc.Consumers.{Popped, nothing, item, try_pop, drop_consumer}

-- A client's call: a push, a pop of the consumer at a place, a join at the first place, or the leave
-- of the consumer at a place. A place past the last consumer names none.
pub data Call {ℓ} (A : Type ℓ) : Type ℓ where
  push : A → Call A
  pop : ℕ → Call A
  join : Call A
  leave : ℕ → Call A

-- What a call answers.
pub data Answer {ℓ} (A : Type ℓ) : Type ℓ where
  pushed : Bool → Answer A
  got : Popped A → Answer A
  done : Answer A

pub record System {ℓ} (A : Type ℓ) : Type ℓ where
  pub shared : Shared A
  pub producer : Producer
  pub consumers : List Consumer

abbrev pub joined : Option Consumer → List Consumer → List Consumer
joined none cs = cs
joined (some c) cs = c ∷ cs

module _ {A : Type 0} where
  -- A pop, as a call of the client.
  abbrev pub pop_of : Consumer → Shared A → Answer A × Consumer × Shared A
  pop_of c s = let (out, c', s') = try_pop c s in (got out, c', s')

  abbrev pub is_taken : Option A → Bool
  is_taken none = true
  is_taken (some x) = false

  unfoldable pub step : System A → Call A → Answer A × System A
  step y (push x) =
      let (back, p, s) = try_push y.producer y.shared x in
      (pushed (is_taken back), record y { producer = p; shared = s })
  step y (pop i) =
      let (a, cs, s) = pop_at pop_of done i y.consumers y.shared in
      (a, record y { consumers = cs; shared = s })
  step y join =
      let (c, s) = subscribe_from y.shared in
      (done, record y { consumers = joined c y.consumers; shared = s })
  step y (leave i) =
      let (cs, s) = leave_at drop_consumer i y.consumers y.shared in
      (done, record y { consumers = cs; shared = s })

  unfoldable pub run : System A → List (Call A) → List (Answer A) × System A
  run y [] = ([], y)
  run y (call ∷ calls) =
      let (a, y') = step y call in let (as', y'') = run y' calls in (a ∷ as', y'')

  -- A pop of a queue.
  abbrev pub front_of : List A → Answer A × List A
  front_of [] = (got nothing, [])
  front_of (x ∷ q) = (got (item x), q)

  -- How a call and its answer change the queues. A push that is not refused adds to all of them.
  abbrev pub Follow : List (List A) → Call A → Answer A → List (List A) → Type 0
  Follow qs (push x) a qs' =
      ((a ≡ pushed true) × (qs' ≡ snoc_all qs x)) ⊎ ((a ≡ pushed false) × (qs' ≡ qs))
  Follow qs (pop i) a qs' =
      (a ≡ (spec_pop_at front_of done i qs).0) × (qs' ≡ (spec_pop_at front_of done i qs).1)
  Follow qs join a qs' = (a ≡ done) × (qs' ≡ [] ∷ qs)
  Follow qs (leave i) a qs' = (a ≡ done) × (qs' ≡ spec_leave_at i qs)

  -- The queues follow the answers of the calls.
  abbrev pub Follows : List (List A) → List (Call A) → List (Answer A) → List (List A) → Type 0
  Follows qs [] [] qs' = qs' ≡ qs
  Follows qs [] (a ∷ as') qs' = ⊥
  Follows qs (call ∷ calls) [] qs' = ⊥
  Follows qs (call ∷ calls) (a ∷ as') qs' =
      (mid : List (List A)) × Follow qs call a mid × Follows mid calls as' qs'

  -- The elements of the pushes that were not refused.
  abbrev pub accepted : List (Call A) → List (Answer A) → List A
  accepted [] as' = []
  accepted (push x ∷ calls) (pushed true ∷ as') = x ∷ accepted calls as'
  accepted (call ∷ calls) (a ∷ as') = accepted calls as'
  accepted (call ∷ calls) [] = []
