-- ===== src/Registry/Peers.antt =====
-- The consumers of one ring, each in a slot of its own with a queue to read, and one call of one of
-- them, whatever the ring holds and however a consumer takes from it.
use rust_rb.Base.{ℕ, zero, suc, ◌≡◌, ◌≢◌, refl, sym, List, [], ◌∷◌, ◌++◌, map}

-- The consumer at a place takes; a place past the last one answers `done`.
unfoldable pub pop_at : {C S B : Type 0} → (C → S → B × C × S) → B → ℕ → List C → S → B × List C × S
pop_at pop done i [] s = (done, [], s)
pop_at pop done zero (c ∷ cs) s = let (b, c', s') = pop c s in (b, c' ∷ cs, s')
pop_at pop done (suc i) (c ∷ cs) s = let (b, cs', s') = pop_at pop done i cs s in (b, c ∷ cs', s')

unfoldable pub leave_at : {C S : Type 0} → (C → S → S) → ℕ → List C → S → List C × S
leave_at drop i [] s = ([], s)
leave_at drop zero (c ∷ cs) s = (cs, drop c s)
leave_at drop (suc i) (c ∷ cs) s = let (cs', s') = leave_at drop i cs s in (c ∷ cs', s')

-- The same on a queue for each consumer.
unfoldable pub spec_pop_at :
    {X B : Type 0} → (List X → B × List X) → B → ℕ → List (List X) → B × List (List X)
spec_pop_at front done i [] = (done, [])
spec_pop_at front done zero (q ∷ qs) = let (b, q') = front q in (b, q' ∷ qs)
spec_pop_at front done (suc i) (q ∷ qs) = let (b, qs') = spec_pop_at front done i qs in (b, q ∷ qs')

unfoldable pub spec_leave_at : {X : Type 0} → ℕ → List (List X) → List (List X)
spec_leave_at i [] = []
spec_leave_at zero (q ∷ qs) = qs
spec_leave_at (suc i) (q ∷ qs) = q ∷ spec_leave_at i qs

-- A push to all the queues.
abbrev pub snoc_all : {X : Type 0} → List (List X) → X → List (List X)
snoc_all qs x = map (λ q. q ++ (x ∷ [])) qs

module _ {C S X : Type 0} (slot : C → ℕ) (Holds : S → C → List X → Type 0) where
  -- No consumer of the list owns the slot.
  abbrev pub Apart : ℕ → List C → Type 0
  Apart i [] = Unit {0}
  Apart i (c ∷ cs) = (slot c ≢ i) × Apart i cs

  -- Each consumer owns a slot of its own, and has its queue to read.
  abbrev pub Peers : S → List C → List (List X) → Type 0
  Peers s [] [] = Unit {0}
  Peers s [] (q ∷ qs) = ⊥
  Peers s (c ∷ cs) [] = ⊥
  Peers s (c ∷ cs) (q ∷ qs) = Holds s c q × Apart (slot c) cs × Peers s cs qs

  -- What is kept for the consumers of other slots.
  abbrev pub Others : S → ℕ → S → Type 0
  Others s i s' = (d : C) (q : List X) → slot d ≢ i → Holds s d q → Holds s' d q

  -- What is kept for a consumer apart from all of the list.
  abbrev pub Spares : S → List C → S → Type 0
  Spares s cs s' = (d : C) (q : List X) → Apart (slot d) cs → Holds s d q → Holds s' d q

  pub Peers-keep :
      {s s' : S} (i : ℕ) (cs : List C) (qs : List (List X))
      → Apart i cs
      → Others s i s'
      → Peers s cs qs
      → Peers s' cs qs
  Peers-keep i [] [] away keep peers = tt
  Peers-keep i [] (q ∷ qs) away keep peers = peers
  Peers-keep i (c ∷ cs) [] away keep peers = peers
  Peers-keep i (c ∷ cs) (q ∷ qs) (ne, away) keep (h, apart, peers) =
      (keep c q ne h, apart, Peers-keep i cs qs away keep peers)

  pub Peers-join :
      {s s' : S} (i : ℕ) (cs : List C) (qs : List (List X))
      → ((d : C) (q : List X) → Holds s d q → Holds s' d q × (slot d ≢ i))
      → Peers s cs qs
      → Peers s' cs qs × Apart i cs
  Peers-join i [] [] others peers = (tt, tt)
  Peers-join i [] (q ∷ qs) others peers = elim peers [ ]
  Peers-join i (c ∷ cs) [] others peers = elim peers [ ]
  Peers-join i (c ∷ cs) (q ∷ qs) others (h, apart, peers) =
      let (held, ne) = others c q h in
      let (rest, away) = Peers-join i cs qs others peers in ((held, apart, rest), (ne, away))

  pub Peers-mono :
      {s s' : S} (cs : List C) (qs : List (List X))
      → ((d : C) (q : List X) → Holds s d q → Holds s' d q)
      → Peers s cs qs
      → Peers s' cs qs
  Peers-mono [] [] all peers = tt
  Peers-mono [] (q ∷ qs) all peers = peers
  Peers-mono (c ∷ cs) [] all peers = peers
  Peers-mono (c ∷ cs) (q ∷ qs) all (h, apart, peers) =
      (all c q h, apart, Peers-mono cs qs all peers)

  pub Peers-push :
      {s s' : S} (x : X) (cs : List C) (qs : List (List X))
      → ((d : C) (q : List X) → Holds s d q → Holds s' d (q ++ (x ∷ [])))
      → Peers s cs qs
      → Peers s' cs (snoc_all qs x)
  Peers-push x [] [] all peers = tt
  Peers-push x [] (q ∷ qs) all peers = peers
  Peers-push x (c ∷ cs) [] all peers = peers
  Peers-push x (c ∷ cs) (q ∷ qs) all (h, apart, peers) =
      (all c q h, apart, Peers-push x cs qs all peers)

  -- What a consumer's own take does, which answers as `front` of its queue does and changes nothing for
  -- the consumers of other slots.
  abbrev pub Pops :
      {B : Type 0} → (List X → B × List X) → (S → Type 0) → C → S → List X → B × C × S → Type 0
  Pops front Good c s q (b, c', s') =
      (b ≡ (front q).0)
      × Good s'
      × Holds s' c' (front q).1
      × (slot c' ≡ slot c)
      × Others s (slot c) s'

  module _ {B : Type 0} (pop : C → S → B × C × S) (done : B) (front : List X → B × List X)
      (Good : S → Type 0)
      (law : (c : C) (s : S) (q : List X)
        → Good s
        → Holds s c q
        → Pops front Good c s q (pop c s)) where
    pub pop_at_lem :
        {s : S} (i : ℕ) (cs : List C) (qs : List (List X))
        → Good s
        → Peers s cs qs
        → let (b, cs', s') = pop_at pop done i cs s in
          (b ≡ (spec_pop_at front done i qs).0)
          × Good s'
          × Peers s' cs' (spec_pop_at front done i qs).1
          × Spares s cs s'
          × ((j : ℕ) → Apart j cs → Apart j cs')
    unfolding pop_at spec_pop_at
    pop_at_lem i [] [] v peers = (refl, v, tt, λ d q a k. k, λ j a. a)
    pop_at_lem i [] (q ∷ qs) v peers = elim peers [ ]
    pop_at_lem i (c ∷ cs) [] v peers = elim peers [ ]
    pop_at_lem {s} zero (c ∷ cs) (q ∷ qs) v (h, apart, peers) =
        let (out, good, held, same, keep) = law c s q v h in
        (
          out,
          good,
          (held, rw same apart, Peers-keep (slot c) cs qs apart keep peers),
          (λ d r a k. keep d r (λ e. a.0 (sym e)) k),
          λ j a. (rw same a.0, a.1),
        )
    pop_at_lem (suc i) (c ∷ cs) (q ∷ qs) v (h, apart, peers) =
        let (out, good, rest, spares, away) = pop_at_lem i cs qs v peers in
        (
          out,
          good,
          (spares c q apart h, away (slot c) apart, rest),
          (λ d r a k. spares d r a.1 k),
          λ j a. (a.0, away j a.1),
        )

  module _ (drop : C → S → S) (Good : S → Type 0)
      (law : (c : C) (s : S) (q : List X)
        → Good s
        → Holds s c q
        → Good (drop c s) × Others s (slot c) (drop c s)) where
    pub leave_at_lem :
        {s : S} (i : ℕ) (cs : List C) (qs : List (List X))
        → Good s
        → Peers s cs qs
        → let (cs', s') = leave_at drop i cs s in
          Good s'
          × Peers s' cs' (spec_leave_at i qs)
          × Spares s cs s'
          × ((j : ℕ) → Apart j cs → Apart j cs')
    unfolding leave_at spec_leave_at
    leave_at_lem i [] [] v peers = (v, tt, λ d q a k. k, λ j a. a)
    leave_at_lem i [] (q ∷ qs) v peers = elim peers [ ]
    leave_at_lem i (c ∷ cs) [] v peers = elim peers [ ]
    leave_at_lem {s} zero (c ∷ cs) (q ∷ qs) v (h, apart, peers) =
        let (good, keep) = law c s q v h in
        (
          good,
          Peers-keep (slot c) cs qs apart keep peers,
          (λ d r a k. keep d r (λ e. a.0 (sym e)) k),
          λ j a. a.1,
        )
    leave_at_lem (suc i) (c ∷ cs) (q ∷ qs) v (h, apart, peers) =
        let (good, rest, spares, away) = leave_at_lem i cs qs v peers in
        (
          good,
          (spares c q apart h, away (slot c) apart, rest),
          (λ d r a k. spares d r a.1 k),
          λ j a. (a.0, away j a.1),
        )
