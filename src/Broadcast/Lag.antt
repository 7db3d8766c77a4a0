-- ===== src/Broadcast/Lag.antt =====
-- What a consumer of the broadcast ring is given, and what it is told that it missed.
use rust_rb.Base.{
  ℕ, ◌+◌, ◌*◌, ◌-◌, ◌≤◌, ◌<◌, ◌≡◌, refl, inl, inr, bit_and, Bool-cases, some, List, [], ◌∷◌, zero,
  suc, arith, ◌==◌, if◌then◌else◌, length, get_elem?, ==_iff, ne→==_false, lt→ltb, le→leb,
  le→ltb_false,
}
use native.Mathlib.Decide.{dec_lt}
use rust_rb.Base.Bits.{IsPow2-pos}
use rust_rb.Base.Words.{wrapping_add_plain}
use rust_rb.Broadcast.{
  Shared, Producer, Consumer, Popped, item, nothing, lagged, closed, slot_at, reposition_target,
  read_valid, refresh, has_item, check_closed, reposition, read_slot, try_pop, lag,
}
use rust_rb.Broadcast.Ring.{IsRing}

-- A consumer that stands within what the tail has shown.
pub record Reads {ℓ} {A : Type ℓ} (capacity : ℕ) (s : Shared A) (c : Consumer) : Type 0 where
  pub mask : c.mask ≡ capacity - 1
  pub slack : c.slack ≡ s.slack
  pub pos : c.pos ≤ s.tail
  pub cached : c.tail_cache ≤ s.tail

module _ {ℓ} {A : Type ℓ} where
  -- What `try_pop` may answer at a position that the tail has passed.
  abbrev pub Hands : ℕ → Producer → Shared A → List A → Consumer → Popped A × Consumer → Type ℓ
  Hands capacity p s all c (out, c') =
      (p.next_seq ≤ c.pos + capacity
        → (x : A) × (get_elem? all c.pos ≡ some x) × (out ≡ item x) × (c'.pos ≡ c.pos + 1))
      × (c.pos + capacity < p.next_seq
          → (out ≡ lagged (c'.pos - c.pos))
            × (c.pos < c'.pos)
            × (c'.pos ≡ s.tail + s.slack - capacity)
            × (c'.pos < s.tail)
            × (p.next_seq ≤ c'.pos + capacity))
      × Reads capacity s c'

  get_elem?-inside : (xs : List A) (i : ℕ) → i < length xs → (x : A) × (get_elem? xs i ≡ some x)
  get_elem?-inside [] i h = absurd (omega arith)
  get_elem?-inside (x ∷ xs) zero h = (x, refl)
  get_elem?-inside (x ∷ xs) (suc i) h = get_elem?-inside xs i (omega arith)

  module _ {capacity : ℕ} {p : Producer} {s : Shared A} {all : List A} {c : Consumer}
      (v : IsRing capacity p s all) (r : Reads capacity s c) (passed : c.pos < s.tail) where
    read_slot-Hands : Hands capacity p s all c (read_slot c s)
    unfolding read_slot read_valid reposition refresh reposition_target
    read_slot-Hands =
        let frontier = v.frontier in
        let range = v.range in
        let generation = wrapping_add_plain (2 * c.pos) 2 (omega arith) in
        let next = wrapping_add_plain c.pos 1 (omega arith) in
        let size = r.mask in
        elim (dec_lt (c.pos + capacity) p.next_seq) [
          | no near ↦
              let (x, e) = get_elem?-inside all c.pos (let n = v.count in omega arith) in
              let here = v.live c.pos (omega arith) (omega arith) in
              rw (r.mask, here, generation, (==_iff (2 * c.pos + 2) (2 * c.pos + 2)).1 refl, e)
                (
                  (λ _. (x, refl, refl, next)),
                  (λ far. absurd (near far)),
                  record { mask = refl; slack = r.slack; pos = omega arith; cached = r.cached },
                )
          | yes far ↦
              let moved = v.gone c.pos far in
              let slack = v.slack in
              let shared = v.shared_slack in
              let own = r.slack in
              let debt = v.debt in
              let batch = v.batch in
              let small = v.small in
              rw
                (
                  r.mask,
                  generation,
                  ne→==_false (slot_at s.slots (bit_and c.pos (capacity - 1))).seq (2 * c.pos + 2)
                      (λ e. omega arith),
                )
                (
                  (λ near. absurd (omega arith)),
                  (λ _. (refl, omega arith, omega arith, omega arith, omega arith)),
                  record { mask = refl; slack = r.slack; pos = omega arith; cached = omega arith },
                )
        ]

  try_pop_cases :
      {capacity : ℕ} {p : Producer} {s : Shared A} {all : List A} {c : Consumer}
      → IsRing capacity p s all
      → Reads capacity s c
      → (c.pos < s.tail → Hands capacity p s all c (try_pop c s))
        × (s.tail ≡ c.pos
            → ((try_pop c s).0 ≡ (if s.closed == 0 then nothing else closed))
              × ((try_pop c s).1.pos ≡ c.pos)
              × Reads capacity s (try_pop c s).1)
  unfolding try_pop has_item check_closed refresh
  try_pop_cases {s} {c} v r =
      let cached = r.cached in
      let fresh : Reads _ s (record c { tail_cache = s.tail }) = record {
        mask = r.mask;
        slack = r.slack;
        pos = r.pos;
        cached = omega arith;
      } in
      (
        λ passed. elim (dec_lt c.pos c.tail_cache) [
          | yes known ↦ rw (lt→ltb c.pos c.tail_cache known) (read_slot-Hands v r passed)
          | no stale ↦
              rw (le→ltb_false c.pos c.tail_cache (omega arith), lt→ltb c.pos s.tail passed)
                (read_slot-Hands v fresh passed)
        ],
        λ caught.
            let none_cached = le→ltb_false c.pos c.tail_cache (omega arith) in
            let none_fresh = le→ltb_false c.pos s.tail (omega arith) in
            elim (Bool-cases (s.closed == 0)) [
              | inl open_ring ↦
                  rw (none_cached, none_fresh, open_ring, none_fresh) (refl, refl, fresh)
              | inr ended ↦
                  rw (none_cached, none_fresh, ended, le→leb s.tail c.pos (omega arith))
                    (refl, refl, fresh)
            ],
      )

  -- `try_pop` hands out the element at the consumer's position as long as it is one of the last
  -- `capacity`. Else it answers with the exact number of the elements that the consumer skips, and
  -- leaves it, further on, at an element that is one of the last `capacity`. Where the tail shows
  -- nothing more it answers "empty" while the ring is open and "closed" once it is not. So at a `lag`
  -- of exactly the capacity, with every push shown by the tail, it hands out the element.
  pub try_pop-Hands :
      {capacity : ℕ} {p : Producer} {s : Shared A} {all : List A} {c : Consumer}
      → IsRing capacity p s all
      → Reads capacity s c
      → (c.pos < s.tail → Hands capacity p s all c (try_pop c s))
        × (s.tail ≡ c.pos
            → ((try_pop c s).0 ≡ (if s.closed == 0 then nothing else closed))
              × ((try_pop c s).1.pos ≡ c.pos)
              × Reads capacity s (try_pop c s).1)
        × (lag c s ≡ capacity
            → p.unpublished ≡ 0
            → (x : A) × (get_elem? all c.pos ≡ some x) × ((try_pop c s).0 ≡ item x))
  unfolding lag
  try_pop-Hands v r =
      let (hands, caught) = try_pop_cases v r in
      let frontier = v.frontier in
      let some_slot = IsPow2-pos v.power in
      (
        hands,
        caught,
        λ full shown.
            let (near, _, _) = hands (omega arith) in
            let (x, at, out, _) = near (omega arith) in (x, at, out),
      )
