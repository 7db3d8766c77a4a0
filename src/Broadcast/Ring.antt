-- ===== src/Broadcast/Ring.antt =====
-- What a broadcast ring holds, and that a push keeps it.
use rust_rb.Base.{
  ℕ, ◌+◌, ◌*◌, ◌-◌, ◌%◌, ◌≤◌, ◌<◌, ◌≡◌, ◌≢◌, ◌∙◌, refl, sym, ap, inl, inr, bit_and, Option, some,
  List, [], ◌∷◌, ◌++◌, arith, IsPow2, max, Bool-cases, leb, word_mod, wrapping_add, length,
  length-append, length-set, get_elem?, set, get_or-set_self, get_or-set_ne, get_elem?-snoc_self,
  get_elem?-snoc_ne,
}
use native.Mathlib.Decide.{ℕ_discrete}
use native.Mathlib.Nat.{mod-lt, add-mod_right}
use rust_rb.Base.Slots.{max_capacity, mod-inj, slot-eq-mod_self}
use rust_rb.Base.Bits.{IsPow2-pos}
use rust_rb.Base.Words.{wrapping_add_plain}
use rust_rb.Broadcast.{Slot, Shared, Producer, empty_slot, slot_at, push, publish_tail}

module _ (capacity : ℕ) (power : IsPow2 capacity) (small : capacity ≤ max_capacity) where
  -- Cursors less than a capacity apart designate different slots.
  slot_apart :
      (a b : ℕ)
      → a < b
      → b < a + capacity
      → b < word_mod
      → bit_and a (capacity - 1) ≢ bit_and b (capacity - 1)
  slot_apart a b less near w same =
      let first = slot-eq-mod_self capacity a power small (omega arith) in
      let second = slot-eq-mod_self capacity b power small w in
      let left : (a + 0) % capacity ≡ a % capacity = ap (λ t. t % capacity) (omega arith) in
      let right : (a + (b - a)) % capacity ≡ b % capacity = ap (λ t. t % capacity) (omega arith) in
      let e =
        mod-inj capacity a 0 (b - a) (IsPow2-pos power) (IsPow2-pos power) (omega arith)
          (left ∙ sym first ∙ same ∙ second ∙ sym right) in
      absurd (omega arith)

  -- Cursors a capacity apart designate the same.
  slot_lapped :
      (a b : ℕ)
      → a + capacity ≡ b
      → b < word_mod
      → bit_and a (capacity - 1) ≡ bit_and b (capacity - 1)
  slot_lapped a b e w =
      slot-eq-mod_self capacity a power small (omega arith)
      ∙ sym (add-mod_right a capacity)
      ∙ ap (λ t. t % capacity) e
      ∙ sym (slot-eq-mod_self capacity b power small w)

  pub slot_inside : (a : ℕ) → a < word_mod → bit_and a (capacity - 1) < capacity
  slot_inside a w = rw (slot-eq-mod_self capacity a power small w) (mod-lt a (IsPow2-pos power))

module _ {ℓ} {A : Type ℓ} where
  -- A ring to which the elements were pushed: of the last `capacity` each stands in its slot with its
  -- generation, and the slot of an older one has moved on to a later generation. What the tail does
  -- not show yet is less than the batch, which the slack bounds.
  pub record IsRing (capacity : ℕ) (p : Producer) (s : Shared A) (all : List A) : Type ℓ where
    pub power : IsPow2 capacity
    pub small : capacity ≤ max_capacity
    pub mask : p.mask ≡ capacity - 1
    pub shared_mask : s.mask ≡ capacity - 1
    pub slack : p.slack < capacity
    pub shared_slack : s.slack ≡ p.slack
    pub count : p.next_seq ≡ length all
    pub range : 2 * p.next_seq < word_mod
    pub storage : length s.slots ≡ capacity
    pub frontier : s.tail + p.unpublished ≡ p.next_seq
    pub debt : p.unpublished < p.tail_batch
    pub batch : p.tail_batch ≤ max p.slack 1
    pub live :
        (pos : ℕ)
        → pos < p.next_seq
        → p.next_seq ≤ pos + capacity
        → slot_at s.slots (bit_and pos (capacity - 1))
          ≡ record { seq = 2 * pos + 2; value = get_elem? all pos }
    pub gone :
        (pos : ℕ)
        → pos + capacity < p.next_seq
        → 2 * pos + 2 < (slot_at s.slots (bit_and pos (capacity - 1))).seq

  -- What the three stores of a push leave in the slots.
  pushed_slots : List (Slot A) → ℕ → ℕ → A → List (Slot A)
  pushed_slots slots i n x =
      let busy = set slots i (record (slot_at slots i) { seq = wrapping_add (2 * n) 1 }) in
      let stored = set busy i (record (slot_at busy i) { value = some x }) in
      set stored i (record (slot_at stored i) { seq = wrapping_add (2 * n) 2 })

  module _ (slots : List (Slot A)) (i n : ℕ) (x : A) (inside : i < length slots) where
    pushed_slots_lem :
        (length (pushed_slots slots i n x) ≡ length slots)
        × (slot_at (pushed_slots slots i n x) i
            ≡ record { seq = wrapping_add (2 * n) 2; value = some x })
        × ((j : ℕ) → i ≢ j → slot_at (pushed_slots slots i n x) j ≡ slot_at slots j)
    unfolding pushed_slots
    pushed_slots_lem =
        let b : Slot A = record (slot_at slots i) { seq = wrapping_add (2 * n) 1 } in
        let busy = set slots i b in
        let size = length-set slots i b in
        let d : Slot A = record (slot_at busy i) { value = some x } in
        let stored = set busy i d in
        let size' = length-set busy i d in
        let f : Slot A = record (slot_at stored i) { seq = wrapping_add (2 * n) 2 } in
        let second = get_or-set_self busy i d empty_slot (omega arith) in
        let third = get_or-set_self stored i f empty_slot (omega arith) in
        (
          length-set stored i f ∙ size' ∙ size,
          third ∙ ap (λ (t : Slot A). record t { seq = wrapping_add (2 * n) 2 }) second,
          λ j ne.
              get_or-set_ne stored i j f empty_slot ne
              ∙ get_or-set_ne busy i j d empty_slot ne
              ∙ get_or-set_ne slots i j b empty_slot ne,
        )

  module _ {capacity : ℕ} {p : Producer} {s : Shared A} {all : List A} (x : A)
      (v : IsRing capacity p s all) (more : 2 * p.next_seq + 2 < word_mod) where
    -- The ring with the element stored, whatever the tail shows of it.
    stored-IsRing :
        (tail unpublished : ℕ)
        → tail + unpublished ≡ p.next_seq + 1
        → unpublished < p.tail_batch
        → IsRing capacity
            (record p { next_seq = wrapping_add p.next_seq 1; unpublished = unpublished })
            (record s {
              slots = pushed_slots s.slots (bit_and p.next_seq p.mask) p.next_seq x;
              tail = tail;
            })
            (all ++ (x ∷ []))
    stored-IsRing tail unpublished frontier debt =
        let n = p.next_seq in
        let i = bit_and n (capacity - 1) in
        let w : n < word_mod = omega arith in
        let size = v.storage in
        let inside = slot_inside capacity v.power v.small n w in
        let (length', here, others) = pushed_slots_lem s.slots i n x (omega arith) in
        let next = wrapping_add_plain n 1 (omega arith) in
        let generation = wrapping_add_plain (2 * n) 2 more in
        let longer = length-append all (x ∷ []) in
        let count = v.count in
        rw v.mask (record {
          power = v.power;
          small = v.small;
          mask = refl;
          shared_mask = v.shared_mask;
          slack = v.slack;
          shared_slack = v.shared_slack;
          count = omega arith;
          range = omega arith;
          storage = length' ∙ v.storage;
          frontier = omega arith;
          debt = debt;
          batch = v.batch;
          live = λ pos before near. elim (ℕ_discrete pos n) [
            | yes e ↦ rw e (
                here
                ∙ rw (generation, count)
                    (ap (λ (t : Option A). record { seq = 2 * length all + 2; value = t })
                      (sym (get_elem?-snoc_self all x))))
            | no ne ↦
                others (bit_and pos (capacity - 1)) (λ same.
                  slot_apart capacity v.power v.small pos n (omega arith) (omega arith) w
                    (sym same))
                ∙ v.live pos (omega arith) (omega arith)
                ∙ ap (λ (t : Option A). record { seq = 2 * pos + 2; value = t })
                    (sym (get_elem?-snoc_ne all x pos (λ e. ne (e ∙ sym count))))
          ];
          gone = λ pos far. elim (ℕ_discrete i (bit_and pos (capacity - 1))) [
            | yes same ↦ rw (← same, here) (omega arith)
            | no ne ↦ elim (ℕ_discrete (pos + capacity) n) [
              | yes lap ↦ absurd (ne (sym (slot_lapped capacity v.power v.small pos n lap w)))
              | no further ↦ rw (others (bit_and pos (capacity - 1)) ne) (v.gone pos (omega arith))
            ]
          ];
        })

    -- Every push is stored, and leaves a ring with the element.
    pub push-IsRing : let (p', s') = push p s x in IsRing capacity p' s' (all ++ (x ∷ []))
    unfolding push publish_tail pushed_slots
    push-IsRing =
        let next = wrapping_add_plain p.next_seq 1 (omega arith) in
        let debt = v.debt in
        elim (Bool-cases (leb p.tail_batch (p.unpublished + 1))) [
          | inl now ↦
              rw now (stored-IsRing (wrapping_add p.next_seq 1) 0 (omega arith) (omega arith))
          | inr later ↦ rw later (
              stored-IsRing s.tail (p.unpublished + 1) (let f = v.frontier in omega arith)
                (ground arith))
        ]
