-- ===== src/Spmc/Drops.antt =====
-- Elements that need dropping: which the ring has dropped, and which it still owns.
use rust_rb.Base.{
  ℕ, zero, suc, ◌+◌, ◌-◌, ◌≤◌, ◌<◌, ◌≡◌, ◌∙◌, refl, sym, ap, inl, inr, Bool, true, false, Option,
  none, some, List, [], ◌∷◌, ◌++◌, map, append_assoc, arith, word_mod, wrapping_add, wrapping_sub,
  length, length-append, get_or, ==_iff, ne→==_false,
}
use mathlib.Core.List.{map-append}
use rust_rb.Base.Slots.{slot_around}
use rust_rb.Base.Words.{wrapping_sub_plain, wrapping_add_plain}
use rust_rb.Spmc.{Shared, Producer, drop_overwritten, prepare_slot, publish, write, slot_index}
use rust_rb.Spmc.Consumers.{drop_live, drop_shared}
use rust_rb.Spmc.Queued.{Queued, Queued-head, Queued-tail, Queued-kept, Queued-snoc}
use rust_rb.Spmc.Gated.{IsGated, prepare_slot_cases, drop_overwritten-IsGated}

apart : {b : Bool} → b ≡ false → b ≡ true → ⊥
apart e h = cc

absurd_of {ℓ} : {C : Type ℓ} {b : Bool} → b ≡ false → b ≡ true → C
absurd_of e h = absurd (apart e h)

module _ {ℓ} {A : Type ℓ} where
  -- Of the elements pushed the first are dropped and the rest live in the slots from the watermark on.
  pub record Owns (capacity : ℕ) (p : Producer) (s : Shared A) (pushed live : List A) : Type ℓ where
    pub needed : s.needs_drop ≡ true
    pub mark : p.dropped_through_local ≡ s.dropped_through
    pub count : length live + s.dropped_through ≡ p.next_seq
    pub lap : length live ≤ capacity
    pub held : Queued capacity s.buffer s.dropped_through live
    pub all : s.drops ++ map some live ≡ map some pushed

  module _ {capacity : ℕ} {p : Producer} {s : Shared A} {pushed : List A}
      (v : IsGated capacity p s) where
    -- Dropping the occupant of the producer's slot takes the oldest live element.
    drop_overwritten-Owns :
        (x : A) (live : List A)
        → length (x ∷ live) ≡ capacity
        → Owns capacity p s pushed (x ∷ live)
        → let (p', s') = drop_overwritten p s in Owns capacity p' s' pushed live
    unfolding drop_overwritten
    drop_overwritten-Owns x live full o =
        let r = v.range in
        let n = o.count in
        let old = wrapping_sub_plain p.next_seq capacity (omega arith) (omega arith) in
        let first : wrapping_sub p.next_seq capacity ≡ s.dropped_through = omega arith in
        let mark : wrapping_add (wrapping_sub p.next_seq capacity) 1
            ≡ wrapping_add s.dropped_through 1 =
          rw first in
        let plain = wrapping_add_plain s.dropped_through 1 (omega arith) in
        let over = wrapping_add_plain s.dropped_through capacity (omega arith) in
        let next : p.next_seq ≡ wrapping_add s.dropped_through capacity = omega arith in
        let same : slot_index p.next_seq (capacity - 1)
            ≡ slot_index s.dropped_through (capacity - 1) =
          rw next (slot_around capacity s.dropped_through v.power v.small (omega arith)) in
        let masked : p.mask ≡ capacity - 1 = let m = v.mask in omega arith in
        let front = Queued-head capacity s.buffer s.dropped_through x live (omega arith) o.held in
        let later : p.next_seq ≡ wrapping_add (wrapping_add s.dropped_through 1) (length live) =
          omega (
            arith,
            wrapping_add_plain (wrapping_add s.dropped_through 1) (length live) (omega arith),
          ) in
        rw (v.mask, masked, mark)
          (record {
            needed = o.needed;
            mark = refl;
            count = omega arith;
            lap = omega arith;
            held = rw later (
                Queued-kept capacity s.buffer (wrapping_add s.dropped_through 1) live v.power
                  v.small v.storage (omega arith)
                  (Queued-tail capacity s.buffer s.dropped_through x live o.held) none);
            all = rw (same, front) (append_assoc s.drops (some x ∷ []) (map some live) ∙ o.all);
          })

    write-Owns :
        (x : A) (live : List A)
        → length live < capacity
        → p.next_seq + capacity + 1 < word_mod
        → Owns capacity p s pushed live
        → let (p', s') = write p s x in Owns capacity p' s' (pushed ++ (x ∷ [])) (live ++ (x ∷ []))
    unfolding write publish
    write-Owns x live room range o =
        let n = o.count in
        let size = length-append live (x ∷ []) in
        let plain = wrapping_add_plain p.next_seq 1 (omega arith) in
        let masked : p.mask ≡ capacity - 1 = let m = v.mask in omega arith in
        let next : p.next_seq ≡ wrapping_add s.dropped_through (length live) =
          omega (arith, wrapping_add_plain s.dropped_through (length live) (omega arith)) in
        record {
          needed = o.needed;
          mark = o.mark;
          count = omega arith;
          lap = omega arith;
          held =
              rw (masked, next)
                (Queued-snoc capacity s.buffer s.dropped_through live v.power v.small v.storage room
                  o.held x);
          all =
              rw (map-append some live (x ∷ []), map-append some pushed (x ∷ []))
                (sym (append_assoc s.drops (map some live) (some x ∷ []))
                  ∙ ap (λ l. l ++ (some x ∷ [])) o.all);
        }

  -- A push drops the occupant of its slot if there is one left, and adds its element.
  pub push_on-Owns :
      {capacity : ℕ} {p : Producer} {s : Shared A} {pushed : List A} (x : A) (live : List A)
      → IsGated capacity p s
      → p.next_seq + capacity + 1 < word_mod
      → Owns capacity p s pushed live
      → let (p', s') = prepare_slot p s in
        let (p'', s'') = write p' s' x in
        (live' : List A) × Owns capacity p'' s'' (pushed ++ (x ∷ [])) live'
  unfolding drop_overwritten
  push_on-Owns {capacity} {p} {s} x [] v range o =
      let far =
        let r = v.range in
        let n = o.count in
        wrapping_sub_plain p.next_seq s.dropped_through (omega arith) (omega arith) in
      elim (prepare_slot_cases p s) [
        | inl (e, _) ↦ rw e (_, write-Owns v x [] (let t = v.two in omega arith) range o)
        | inr (_, _, over) ↦
            let over' : p.mask < wrapping_sub p.next_seq s.dropped_through = rw (← o.mark) over in
            absurd (let n = o.count in let m = v.mask in let t = v.two in omega arith)
      ]
  push_on-Owns {capacity} {p} {s} x (y ∷ live) v range o =
      let n = o.count in
      let r = v.range in
      let far = wrapping_sub_plain p.next_seq s.dropped_through (omega arith) (omega arith) in
      elim (prepare_slot_cases p s) [
        | inl (e, inl never) ↦ absurd_of never o.needed
        | inl (e, inr close) ↦
            let close' : wrapping_sub p.next_seq s.dropped_through ≤ p.mask = rw (← o.mark) close in
            rw e (_, write-Owns v x (y ∷ live) (let m = v.mask in omega arith) range o)
        | inr (e, _, over) ↦
            let over' : p.mask < wrapping_sub p.next_seq s.dropped_through = rw (← o.mark) over in
            let m = v.mask in
            let l = o.lap in
            let full : length (y ∷ live) ≡ capacity = omega arith in
            let o' = drop_overwritten-Owns v y live full o in
            rw e (_, write-Owns (drop_overwritten-IsGated v) x live (omega arith) range o')
      ]

  -- Dropping the shared state then drops what is live.
  drop_live_lem :
      (rounds capacity : ℕ) (s : Shared A) (head tail : ℕ) (live : List A)
      → s.mask ≡ capacity - 1
      → length live + head ≡ tail
      → tail < word_mod
      → length live ≤ rounds
      → Queued capacity s.buffer head live
      → drop_live rounds s head tail ≡ map some live
  unfolding drop_live
  drop_live_lem zero capacity s head tail [] mask count w fits held = refl
  drop_live_lem zero capacity s head tail (x ∷ live) mask count w fits held = absurd (omega arith)
  drop_live_lem (suc rounds) capacity s head tail [] mask count w fits held =
      rw ((==_iff head tail).1 (omega arith))
  drop_live_lem (suc rounds) capacity s head tail (x ∷ live) mask count w fits held =
      let next = wrapping_add_plain head 1 (omega arith) in
      let rest =
        drop_live_lem rounds capacity s (wrapping_add head 1) tail live mask (omega arith) w
          (omega arith) (Queued-tail capacity s.buffer head x live held) in
      let front : get_or s.buffer (slot_index head s.mask) none ≡ some x =
        rw mask (Queued-head capacity s.buffer head x live (omega arith) held) in
      rw (ne→==_false head tail (omega arith), rest)
        (ap (λ (t : Option A). t ∷ map some live) front)

  -- With the shared state dropped, every element pushed has been dropped, once and in order.
  pub drop_shared-all :
      {capacity : ℕ} {p : Producer} {s : Shared A} {pushed live : List A} (rounds : ℕ)
      → IsGated capacity p s
      → Owns capacity p s pushed live
      → capacity ≤ rounds
      → drop_shared rounds s ≡ map some pushed
  unfolding drop_shared
  drop_shared-all {capacity} {s = s} {live = live} rounds v o fits =
      let n = o.count in
      let e =
        drop_live_lem rounds capacity s s.dropped_through s.write_cursor live
          (let m = v.shared_mask in omega arith) (omega arith) (let r = v.range in omega arith)
          (let l = o.lap in omega arith) o.held in
      rw (e, o.needed) o.all
