-- ===== src/Registry/Join.antt =====
-- How joining, publishing and leaving change the registry, and what the producer knows of it.
use rust_rb.Base.{
  ℕ, zero, suc, ◌+◌, ◌<◌, ◌≡◌, ◌≢◌, refl, sym, ◌∙◌, ap, true, false, Bool-cases, inl, inr, List, [],
  ◌∷◌, arith, replicate, set, length, get_or-replicate, get_or-set_self, get_or-set_ne, length-set,
  if◌then◌else◌,
}
use rust_rb.Registry.{
  Slot, free_slot, slot_at, guard_sentinel, deactivate, active_count, is_free, claim_registry_slot,
  subscribe_slot,
}

abbrev claimed : ℕ → Slot
claimed join = record { active = false; cursor = guard_sentinel join }

new_slot : (s : Slot) (j : ℕ) → j ≢ 0 → slot_at (s ∷ replicate 63 free_slot) j ≡ free_slot
new_slot s zero h = absurd (h refl)
new_slot s (suc j) h = get_or-replicate 63 free_slot j

is_free_fresh : is_free free_slot ≡ true
unfolding is_free
is_free_fresh = refl

pub is_free_idle : (s : Slot) → is_free s ≡ true → s.active ≡ false
unfolding is_free
is_free_idle s h = ground arith

first_slot :
    (a s : Slot) (rest : List Slot) (j : ℕ) → j ≢ 0 → slot_at (a ∷ rest) j ≡ slot_at (s ∷ rest) j
first_slot a s rest zero h = absurd (h refl)
first_slot a s rest (suc j) h = refl

later_slot :
    (s : Slot) (rest rest' : List Slot) (i : ℕ)
    → ((j : ℕ) → j ≢ i → slot_at rest' j ≡ slot_at rest j)
    → (j : ℕ) → j ≢ suc i
    → slot_at (s ∷ rest') j ≡ slot_at (s ∷ rest) j
later_slot s rest rest' i h zero ne = refl
later_slot s rest rest' i h (suc j) ne = h j (λ e. ne (ap suc e))

module _ (join : ℕ) where
  -- The claimed slot was free, and holds the provisional cursor with its bit still clear; no other
  -- slot changes.
  pub claim_registry_slot_lem :
      (registry : List Slot)
      → let (i, registry') = claim_registry_slot registry join in
        (is_free (slot_at registry i) ≡ true)
        × (i < length registry')
        × (slot_at registry' i ≡ claimed join)
        × ((j : ℕ) → j ≢ i → slot_at registry' j ≡ slot_at registry j)
        × (active_count registry' ≡ active_count registry)
  unfolding claim_registry_slot active_count
  claim_registry_slot_lem [] =
      (is_free_fresh, omega arith, refl, λ j h. new_slot (claimed join) j h, refl)
  claim_registry_slot_lem (s ∷ rest) =
      let (free, inside, here, others, count) = claim_registry_slot_lem rest in
      elim (Bool-cases (is_free s)) [
        | inl ok ↦ rw ok (
          ok,
          omega arith,
          refl,
          λ j h. first_slot (claimed join) s rest j h,
          rw (is_free_idle s ok),
        )
        | inr no_one ↦
            rw no_one (free, omega arith, here, later_slot s rest _ _ others, omega arith)
      ]

abbrev bit : Slot → ℕ
bit s = if s.active then 1 else 0

pub active_count-set :
    (registry : List Slot) (i : ℕ) (s : Slot)
    → i < length registry
    → active_count (set registry i s) + bit (slot_at registry i) ≡ active_count registry + bit s
unfolding active_count
active_count-set [] i s h = absurd (omega arith)
active_count-set (x ∷ rest) zero s h = omega arith
active_count-set (x ∷ rest) (suc i) s h = omega (arith, active_count-set rest i s (omega arith))

-- Past the last chunk no bit is set.
pub slot_inside :
    (registry : List Slot) (i : ℕ) → (slot_at registry i).active ≡ true → i < length registry
slot_inside [] i h = cc
slot_inside (s ∷ rest) zero h = omega arith
slot_inside (s ∷ rest) (suc i) h = omega (arith, slot_inside rest i h)

-- The two stores of a joiner to its slot: the bit, then the cursor.
abbrev activated : List Slot → ℕ → ℕ → List Slot
activated held i cursor =
    let marked = set held i (record (slot_at held i) { active = true }) in
    set marked i (record (slot_at marked i) { cursor = cursor })

module _ (held : List Slot) (i cursor : ℕ) (inside : i < length held) where
  activated_slot : slot_at (activated held i cursor) i ≡ record { active = true; cursor = cursor }
  activated_slot =
      let on : Slot = record (slot_at held i) { active = true } in
      let read = get_or-set_self held i on free_slot inside in
      get_or-set_self (set held i on) i _ free_slot (rw (length-set held i on) inside)
      ∙ ap (λ (s : Slot). record s { cursor = cursor }) read

  activated_others : (j : ℕ) → j ≢ i → slot_at (activated held i cursor) j ≡ slot_at held j
  activated_others j h =
      get_or-set_ne _ i j _ free_slot (λ e. h (sym e))
      ∙ get_or-set_ne held i j _ free_slot (λ e. h (sym e))

  length-activated : i < length (activated held i cursor)
  length-activated =
      let on : Slot = record (slot_at held i) { active = true } in
      rw (length-set (set held i on) i _, length-set held i on) inside

  activated_count :
      active_count (activated held i cursor) + bit (slot_at held i) ≡ suc (active_count held)
  activated_count =
      let on : Slot = record (slot_at held i) { active = true } in
      let read = get_or-set_self held i on free_slot inside in
      let long = length-set held i on in
      let first = active_count-set held i on inside in
      let last : Slot = record (slot_at (set held i on) i) { cursor = cursor } in
      let second = active_count-set (set held i on) i last (omega arith) in
      omega (arith, first, second, ap bit read)

-- Joining takes a slot that was free, marks it, and leaves the producer's cursor in it; no other slot
-- changes, and one consumer more is counted.
pub subscribe_slot_lem :
    (registry : List Slot) (join : ℕ)
    → let (slot, registry') = subscribe_slot registry join in
      let i = slot.slot_idx in
      (is_free (slot_at registry i) ≡ true)
      × (i < length registry')
      × (slot_at registry' i ≡ record { active = true; cursor = slot.published })
      × ((j : ℕ) → j ≢ i → slot_at registry' j ≡ slot_at registry j)
      × (active_count registry' ≡ suc (active_count registry))
      × (slot.joined ≡ join)
      × (slot.published ≡ guard_sentinel join)
unfolding subscribe_slot
subscribe_slot_lem registry join =
    let (free, inside, here, others, count) = claim_registry_slot_lem join registry in
    let i = (claim_registry_slot registry join).0 in
    let held = (claim_registry_slot registry join).1 in
    let p = guard_sentinel join in
    (
      free,
      length-activated held i p inside,
      activated_slot held i p inside,
      λ j h. activated_others held i p inside j h ∙ others j h,
      omega (arith, activated_count held i p inside, ap bit here, count),
      refl,
      refl,
    )

-- Leaving clears the bit of a marked slot, changes no other, and one consumer less is counted.
pub deactivate_lem :
    (registry : List Slot) (i : ℕ)
    → (slot_at registry i).active ≡ true
    → ((slot_at (deactivate registry i) i).active ≡ false)
      × ((j : ℕ) → j ≢ i → slot_at (deactivate registry i) j ≡ slot_at registry j)
      × (suc (active_count (deactivate registry i)) ≡ active_count registry)
unfolding deactivate
deactivate_lem registry i on =
    let inside = slot_inside registry i on in
    let read =
      get_or-set_self registry i (record (slot_at registry i) { active = false }) free_slot
        inside in
    (
      ap (λ (s : Slot). s.active) read,
      λ j h. get_or-set_ne registry i j _ free_slot (λ e. h (sym e)),
      (let count =
            active_count-set registry i (record (slot_at registry i) { active = false }) inside in
          let was : bit (slot_at registry i) ≡ 1 = rw on in omega arith),
    )
