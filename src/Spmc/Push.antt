-- ===== src/Spmc/Push.antt =====
-- What a push does, for the producer and for every consumer at once.
use rust_rb.Base.{
  ℕ, ◌+◌, ◌≤◌, ◌<◌, ◌≡◌, ◌⊎◌, inl, inr, refl, ◌∙◌, ap, Bool-cases, Option, none, some, List, [],
  ◌∷◌, ◌++◌, arith, word_mod, wrapping_sub,
}
use rust_rb.Registry.Scan.{HasRoom}
use rust_rb.Spmc.{Shared, Producer, Consumer, has_space, prepare_slot, write, try_push}
use rust_rb.Spmc.Gated.{
  IsGated, has_space_lem, prepare_slot_cases, prepare_slot_keeps, prepare_slot-IsGated,
  write-IsGated,
}
use rust_rb.Spmc.Holds.{Holds, drop_overwritten-Holds, write-Holds}

module _ {ℓ} {A : Type ℓ} where
  prepare_slot-Holds :
      {capacity : ℕ} {p : Producer} {s : Shared A} {c : Consumer} {q : List A}
      → IsGated capacity p s
      → wrapping_sub p.next_seq p.cached_min + 1 ≤ capacity
      → p.next_seq + capacity + 1 < word_mod
      → Holds capacity s c q
      → Holds capacity (prepare_slot p s).1 c q
  prepare_slot-Holds {p} {s} v room range h = elim (prepare_slot_cases p s) [
    | inl (e, _) ↦ rw e h
    | inr (e, _, _) ↦ rw e (drop_overwritten-Holds v h room (let t = v.two in omega arith))
  ]

  -- Once its space check has passed, a push adds the element to the queue of every consumer.
  pub push_on-Holds :
      {capacity : ℕ} {p : Producer} {s : Shared A} (x : A)
      → IsGated capacity p s
      → wrapping_sub p.next_seq p.cached_min + 1 ≤ capacity
      → p.next_seq + capacity + 1 < word_mod
      → let (p', s') = prepare_slot p s in
        let (p'', s'') = write p' s' x in
        IsGated capacity p'' s''
        × (p''.next_seq ≡ p.next_seq + 1)
        × ((c : Consumer) (q : List A)
            → Holds capacity s c q
            → Holds capacity s'' c (q ++ (x ∷ [])))
  push_on-Holds {capacity} {p} {s} x v room range =
      let (next, mask, min, registry, _, _) = prepare_slot_keeps p s in
      let v' = prepare_slot-IsGated v in
      let room' : wrapping_sub (prepare_slot p s).0.next_seq (prepare_slot p s).0.cached_min + 1
          ≤ capacity =
        rw (next, min) room in
      let range' : (prepare_slot p s).0.next_seq + capacity + 1 < word_mod = rw next range in
      let (w, e) = write-IsGated x v' room' range' in
      (
        w,
        e ∙ ap (λ (t : ℕ). t + 1) next,
        λ c q h.
            write-Holds v' (prepare_slot-Holds v room range h) room' (let t = v.two in omega arith)
              x,
      )

  -- What `try_push` may answer.
  abbrev pub Reaches : ℕ → Producer → Shared A → A → Option A × Producer × Shared A → Type ℓ
  Reaches capacity p s x (back, p', s') =
      (HasRoom p.next_seq 1 capacity s.registry
        × (back ≡ none)
        × IsGated capacity p' s'
        × (p'.next_seq ≡ p.next_seq + 1)
        × ((c : Consumer) (q : List A)
            → Holds capacity s c q
            → Holds capacity s' c (q ++ (x ∷ []))))
      ⊎ ((¬ HasRoom p.next_seq 1 capacity s.registry)
          × (back ≡ some x)
          × IsGated capacity p' s
          × (p'.next_seq ≡ p.next_seq)
          × (s' ≡ s))

  -- `try_push` takes the element exactly if every consumer in the registry leaves a slot, and then
  -- adds it to the queue of every consumer; else it hands the element back and stores nothing.
  pub try_push-Reaches :
      {capacity : ℕ} {p : Producer} {s : Shared A} (x : A)
      → IsGated capacity p s
      → p.next_seq + capacity + 1 < word_mod
      → Reaches capacity p s x (try_push p s x)
  unfolding try_push
  try_push-Reaches {capacity} {p} {s} x v range =
      let ((fits, free), room, (v', next, _)) =
        has_space_lem 1 v (let t = v.two in omega arith) range in
      elim (Bool-cases (has_space p s 1).0) [
        | inl passed ↦
            let room' : wrapping_sub (has_space p s 1).1.next_seq (has_space p s 1).1.cached_min + 1
                ≤ capacity =
              rw next (room passed) in
            let (w, e, all) = push_on-Holds x v' room' (rw next range) in
            rw passed (inl (fits passed, refl, w, e ∙ ap (λ (t : ℕ). t + 1) next, all))
        | inr failed ↦ rw failed (inr (λ h. cc (free h), refl, v', next, refl))
      ]
