-- ===== src/Cursor/Waiting.antt =====
-- The blocking loops end once the other side has made room, or has published an item.
use rust_rb.Base.{
  ℕ, ◌+◌, ◌^◌, ◌≤◌, ◌<◌, ◌≡◌, ◌≢◌, ◌∙◌, sym, inl, inr, true, false, none, some, Option, List, [],
  ◌∷◌, arith, Bool-cases, word_mod, wrapping_sub, if◌then◌else◌,
}
use rust_rb.Cursor.{Shared, ProducerCore, ConsumerCore, has_space, wait_for_space}
use rust_rb.Cursor.{has_item, refresh, wait_for_item}
use rust_rb.Policy.{no_item}
use rust_rb.Cursor.Space.{IsSane, has_space_room, has_space_full}

-- The last of a value and the list that follows it.
abbrev pub last : ℕ → List ℕ → ℕ
last x [] = x
last x (y ∷ ys) = last y ys

-- Every cursor of the list leaves the producer within the capacity.
abbrev pub Within : ℕ → ℕ → List ℕ → Type 0
Within capacity write [] = Unit
Within capacity write (r ∷ rs) =
    (r < word_mod) × (wrapping_sub write r ≤ capacity) × Within capacity write rs

abbrev pub Words : List ℕ → Type 0
Words [] = Unit
Words (w ∷ ws) = (w < word_mod) × Words ws

pub has_item_keeps :
    (c : ConsumerCore) (s : Shared)
    → ((has_item c s).1.read_cursor ≡ c.read_cursor) × ((has_item c s).1.anchor ≡ c.anchor)
unfolding has_item refresh
has_item_keeps c s = ground arith

module _ (c : ConsumerCore) (s : Shared) (hr : c.read_cursor < word_mod)
    (hc : c.write_cursor_cache < word_mod) (hs : s.write_cursor < word_mod) where
  pub has_item_found :
      (has_item c s).0 ≡ true
      → let c' = (has_item c s).1 in
        (c'.write_cursor_cache ≢ c.read_cursor)
        × (c'.read_cursor ≡ c.read_cursor)
        × (c'.published ≡ c.published)
  unfolding has_item refresh no_item wrapping_sub
  has_item_found h = ground arith

  has_item_empty :
      (has_item c s).0 ≡ false
      → let c' = (has_item c s).1 in
        (s.write_cursor ≡ c.read_cursor)
        × (c'.read_cursor ≡ c.read_cursor)
        × (c'.write_cursor_cache ≡ s.write_cursor)
        × (c'.published ≡ c.published)
  unfolding has_item refresh no_item wrapping_sub
  has_item_empty h = ground arith

-- What a finished wait for space returns.
abbrev Waited : ℕ → ProducerCore → Shared → ℕ → Option (ProducerCore × Shared) → Type 0
Waited capacity p s needed out =
    (p' : ProducerCore) × (s' : Shared) × (out ≡ some (p', s'))
    × (wrapping_sub p'.write_cursor p'.read_cursor_cache + needed ≤ capacity)
    × (p'.write_cursor ≡ p.write_cursor)
    × (s'.write_cursor ≡ s.write_cursor)

-- A round whose check passes ends the loop, whatever the rest of it would be.
pass :
    {capacity : ℕ} (p : ProducerCore) (s : Shared) (needed : ℕ)
    (rest : Option (ProducerCore × Shared))
    → IsSane capacity p s
    → needed < 2 ^ 63
    → (has_space p s needed).0 ≡ true
    → let (fits, p', s') = has_space p s needed in
      Waited capacity p s needed (if fits then some (p', s') else rest)
pass p s needed rest sane small fits =
    let (free, write, shared, _, _) = has_space_room needed sane small fits in
    ((has_space p s needed).1, (has_space p s needed).2, rw fits, free, write, shared)

stored-IsSane :
    {capacity : ℕ} (p : ProducerCore) (s : Shared) (r : ℕ)
    → IsSane capacity p s
    → r < word_mod
    → wrapping_sub p.write_cursor r ≤ capacity
    → IsSane capacity p (record s { read_cursor = r })
stored-IsSane p s r sane h k = omega arith

-- If the last cursor that the consumer publishes leaves `needed` units free, and none of them lies
-- outside the capacity, the wait for space ends, with `needed` units free of the cached view and
-- the write cursor where it was.
pub wait_for_space_returns :
    {capacity : ℕ} (cursors : List ℕ) (p : ProducerCore) (s : Shared) (needed : ℕ)
    → IsSane capacity p s
    → Within capacity p.write_cursor cursors
    → needed < 2 ^ 63
    → wrapping_sub p.write_cursor (last s.read_cursor cursors) + needed ≤ capacity
    → (p' : ProducerCore) × (s' : Shared) × (wait_for_space cursors p s needed ≡ some (p', s'))
      × (wrapping_sub p'.write_cursor p'.read_cursor_cache + needed ≤ capacity)
      × (p'.write_cursor ≡ p.write_cursor)
      × (s'.write_cursor ≡ s.write_cursor)
unfolding wait_for_space
wait_for_space_returns [] p s needed sane within small room =
    elim (Bool-cases (has_space p s needed).0) [
      | inl fits ↦ pass p s needed none sane small fits
      | inr full ↦ absurd (omega (arith, has_space_full needed sane small full))
    ]
wait_for_space_returns {capacity} (r ∷ rs) p s needed sane within small room =
    elim (Bool-cases (has_space p s needed).0) [
      | inl fits ↦ pass p s needed _ sane small fits
      | inr full ↦
          let (_, _, write, _, shared, _, sane') = has_space_full needed sane small full in
          let p' = (has_space p s needed).1 in
          let s' = record (has_space p s needed).2 { read_cursor = r } in
          let next =
            stored-IsSane p' (has_space p s needed).2 r sane' within.0 (rw write within.1) in
          let (p'', s'', ends, free, kept, shared') =
            wait_for_space_returns rs p' s' needed next (rw write within.2) small (rw write room) in
          (p'', s'', rw full ends, free, kept ∙ write, shared' ∙ shared)
    ]

-- If the last cursor that the producer publishes differs from the read cursor, the wait for an item
-- ends, the read cursor where it was and the view of the producer past it.
pub wait_for_item_returns :
    (cursors : List ℕ) (c : ConsumerCore) (s : Shared)
    → c.read_cursor < word_mod
    → c.write_cursor_cache < word_mod
    → s.write_cursor < word_mod
    → Words cursors
    → last s.write_cursor cursors ≢ c.read_cursor
    → (c' : ConsumerCore) × (s' : Shared) × (wait_for_item cursors c s ≡ some (c', s'))
      × (c'.write_cursor_cache ≢ c.read_cursor)
      × (c'.read_cursor ≡ c.read_cursor)
      × (c'.published ≡ c.published)
unfolding wait_for_item
wait_for_item_returns [] c s hr hc hs hw other = elim (Bool-cases (has_item c s).0) [
  | inl found ↦
      let (view, kept, published) = has_item_found c s hr hc hs found in
      ((has_item c s).1, s, rw found, view, kept, published)
  | inr empty ↦ absurd (other (has_item_empty c s hr hc hs empty).0)
]
wait_for_item_returns (w ∷ ws) c s hr hc hs hw other = elim (Bool-cases (has_item c s).0) [
  | inl found ↦
      let (view, kept, published) = has_item_found c s hr hc hs found in
      ((has_item c s).1, s, rw found, view, kept, published)
  | inr empty ↦
      let (_, kept, view, published) = has_item_empty c s hr hc hs empty in
      let c' = (has_item c s).1 in
      let (c'', s'', ends, past, kept', published') =
        wait_for_item_returns ws c' (record s { write_cursor = w }) (rw kept hr) (rw view hs) hw.0
          hw.1 (rw kept other) in
      (c'', s'', rw empty ends, λ e. past (e ∙ sym kept), kept' ∙ kept, published' ∙ published)
]
