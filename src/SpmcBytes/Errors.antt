-- ===== src/SpmcBytes/Errors.antt =====
-- Which calls of the producer of the message ring panic.
use rust_rb.Base.{
  ℕ, ◌-◌, ◌≤◌, ◌<◌, ◌≡◌, ◌∙◌, ap, refl, Bool, true, false, List, Outcome, returns, panics,
  message_too_long, length, arith,
}
use rust_rb.Registry.{Slot}
use rust_rb.Frame.{frame, max_message_len}
use rust_rb.Frame.Fits.{frame_lem}
use rust_rb.SpmcBytes.{
  Shared, BytesProducer, try_push, push_in, push, wait_push, try_claim, claim_in, claim, wait_claim,
}
use rust_rb.SpmcBytes.Gated.{IsGated, place}

-- The outcome is the panic of a message that is too long, or none.
abbrev Ends : {A : Type 0} → Bool → Outcome A → Type 0
Ends true out = out ≡ panics message_too_long
Ends {A} false out = (a : A) × (out ≡ returns a)

-- Every way to send a message ends alike.
abbrev pub AllEnd : Bool → List (List Slot) → BytesProducer → Shared → List ℕ → Type 0
AllEnd long waits p s msg =
    Ends long (try_push p s msg)
    × Ends long (push waits p s msg)
    × Ends long (try_claim p s (length msg))
    × Ends long (claim waits p s (length msg))

-- Sending a message, blocking or not, by its bytes or by a claim of its length, panics exactly if the
-- message is longer than the ring takes, whatever room there is; only the waits for room can go on.
pub sends-AllEnd :
    {capacity : ℕ} {p : BytesProducer} {s : Shared} (waits : List (List Slot)) (msg : List ℕ)
    → IsGated capacity p s
    → (max_message_len capacity < length msg → AllEnd true waits p s msg)
      × (length msg ≤ max_message_len capacity → AllEnd false waits p s msg)
unfolding try_push push_in push wait_push try_claim claim_in claim wait_claim
sends-AllEnd {capacity} {p} {s} waits msg v =
    let mask : p.mask ≡ capacity - 1 = let m = v.mask in omega arith in
    let at = ap (λ (m : ℕ). frame m p.next_seq (length msg)) mask in
    let (legal, long) = frame_lem (place v) (length msg) in
    (
      λ k.
          let e : frame p.mask p.next_seq (length msg) ≡ panics message_too_long = at ∙ long k in
          rw e (refl, refl, refl, refl),
      λ k.
          let (pad, framed, _, _, _) = legal k in
          rw (at ∙ framed) ((_, refl), (_, refl), (_, refl), (_, refl)),
    )
