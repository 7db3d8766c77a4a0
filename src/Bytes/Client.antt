-- ===== src/Bytes/Client.antt =====
-- Any sequence of calls of the byte ring's two handles against the queue: first in, first out.
use rust_rb.Base.{
  ℕ, ◌≡◌, ◌∙◌, sym, ap, inl, inr, Bool, true, false, none, some, List, [], ◌∷◌, ◌++◌, append-nil,
  append_assoc, arith, length, returns, panics,
}
use native.Mathlib.Decide.{dec_lt}
use rust_rb.Frame.{max_message_len}
use rust_rb.Bytes.{Ring, try_push, try_pop, view, drop_msg}
use rust_rb.Bytes.Calls.{Queue, try_push-Pushes, try_pop-Pops}

-- A client's call of one of the two handles; a popped message is copied out and dropped at once.
pub data Call : Type 0 where
  push : List ℕ → Call
  pop : Call

-- The messages that the ring took, those that it gave, and the ring after the calls.
abbrev pub Log : Type 0
Log = List (List ℕ) × List (List ℕ) × Ring

abbrev log_push : List ℕ → Bool → Log → Log
log_push msg true (took, gave, r) = (msg ∷ took, gave, r)
log_push msg false log = log

abbrev log_pop : List ℕ → Log → Log
log_pop msg (took, gave, r) = (took, msg ∷ gave, r)

-- A panic ends the run, with the ring as it was.
unfoldable pub run : Ring → List Call → Log
run r [] = ([], [], r)
run r (push msg ∷ calls) = elim (try_push r msg) [
  | panics cause ↦ ([], [], r)
  | returns (taken_in, r') ↦ log_push msg taken_in (run r' calls)
]
run r (pop ∷ calls) =
    let (out, r') = try_pop r in
    elim out [
      | none ↦ run r' calls
      | some slot ↦ log_pop (view r' slot) (run (drop_msg r' slot) calls)
    ]

-- What a log says of a ring that held `q`.
abbrev pub Delivers : ℕ → List (List ℕ) → Log → Type 0
Delivers capacity q (took, gave, r) =
    (left : List (List ℕ)) × Queue capacity r left × (q ++ took ≡ gave ++ left)

-- Any calls of the two handles, in any order, with messages of any lengths: the messages given,
-- then those still held, are those held at the start, then those taken: each once, with its bytes,
-- in order. A message too long ends the run by its panic.
pub run-Delivers :
    {capacity : ℕ} (calls : List Call) {r : Ring} {q : List (List ℕ)}
    → Queue capacity r q
    → Delivers capacity q (run r calls)
unfolding run
run-Delivers [] {q} h = (q, h, append-nil q)
run-Delivers {capacity} (push msg ∷ calls) {r} {q} h =
    let (legal, long) = try_push-Pushes msg h in
    elim (dec_lt (max_message_len capacity) (length msg)) [
      | yes beyond ↦ rw (run, long beyond) (q, h, append-nil q)
      | no within ↦
          let (_, (taken_in, r'), _, returned, pushes) = legal (omega arith) in
          elim pushes [
            | inl (_, took, h') ↦
                let (left, holds, e) = run-Delivers calls h' in
                rw (run, returned, took) (left, holds, sym (append_assoc q (msg ∷ []) _) ∙ e)
            | inr (_, refused, h') ↦ rw (run, returned, refused) (run-Delivers calls h')
          ]
    ]
run-Delivers (pop ∷ calls) {r} {q = []} h =
    let (out, h') = try_pop-Pops [] h in rw (run, out) (run-Delivers calls h')
run-Delivers (pop ∷ calls) {r} {q = msg ∷ rest} h =
    let (slot, out, body, h') = try_pop-Pops (msg ∷ rest) h in
    let (left, holds, e) = run-Delivers calls h' in
    rw (run, out, body) (left, holds, ap (λ l. msg ∷ l) e)
