-- ===== src/SpmcBytes/Client.antt =====
-- Any sequence of calls of the producer and of any number of consumers of the message ring. A consumer
-- that is handed a message reads its bytes and drops it. The calls, their answers and the queues that
-- they are held against are those of the element ring.
use rust_rb.Base.{
  Bool, ℕ, ◌+◌, ◌≤◌, Option, none, some, List, [], ◌∷◌, length, Outcome, returns, panics,
}
use rust_rb.Frame.{max_message_len}
use rust_rb.Registry.Peers.{pop_at, leave_at}
use rust_rb.Spmc.Consumers
use rust_rb.Spmc.Client.{Call, push, pop, join, leave, Answer, pushed, got, done}
use rust_rb.SpmcBytes.{Shared, BytesProducer, BytesConsumer, subscribe_from, try_push}
use rust_rb.SpmcBytes.Consumers.{
  Popped, closed, nothing, item, view, drop_msg, try_pop, drop_consumer,
}

pub record System : Type 0 where
  pub shared : Shared
  pub producer : BytesProducer
  pub consumers : List BytesConsumer

abbrev pub Message : Type 0
Message = List ℕ

abbrev pub joined : Option BytesConsumer → List BytesConsumer → List BytesConsumer
joined none cs = cs
joined (some c) cs = c ∷ cs

abbrev pub handed : Popped → BytesConsumer → Shared → Answer Message × BytesConsumer × Shared
handed closed c s = (got Consumers.closed, c, s)
handed nothing c s = (got Consumers.nothing, c, s)
handed (item msg) c s =
    let (c', s') = drop_msg c s msg in (got (Consumers.item (view s msg)), c', s')

abbrev pub pop_of : BytesConsumer → Shared → Answer Message × BytesConsumer × Shared
pop_of c s = let (out, c') = try_pop c s in handed out c' s

-- A push that panics has changed nothing.
abbrev pub push_of : Outcome (Bool × BytesProducer × Shared) → System → Answer Message × System
push_of (returns (taken_in, p, s)) y = (pushed taken_in, record y { producer = p; shared = s })
push_of (panics cause) y = (done, y)

unfoldable pub step : System → Call Message → Answer Message × System
step y (push msg) = push_of (try_push y.producer y.shared msg) y
step y (pop i) =
    let (a, cs, s) = pop_at pop_of done i y.consumers y.shared in
    (a, record y { consumers = cs; shared = s })
step y join =
    let (c, s) = subscribe_from y.shared in
    (done, record y { consumers = joined c y.consumers; shared = s })
step y (leave i) =
    let (cs, s) = leave_at drop_consumer i y.consumers y.shared in
    (done, record y { consumers = cs; shared = s })

unfoldable pub run : System → List (Call Message) → List (Answer Message) × System
run y [] = ([], y)
run y (call ∷ calls) = let (a, y') = step y call in let (as', y'') = run y' calls in (a ∷ as', y'')

-- No message is longer than the ring takes.
abbrev pub IsLegal : ℕ → Call Message → Type 0
IsLegal capacity (push msg) = length msg ≤ max_message_len capacity
IsLegal capacity (pop i) = Unit {0}
IsLegal capacity join = Unit {0}
IsLegal capacity (leave i) = Unit {0}

abbrev pub AllLegal : ℕ → List (Call Message) → Type 0
AllLegal capacity [] = Unit {0}
AllLegal capacity (call ∷ calls) = IsLegal capacity call × AllLegal capacity calls

-- How far the calls may move the producer's cursor: a capacity each.
abbrev pub reach : ℕ → List (Call Message) → ℕ
reach capacity [] = capacity
reach capacity (call ∷ calls) = capacity + reach capacity calls
