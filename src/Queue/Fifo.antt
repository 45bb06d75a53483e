-- ===== src/Queue/Fifo.antt =====
-- What EncoderCQ.cpp promises its callers: a first-in first-out queue that can be stopped.
use encoder_with_web_socket.Prelude.{
  ℕ, ◌+◌, ◌≡◌, Bool, true, false, not, ◌&&◌, Option, none, some, List, [], ◌∷◌, ◌++◌, map,
  if◌then◌else◌,
}
use encoder_with_web_socket.Queue.{
  EncoderElement, QueueMsg, EncoderCq, Outcome, map_outcome, enqueue, Taken, take_front, Dequeue,
  dequeue, start, stop, clear, queue_success, queue_stop, queue_noelement, done, fault, returned,
  waits,
}

-- The calls of the other threads, in the order in which the locks let them through. A `get` on an empty
-- queue goes to sleep; `wake` is a caller that has slept and goes on behind `cond.wait`.
pub data Op : Type 0 where
  put : EncoderElement → Op
  get : Op
  wake : Op
  halt : Op
  resume : Op
  wipe : Op

-- What a caller sees. A caller of `dequeue` that goes to sleep is `asleep`.
pub data Reply : Type 0 where
  sent : QueueMsg → Reply
  received : QueueMsg → Option EncoderElement → Reply
  asleep : Reply
  switched : Reply
  freed : List ℕ → Reply

abbrev after_dequeue : EncoderCq → Dequeue → Outcome (Reply × EncoderCq)
after_dequeue q (returned o) = map_outcome (λ (t : Taken). (received t.0 t.1, t.2)) o
after_dequeue q waits = done (asleep, q)

-- One call on the queue of the source.
unfoldable pub step : EncoderCq → Op → Outcome (Reply × EncoderCq)
step q (put e) = map_outcome (λ (r : QueueMsg × EncoderCq). (sent r.0, r.1)) (enqueue q e)
step q get = after_dequeue q (dequeue q)
step q wake = map_outcome (λ (t : Taken). (received t.0 t.1, t.2)) (take_front q)
step q halt = done (switched, stop q)
step q resume = done (switched, start q)
step q wipe = done (freed (clear q).0, (clear q).1)

infixl 5 ◌>>=◌
abbrev pub ◌>>=◌ {ℓ κ} : {A : Type ℓ} {B : Type κ} → Outcome A → (A → Outcome B) → Outcome B
done a >>= f = f a
fault >>= f = fault

-- The replies to a sequence of calls.
unfoldable pub run : EncoderCq → List Op → Outcome (List Reply)
run q [] = done []
run q (op ∷ ops) = step q op >>= λ r. map_outcome (λ rs. r.0 ∷ rs) (run r.1 ops)

-- The elements that wait, and whether the queue is stopped.
pub record Fifo : Type 0 where
  pub items : List EncoderElement
  pub stopped : Bool

abbrev take_item : Fifo → List EncoderElement → Reply × Fifo
take_item f [] = (asleep, f)
take_item f (e ∷ rest) = (received queue_success (some e), record f { items = rest })

abbrev pub is_empty : List EncoderElement → Bool
is_empty [] = true
is_empty (e ∷ es) = false

-- One call on the specification, for a queue that waits (`isWait`) or not.
unfoldable pub fifo_step : Bool → Fifo → Op → Reply × Fifo
fifo_step wait f (put e) =
    if f.stopped
    then (sent queue_stop, f)
    else (sent queue_success, record f { items = f.items ++ e ∷ [] })
fifo_step wait f get =
    if is_empty f.items && not wait
    then (received queue_noelement none, f)
    else if f.stopped
    then (received queue_stop none, f)
    else take_item f f.items
fifo_step wait f wake = if f.stopped then (received queue_stop none, f) else take_item f f.items
fifo_step wait f halt = (switched, record f { stopped = true })
fifo_step wait f resume = (switched, record f { stopped = false })
fifo_step wait f wipe =
    (freed (map (λ (e : EncoderElement). e.buffer) f.items), record f { items = [] })

unfoldable pub fifo_run : Bool → Fifo → List Op → List Reply
fifo_run wait f [] = []
fifo_run wait f (op ∷ ops) = let r = fifo_step wait f op in r.0 ∷ fifo_run wait r.1 ops

-- A caller that wakes finds an element, or the queue stopped.
abbrev pub Finds : Fifo → Op → Type 0
Finds f wake = (is_empty f.items && not f.stopped) ≡ false
Finds f (put e) = Unit {0}
Finds f get = Unit {0}
Finds f halt = Unit {0}
Finds f resume = Unit {0}
Finds f wipe = Unit {0}

-- No caller wakes to an empty queue that runs.
unfoldable pub IsTimely : Bool → Fifo → List Op → Type 0
IsTimely wait f [] = Unit {0}
IsTimely wait f (op ∷ ops) = Finds f op × IsTimely wait (fifo_step wait f op).1 ops

-- How many elements a sequence of calls offers.
abbrev pub puts : List Op → ℕ
puts [] = 0
puts (put e ∷ ops) = puts ops + 1
puts (get ∷ ops) = puts ops
puts (wake ∷ ops) = puts ops
puts (halt ∷ ops) = puts ops
puts (resume ∷ ops) = puts ops
puts (wipe ∷ ops) = puts ops

abbrev pub cost : Op → ℕ
cost (put e) = 1
cost get = 0
cost wake = 0
cost halt = 0
cost resume = 0
cost wipe = 0
