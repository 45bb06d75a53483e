-- ===== src/Queue/Fault.antt =====
-- Where EncoderCQ.cpp leaves its array, and what the missing second look of `dequeue` does.
use encoder_with_web_socket.Prelude.{
  slice-cons, ◌+◌, ◌-◌, ◌≤◌, ◌<◌, ◌≡◌, ◌≢◌, ◌⊎◌, inl, inr, false, none, some, List, [], ◌∷◌, arith,
  dec_lt, Bool-cases, get_elem?,
}
use encoder_with_web_socket.Queue.{
  EncoderElement, QueueMsg, EncoderCq, enqueue, take_front, dequeue, queue_success, queue_noelement,
  queue_full, done, fault,
}
use encoder_with_web_socket.Queue.Fifo.{
  Op, Reply, step, run, puts, put, get, wake, halt, resume, wipe, received, asleep,
}
use encoder_with_web_socket.Queue.Order.{
  IsValid, pushed, enqueue-pushed, popped, take_front-popped, pushed-IsValid, popped-IsValid,
}

-- The test for a full queue never holds of a valid queue.
enqueue-ne-full :
    {q : EncoderCq} (e : EncoderElement) {m : QueueMsg} {q' : EncoderCq}
    → IsValid q
    → enqueue q e ≡ done (m, q')
    → m ≢ queue_full
unfolding enqueue
enqueue-ne-full {q} e v h = ground arith

pub enqueue-fault :
    (q : EncoderCq) (e : EncoderElement)
    → q.is_stop ≡ false
    → q.front ≤ q.rear
    → q.rear ≡ q.maxsize
    → enqueue q e ≡ fault
unfolding enqueue
enqueue-fault q e running o h = ground arith

-- Producers and consumers at work: no call stops, restarts or clears the queue. A caller that wakes to
-- an element does what `get` does; take_front-empty is about one that wakes to none.
abbrev pub IsTraffic : List Op → Type 0
IsTraffic [] = Unit {0}
IsTraffic (put e ∷ ops) = IsTraffic ops
IsTraffic (get ∷ ops) = IsTraffic ops
IsTraffic (wake ∷ ops) = ⊥
IsTraffic (halt ∷ ops) = ⊥
IsTraffic (resume ∷ ops) = ⊥
IsTraffic (wipe ∷ ops) = ⊥

-- What `dequeue` does to a running queue: the caller gets nothing, or an element is taken.
get-step :
    {q : EncoderCq}
    → IsValid q
    → q.is_stop ≡ false
    → ((r : Reply) × (step q get ≡ done (r, q)))
      ⊎ ((q.front < q.rear) × (r : Reply) × (step q get ≡ done (r, popped q)))
unfolding step dequeue
get-step {q} v running = elim (dec_lt q.front q.rear) [
  | yes ready ↦
      let t = take_front-popped v running ready in
      inr (ready, received queue_success (some t.0), ground (arith, t.1))
  | no empty ↦ elim (Bool-cases q.is_wait) [
    | inl w ↦ inl (asleep, ground arith)
    | inr w ↦ inl (received queue_noelement none, ground arith)
  ]
]

-- A valid queue that runs, on which elements are only offered and taken, is written outside its
-- array as soon as more elements are offered than cells are left behind `rear`, whatever is taken
-- out in between.
pub run_faults :
    {q : EncoderCq} (ops : List Op)
    → IsValid q
    → q.is_stop ≡ false
    → IsTraffic ops
    → q.maxsize - q.rear < puts ops
    → run q ops ≡ fault
unfolding run step
run_faults [] v running t h = absurd (omega arith)
run_faults {q} (put e ∷ ops) v running t h = elim (dec_lt q.rear q.maxsize) [
  | yes room ↦
      rw (enqueue-pushed e v running room)
        (rw (run_faults {q = pushed q e} ops (pushed-IsValid e v room) running t (omega arith)))
  | no full ↦ rw (enqueue-fault q e running v.ordered (omega arith))
]
run_faults {q} (get ∷ ops) v running t h = elim (get-step v running) [
  | inl (r, e) ↦ rw e (rw (run_faults ops v running t h))
  | inr (ready, r, e) ↦
      rw e (rw (run_faults {q = popped q} ops (popped-IsValid v ready) running t h))
]
run_faults (wake ∷ ops) v running t h = absurd t
run_faults (halt ∷ ops) v running t h = absurd t
run_faults (resume ∷ ops) v running t h = absurd t
run_faults (wipe ∷ ops) v running t h = absurd t

-- A caller of `dequeue` that wakes while the queue is valid, running, empty and not at the end of
-- its array takes the cell behind the last element, as if it were one, and `front` passes `rear`;
-- `enqueue` then refuses any element.
take_front-empty :
    {q : EncoderCq} (e : EncoderElement)
    → IsValid q
    → q.is_stop ≡ false
    → q.front ≡ q.rear
    → q.rear < q.maxsize
    → (x : EncoderElement) × (get_elem? q.cells q.rear ≡ some x)
      × (take_front q ≡ done (queue_success, some x, popped q))
      × (enqueue (popped q) e ≡ done (queue_full, popped q))
unfolding take_front enqueue
take_front-empty {q} e v running empty room =
    let i : q.front + 1 - 1 ≡ q.front = omega arith in
    let r = slice-cons q.rear 1 q.cells (omega arith) (omega arith) in
    (r.0, r.1, ground (arith, i, r.1), ground arith)
