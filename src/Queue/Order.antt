-- ===== src/Queue/Order.antt =====
-- EncoderCQ.cpp as a first-in first-out queue, as long as `rear` has not come to the array's end.
use encoder_with_web_socket.Prelude.{
  slice-set, slice-cons, slice-zero, length-slice, ℕ, suc, ◌+◌, ◌-◌, ◌≤◌, ◌<◌, ◌≡◌, refl, Bool,
  false, some, List, [], ◌∷◌, ◌++◌, map, arith, length, get_elem?, set, length-set, replicate,
  length-replicate,
}
use encoder_with_web_socket.Queue.{
  EncoderElement, EncoderCq, blank, new_sized, size, enqueue, take_front, cells_between, clear,
  queue_success, done,
}

-- `front` has not passed `rear`, and neither has come round.
pub record IsValid (q : EncoderCq) : Type 0 where
  pub ordered : q.front ≤ q.rear
  pub in_array : q.rear ≤ q.maxsize
  pub allocated : length q.cells ≡ q.maxsize

-- The elements that wait, oldest first.
abbrev pub contents : EncoderCq → List EncoderElement
contents q = cells_between q.front q.rear q.cells

-- A new queue is valid and empty.
pub new_sized-IsValid :
    (wait : Bool) (n : ℕ) → IsValid (new_sized wait n) × (contents (new_sized wait n) ≡ [])
unfolding new_sized
new_sized-IsValid wait n =
    (omega (arith, length-replicate n blank), slice-zero 0 (replicate n blank))

abbrev pub pushed : EncoderCq → EncoderElement → EncoderCq
pushed q e = record q { rear = q.rear + 1; cells = set q.cells q.rear e }

pub enqueue-pushed :
    {q : EncoderCq} (e : EncoderElement)
    → IsValid q
    → q.is_stop ≡ false
    → q.rear < q.maxsize
    → enqueue q e ≡ done (queue_success, pushed q e)
unfolding enqueue
enqueue-pushed {q} e v h room = let i : q.rear + 1 - 1 ≡ q.rear = omega arith in ground (arith, i)

pub contents-pushed :
    {q : EncoderCq} (e : EncoderElement)
    → IsValid q
    → q.rear < q.maxsize
    → contents (pushed q e) ≡ contents q ++ e ∷ []
contents-pushed {q} e v room =
    let n : ℕ = q.rear - q.front in
    let at_rear : q.front + n ≡ q.rear = omega arith in
    let count : q.rear + 1 - q.front ≡ suc n = omega arith in
    rw count (rw at_rear at (slice-set q.front n q.cells e (omega arith)))

abbrev pub popped : EncoderCq → EncoderCq
popped q = record q { front = q.front + 1 }

pub contents-popped :
    {q : EncoderCq}
    → IsValid q
    → q.front < q.rear
    → (e : EncoderElement) × (get_elem? q.cells q.front ≡ some e)
      × (contents q ≡ e ∷ contents (popped q))
contents-popped {q} v ready =
    let n : ℕ = q.rear - q.front in
    let r = slice-cons q.front n q.cells (omega arith) (omega arith) in
    let rest : q.rear - (q.front + 1) ≡ n - 1 = omega arith in (r.0, r.1, rw rest r.2)

pub take_front-popped :
    {q : EncoderCq}
    → IsValid q
    → q.is_stop ≡ false
    → q.front < q.rear
    → (e : EncoderElement) × (take_front q ≡ done (queue_success, some e, popped q))
      × (contents q ≡ e ∷ contents (popped q))
unfolding take_front
take_front-popped {q} v h ready =
    let r = contents-popped v ready in
    let i : q.front + 1 - 1 ≡ q.front = omega arith in (r.0, ground (arith, i, r.1), r.2)

pub pushed-IsValid :
    {q : EncoderCq} (e : EncoderElement) → IsValid q → q.rear < q.maxsize → IsValid (pushed q e)
pushed-IsValid {q} e v room = omega (arith, length-set q.cells q.rear e)

pub popped-IsValid : {q : EncoderCq} → IsValid q → q.front < q.rear → IsValid (popped q)
popped-IsValid {q} v ready = omega arith

pub contents-empty : (q : EncoderCq) → q.front ≡ q.rear → contents q ≡ []
contents-empty q e = let z : q.rear - q.front ≡ 0 = omega arith in rw z (slice-zero q.front q.cells)

-- `size()` is the number of elements that wait, if the queue has not come round.
pub size-contents : {q : EncoderCq} → IsValid q → size q ≡ length (contents q)
unfolding size
size-contents {q} v = ground (arith, length-slice q.front (q.rear - q.front) q.cells (omega arith))

-- `clear` deletes the buffers of the waiting elements, each once and oldest first, and leaves a
-- queue that is valid and empty.
pub clear_lem :
    {q : EncoderCq}
    → IsValid q
    → ((clear q).0 ≡ map (λ (e : EncoderElement). e.buffer) (contents q))
      × IsValid (clear q).1
      × (contents (clear q).1 ≡ [])
unfolding clear
clear_lem {q} v = (ground arith, omega arith, contents-empty (clear q).1 refl)
