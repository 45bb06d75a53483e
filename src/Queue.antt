-- ===== src/Queue.antt =====
-- EncoderCQ.hpp and EncoderCQ.cpp: the queue between the capture threads and the encoder loops.
pub mod Fifo
pub mod Order
pub mod Refine
pub mod Fault
mod Tests
use encoder_with_web_socket.Prelude.{
  slice, ℕ, ◌+◌, ◌-◌, Bool, true, false, Option, none, some, List, ◌++◌, map, leb, ◌==◌,
  if◌then◌else◌, length, get_elem?, set, replicate,
}

-- `struct EncoderElement`. A buffer is the address that `data` holds; its bytes are not read here.
pub record EncoderElement : Type 0 where
  pub buffer : ℕ
  pub size : ℕ
  pub fake : Bool

-- `enum QUEUE_MSG`
pub data QueueMsg : Type 0 where
  queue_success queue_stop queue_noelement queue_full : QueueMsg

-- The fields of `class EncoderCQ` but its locks; `cells` is the array `queue`.
pub record EncoderCq : Type 0 where
  pub front : ℕ
  pub rear : ℕ
  pub maxsize : ℕ
  pub cells : List EncoderElement
  pub is_stop : Bool
  pub is_wait : Bool

-- A call returns, or reads or writes outside the array `queue`.
pub data Outcome {ℓ} (A : Type ℓ) : Type ℓ where
  done : A → Outcome A
  fault : Outcome A

abbrev pub blank : EncoderElement
blank = record { buffer = 0; size = 0; fake = false }

-- `EncoderCQ(bool, int)`
unfoldable pub new_sized : Bool → ℕ → EncoderCq
new_sized wait n = record {
  front = 0;
  rear = 0;
  maxsize = n;
  cells = replicate n blank;
  is_stop = false;
  is_wait = wait;
}

-- `EncoderCQ(bool)`
pub new : Bool → EncoderCq
unfolding new_sized
new wait = new_sized wait 40

-- `size()`
unfoldable pub size : EncoderCq → ℕ
size q = if leb q.front q.rear then q.rear - q.front else q.maxsize + q.rear - q.front

-- The index after `i`: `(i == maxsize) ? 0 : (i + 1)`.
abbrev pub next_index : EncoderCq → ℕ → ℕ
next_index q i = if i == q.maxsize then 0 else i + 1

-- `queue[i - 1] = element`, where `i` is 0 for the index -1.
abbrev pub write_at : EncoderCq → ℕ → EncoderElement → Outcome EncoderCq
write_at q i e =
    if i == 0
    then fault
    else if leb i (length q.cells)
    then done (record q { cells = set q.cells (i - 1) e })
    else fault

abbrev pub or_fault {ℓ} : {A : Type ℓ} → Option A → Outcome A
or_fault none = fault
or_fault (some a) = done a

-- `queue[i - 1]`
abbrev pub read_at : EncoderCq → ℕ → Outcome EncoderElement
read_at q i = if i == 0 then fault else or_fault (get_elem? q.cells (i - 1))

abbrev pub map_outcome {ℓ κ} : {A : Type ℓ} {B : Type κ} → (A → B) → Outcome A → Outcome B
map_outcome f (done a) = done (f a)
map_outcome f fault = fault

-- `enqueue`
unfoldable pub enqueue : EncoderCq → EncoderElement → Outcome (QueueMsg × EncoderCq)
enqueue q e =
    if q.is_stop
    then done (queue_stop, q)
    else if q.front == q.rear + 1
    then done (queue_full, q)
    else let i = next_index q q.rear in
      map_outcome (λ r. (queue_success, r)) (write_at (record q { rear = i }) i e)

-- What a consumer sees of one call: the message, and the element if there is one.
abbrev pub Taken : Type 0
Taken = QueueMsg × Option EncoderElement × EncoderCq

-- The part of `dequeue` behind the wait. It does not look again whether the queue is empty.
unfoldable pub take_front : EncoderCq → Outcome Taken
take_front q =
    if q.is_stop
    then done (queue_stop, none, q)
    else let i = next_index q q.front in
      map_outcome (λ e. (queue_success, some e, record q { front = i })) (read_at q i)

-- `dequeue` returns at once, or the caller is put to sleep in `cond.wait`.
pub data Dequeue : Type 0 where
  returned : Outcome Taken → Dequeue
  waits : Dequeue

-- `dequeue` up to the return or to the wait; a woken caller goes on with `take_front`.
unfoldable pub dequeue : EncoderCq → Dequeue
unfolding take_front
dequeue q =
    if q.front == q.rear
    then (if q.is_wait
        then (if q.is_stop then returned (take_front q) else waits)
        else returned (done (queue_noelement, none, q)))
    else returned (take_front q)

unfoldable pub start : EncoderCq → EncoderCq
start q = record q { is_stop = false }

unfoldable pub stop : EncoderCq → EncoderCq
stop q = record q { is_stop = true }

-- The cells from index `i` up to index `j`, the latter not included.
abbrev pub cells_between : ℕ → ℕ → List EncoderElement → List EncoderElement
cells_between i j xs = slice xs i (j - i)

-- The buffers that `clear` deletes, in the order in which it does so.
pub cleared_buffers : EncoderCq → List ℕ
cleared_buffers q =
    map (λ (e : EncoderElement). e.buffer)
      (if leb q.front q.rear
        then cells_between q.front q.rear q.cells
        else cells_between 0 q.rear q.cells ++ cells_between q.front q.maxsize q.cells)

-- `clear`: the buffers that it deletes, and the queue behind it.
unfoldable pub clear : EncoderCq → List ℕ × EncoderCq
unfolding cleared_buffers
clear q = (cleared_buffers q, record q { front = 0; rear = 0 })
