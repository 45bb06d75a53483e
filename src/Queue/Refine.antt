-- ===== src/Queue/Refine.antt =====
-- EncoderCQ.cpp implements the specification of Queue/Fifo while `rear` is below the array's end.
use encoder_with_web_socket.Prelude.{◌+◌, ◌-◌, ◌≤◌, ◌≡◌}
use encoder_with_web_socket.Queue.{EncoderCq, done}
use encoder_with_web_socket.Queue.Fifo.{Op, step, Fifo, fifo_step, cost}
use encoder_with_web_socket.Queue.Order.{IsValid, contents}

abbrev pub view : EncoderCq → Fifo
view q = record { items = contents q; stopped = q.is_stop }

-- One call that finds room returns what the specification returns, and leads to its state.
record Refines (q : EncoderCq) (op : Op) (q' : EncoderCq) : Type 0 where
  valid : IsValid q'
  reply : step q op ≡ done ((fifo_step q.is_wait (view q) op).0, q')
  state : view q' ≡ (fifo_step q.is_wait (view q) op).1
  room : q.maxsize - q.rear ≤ (q'.maxsize - q'.rear) + cost op
  waiting : q'.is_wait ≡ q.is_wait
