-- ===== src/Queue/Tests.antt =====
-- Runs of the queue of EncoderCQ.cpp on concrete calls.
use encoder_with_web_socket.Prelude.{◌≡◌, refl, true, false, List, [], ◌∷◌, arith}
use encoder_with_web_socket.Queue.{EncoderElement, EncoderCq, blank, fault}
use encoder_with_web_socket.Queue.Fifo.{Op, run, put, get, wake, halt, wipe}
use encoder_with_web_socket.Queue.Order.{IsValid}
use encoder_with_web_socket.Queue.Fault.{run_faults}

abbrev element : EncoderElement
element = record { buffer = 7; size = 100; fake = false }

abbrev two_cells : EncoderCq
two_cells = record {
  front = 0;
  rear = 0;
  maxsize = 2;
  cells = blank ∷ blank ∷ [];
  is_stop = false;
  is_wait = true;
}

two_cells-IsValid : IsValid two_cells
two_cells-IsValid = record { ordered = ground arith; in_array = ground arith; allocated = refl }

abbrev calls : List Op
calls = put element ∷ get ∷ get ∷ put element ∷ wake ∷ get ∷ halt ∷ wake ∷ wipe ∷ []

abbrev offers : List Op
offers = put element ∷ get ∷ put element ∷ get ∷ put element ∷ []

run_faults_example : run two_cells offers ≡ fault
run_faults_example =
    run_faults {q = two_cells} offers two_cells-IsValid refl (record {}) (omega arith)
