-- ===== src/Agent/Tests.antt =====
-- A dialogue of AgentManager.cpp with a peer that sends its number in two pieces.
use encoder_with_web_socket.Prelude.{le_bytes, ◌≡◌, refl, false, List, [], ◌∷◌, ◌++◌, map, arith}
use encoder_with_web_socket.Agent.{
  AgentManager, Recv, Send, recv_loop, Attempt, turn, manage, run, manage_impl, recv_error,
  received, send_error, taken, refused, connected, attempt, halt,
}
use encoder_with_web_socket.Agent.Secret.{output, turn-secret}
use encoder_with_web_socket.Agent.Reports.{outputs, full_report, running, manage-reports}
use encoder_with_web_socket.Agent.Sockets.{opens, closes, manage-leak}

abbrev manager : AgentManager
manager = record { stopped = false; meet_seq = b'1' ∷ b'5' ∷ []; password = b'p' ∷ [] }

abbrev pieces : List Recv
pieces = received 0x12 (0x34 ∷ []) ∷ recv_error ∷ received 0x56 (0x78 ∷ []) ∷ []

abbrev other_pieces : List Recv
other_pieces = received 0x12 (0x34 ∷ 0x56 ∷ 0x79 ∷ []) ∷ []

abbrev takes : List Send
takes = taken 1 ∷ send_error ∷ taken 1 ∷ []

abbrev all : Send
all = taken 99

turn-secret_example : output (turn manager (connected other_pieces takes all all all all)).0 ≡ []
turn-secret_example = turn-secret manager other_pieces takes all all all all (λ e. ground arith)

abbrev dialogue : Attempt
dialogue = connected pieces takes all all all all

manage-leak_example :
    let es = manage manager (map attempt (dialogue ∷ dialogue ∷ [])) in
    (opens es ≡ 2) × (closes es ≡ 0)
manage-leak_example =
    manage-leak manager (dialogue ∷ dialogue ∷ []) refl
      ((refl, omega arith), ((refl, omega arith), record {}))

-- Attempts that fail: refused, and a peer that sends another number.
abbrev failures : List Attempt
failures = refused ∷ connected other_pieces takes all all all all ∷ []

manage-reports_example :
    let n = running (run manager (b'7' ∷ []) (b'q' ∷ [])) in
    output (
      manage_impl
        (run manager (b'7' ∷ []) (b'q' ∷ []))
        (map attempt failures ++ attempt dialogue ∷ halt ∷ []))
    ≡ outputs n failures ++ (full_report n ++ output (manage n (halt ∷ [])))
unfolding turn recv_loop le_bytes
manage-reports_example =
    manage-reports manager (b'7' ∷ []) (b'q' ∷ []) failures pieces takes all all all all (halt ∷ [])
      (refl, (refl, tt)) refl (omega arith) refl refl refl refl
