-- ===== src/Collabo/FlowTests.antt =====
-- Arrivals at the server of Collabo.cpp, with concrete clients.
use encoder_with_web_socket.Prelude.{
  arith, before_zero, starts_with, strstr, digits, print_int, codes, pos, ◌≡◌, refl, inl, true,
  false, some, List, [], ◌∷◌, if◌then◌else◌,
}
use encoder_with_web_socket.Collabo.Session.{
  Session, Event, IsSuited, on_open, on_close, turn_authority, hand_over, dispatch, on_msg,
  start_streaming, stop_streaming, mouse,
}
use encoder_with_web_socket.Collabo.Running.{Arrival, serve-streaming, connects, says, goes}
use encoder_with_web_socket.Collabo.Clients.{
  Client, new_client, find_ws, find_mcode, insert, erase_ws,
}
use encoder_with_web_socket.Collabo.Streaming.{streaming}
use encoder_with_web_socket.Mysql.Tests.{one_member, one_member-KeepsRoles}
use encoder_with_web_socket.Mysql.Suited.{is_suited, suits}
use encoder_with_web_socket.Mysql.Statements.{
  number_text, meet_seq, select_member, update_auth, update_former, ended,
}
use encoder_with_web_socket.Collabo.Stored.{stored, turn_authority-stored, hand_over-stored}

abbrev anyone : IsSuited
anyone mcode mscode = some (true, true, some 0)

abbrev empty : Session
empty = record {
  clients = [];
  first_count = 0;
  header = [];
  mode = 0;
  video_enabled = true;
  audio_enabled = true;
  width = 640;
  height = 480;
}

-- A client, which is served, another, which is not taken on the list, and the first goes again.
abbrev visits : List Arrival
visits = connects 1 ∷ says 50 1 (mouse 1 2 3) ∷ connects 2 ∷ goes 1 ∷ []

serve-streaming_example :
    streaming false (start_streaming ∷ start_streaming ∷ stop_streaming ∷ []) ≡ false
unfolding on_open on_close on_msg dispatch insert find_mcode find_ws erase_ws
serve-streaming_example =
    serve-streaming anyone visits empty empty
      (start_streaming ∷ start_streaming ∷ stop_streaming ∷ []) refl

abbrev teacher : Client
teacher = record (new_client 1) {
  chief = true;
  authority = true;
  role = some 0;
  mcode = "t";
  mscode = "150from2018";
}

abbrev class_room : Session
class_room = record empty { clients = teacher ∷ [] }

-- A chief who takes its own authority: the list keeps it as chief, and the database does not.
turn_authority-stored_example :
    (es : List Event) × (s' : Session) × (d' : Client) × (turn_authority "t" class_room
      ≡ some (es, s'))
    × (stored one_member (λ s. s) es (codes "0") ≡ ended (codes "2"))
    × (find_mcode "t" s'.clients ≡ some d')
    × (d'.authority ≡ false)
    × (d'.chief ≡ true)
    × (is_suited one_member (λ s. s) (codes "t") (codes "150from2018") true true (codes "2")
        ≡ ended (suits d'.authority false (pos (if d'.authority then 1 else 2))))
unfolding find_mcode select_member number_text print_int digits meet_seq strstr starts_with
    before_zero update_auth
turn_authority-stored_example =
    turn_authority-stored one_member (λ s. s) one_member-KeepsRoles "t" class_room teacher
      (codes "7") (codes "150") true true (pos 7) (some (codes "0")) (codes "0") (codes "2")
      (ground arith) (ground arith) (ground arith) refl refl refl refl refl refl refl

abbrev assistant : Client
assistant = record (new_client 2) { role = some 1; mcode = "new"; mscode = "150from2018" }

abbrev two_there : Session
two_there = record empty { clients = teacher ∷ assistant ∷ [] }

hand_over-stored_example :
    (es : List Event) × (s' : Session) × (d' : Client) × (hand_over teacher "new" two_there
      ≡ some (es, s'))
    × (stored one_member (λ s. s) es (codes "0") ≡ ended (codes "2"))
    × (find_mcode "new" s'.clients ≡ some d')
    × (d'.chief ≡ true)
    × (d'.authority ≡ true)
unfolding find_mcode select_member number_text print_int digits meet_seq strstr starts_with
    before_zero update_former
hand_over-stored_example =
    hand_over-stored one_member (λ s. s) teacher assistant "new" two_there (codes "7") (codes "150")
      (pos 7) (codes "0") (codes "2") refl refl refl refl refl refl (inl refl)
