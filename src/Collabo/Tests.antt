-- ===== src/Collabo/Tests.antt =====
-- Runs of the server of Collabo.cpp with concrete clients.

use encoder_with_web_socket.Collabo.Session.{
  Session, IsSuited, send_each, hand_over, on_msg, db_change_chief, mouse,
}
use encoder_with_web_socket.Prelude.{
  ◌+◌, ◌*◌, ◌≡◌, refl, true, false, none, some, List, [], ◌∷◌, ◌++◌, arith, length,
}
use encoder_with_web_socket.Collabo.Clients.{Client, new_client, find_ws, find_mcode, modify_mcode}
use encoder_with_web_socket.Collabo.Wire.{
  video_init_message, chief_message, list_size, list_message,
}
use encoder_with_web_socket.Collabo.Rights.{on_msg-unprivileged, handed, hand_over-rights}
use encoder_with_web_socket.Collabo.Roster.{roleless, length-list_message}
use encoder_with_web_socket.Collabo.Stream.{
  send_members, read_packets, packet_sends, read_packets_lem,
}
use mathlib.Core.Option

abbrev pub teacher : Client
teacher = record {
  ws = 1;
  chief = true;
  authority = true;
  role = some 0;
  mcode = "t";
  mscode = "s";
  custom = "c";
  name = "Ann";
}

abbrev pub pupil : Client
pupil = record teacher {
  ws = 2;
  chief = false;
  authority = false;
  role = some 1;
  mcode = "p";
  name = "Bob";
}

-- A member list with a client that has not sent its SETTING.
abbrev pub lesson : Session
lesson = record {
  clients = teacher ∷ pupil ∷ new_client 3 ∷ [];
  first_count = 0;
  header = [];
  mode = 0;
  video_enabled = true;
  audio_enabled = true;
  width = 640;
  height = 480;
}

abbrev nobody : IsSuited
nobody mcode mscode = none

on_msg-unprivileged_example : on_msg nobody 50 2 (mouse 1 2 3) lesson ≡ some ([], lesson)
unfolding find_ws
on_msg-unprivileged_example =
    on_msg-unprivileged nobody 50 2 (mouse 1 2 3) lesson pupil refl refl refl (λ h. h)

-- The members after the teacher has handed over to the pupil, and after the pupil got the right.
abbrev after_chief : List Client
after_chief =
    record teacher { chief = false }
    ∷ record pupil { chief = true; authority = true }
    ∷ new_client 3
    ∷ []

hand_over-rights_example :
    find_mcode "t" after_chief ≡ Option.map (handed "t" "p" "t") (find_mcode "t" lesson.clients)
unfolding hand_over find_mcode modify_mcode
hand_over-rights_example =
    hand_over-rights teacher "p" lesson (record lesson { clients = after_chief })
      (db_change_chief "t" "p" "s" ∷ send_each (chief_message "t" "p") after_chief) refl "t"

length-list_message_example :
    length (list_message lesson.clients) + 14 * roleless lesson.clients ≡ list_size lesson.clients
length-list_message_example = length-list_message lesson.clients

read_packets_lem_example :
    read_packets ((10, 1 ∷ []) ∷ (11, 2 ∷ []) ∷ (12, 3 ∷ []) ∷ []) lesson
    ≡ some (
      send_members (video_init_message 11 true true 640 480 (1 ∷ 2 ∷ [])) lesson.clients
          ++ packet_sends ((12, 3 ∷ []) ∷ []) lesson.clients,
      record lesson { header = 1 ∷ 2 ∷ []; first_count = 2 },
    )
read_packets_lem_example =
    read_packets_lem 10 11 (1 ∷ []) (2 ∷ []) ((12, 3 ∷ []) ∷ []) lesson refl refl (omega arith)
