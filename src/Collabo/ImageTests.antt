-- ===== src/Collabo/ImageTests.antt =====
-- Pictures on their way to the clients of Collabo.cpp, and a second login.
use encoder_with_web_socket.Prelude.{◌≡◌, refl, false, some, List, [], ◌∷◌, ◌++◌, arith}
use encoder_with_web_socket.Collabo.Tests.{teacher, pupil, lesson}
use encoder_with_web_socket.Collabo.Clients.{new_client, find_ws, find_mcode, erase_ws}
use encoder_with_web_socket.Collabo.Session.{
  Session, Event, IsSuited, on_open, on_close, on_msg, stop_streaming, setting,
}
use encoder_with_web_socket.Collabo.Images.{deliver, asked}
use encoder_with_web_socket.Collabo.Inbox.{UniqueSockets, inbox, share, wire}
use encoder_with_web_socket.Collabo.Sockets.{
  Served, begin, opened, closed, Served-UniqueSockets, Served-inbox,
}
use encoder_with_web_socket.Collabo.Sight.{look, login-Shows}
use encoder_with_web_socket.Jpeg.Tests.{
  screen, next_screen, started, columns, keep, unpack, keep-IsCodec, blank,
}
use encoder_with_web_socket.Jpeg.Viewer.Part.{Shows}
use encoder_with_web_socket.Jpeg.Loop.{
  Event as JpegEvent, Compressor, round, begin_loop, image_init, deleted, image,
}
use encoder_with_web_socket.Collabo.Overlap.{acts_on, single, rejoin-overlaps}
use encoder_with_web_socket.Jpeg.ThreadTests.{one_loop}
use encoder_with_web_socket.Jpeg.Threads.{acts, looping, turn}

abbrev known : IsSuited
known mcode mscode = some (false, false, some 2)

abbrev pictures : List JpegEvent
pictures = image_init 2 1 ∷ image (7 ∷ []) ∷ deleted 5 ∷ image (8 ∷ []) ∷ []

lesson-UniqueSockets : UniqueSockets lesson.clients
unfolding find_ws
lesson-UniqueSockets = (refl, (refl, (refl, tt)))

-- The third client leaves, and its socket comes again.
abbrev reopened : Session
reopened = (on_open 3 (record lesson { clients = teacher ∷ pupil ∷ [] })).1

reopened-Served : Served known lesson reopened
unfolding on_close find_ws erase_ws
reopened-Served = opened 3 refl (closed {es = []} 3 begin refl)

Served-UniqueSockets_example : UniqueSockets reopened.clients
Served-UniqueSockets_example = Served-UniqueSockets known lesson-UniqueSockets reopened-Served

Served-inbox_example :
    inbox 2 (deliver reopened.clients pictures) ≡ share (find_ws 2 reopened.clients) (wire pictures)
Served-inbox_example = Served-inbox known 2 pictures lesson-UniqueSockets reopened-Served

abbrev picture_lesson : Session
picture_lesson = record lesson { mode = 1 }

-- The third client of the lesson sends its SETTING while the loop holds a frame.
abbrev busy : Compressor
busy = record started { prev_buf = some screen; seq = 6 }

login-Shows_example :
    (es : List Event) × (t : Session) × (on_msg known 50 3
        (setting "n" "s" "c" "Cid")
        picture_lesson
      ≡ some (es, t))
    × Shows ◌≡◌
        (look unpack (inbox 3 (deliver t.clients (round keep (asked es busy) next_screen).0)) blank)
        next_screen
unfolding find_ws find_mcode erase_ws
login-Shows_example =
    login-Shows known 50 3 "n" "s" "c" "Cid" (new_client 3) (false, false, some 2) picture_lesson
      keep unpack ◌≡◌ busy next_screen blank refl refl refl refl refl lesson-UniqueSockets
      keep-IsCodec (omega arith, omega arith)

rejoin-overlaps_example :
    (t : Session) × (on_close 1 (single teacher lesson) ≡ some (stop_streaming ∷ [], t))
    × (let calls = acts_on t.mode 2 2 (stop_streaming ∷ (on_open 4 t).0) in
        let r = acts columns one_loop (calls ++ (turn 1 screen ∷ turn 0 next_screen ∷ [])) in
        let old = round columns started next_screen in
        (r.0 ≡ image_init 2 2 ∷ old.0)
        × (r.1.stopped ≡ false)
        × (r.1.threads ≡ looping old.1 ∷ looping (begin_loop false 2 2).1 ∷ []))
rejoin-overlaps_example =
    rejoin-overlaps columns 4 teacher lesson one_loop 0 2 2 started screen next_screen refl
