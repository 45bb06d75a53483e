-- ===== src/Encoder/Codec.antt =====
-- The calls of libavcodec and libavformat that the loops make, and the loop over the packets.
-- The codec is a parameter: what it answers to a frame, and what the muxer answers to a packet.
use encoder_with_web_socket.Prelude.{ℕ, ◌≡◌, refl, ap, Bool, true, false, List, [], ◌∷◌, ◌++◌}
use encoder_with_web_socket.Encoder.State.{EncoderState}

abbrev pub Bytes : Type 0
Bytes = List ℕ

-- `avcodec_receive_packet`: EAGAIN or the end, another error, or a packet; with the latter, whether
-- `av_interleaved_write_frame` returns 0.
pub data Receive : Type 0 where
  again : Receive
  failed : Receive
  packet : Bool → Receive

-- The answers to one frame: whether `avcodec_send_frame` takes it, and those of the calls of
-- `avcodec_receive_packet` behind it, at whose end there is EAGAIN.
pub record Answer : Type 0 where
  pub accepted : Bool
  pub receives : List Receive

pub data Event : Type 0 where
  offered : ℕ → Bytes → Event
  written : Event
  stops : EncoderState → Event
  deleted : ℕ → Event

-- `while(ret >= 0) { … }`: what it does, and whether it ends by its `break`.
unfoldable pub receive_loop : EncoderState → EncoderState → List Receive → List Event × Bool
receive_loop on_receive on_write [] = ([], true)
receive_loop on_receive on_write (again ∷ rs) = ([], true)
receive_loop on_receive on_write (failed ∷ rs) = (stops on_receive ∷ [], false)
receive_loop on_receive on_write (packet true ∷ rs) =
    let (es, ok) = receive_loop on_receive on_write rs in (written ∷ es, ok)
receive_loop on_receive on_write (packet false ∷ rs) = (stops on_write ∷ [], false)

-- The frames that are handed to the codec.
abbrev pub frames : List Event → List (ℕ × Bytes)
frames [] = []
frames (offered pts b ∷ es) = (pts, b) ∷ frames es
frames (written ∷ es) = frames es
frames (stops s ∷ es) = frames es
frames (deleted a ∷ es) = frames es

-- The errors that `loopStop` is called with, which is what it means here to report them.
abbrev pub errors : List Event → List EncoderState
errors [] = []
errors (stops s ∷ es) = s ∷ errors es
errors (offered pts b ∷ es) = errors es
errors (written ∷ es) = errors es
errors (deleted a ∷ es) = errors es

pub frames-append : (es fs : List Event) → frames (es ++ fs) ≡ frames es ++ frames fs
frames-append [] fs = refl
frames-append (offered pts b ∷ es) fs = ap (◌∷◌ (pts, b)) (frames-append es fs)
frames-append (written ∷ es) fs = frames-append es fs
frames-append (stops s ∷ es) fs = frames-append es fs
frames-append (deleted a ∷ es) fs = frames-append es fs

pub frames-receive_loop :
    (a b : EncoderState) (rs : List Receive) → frames (receive_loop a b rs).0 ≡ []
unfolding receive_loop
frames-receive_loop a b [] = refl
frames-receive_loop a b (again ∷ rs) = refl
frames-receive_loop a b (failed ∷ rs) = refl
frames-receive_loop a b (packet true ∷ rs) = frames-receive_loop a b rs
frames-receive_loop a b (packet false ∷ rs) = refl
