-- ===== src/Encoder/Tests.antt =====
-- Runs of the encoder of Encoder.cpp with concrete answers of the libraries.
use encoder_with_web_socket.Prelude.{
  ◌+◌, length, ℕ, ◌≡◌, refl, ◌⊎◌, true, false, some, List, [], ◌∷◌, arith,
}
use encoder_with_web_socket.Encoder.Life.{Encoder, initialize}
use encoder_with_web_socket.Queue.{EncoderElement, new_sized}
use encoder_with_web_socket.Encoder.Codec.{Bytes, Answer, errors, again, packet}
use encoder_with_web_socket.Encoder.Audio.{AudioState, Step, encode_audio_impl, finished, aborted}
use encoder_with_web_socket.Encoder.Stopping.{
  stop_started, terminated, loop_stops, encode_audio_impl-terminates,
}
use encoder_with_web_socket.Encoder.Framing.{IsValid, Framed, encode_audio_impl-Framed}
use encoder_with_web_socket.Encoder.Errors.{deletions}
use encoder_with_web_socket.Encoder.Setup.{
  EncoderContext, Answers, nothing_owned, clear_pointers, is_enabled, open_format, open_video_codec,
  open_audio_codec, open_video_frames, open_audio_frames, open_output, blocks, build,
}
use encoder_with_web_socket.Encoder.Lives.{
  AllOpen, cycles, losses, bit, cycles-losses, new_encoder, destroyed, Call, calls, call_initialize,
  call_stop, call_set_silent,
}
use encoder_with_web_socket.Encoder.Cycle.{owned_for, initialize_success}

-- A codec that takes every frame and gives a packet for it, which the muxer takes.
abbrev pub one_packet : ℕ → Bytes → Answer
one_packet pts frame = record { accepted = true; receives = packet true ∷ again ∷ [] }

-- Frames of two samples of two bytes, of which one byte waits.
abbrev pub sound : AudioState
sound = record {
  nb_samples = 2;
  audio_bytes = 2;
  remained = 1;
  tmp = 9 ∷ 0 ∷ 0 ∷ 0 ∷ [];
  frame_pts = 0;
}

abbrev pub piece : Bytes
piece = 1 ∷ 2 ∷ 3 ∷ 4 ∷ 5 ∷ []

abbrev pub piece_element : EncoderElement
piece_element = record { buffer = 3; size = 5; fake = false }

pub sound-IsValid : IsValid sound
sound-IsValid = record { allocated = refl; not_full = omega arith }

encode_audio_impl-Framed_example :
    (r : Step) × (encode_audio_impl one_packet sound piece_element piece ≡ some r)
    × (r.2 ≡ finished → Framed sound piece r.0 r.1)
encode_audio_impl-Framed_example =
    encode_audio_impl-Framed one_packet sound piece_element piece sound-IsValid refl

encode_audio_impl-terminates_example :
    (r : Step) × (encode_audio_impl one_packet sound piece_element piece ≡ some r)
    × (((r.2 ≡ finished) × (deletions r.0 ≡ 3 ∷ []) × (loop_stops (errors r.0) ≡ []))
        ⊎ ((r.2 ≡ aborted)
            × (deletions r.0 ≡ [])
            × (loop_stops (errors r.0) ≡ stop_started ∷ terminated ∷ [])))
encode_audio_impl-terminates_example =
    encode_audio_impl-terminates one_packet sound piece_element piece (omega arith)

-- Libraries that have all they are asked for.
abbrev pub granted : Answers
granted = record {
  alloc_output_context = true;
  format_has_video = true;
  format_has_audio = true;
  find_video = true;
  new_video_stream = true;
  alloc_video_cc = true;
  get_sws = true;
  find_audio = true;
  new_audio_stream = true;
  alloc_audio_cc = true;
  alloc_swr = true;
  init_swr = true;
  open_video = true;
  video_parameters = true;
  alloc_video_frame = true;
  video_buffer = true;
  alloc_video_pkt = true;
  open_audio = true;
  audio_parameters = true;
  alloc_audio_frame = true;
  audio_buffer = true;
  alloc_audio_pkt = true;
  alloc_tmp_frame = true;
  tmp_buffer = true;
  alloc_io = true;
  write_header = true;
}

abbrev pub both : EncoderContext
both = record {
  video_codec_name = "libx264";
  audio_codec_name = "libfdk_aac";
  width = 2;
  height = 1;
  framerate = 25;
  samplerate = 44100;
  is_silent = false;
}

abbrev only_video : EncoderContext
only_video = record both { audio_codec_name = "none" }

abbrev idle : Encoder
idle = record {
  stopped = true;
  context = both;
  owned = nothing_owned;
  borrowed = record { video_stream = false; audio_stream = false };
  has_header = false;
  video_cq = new_sized true 40;
  audio_cq = new_sized true 40;
  video_frame_pts = 0;
  audio_frame_pts = 0;
  remained_audio_size = 0;
}

abbrev pub running : Encoder
running = record idle { stopped = false; owned = owned_for true true true; has_header = true }

initialize_success_example :
    let e' = (initialize granted both idle).2 in
    (e'.owned ≡ owned_for true (is_enabled true "libx264") (is_enabled true "libfdk_aac"))
    × (e'.has_header ≡ true)
    × (e'.video_frame_pts ≡ 0)
    × (e'.audio_frame_pts ≡ 0)
    × (e'.remained_audio_size ≡ 0)
unfolding initialize build blocks open_format open_video_codec open_audio_codec open_video_frames
    open_audio_frames open_output
initialize_success_example = initialize_success granted both idle false refl refl

-- A life with a failed call, a good one and a second one.
abbrev life : List Call
life =
    call_initialize (record granted { write_header = false }) both
    ∷ call_initialize granted both
    ∷ call_stop
    ∷ call_initialize granted only_video
    ∷ call_set_silent true
    ∷ []

-- Two more runs of the encoder behind the first.
abbrev more : List (Answers × EncoderContext)
more = (granted, only_video) ∷ (granted, both) ∷ []

runs-AllOpen : AllOpen ((granted, both) ∷ more)
unfolding build blocks open_format open_video_codec open_audio_codec open_video_frames
    open_audio_frames open_output clear_pointers
runs-AllOpen = (refl, (_, refl), (refl, (_, refl), (refl, (_, refl), tt)))

cycles-losses_example :
    let e = new_encoder only_video in
    let d = calls e (cycles ((granted, both) ∷ more)) in
    losses e (cycles ((granted, both) ∷ more)) + bit (destroyed d).1.owned.io_ctx ≡ length more + 1
cycles-losses_example = cycles-losses only_video granted both more runs-AllOpen
