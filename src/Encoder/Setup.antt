-- ===== src/Encoder/Setup.antt =====
-- `Encoder::initialize` and `Encoder::stop`: what they take from the libraries and give back.
use encoder_with_web_socket.Prelude.{ℕ, Bool, true, false, not, ◌&&◌, if◌then◌else◌}
use encoder_with_web_socket.Encoder.State.{
  EncoderState, format_context_error, write_header_error, video_codec_error,
  video_codec_context_error, video_sws_get_context_error, video_new_stream_error,
  video_codec_open_error, video_codecpar_error, video_alloc_frame_error,
  video_alloc_frame_buffer_error, video_alloc_packet_error, audio_codec_error,
  audio_codec_context_error, audio_swr_alloc_error, audio_swr_init_error, audio_new_stream_error,
  audio_codec_open_error, audio_codecpar_error, audio_alloc_frame_error,
  audio_alloc_frame_buffer_error, audio_alloc_packet_error,
}
use text.Mathlib.Text.{◌==◌ as str_eq}
use Prim.Native.String.{String}

-- The fields of `struct EncoderContext` that decide the course of `initialize`.
pub record EncoderContext : Type 0 where
  pub video_codec_name : String
  pub audio_codec_name : String
  pub width : ℕ
  pub height : ℕ
  pub framerate : ℕ
  pub samplerate : ℕ
  pub is_silent : Bool

-- The pointers of `class Encoder` that own something, as whether they are not null. The encoder of
-- the program is a static object, so all are null before the first `initialize`.
pub record Owned : Type 0 where
  pub fmt_ctx : Bool
  pub video_cc : Bool
  pub audio_cc : Bool
  pub video_frame : Bool
  pub audio_frame : Bool
  pub audio_tmp_frame : Bool
  pub video_pkt : Bool
  pub audio_pkt : Bool
  pub sws_ctx : Bool
  pub swr_ctx : Bool
  pub dict : Bool
  pub io_ctx : Bool

-- Those into the format context, which is freed with what they point to; `stop` leaves them alone.
pub record Borrowed : Type 0 where
  pub video_stream : Bool
  pub audio_stream : Bool

-- What the libraries answer to the calls of `initialize`: whether each call succeeds.
pub record Answers : Type 0 where
  pub alloc_output_context : Bool
  pub format_has_video : Bool
  pub format_has_audio : Bool
  pub find_video : Bool
  pub new_video_stream : Bool
  pub alloc_video_cc : Bool
  pub get_sws : Bool
  pub find_audio : Bool
  pub new_audio_stream : Bool
  pub alloc_audio_cc : Bool
  pub alloc_swr : Bool
  pub init_swr : Bool
  pub open_video : Bool
  pub video_parameters : Bool
  pub alloc_video_frame : Bool
  pub video_buffer : Bool
  pub alloc_video_pkt : Bool
  pub open_audio : Bool
  pub audio_parameters : Bool
  pub alloc_audio_frame : Bool
  pub audio_buffer : Bool
  pub alloc_audio_pkt : Bool
  pub alloc_tmp_frame : Bool
  pub tmp_buffer : Bool
  pub alloc_io : Bool
  pub write_header : Bool

-- The state that `initialize` builds, or the point at which it returns an error.
pub record Work : Type 0 where
  pub owned : Owned
  pub borrowed : Borrowed

pub data Init : Type 0 where
  go : Work → Init
  fail : EncoderState → Work → Init

infixl 5 ◌>>=◌
abbrev pub ◌>>=◌ : Init → (Work → Init) → Init
go w >>= f = f w
fail s w >>= f = fail s w

-- `if(!ok) return error;`
abbrev pub need : Bool → EncoderState → Work → Init
need true error w = go w
need false error w = fail error w

abbrev pub nothing_owned : Owned
nothing_owned = record {
  fmt_ctx = false;
  video_cc = false;
  audio_cc = false;
  video_frame = false;
  audio_frame = false;
  audio_tmp_frame = false;
  video_pkt = false;
  audio_pkt = false;
  sws_ctx = false;
  swr_ctx = false;
  dict = false;
  io_ctx = false;
}

-- Nothing but `ioCtx`, which `stop` does not give back.
abbrev pub only_io : Bool → Owned
only_io io = record nothing_owned { io_ctx = io }

-- The pointers that `initialize` sets to null first: all but `videoCC` and `audioCC`.
unfoldable pub clear_pointers : Owned → Work
clear_pointers o = record {
  owned = record nothing_owned { video_cc = o.video_cc; audio_cc = o.audio_cc };
  borrowed = record { video_stream = false; audio_stream = false };
}

abbrev pub is_enabled : Bool → String → Bool
is_enabled in_format name = in_format && not (str_eq name "none")

abbrev pub own : Work → Owned → Work
own w o = record w { owned = o }

abbrev pub borrow : Work → Borrowed → Work
borrow w b = record w { borrowed = b }

module _ (a : Answers) where
  -- The first block of `initialize`: the output context.
  unfoldable pub open_format : Work → Init
  open_format w =
      need a.alloc_output_context format_context_error
        (own w (record w.owned { fmt_ctx = a.alloc_output_context }))

  unfoldable pub open_video_codec : Work → Init
  open_video_codec w = do
    w1 ← need a.find_video video_codec_error w
    w2 ←
        need a.new_video_stream video_new_stream_error
          (borrow w1 (record w1.borrowed { video_stream = a.new_video_stream }))
    w3 ←
        need a.alloc_video_cc video_codec_context_error
          (own w2 (record w2.owned { video_cc = a.alloc_video_cc }))
    need a.get_sws video_sws_get_context_error (own w3 (record w3.owned { sws_ctx = a.get_sws }))

  unfoldable pub open_audio_codec : Work → Init
  open_audio_codec w = do
    w1 ← need a.find_audio audio_codec_error w
    w2 ←
        need a.new_audio_stream audio_new_stream_error
          (borrow w1 (record w1.borrowed { audio_stream = a.new_audio_stream }))
    w3 ←
        need a.alloc_audio_cc audio_codec_context_error
          (own w2 (record w2.owned { audio_cc = a.alloc_audio_cc }))
    w4 ← need a.alloc_swr audio_swr_alloc_error (own w3 (record w3.owned { swr_ctx = a.alloc_swr }))
    need a.init_swr audio_swr_init_error w4

  -- `if(videoStream) { … }`. The options are in `dict` while `avcodec_open2` runs.
  unfoldable pub open_video_frames : Work → Init
  open_video_frames w = do
    w1 ← need a.open_video video_codec_open_error (own w (record w.owned { dict = true }))
    w2 ← need a.video_parameters video_codecpar_error (own w1 (record w1.owned { dict = false }))
    w3 ←
        need a.alloc_video_frame video_alloc_frame_error
          (own w2 (record w2.owned { video_frame = a.alloc_video_frame }))
    w4 ← need a.video_buffer video_alloc_frame_buffer_error w3
    need a.alloc_video_pkt video_alloc_packet_error
        (own w4 (record w4.owned { video_pkt = a.alloc_video_pkt }))

  -- `if(audioStream) { … }`
  unfoldable pub open_audio_frames : Work → Init
  open_audio_frames w = do
    w1 ← need a.open_audio audio_codec_open_error w
    w2 ← need a.audio_parameters audio_codecpar_error w1
    w3 ←
        need a.alloc_audio_frame audio_alloc_frame_error
          (own w2 (record w2.owned { audio_frame = a.alloc_audio_frame }))
    w4 ← need a.audio_buffer audio_alloc_frame_buffer_error w3
    w5 ←
        need a.alloc_audio_pkt audio_alloc_packet_error
          (own w4 (record w4.owned { audio_pkt = a.alloc_audio_pkt }))
    w6 ←
        need a.alloc_tmp_frame audio_alloc_frame_error
          (own w5 (record w5.owned { audio_tmp_frame = a.alloc_tmp_frame }))
    need a.tmp_buffer audio_alloc_frame_buffer_error w6

  -- The last block: the input and output context, and the header.
  unfoldable pub open_output : Work → Init
  open_output w = do
    w1 ← go (own w (record w.owned { io_ctx = a.alloc_io }))
    w2 ← need a.write_header write_header_error (own w1 (record w1.owned { dict = true }))
    go (own w2 (record w2.owned { dict = false }))

  -- The blocks in turn, for whether there is a video and an audio stream.
  unfoldable pub blocks : Bool → Bool → Work → Init
  blocks video audio w = do
    w1 ← open_format w
    w2 ← if video then open_video_codec w1 else go w1
    w3 ← if audio then open_audio_codec w2 else go w2
    w4 ← if w3.borrowed.video_stream then open_video_frames w3 else go w3
    w5 ← if w4.borrowed.audio_stream then open_audio_frames w4 else go w4
    open_output w5

  -- A stream is there if the context names a codec and the format has one.
  unfoldable pub build : EncoderContext → Work → Init
  build c =
      blocks (is_enabled a.format_has_video c.video_codec_name)
        (is_enabled a.format_has_audio c.audio_codec_name)
