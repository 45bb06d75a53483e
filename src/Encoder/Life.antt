-- ===== src/Encoder/Life.antt =====
-- The life of an encoder: `initialize`, `stop`, `isStop`, `setSilent` and `encodeAudio`.
use encoder_with_web_socket.Prelude.{
  ℕ, Bool, true, false, not, ◌&&◌, Option, none, some, List, [], ◌∷◌, ◌++◌, if◌then◌else◌,
}
use encoder_with_web_socket.Encoder.State.{
  EncoderState, success, already_init_error, already_stop_error,
}
use encoder_with_web_socket.Encoder.Setup.{
  EncoderContext, Owned, Borrowed, Answers, Init, only_io, clear_pointers, build, go, fail,
}
use encoder_with_web_socket.Queue.{
  QueueMsg, EncoderCq, Outcome, size, map_outcome, enqueue, queue_success, queue_stop,
  queue_noelement, queue_full, done,
}
use encoder_with_web_socket.Queue
use text.Mathlib.Text.{◌==◌ as str_eq}

-- The fields of `class Encoder` that its public methods decide on. `has_header` tells whether the
-- header of `fmtCtx` has been written.
pub record Encoder : Type 0 where
  pub stopped : Bool
  pub context : EncoderContext
  pub owned : Owned
  pub borrowed : Borrowed
  pub has_header : Bool
  pub video_cq : EncoderCq
  pub audio_cq : EncoderCq
  pub video_frame_pts : ℕ
  pub audio_frame_pts : ℕ
  pub remained_audio_size : ℕ

-- The threads that `initialize` starts, with the flag that each is given.
pub data Launch : Type 0 where
  video_loop : Bool → Launch
  audio_loop : Bool → Launch

-- The tests behind the header: an `if`, and an `if` with an `else`.
unfoldable pub launches : EncoderContext → List Launch
launches c =
    let no_video = str_eq c.video_codec_name "none" in
    let no_audio = str_eq c.audio_codec_name "none" in
    (if not no_video && no_audio then video_loop true ∷ [] else [])
    ++ (if not no_audio && no_video
        then audio_loop true ∷ []
        else video_loop false ∷ audio_loop false ∷ [])

-- `initialize` on an encoder that is stopped, from the assignments on.
abbrev pub after_build : Encoder → EncoderContext → Init → EncoderState × List Launch × Encoder
after_build e c (go w) = (
  success,
  launches c,
  record e {
    stopped = false;
    context = c;
    owned = w.owned;
    borrowed = w.borrowed;
    has_header = true;
    video_frame_pts = 0;
    audio_frame_pts = 0;
    remained_audio_size = 0;
  },
)
after_build e c (fail s w) = (
  s,
  [],
  record e {
    stopped = false;
    context = c;
    owned = w.owned;
    borrowed = w.borrowed;
    has_header = false;
    video_frame_pts = 0;
    audio_frame_pts = 0;
    remained_audio_size = 0;
  },
)

unfoldable pub initialize :
    Answers → EncoderContext → Encoder → EncoderState × List Launch × Encoder
initialize a c e =
    if e.stopped
    then after_build e c (build a c (clear_pointers e.owned))
    else (already_init_error, [], e)

-- What `stop` gives back, and the call of `av_write_trailer`, with whether the header is written.
pub data Release : Type 0 where
  trailer : Bool → Release
  free_video_frame free_audio_frame free_audio_tmp_frame free_video_pkt free_audio_pkt : Release
  free_video_cc free_audio_cc free_fmt_ctx free_sws_ctx free_swr_ctx free_dict : Release

abbrev pub when : Bool → Release → List Release
when true r = r ∷ []
when false r = []

-- The `if(p != NULL) { free(p); p = NULL; }` of `stop`, in their order. That for `ioCtx` is commented
-- out in the source.
unfoldable pub releases : Owned → List Release
releases o =
    when o.video_frame free_video_frame
    ++ (when o.audio_frame free_audio_frame
        ++ (when o.audio_tmp_frame free_audio_tmp_frame
            ++ (when o.video_pkt free_video_pkt
                ++ (when o.audio_pkt free_audio_pkt
                    ++ (when o.video_cc free_video_cc
                        ++ (when o.audio_cc free_audio_cc
                            ++ (when o.fmt_ctx free_fmt_ctx
                                ++ (when o.sws_ctx free_sws_ctx
                                    ++ (when o.swr_ctx free_swr_ctx
                                        ++ when o.dict free_dict)))))))))

unfoldable pub stop : Encoder → EncoderState × List Release × Encoder
unfolding releases Queue.stop
stop e = if e.stopped then (already_stop_error, [], e) else (
  success,
  trailer e.has_header ∷ releases e.owned,
  record e {
    stopped = true;
    owned = only_io e.owned.io_ctx;
    has_header = false;
    video_cq = Queue.stop e.video_cq;
    audio_cq = Queue.stop e.audio_cq;
  },
)

unfoldable pub is_stop : Encoder → Bool
is_stop e = e.stopped

abbrev pub silenced : Encoder → Bool → Encoder
silenced e b = record e { context = record (e.context) { is_silent = b } }

-- `setSilent`: the video queue is started before the flag falls, and stopped after it has risen.
unfoldable pub set_silent : Bool → Encoder → Encoder
unfolding Queue.start Queue.stop
set_silent true e = let e' = silenced e true in record e' { video_cq = Queue.stop e'.video_cq }
set_silent false e = silenced (record e { video_cq = Queue.start e.video_cq }) false

-- The end of `encodeAudio`: the copy is deleted if the queue is full. No value is returned there,
-- which is the `none` in the second place.
abbrev pub after_enqueue : Encoder → ℕ → QueueMsg × EncoderCq → Option Bool × List ℕ × Encoder
after_enqueue e copy (queue_full, q) = (none, copy ∷ [], record e { audio_cq = q })
after_enqueue e copy (queue_success, q) = (none, [], record e { audio_cq = q })
after_enqueue e copy (queue_stop, q) = (none, [], record e { audio_cq = q })
after_enqueue e copy (queue_noelement, q) = (none, [], record e { audio_cq = q })

-- `encodeAudio`, for the address `copy` of the buffer that it has allocated: the value returned, the
-- buffers deleted and the encoder.
unfoldable pub encode_audio : ℕ → ℕ → Encoder → Outcome (Option Bool × List ℕ × Encoder)
encode_audio copy size e =
    if e.stopped
    then done (some false, [], e)
    else map_outcome (after_enqueue e copy)
        (enqueue e.audio_cq (record { buffer = copy; size = size; fake = false }))
