-- ===== src/Encoder/Video.antt =====
-- `Encoder::encodeVideoImpl` and the turns of `encodeVideoLoop`.
use encoder_with_web_socket.Prelude.{
  ℕ, ◌+◌, ◌*◌, Bool, false, ◌&&◌, ◌||◌, none, some, List, [], ◌∷◌, ltb, ◌==◌, if◌then◌else◌, length,
}
use encoder_with_web_socket.Encoder.State.{
  video_encode_error, video_write_frame_error, video_receive_packet_error,
}
use encoder_with_web_socket.Encoder.Codec.{
  Bytes, Answer, Event, receive_loop, offered, stops, deleted,
}
use encoder_with_web_socket.Encoder.Setup.{EncoderContext, Owned, Answers}
use encoder_with_web_socket.Encoder.Life.{Encoder, Launch, initialize, Release, stop}
use encoder_with_web_socket.Queue.{
  EncoderElement, QueueMsg, Outcome, map_outcome, enqueue, Taken, Dequeue, dequeue, done, fault,
  returned, waits,
}

-- A frame of the screen, as `requestVideo` hands it over.
pub record Screen : Type 0 where
  pub width : ℕ
  pub height : ℕ
  pub buffer : ℕ
  pub pixels : Bytes

-- What a call leaves: what it does, the time of the next frame, and the value returned.
abbrev pub Encoded : Type 0
Encoded = List Event × ℕ × Bool

-- The objects that `encodeVideoImpl` uses are there.
abbrev pub is_ready : Owned → Bool
is_ready o = o.sws_ctx && o.video_frame && o.video_cc && o.video_pkt

-- A turn of the loop ends it, starts a thread for a frame, finds its queue stopped, goes to sleep,
-- or takes a frame out of the queue.
pub data Turn : Type 0 where
  leaves : Turn
  spawns : Turn
  spins : Turn
  sleeps : Turn
  encodes : EncoderElement → Turn
  crashes : Turn

abbrev pub turn_of : Outcome Taken → Turn
turn_of fault = crashes
turn_of (done (QueueMsg.queue_stop, x, q)) = spins
turn_of (done (QueueMsg.queue_success, some x, q)) = encodes x
turn_of (done (QueueMsg.queue_success, none, q)) = crashes
turn_of (done (QueueMsg.queue_noelement, x, q)) = crashes
turn_of (done (QueueMsg.queue_full, x, q)) = crashes

abbrev pub after_dequeue : Dequeue → Turn
after_dequeue waits = sleeps
after_dequeue (returned o) = turn_of o

-- The tests of `encodeVideoLoop` in a turn, for its flag `onlyVideo`.
unfoldable pub video_turn : Bool → Encoder → Turn
video_turn only_video e =
    if e.stopped
    then leaves
    else if only_video || e.context.is_silent
    then spawns
    else after_dequeue (dequeue e.video_cq)

-- What one of the threads leaves that the silent loop starts.
pub record Job : Type 0 where
  pub launched : List Launch
  pub released : List Release
  pub events : List Event
  pub encoder : Encoder

-- `if(width != eCtx.width || height != eCtx.height) { …; stop(); initialize(…); }`
unfoldable pub resize : Answers → Screen → Encoder → List Launch × List Release × Encoder
resize a s e =
    if (s.width == e.context.width) && (s.height == e.context.height)
    then ([], [], e)
    else let ctx = record (e.context) { width = s.width; height = s.height } in
      let r = stop (record e { context = ctx }) in let i = initialize a ctx r.2 in (i.1, r.1, i.2)

-- The silence for the loop of the sound; what `enqueue` returns is not looked at.
abbrev pub enqueue_silence : EncoderElement → Encoder → Outcome Encoder
enqueue_silence silence e =
    map_outcome (λ r. record e { audio_cq = r.1 }) (enqueue e.audio_cq silence)

abbrev pub finish_job : List Launch → List Release → Encoder → Outcome Encoded → Outcome Job
finish_job launched released e o =
    map_outcome
      (λ (x : Encoded). record {
        launched = launched;
        released = released;
        events = x.0;
        encoder = record e { video_frame_pts = x.1 };
      })
      o

-- The libraries: the codec, and `sws_scale` for the size of the context.
module _ (codec : ℕ → Bytes → Answer) (scale : ℕ → ℕ → Bytes → Bytes) where
  abbrev pub after_scale : ℕ → EncoderElement → Bytes → Encoded
  after_scale pts element frame =
      let a = codec pts frame in
      let r = receive_loop video_receive_packet_error video_write_frame_error a.receives in
      if a.accepted
      then (deleted element.buffer ∷ offered pts frame ∷ r.0, pts + 1, r.1)
      else (deleted element.buffer ∷ offered pts frame ∷ stops video_encode_error ∷ [], pts, false)

  -- `encodeVideoImpl`: `sws_scale` reads three bytes for each pixel of the context's size.
  unfoldable pub encode_video_impl : EncoderContext → ℕ → EncoderElement → Bytes → Outcome Encoded
  encode_video_impl ctx pts element pixels =
      if ltb (length pixels) (ctx.width * ctx.height * 3)
      then fault
      else done (after_scale pts element (scale ctx.width ctx.height pixels))

  abbrev pub encode_screen : List Launch → List Release → Screen → Outcome Encoder → Outcome Job
  encode_screen launched released s fault = fault
  encode_screen launched released s (done e) =
      if is_ready e.owned
      then finish_job launched released e (
          encode_video_impl e.context e.video_frame_pts
            (record { buffer = s.buffer; size = s.width * s.height * 3; fake = false }) s.pixels)
      else fault

  -- The thread that the silent loop starts, with sound beside it or for the video only; `silence` has
  -- the size `audioBytes * audioCC->time_base.den / videoCC->time_base.den`.
  unfoldable pub video_job : Bool → Answers → Screen → EncoderElement → Encoder → Outcome Job
  unfolding resize encode_video_impl
  video_job only_video a s silence e =
      let (launched, released, e1) = resize a s e in
      encode_screen launched released s (
        if only_video
        then done e1
        else if e1.owned.audio_cc && e1.owned.video_cc
        then enqueue_silence silence e1
        else fault)
