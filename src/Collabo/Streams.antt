-- ===== src/Collabo/Streams.antt =====
-- `startStreaming` and `stopStreaming`: the encoder, and the compressor of the image mode.
use encoder_with_web_socket.Prelude.{
  ℕ, zero, suc, ◌+◌, ◌≡◌, refl, ◌≢◌, ◌⊎◌, Bool, true, false, Option, some, List, [], ◌∷◌, arith,
  ◌==◌, if◌then◌else◌,
}
use encoder_with_web_socket.Queue.{Outcome, map_outcome, done}
use encoder_with_web_socket.Encoder.State.{EncoderState, success}
use encoder_with_web_socket.Encoder.Setup.{EncoderContext, Answers}
use encoder_with_web_socket.Encoder.Cycle.{initialize_cases}
use encoder_with_web_socket.Encoder.Life.{
  Encoder, Launch, launches, initialize, Release, stop, video_loop, audio_loop,
  set_silent as encoder_set_silent, encode_audio as encoder_encode_audio,
}

-- The fields of `struct ClbContext` that are passed on.
pub record ClbContext : Type 0 where
  pub width : ℕ
  pub height : ℕ
  pub samplerate : ℕ
  pub is_silent : Bool

-- The context that `startStreaming` builds, in mode 0 (video) or 1 (image).
unfoldable pub encoder_context : ℕ → ClbContext → EncoderContext
encoder_context mode clb = record {
  video_codec_name = (if mode == 0 then "libx264" else "none");
  audio_codec_name = "libfdk_aac";
  width = clb.width;
  height = clb.height;
  framerate = 25;
  samplerate = clb.samplerate;
  is_silent = clb.is_silent;
}

-- `encoder`, and `stopped` of `compressor` once its loop has begun.
pub record Streams : Type 0 where
  pub encoder : Encoder
  pub compressor_stopped : Bool

-- `compressor.initialize` is called in mode 1, and `encoder.initialize` in either; an error of the
-- latter is only printed.
unfoldable pub start_streaming :
    Answers → ClbContext → ℕ → Streams → EncoderState × List Launch × Streams
start_streaming a clb mode s =
    let (code, threads, e) = initialize a (encoder_context mode clb) s.encoder in
    (
      code,
      threads,
      record {
        encoder = e;
        compressor_stopped = (if mode == 1 then false else s.compressor_stopped);
      },
    )

unfoldable pub stop_streaming : ℕ → Streams → List Release × Streams
stop_streaming mode s =
    let (code, rs, e) = stop s.encoder in
    (
      rs,
      record {
        encoder = e;
        compressor_stopped = (if mode == 1 then true else s.compressor_stopped);
      },
    )

-- `setSilent`
unfoldable pub set_silent : Bool → Streams → Streams
set_silent silent s = record s { encoder = encoder_set_silent silent s.encoder }

-- `encodeAudio`
unfoldable pub encode_audio : ℕ → ℕ → Streams → Outcome (Option Bool × List ℕ × Streams)
encode_audio copy size s =
    map_outcome (λ r. (r.0, r.1, record s { encoder = r.2 }))
      (encoder_encode_audio copy size s.encoder)

-- What case MODE makes the host do: stop in the old mode, start in the new one.
unfoldable pub switch_streams :
    Answers → ClbContext → ℕ → ℕ → Streams → EncoderState × List Launch × Streams
unfolding start_streaming stop_streaming
switch_streams a clb old new s = start_streaming a clb new (stop_streaming old s).1

stopped-stop : (e : Encoder) → (stop e).2.stopped ≡ true
unfolding stop
stopped-stop e = ground arith

launches-encoder_context :
    (clb : ClbContext)
    → (launches (encoder_context 0 clb) ≡ video_loop false ∷ audio_loop false ∷ [])
      × (launches (encoder_context 1 clb) ≡ audio_loop true ∷ [])
unfolding launches encoder_context
launches-encoder_context clb = (refl, refl)

abbrev pub loops_of : ℕ → List Launch
loops_of mode = if mode == 0 then video_loop false ∷ audio_loop false ∷ [] else audio_loop true ∷ []

-- A change between the two modes leaves the encoder running, with exactly the loops of the new mode
-- if it could be initialized and with none if not, and the compressor going exactly in the image
-- mode, if that was so in the old mode.
switch_streams_lem :
    (a : Answers) (clb : ClbContext) (s : Streams) (old new : ℕ)
    → old + new ≡ 1
    → s.compressor_stopped ≡ (old == 0)
    → let r = switch_streams a clb old new s in
      (r.2.encoder.stopped ≡ false)
      × (r.2.compressor_stopped ≡ (new == 0))
      × (((r.0 ≡ success) × (r.1 ≡ loops_of new)) ⊎ ((r.0 ≢ success) × (r.1 ≡ [])))
unfolding switch_streams
switch_streams_lem a clb s zero zero e k = absurd (omega arith)
switch_streams_lem a clb s zero (suc zero) e k =
    let r =
      initialize_cases a (encoder_context 1 clb) (stop s.encoder).2 (stopped-stop s.encoder) in
    (r.0, refl, rw (launches-encoder_context clb).1 at r.1)
switch_streams_lem a clb s zero (suc (suc n)) e k = absurd (omega arith)
switch_streams_lem a clb s (suc zero) zero e k =
    let r =
      initialize_cases a (encoder_context 0 clb) (stop s.encoder).2 (stopped-stop s.encoder) in
    (r.0, refl, rw (launches-encoder_context clb).0 at r.1)
switch_streams_lem a clb s (suc zero) (suc n) e k = absurd (omega arith)
switch_streams_lem a clb s (suc (suc n)) new e k = absurd (omega arith)

-- Behind `stopStreaming`, `encodeAudio` returns false and copies nothing.
encode_audio-stopped :
    (copy size mode : ℕ) (s : Streams)
    → let t = (stop_streaming mode s).1 in encode_audio copy size t ≡ done (some false, [], t)
unfolding encode_audio encoder_encode_audio stop_streaming
encode_audio-stopped copy size mode s = rw (stopped-stop s.encoder) refl
