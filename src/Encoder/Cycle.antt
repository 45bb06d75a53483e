-- ===== src/Encoder/Cycle.antt =====
-- What holds over the calls of `initialize` and `stop`.
use encoder_with_web_socket.Prelude.{
  ◌≡◌, refl, ap, ◌∙◌, ◌≢◌, ◌⊎◌, inl, inr, Bool, true, false, [], ◌∷◌, arith, if◌then◌else◌,
  Bool-cases,
}
use encoder_with_web_socket.Encoder.State.{success, already_init_error, already_stop_error}
use encoder_with_web_socket.Encoder.Setup.{
  EncoderContext, Owned, Answers, Work, Init, nothing_owned, only_io, clear_pointers, is_enabled,
  open_format, open_video_codec, open_audio_codec, open_video_frames, open_audio_frames,
  open_output, blocks, build, go, fail,
}
use encoder_with_web_socket.Encoder.Life.{
  Encoder, launches, after_build, initialize, releases, stop, trailer,
}

-- An encoder that has been initialized is not stopped, whether the call has succeeded or not, and
-- another call is refused and changes nothing until `stop` has been called.
initialize_twice :
    (a b : Answers) (c d : EncoderContext) (e : Encoder)
    → let e' = (initialize a c e).2 in
      (e'.stopped ≡ false) × (initialize b d e' ≡ (already_init_error, [], e'))
unfolding initialize
initialize_twice a b c d e = elim (Bool-cases e.stopped) [
  | inl s ↦ simp s (twice (build a c (clear_pointers e.owned)))
  | inr s ↦ simp s (refl, refl)
]
  where
    twice :
        (i : Init)
        → let e' = (after_build e c i).2 in
          (e'.stopped ≡ false)
          × ((if e'.stopped
                then after_build e' d (build b d (clear_pointers e'.owned))
                else (already_init_error, [], e'))
              ≡ (already_init_error, [], e'))
    twice (go w) = (refl, refl)
    twice (fail s w) = (refl, refl)

-- On an encoder that is not stopped, `stop` succeeds, writes the trailer, gives back every pointer
-- that the encoder owns, once, and leaves it with none; both queues are stopped, and a second call
-- is refused and gives back nothing.
stop-releases :
    (e : Encoder)
    → e.stopped ≡ false
    → let r = stop e in
      (r.0 ≡ success)
      × (r.1 ≡ trailer e.has_header ∷ releases e.owned)
      × (releases r.2.owned ≡ [])
      × (r.2.video_cq.is_stop ≡ true)
      × (r.2.audio_cq.is_stop ≡ true)
      × (stop r.2 ≡ (already_stop_error, [], r.2))
unfolding stop releases
stop-releases e s = simp s (refl, refl, refl, refl, refl, refl)

-- The pointers of an encoder that encodes the streams that are enabled, with the answer to
-- `avio_alloc_context`.
abbrev pub owned_for : Bool → Bool → Bool → Owned
owned_for io video audio = record {
  fmt_ctx = true;
  video_cc = video;
  audio_cc = audio;
  video_frame = video;
  audio_frame = audio;
  audio_tmp_frame = audio;
  video_pkt = video;
  audio_pkt = audio;
  sws_ctx = video;
  swr_ctx = audio;
  dict = false;
  io_ctx = io;
}

-- The blocks that succeed leave what the streams need.
abbrev pub fresh_work : Work
fresh_work = record {
  owned = nothing_owned;
  borrowed = record { video_stream = false; audio_stream = false };
}

pub blocks-owned :
    (a : Answers) (video audio : Bool) (w : Work)
    → blocks a video audio fresh_work ≡ go w
    → w.owned ≡ owned_for a.alloc_io video audio
unfolding blocks open_format open_video_codec open_audio_codec open_video_frames open_audio_frames
    open_output
blocks-owned a true true w h = ground arith
blocks-owned a true false w h = ground arith
blocks-owned a false true w h = ground arith
blocks-owned a false false w h = ground arith

blocks-ne-success :
    (a : Answers) (video audio : Bool) (w w' : Work) → blocks a video audio w ≢ fail success w'
unfolding blocks open_format open_video_codec open_audio_codec open_video_frames open_audio_frames
    open_output
blocks-ne-success a true true w w' h = ground arith
blocks-ne-success a true false w w' h = ground arith
blocks-ne-success a false true w w' h = ground arith
blocks-ne-success a false false w w' h = ground arith

-- If `initialize` succeeds on an encoder that holds nothing but, perhaps, the `ioCtx` of an earlier run,
-- the encoder owns exactly what the enabled streams need and a new `ioCtx` if one could be had, its header
-- is written and its counters are 0.
pub initialize_success :
    (a : Answers) (c : EncoderContext) (e : Encoder) (io : Bool)
    → e.owned ≡ only_io io
    → (initialize a c e).0 ≡ success
    → let e' = (initialize a c e).2 in
      (e'.owned
        ≡ owned_for a.alloc_io
            (is_enabled a.format_has_video c.video_codec_name)
            (is_enabled a.format_has_audio c.audio_codec_name))
      × (e'.has_header ≡ true)
      × (e'.video_frame_pts ≡ 0)
      × (e'.audio_frame_pts ≡ 0)
      × (e'.remained_audio_size ≡ 0)
unfolding initialize build clear_pointers
initialize_success a c e io o h = elim (Bool-cases e.stopped) [
  | inl s ↦ simp s (built (blocks a video audio (clear_pointers e.owned)) (rw o refl) (simp s at h))
  | inr s ↦ cc (simp s at h)
]
  where
    video : Bool
    video = is_enabled a.format_has_video c.video_codec_name

    audio : Bool
    audio = is_enabled a.format_has_audio c.audio_codec_name

    built :
        (i : Init)
        → blocks a video audio fresh_work ≡ i
        → (after_build e c i).0 ≡ success
        → let e' = (after_build e c i).2 in
          (e'.owned ≡ owned_for a.alloc_io video audio)
          × (e'.has_header ≡ true)
          × (e'.video_frame_pts ≡ 0)
          × (e'.audio_frame_pts ≡ 0)
          × (e'.remained_audio_size ≡ 0)
    built (go w) q k = (blocks-owned a video audio w q, refl, refl, refl, refl)
    built (fail s w) q k =
        absurd (blocks-ne-success a video audio fresh_work w (q ∙ ap (λ t. fail t w) k))

-- If `initialize` fails on a stopped encoder, the next `stop` writes the trailer of a file whose
-- header has not been written; if it succeeds, the header has been.
stop-initialize :
    (a : Answers) (c : EncoderContext) (e : Encoder)
    → e.stopped ≡ true
    → let r = initialize a c e in
      ((r.0 ≡ success) × ((stop r.2).1 ≡ trailer true ∷ releases r.2.owned))
      ⊎ ((r.0 ≢ success) × ((stop r.2).1 ≡ trailer false ∷ releases r.2.owned))
unfolding initialize stop build
stop-initialize a c e s = simp s (built (build a c (clear_pointers e.owned)) refl)
  where
    built :
        (i : Init)
        → build a c (clear_pointers e.owned) ≡ i
        → let r = after_build e c i in
          ((r.0 ≡ success) × ((stop r.2).1 ≡ trailer true ∷ releases r.2.owned))
          ⊎ ((r.0 ≢ success) × ((stop r.2).1 ≡ trailer false ∷ releases r.2.owned))
    built (go w) q = inl (refl, refl)
    built (fail s w) q = inr (λ k. blocks-ne-success a _ _ _ w (q ∙ ap (λ t. fail t w) k), refl)

-- A stopped encoder starts running, with the threads of its context or with none.
pub initialize_cases :
    (a : Answers) (c : EncoderContext) (e : Encoder)
    → e.stopped ≡ true
    → let r = initialize a c e in
      (r.2.stopped ≡ false)
      × (((r.0 ≡ success) × (r.1 ≡ launches c)) ⊎ ((r.0 ≢ success) × (r.1 ≡ [])))
unfolding initialize build
initialize_cases a c e s = simp s (built (build a c (clear_pointers e.owned)) refl)
  where
    built :
        (i : Init)
        → build a c (clear_pointers e.owned) ≡ i
        → let r = after_build e c i in
          (r.2.stopped ≡ false)
          × (((r.0 ≡ success) × (r.1 ≡ launches c)) ⊎ ((r.0 ≢ success) × (r.1 ≡ [])))
    built (go w) q = (refl, inl (refl, refl))
    built (fail t w) q =
        (refl, inr (λ k. blocks-ne-success a _ _ _ w (q ∙ ap (λ t. fail t w) k), refl))

-- An encoder that has been stopped is built up again as a new one is.
pub initialize_again :
    (a : Answers) (c : EncoderContext) (e : Encoder) (w : Work) (io : Bool)
    → e.stopped ≡ true
    → e.owned ≡ only_io io
    → build a c (clear_pointers nothing_owned) ≡ go w
    → initialize a c e ≡ after_build e c (go w)
unfolding initialize clear_pointers
initialize_again a c e w io halted freed ok = rw (halted, freed, ok) refl
