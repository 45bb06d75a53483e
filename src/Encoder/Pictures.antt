-- ===== src/Encoder/Pictures.antt =====
-- The loop of the sound beside `encodeAudioImpl`, and the times at which it asks for pictures.
use encoder_with_web_socket.Prelude.{
  slice, ℕ, zero, suc, ◌+◌, ◌-◌, ◌≡◌, refl, sym, ap, ◌∙◌, inl, inr, Bool, ◌||◌, Option, none, some,
  List, [], ◌∷◌, ◌++◌, map, append_assoc, append-nil, arith, leb, ◌==◌, if◌then◌else◌, Bool-cases,
}
use encoder_with_web_socket.Queue.{EncoderElement, new, size}
use encoder_with_web_socket.Encoder.Codec.{
  Bytes, Answer, Event, frames, frames-append, frames-receive_loop,
}
use encoder_with_web_socket.Encoder.Audio.{
  AudioState, frame_size, copy_at, Step, send_audio, after_send, frames_loop, then_delete,
  encode_audio_impl, finished, aborted,
}
use encoder_with_web_socket.Encoder.Sync.{
  SyncEvent, sounds, pictures, SyncStep, meet_video, after_frame, sync_loop, then_free, sync_turn,
  audio, captured,
}
use encoder_with_web_socket.Encoder.State.{audio_write_frame_error, audio_receive_packet_error}

pub sounds-append : (es fs : List SyncEvent) → sounds (es ++ fs) ≡ sounds es ++ sounds fs
sounds-append [] fs = refl
sounds-append (audio e ∷ es) fs = ap (◌∷◌ e) (sounds-append es fs)
sounds-append (captured t ∷ es) fs = sounds-append es fs

sounds-map : (es : List Event) → sounds (map audio es) ≡ es
sounds-map [] = refl
sounds-map (e ∷ es) = ap (◌∷◌ e) (sounds-map es)

pub pictures-append : (es fs : List SyncEvent) → pictures (es ++ fs) ≡ pictures es ++ pictures fs
pictures-append [] fs = refl
pictures-append (audio e ∷ es) fs = pictures-append es fs
pictures-append (captured t ∷ es) fs = ap (◌∷◌ t) (pictures-append es fs)

pictures-map : (es : List Event) → pictures (map audio es) ≡ []
pictures-map [] = refl
pictures-map (e ∷ es) = pictures-map es

sounds-meet_video : (b : Bool) (t v : ℕ) → sounds (meet_video b t v).0 ≡ []
sounds-meet_video b t v = ground arith

-- What is left of a run if the pictures are forgotten.
abbrev pub heard : Option SyncStep → Option Step
heard none = none
heard (some (es, s, v, x)) = some (sounds es, s, x)

module _ (codec : ℕ → Bytes → Answer) (rescale : ℕ → ℕ) (is_silent : ℕ → Bool) where
  heard-after_frame :
      (asked : List SyncEvent) (v : ℕ) (u : Step) (rest : Option SyncStep)
      → sounds asked ≡ []
      → heard (after_frame codec rescale is_silent asked v u rest) ≡ after_send codec u (heard rest)
  heard-after_frame asked v (es, s, aborted) rest q = rw (sounds-append, q, sounds-map) refl
  heard-after_frame asked v (es, s, finished) none q = refl
  heard-after_frame asked v (es, s, finished) (some (fs, t, u, x)) q =
      rw (sounds-append, q, sounds-append, sounds-map) refl

  heard-sync_loop :
      (fuel : ℕ) (s : AudioState) (v : ℕ) (pcm : Bytes) (size encoded : ℕ)
      → heard (sync_loop codec rescale is_silent fuel s v pcm size encoded)
        ≡ frames_loop codec fuel s pcm size encoded
  unfolding sync_loop frames_loop
  heard-sync_loop zero s v pcm size encoded = refl
  heard-sync_loop (suc fuel) s v pcm size encoded =
      let n : ℕ = frame_size s - s.remained in
      let full : AudioState = record s {
        tmp = copy_at s.tmp s.remained (slice pcm encoded n);
        remained = 0;
      } in
      let asked = meet_video (is_silent s.frame_pts) (rescale s.frame_pts) v in
      let sent = send_audio codec full in
      elim (Bool-cases (encoded == size)) [
        | inl end ↦ rw end refl
        | inr more ↦ elim (Bool-cases (leb n (size - encoded))) [
          | inl fits ↦
              rw (more, fits)
                (heard-after_frame asked.0 asked.1 sent
                    (sync_loop codec rescale is_silent fuel sent.1 asked.1 pcm size (encoded + n))
                    (sounds-meet_video (is_silent s.frame_pts) (rescale s.frame_pts) v)
                  ∙ ap (after_send codec sent)
                      (heard-sync_loop fuel sent.1 asked.1 pcm size (encoded + n)))
          | inr short ↦ rw (more, short) refl
        ]
      ]

  heard-then_free :
      (a : ℕ) (r : Option SyncStep)
      → heard (then_free codec rescale is_silent a r) ≡ then_delete codec a (heard r)
  heard-then_free a none = refl
  heard-then_free a (some (es, s, v, finished)) = rw (sounds-append) refl
  heard-then_free a (some (es, s, v, aborted)) = refl

  -- Whatever the flag and the clocks are, a turn of the loop does with the sound exactly what
  -- `encodeAudioImpl` does: the same frames, packets, errors and deletions in the same order, the same
  -- state behind it and the same end.
  pub sync_turn-encode_audio_impl :
      (s : AudioState) (v : ℕ) (element : EncoderElement) (pcm : Bytes)
      → heard (sync_turn codec rescale is_silent s v element pcm)
        ≡ encode_audio_impl codec s element pcm
  unfolding sync_turn encode_audio_impl
  sync_turn-encode_audio_impl s v element pcm =
      rw (heard-then_free, heard-sync_loop (element.size + 1) s v pcm element.size 0) refl

  -- The rescaled times at which a picture is wanted: those of the frames that are reached while the
  -- flag is down and whose rescaled time differs from that of the frame before.
  abbrev pub wanted : ℕ → List ℕ → List ℕ
  wanted v [] = []
  wanted v (t ∷ ts) =
      (if is_silent t || (rescale t == v) then [] else rescale t ∷ []) ++ wanted (rescale t) ts

  -- The times of the frames that a run hands to the codec.
  abbrev pub frame_times : List SyncEvent → List ℕ
  frame_times es = map (λ f. f.0) (frames (sounds es))

  -- The rescaled time of the last frame.
  abbrev pub reached : ℕ → List ℕ → ℕ
  reached v [] = v
  reached v (t ∷ ts) = reached (rescale t) ts

  -- The pictures that are wanted are asked for, and the time of the last one is kept.
  abbrev pub Meets : ℕ → Option SyncStep → Type 0
  Meets v none = Unit {0}
  Meets v (some (es, s, u, x)) =
      (pictures es ≡ wanted v (frame_times es)) × (u ≡ reached v (frame_times es))

  meet_video-wanted :
      (t v : ℕ)
      → let m = meet_video (is_silent t) (rescale t) v in
        (pictures m.0 ≡ (if is_silent t || (rescale t == v) then [] else rescale t ∷ []))
        × (m.1 ≡ rescale t)
  meet_video-wanted t v = elim (Bool-cases (is_silent t)) [
    | inl quiet ↦ rw quiet (refl, refl)
    | inr loud ↦ elim (Bool-cases (rescale t == v)) [
      | inl same ↦ rw (loud, same) (refl, ground (arith, same))
      | inr new ↦ rw (loud, new) (refl, refl)
    ]
  ]

  frames-send_audio : (s : AudioState) → frames (send_audio codec s).0 ≡ (s.frame_pts, s.tmp) ∷ []
  unfolding send_audio
  frames-send_audio s = elim (Bool-cases (codec s.frame_pts s.tmp).accepted) [
    | inl taken ↦
        rw (taken, frames-receive_loop audio_receive_packet_error audio_write_frame_error) refl
    | inr refused ↦ rw refused refl
  ]

  frame_times-frame :
      (t v : ℕ) (es : List Event) (b : Bytes) (fs : List SyncEvent)
      → frames es ≡ (t, b) ∷ []
      → frame_times ((meet_video (is_silent t) (rescale t) v).0 ++ (map audio es ++ fs))
        ≡ t ∷ frame_times fs
  frame_times-frame t v es b fs one =
      rw (sounds-append, sounds-meet_video, sounds-append, sounds-map, frames-append, one) refl

  pictures-frame :
      (t v : ℕ) (es : List Event) (b : Bytes) (fs : List SyncEvent)
      → frames es ≡ (t, b) ∷ []
      → pictures fs ≡ wanted (rescale t) (frame_times fs)
      → let all = (meet_video (is_silent t) (rescale t) v).0 ++ (map audio es ++ fs) in
        pictures all ≡ wanted v (frame_times all)
  pictures-frame t v es b fs one meets =
      rw
        (
          frame_times-frame t v es b fs one,
          pictures-append,
          pictures-append,
          pictures-map,
          (meet_video-wanted t v).0,
          meets,
        )
        refl

  after_frame-Meets :
      (t v : ℕ) (b : Bytes) (u : Step) (rest : Option SyncStep)
      → frames u.0 ≡ (t, b) ∷ []
      → let m = meet_video (is_silent t) (rescale t) v in
        Meets m.1 rest → Meets v (after_frame codec rescale is_silent m.0 m.1 u rest)
  after_frame-Meets t v b (es, s, aborted) rest one meets =
      let p = pictures-frame t v es b [] one refl in
      let q = frame_times-frame t v es b [] one in
      rw (sym (append-nil (map audio es))) (p, rw q (meet_video-wanted t v).1)
  after_frame-Meets t v b (es, s, finished) none one meets = record {}
  after_frame-Meets t v b (es, s, finished) (some (fs, s', u, x)) one meets =
      let w = sym (meet_video-wanted t v).1 in
      let last : u ≡ reached (rescale t) (frame_times fs) = rw w meets.1 in
      (pictures-frame t v es b fs one (rw w meets.0), rw (frame_times-frame t v es b fs one) last)

  sync_loop-Meets :
      (fuel : ℕ) (s : AudioState) (v : ℕ) (pcm : Bytes) (size encoded : ℕ)
      → Meets v (sync_loop codec rescale is_silent fuel s v pcm size encoded)
  unfolding sync_loop
  sync_loop-Meets zero s v pcm size encoded = record {}
  sync_loop-Meets (suc fuel) s v pcm size encoded =
      let n : ℕ = frame_size s - s.remained in
      let full : AudioState = record s {
        tmp = copy_at s.tmp s.remained (slice pcm encoded n);
        remained = 0;
      } in
      let asked = meet_video (is_silent s.frame_pts) (rescale s.frame_pts) v in
      let sent = send_audio codec full in
      elim (Bool-cases (encoded == size)) [
        | inl end ↦ rw end (refl, refl)
        | inr more ↦ elim (Bool-cases (leb n (size - encoded))) [
          | inl fits ↦
              rw (more, fits)
                (after_frame-Meets s.frame_pts v full.tmp sent
                  (sync_loop codec rescale is_silent fuel sent.1 asked.1 pcm size (encoded + n))
                  (frames-send_audio full)
                  (sync_loop-Meets fuel sent.1 asked.1 pcm size (encoded + n)))
          | inr short ↦ rw (more, short) (refl, refl)
        ]
      ]

  then_free-Meets :
      (a v : ℕ) (r : Option SyncStep) → Meets v r → Meets v (then_free codec rescale is_silent a r)
  then_free-Meets a v none h = h
  then_free-Meets a v (some (es, s, u, finished)) h =
      rw (pictures-append, sounds-append, frames-append, append-nil, append-nil) h
  then_free-Meets a v (some (es, s, u, aborted)) h = h

  pub sync_turn-Meets :
      (s : AudioState) (v : ℕ) (element : EncoderElement) (pcm : Bytes)
      → Meets v (sync_turn codec rescale is_silent s v element pcm)
  unfolding sync_turn
  sync_turn-Meets s v element pcm =
      then_free-Meets element.buffer v
        (sync_loop codec rescale is_silent (element.size + 1) s v pcm element.size 0)
        (sync_loop-Meets (element.size + 1) s v pcm element.size 0)

  pub wanted-append :
      (v : ℕ) (ts us : List ℕ) → wanted v (ts ++ us) ≡ wanted v ts ++ wanted (reached v ts) us
  wanted-append v [] us = refl
  wanted-append v (t ∷ ts) us = rw (wanted-append (rescale t) ts us, append_assoc) refl

  pub reached-append : (v : ℕ) (ts us : List ℕ) → reached v (ts ++ us) ≡ reached (reached v ts) us
  reached-append v [] us = refl
  reached-append v (t ∷ ts) us = reached-append (rescale t) ts us
