-- ===== src/Encoder/Launches.antt =====
-- The loops that `initialize` of Encoder.cpp starts, and the queues that they find.
use encoder_with_web_socket.Prelude.{
  ◌≡◌, refl, ◌∙◌, ◌⊎◌, inl, inr, Bool, true, false, not, ◌&&◌, none, List, [], ◌∷◌, ◌++◌, arith,
  if◌then◌else◌, Bool-cases,
}
use encoder_with_web_socket.Encoder.Setup.{
  EncoderContext, Answers, Init, clear_pointers, build, go, fail,
}
use encoder_with_web_socket.Encoder.Life.{
  Encoder, Launch, launches, after_build, initialize, stop, set_silent, video_loop, audio_loop,
}
use encoder_with_web_socket.Queue
use encoder_with_web_socket.Queue.{EncoderCq, dequeue, queue_stop, done, returned}
use text.Mathlib.Text.{◌==◌ as str_eq}

-- The loops that belong to the streams that the context names.
abbrev wanted : Bool → Bool → List Launch
wanted true true = video_loop false ∷ audio_loop false ∷ []
wanted true false = video_loop true ∷ []
wanted false true = audio_loop true ∷ []
wanted false false = []

-- The loops that `initialize` starts are those of the named streams exactly if an audio codec is
-- named; without one, both loops of the encoder with sound are started besides.
launches-wanted :
    (c : EncoderContext)
    → let video = not (str_eq c.video_codec_name "none") in
      let audio = not (str_eq c.audio_codec_name "none") in
      ((audio ≡ true) × (launches c ≡ wanted video audio))
      ⊎ ((audio ≡ false)
          × (launches c ≡ wanted video audio ++ (video_loop false ∷ audio_loop false ∷ [])))
unfolding launches
launches-wanted c = table (str_eq c.video_codec_name "none") (str_eq c.audio_codec_name "none")
  where
    table :
        (v u : Bool)
        → ((not u ≡ true)
            × (((if not v && u then video_loop true ∷ [] else [])
                  ++ (if not u && v
                      then audio_loop true ∷ []
                      else video_loop false ∷ audio_loop false ∷ []))
                ≡ wanted (not v) (not u)))
          ⊎ ((not u ≡ false)
              × (((if not v && u then video_loop true ∷ [] else [])
                    ++ (if not u && v
                        then audio_loop true ∷ []
                        else video_loop false ∷ audio_loop false ∷ []))
                  ≡ wanted (not v) (not u) ++ (video_loop false ∷ audio_loop false ∷ [])))
    table true true = inr (refl, refl)
    table true false = inl (refl, refl)
    table false true = inr (refl, refl)
    table false false = inl (refl, refl)

video_cq-initialize :
    (a : Answers) (c : EncoderContext) (e : Encoder) → (initialize a c e).2.video_cq ≡ e.video_cq
unfolding initialize
video_cq-initialize a c e = elim (Bool-cases e.stopped) [
  | inl s ↦ simp s (kept (build a c (clear_pointers e.owned)))
  | inr s ↦ simp s
]
  where
    kept : (i : Init) → (after_build e c i).2.video_cq ≡ e.video_cq
    kept (go w) = refl
    kept (fail t w) = refl

video_cq-stop : (e : Encoder) → e.stopped ≡ false → (stop e).2.video_cq ≡ Queue.stop e.video_cq
unfolding stop
video_cq-stop e s = simp s

dequeue-stopped :
    (q : EncoderCq)
    → q.is_wait ≡ true
    → dequeue (Queue.stop q) ≡ returned (done (queue_stop, none, Queue.stop q))
unfolding dequeue Queue.stop
dequeue-stopped q w = ground arith

-- `initialize` leaves the queues as they are: behind the `stop` of a running encoder, the loop of
-- the video finds its queue, which waits, stopped and gets no frame from it, until
-- `setSilent(false)` starts the queue.
restart-stopped :
    (a : Answers) (c : EncoderContext) (e : Encoder)
    → e.stopped ≡ false
    → e.video_cq.is_wait ≡ true
    → let e' = (initialize a c (stop e).2).2 in
      (dequeue e'.video_cq ≡ returned (done (queue_stop, none, e'.video_cq)))
      × ((set_silent false e').video_cq ≡ Queue.start e'.video_cq)
unfolding set_silent
restart-stopped a c e s w =
    let q = video_cq-initialize a c (stop e).2 ∙ video_cq-stop e s in
    (rw q (dequeue-stopped e.video_cq w), refl)
