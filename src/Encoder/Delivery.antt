-- ===== src/Encoder/Delivery.antt =====
-- The sound of Encoder.cpp on its way from `encodeAudio` through the queue and `encodeAudioImpl` to the codec.
use encoder_with_web_socket.Prelude.{
  ℕ, ◌≡◌, refl, sym, ap, ◌∙◌, ◌≢◌, ◌⊎◌, inl, inr, some, List, [], ◌∷◌, ◌++◌, append_assoc,
}
use encoder_with_web_socket.Queue.{EncoderElement, done}
use encoder_with_web_socket.Queue.Order.{contents}
use encoder_with_web_socket.Encoder.Codec.{Bytes, Answer, Event, frames, errors}
use encoder_with_web_socket.Encoder.Audio.{AudioState, frame_size}
use encoder_with_web_socket.Encoder.Framing.{pending, IsValid, joined, Regular, Framed}
use encoder_with_web_socket.Encoder.Pieces.{AllWhole}
use encoder_with_web_socket.Encoder.Sound.{sound_jobs}
use encoder_with_web_socket.Encoder.Flow.{stream, sound_jobs-Framed}
use encoder_with_web_socket.Encoder.Life.{Encoder}
use encoder_with_web_socket.Encoder.Pipe.{
  Tick, ticks, captured, HasRoom, ticks-order, capture, look,
}

module _ (memory : ℕ → Bytes) where
  -- Elements with the bytes at their addresses.
  abbrev pub read : List EncoderElement → List (EncoderElement × Bytes)
  read [] = []
  read (x ∷ xs) = (x, memory x.buffer) ∷ read xs

  -- The bytes that have been captured, in order.
  abbrev pub spoken : List Tick → Bytes
  spoken [] = []
  spoken (capture a ∷ ts) = memory a ++ spoken ts
  spoken (look ∷ ts) = spoken ts

  stream-read-append :
      (xs ys : List EncoderElement)
      → stream (read (xs ++ ys)) ≡ stream (read xs) ++ stream (read ys)
  stream-read-append [] ys = refl
  stream-read-append (x ∷ xs) ys =
      rw (stream-read-append xs ys)
        (sym (append_assoc (memory x.buffer) (stream (read xs)) (stream (read ys))))

  stream-captured : (ts : List Tick) → stream (read (captured memory ts)) ≡ spoken ts
  stream-captured [] = refl
  stream-captured (capture a ∷ ts) = ap (◌++◌ (memory a)) (stream-captured ts)
  stream-captured (look ∷ ts) = stream-captured ts

  module _ (codec : ℕ → Bytes → Answer) where
    captured-AllWhole : (ts : List Tick) → AllWhole codec (read (captured memory ts))
    captured-AllWhole [] = record {}
    captured-AllWhole (capture a ∷ ts) = (refl, captured-AllWhole ts)
    captured-AllWhole (look ∷ ts) = captured-AllWhole ts

    front-AllWhole :
        (xs ys : List EncoderElement) → AllWhole codec (read (xs ++ ys)) → AllWhole codec (read xs)
    front-AllWhole [] ys w = record {}
    front-AllWhole (x ∷ xs) ys w = (w.0, front-AllWhole xs ys w.1)

    -- All that has been captured is in a frame of the codec, in the frame buffer or in the queue, in
    -- order, and the frames have the codec's size and consecutive times.
    abbrev pub Delivered : AudioState → List Tick → List Event × AudioState → Encoder → Type 0
    Delivered s ts r d =
        (joined (frames r.0) ++ (pending r.1 ++ stream (read (contents d.audio_cq)))
          ≡ pending s ++ spoken ts)
        × Regular s.nb_samples (frame_size s) s.frame_pts (frames r.0) r.1.frame_pts

    Framed-Delivered :
        (s : AudioState) (ts : List Tick) (r : List Event × AudioState) (d : Encoder)
        (xs : List EncoderElement)
        → xs ++ contents d.audio_cq ≡ captured memory ts
        → Framed s (stream (read xs)) r.0 r.1
        → Delivered s ts r d
    Framed-Delivered s ts r d xs order f =
        let rest = stream (read (contents d.audio_cq)) in
        (
          sym (append_assoc (joined (frames r.0)) (pending r.1) rest)
              ∙ (ap (λ (l : Bytes). l ++ rest) f.bytes
                  ∙ (append_assoc (pending s) (stream (read xs)) rest
                      ∙ ap (◌++◌ (pending s)) (
                          sym (stream-read-append xs (contents d.audio_cq))
                          ∙ (ap (λ (l : List EncoderElement). stream (read l)) order
                              ∙ stream-captured ts)))),
          f.regular,
        )

    -- With an encoder that runs and is not silent, whose queue is empty, runs, waits and has room for all pieces that are captured,
    -- and with a frame buffer that is allocated and not full: however the captures and the looks of the
    -- loop into the queue alternate, no step fails, the loop ends the turns for the elements it has taken
    -- with a valid frame buffer, and either `loopStop` has been called, or the frames that the codec has
    -- had, joined, then the bytes in the frame buffer, then those in the queue are the bytes that waited
    -- before and all that has been captured, in order; every frame has the codec's size, and its time
    -- is one frame behind the one before.
    pub ticks-Delivered :
        (e : Encoder) (s : AudioState) (ts : List Tick)
        → HasRoom memory e ts
        → contents e.audio_cq ≡ []
        → IsValid s
        → (xs : List EncoderElement) × (d : Encoder) × (ticks memory e ts ≡ done (xs, d))
          × (r : List Event × AudioState) × (sound_jobs codec (read xs) s ≡ some r)
          × IsValid r.1
          × (Delivered s ts r d ⊎ (errors r.0 ≢ []))
    ticks-Delivered e s ts room empty v =
        let (xs, d, runs, order) = ticks-order memory e ts room in
        let all = rw empty at order in
        let whole : AllWhole codec (read (xs ++ contents d.audio_cq)) =
          rw all (captured-AllWhole ts) in
        let (r, ends, valid, made) =
          sound_jobs-Framed codec (read xs) s v (front-AllWhole xs (contents d.audio_cq) whole) in
        (
          xs,
          d,
          runs,
          r,
          ends,
          valid,
          elim made [ inl f ↦ inl (Framed-Delivered s ts r d xs all f) | inr broken ↦ inr broken ],
        )
