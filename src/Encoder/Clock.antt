-- ===== src/Encoder/Clock.antt =====
-- The clock of the sound: it runs as the bytes do that are captured.
use native.Mathlib.Omega.{div_any}
use encoder_with_web_socket.Prelude.{
  ℕ, ◌+◌, ◌*◌, ◌/◌, ◌%◌, ◌≡◌, sym, ap, ◌≢◌, ◌⊎◌, some, List, [], ◌∷◌, map, arith, length,
  length-append, length-take, length-replicate,
}
use encoder_with_web_socket.Encoder.Codec.{Bytes, Answer, Event, frames, errors}
use encoder_with_web_socket.Encoder.Audio.{AudioState}
use encoder_with_web_socket.Encoder.Sound.{silence, sound_jobs}
use encoder_with_web_socket.Encoder.Framing.{IsValid, joined, Regular, Framed}
use encoder_with_web_socket.Queue.{EncoderElement}
use encoder_with_web_socket.Encoder.Pieces.{quiet_or_not, AllWhole}
use encoder_with_web_socket.Encoder.Flow.{stream, sound_jobs-quiet}

-- The bytes that the clock and the frame buffer stand for.
abbrev pub clock_bytes : AudioState → ℕ
clock_bytes s = s.frame_pts * s.audio_bytes + s.remained

Regular-clock :
    (n w p q : ℕ) (fs : List (ℕ × Bytes))
    → Regular n (n * w) p fs q
    → q * w ≡ p * w + length (joined fs)
Regular-clock n w p q [] h = rw h (omega arith)
Regular-clock n w p q ((t, b) ∷ fs) h =
    let i = Regular-clock n w (p + n) q fs h.2 in
    let d : (p + n) * w ≡ p * w + n * w = grind arith in rw length-append (omega (arith, h.1, i, d))

Framed-clock :
    (s t : AudioState) (rest : Bytes) (es : List Event)
    → IsValid s
    → Framed s rest es t
    → clock_bytes t ≡ clock_bytes s + length rest
Framed-clock s t rest es v f =
    let c =
      Regular-clock s.nb_samples s.audio_bytes s.frame_pts t.frame_pts (frames es) f.regular in
    let b = rw (length-append, length-append) at (ap length f.bytes) in
    rw f.width (
      omega (
        arith,
        c,
        b,
        length-take t.remained t.tmp,
        length-take s.remained s.tmp,
        f.valid.allocated,
        f.valid.not_full,
        v.allocated,
        v.not_full,
      ))

module _ (codec : ℕ → Bytes → Answer) where
  jobs-clock :
      (js : List (EncoderElement × Bytes)) (s : AudioState)
      → IsValid s
      → AllWhole codec js
      → (r : List Event × AudioState) × (sound_jobs codec js s ≡ some r)
        × IsValid r.1
        × (errors r.0 ≡ [] → clock_bytes r.1 ≡ clock_bytes s + length (stream js))
  jobs-clock js s v whole =
      let (r, runs, valid, framed) = sound_jobs-quiet codec js s v whole in
      (r, runs, valid, λ h. Framed-clock s r.1 (stream js) r.0 v (framed h))

  -- With a frame buffer that is allocated and not full, and elements that count their bytes, the turns
  -- end, and leave such a frame buffer: either the clock of the sound, in bytes, and the bytes that wait
  -- in the frame buffer together have gone on by exactly the bytes that were captured, or an error has
  -- been reported.
  sound_jobs-clock :
      (js : List (EncoderElement × Bytes)) (s : AudioState)
      → IsValid s
      → AllWhole codec js
      → (r : List Event × AudioState) × (sound_jobs codec js s ≡ some r)
        × IsValid r.1
        × ((clock_bytes r.1 ≡ clock_bytes s + length (stream js)) ⊎ (errors r.0 ≢ []))
  sound_jobs-clock js s v whole =
      let (r, runs, valid, clock) = jobs-clock js s v whole in
      (r, runs, valid, quiet_or_not (errors r.0) clock)

  silences-AllWhole :
      (audio_bytes den fps : ℕ) (bs : List ℕ)
      → AllWhole codec (map (λ b. silence b audio_bytes den fps) bs)
  unfolding silence
  silences-AllWhole audio_bytes den fps [] = record {}
  silences-AllWhole audio_bytes den fps (b ∷ bs) = (
    sym (length-replicate ((audio_bytes * den) / fps) 0),
    silences-AllWhole audio_bytes den fps bs,
  )

  length-stream-silences :
      (audio_bytes den fps : ℕ) (bs : List ℕ)
      → length (stream (map (λ b. silence b audio_bytes den fps) bs))
        ≡ length bs * ((audio_bytes * den) / fps)
  unfolding silence
  length-stream-silences audio_bytes den fps [] = omega arith
  length-stream-silences audio_bytes den fps (b ∷ bs) =
      let q : ℕ = (audio_bytes * den) / fps in
      let i = length-stream-silences audio_bytes den fps bs in
      let l = length-replicate {A = ℕ} q 0 in
      let d : (length bs + 1) * q ≡ length bs * q + q = grind arith in
      rw length-append (omega (arith, i, l, d))

  -- With a frame buffer that is allocated and not full, as many silent turns as the loop makes in a
  -- second end; if they report no error, then the clock of the sound, in bytes, and the bytes that wait
  -- in the frame buffer together have gone on by one second, less the bytes that the division by the
  -- number of turns cuts off.
  silent_second :
      (s : AudioState) (den fps : ℕ) (bs : List ℕ)
      → IsValid s
      → length bs ≡ fps
      → (r : List Event × AudioState) × (sound_jobs codec
            (map (λ b. silence b s.audio_bytes den fps) bs)
            s
          ≡ some r)
        × (errors r.0 ≡ []
            → clock_bytes r.1 + (s.audio_bytes * den) % fps ≡ clock_bytes s + s.audio_bytes * den)
  silent_second s den fps bs v turns =
      let (r, runs, valid, clock) =
        jobs-clock (map (λ b. silence b s.audio_bytes den fps) bs) s v
          (silences-AllWhole s.audio_bytes den fps bs) in
      let t = rw turns at (length-stream-silences s.audio_bytes den fps bs) in
      (r, runs, λ h. omega (arith, clock h, t, div_any (s.audio_bytes * den) fps))
