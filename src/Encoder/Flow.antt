-- ===== src/Encoder/Flow.antt =====
-- The sound over the turns of `Encoder::encodeAudioLoop`: one stream, cut into frames.
use encoder_with_web_socket.Prelude.{
  ℕ, ◌+◌, ◌≡◌, refl, sym, ap, ◌∙◌, ◌≢◌, ◌⊎◌, some, List, [], ◌∷◌, ◌++◌, append_assoc, append-nil,
}
use encoder_with_web_socket.Encoder.Codec.{Bytes, Answer, Event, frames, errors, frames-append}
use encoder_with_web_socket.Encoder.Audio.{AudioState, frame_size}
use encoder_with_web_socket.Encoder.Framing.{pending, IsValid, joined, Regular, Framed}
use encoder_with_web_socket.Queue.{EncoderElement, size}
use encoder_with_web_socket.Encoder.Errors.{errors-append}
use encoder_with_web_socket.Encoder.Pieces.{append-nils, quiet_or_not, finished-Framed, AllWhole}
use encoder_with_web_socket.Encoder.Sound.{sound_jobs}

joined-append : (fs gs : List (ℕ × Bytes)) → joined (fs ++ gs) ≡ joined fs ++ joined gs
joined-append [] gs = refl
joined-append ((t, b) ∷ fs) gs =
    rw (joined-append fs gs) (sym (append_assoc b (joined fs) (joined gs)))

Regular-append :
    (n size p q r : ℕ) (fs gs : List (ℕ × Bytes))
    → Regular n size p fs q
    → Regular n size q gs r
    → Regular n size p (fs ++ gs) r
Regular-append n size p q r [] gs h k = rw h k
Regular-append n size p q r ((t, b) ∷ fs) gs h k =
    (h.0, h.1, Regular-append n size (p + n) q r fs gs h.2 k)

nothing-Framed : (s : AudioState) → IsValid s → Framed s [] [] s
nothing-Framed s v = record {
  valid = v;
  samples = refl;
  width = refl;
  bytes = sym (append-nil (pending s));
  regular = refl;
}

-- Two pieces one behind the other are cut up as one.
Framed-append :
    (s t u : AudioState) (a b : Bytes) (es fs : List Event)
    → Framed s a es t
    → Framed t b fs u
    → Framed s (a ++ b) (es ++ fs) u
Framed-append s t u a b es fs f g = record {
  valid = g.valid;
  samples = g.samples ∙ f.samples;
  width = g.width ∙ f.width;
  bytes =
      rw
        (
          frames-append es fs,
          joined-append (frames es) (frames fs),
          append_assoc (joined (frames es)) (joined (frames fs)) (pending u),
          g.bytes,
        )
        (sym (append_assoc (joined (frames es)) (pending t) b)
          ∙ (ap (λ (z : Bytes). z ++ b) f.bytes ∙ append_assoc (pending s) a b));
  regular =
      let h = rw (f.samples, f.width) at (g.regular) in
      rw (frames-append es fs) (
        Regular-append s.nb_samples (frame_size s) s.frame_pts t.frame_pts u.frame_pts (frames es)
          (frames fs) f.regular h);
}

-- The bytes of the pieces, in order.
abbrev pub stream : List (EncoderElement × Bytes) → Bytes
stream [] = []
stream (j ∷ js) = j.1 ++ stream js

module _ (codec : ℕ → Bytes → Answer) where
  pub sound_jobs-quiet :
      (js : List (EncoderElement × Bytes)) (s : AudioState)
      → IsValid s
      → AllWhole codec js
      → (r : List Event × AudioState) × (sound_jobs codec js s ≡ some r)
        × IsValid r.1
        × (errors r.0 ≡ [] → Framed s (stream js) r.0 r.1)
  unfolding sound_jobs
  sound_jobs-quiet [] s v whole = (([], s), refl, v, λ h. nothing-Framed s v)
  sound_jobs-quiet (j ∷ js) s v whole =
      let (x, runs, valid, framed) = finished-Framed codec s j.0 j.1 v whole.0 in
      let (r, runs', valid', framed') = sound_jobs-quiet js x.1 valid whole.1 in
      (
        (x.0 ++ r.0, r.1),
        rw (runs, runs') refl,
        valid',
        λ h.
            let both = append-nils (errors x.0) (errors r.0) (rw errors-append at h) in
            Framed-append s x.1 r.1 j.1 (stream js) x.0 r.0 (framed both.0) (framed' both.1),
      )

  -- With a frame buffer that is allocated and not full, and elements that count their bytes, the turns
  -- of the loop end and leave such a frame buffer, and either an error has been reported, or the sound
  -- of all turns is cut up as one stream: the frames that the codec has had, joined, and the bytes that
  -- wait are the bytes that waited before and all that was captured, in order; every frame has the
  -- codec's size, and its time is one frame behind the one before, across the turns too.
  pub sound_jobs-Framed :
      (js : List (EncoderElement × Bytes)) (s : AudioState)
      → IsValid s
      → AllWhole codec js
      → (r : List Event × AudioState) × (sound_jobs codec js s ≡ some r)
        × IsValid r.1
        × (Framed s (stream js) r.0 r.1 ⊎ (errors r.0 ≢ []))
  sound_jobs-Framed js s v whole =
      let (r, runs, valid, framed) = sound_jobs-quiet js s v whole in
      (r, runs, valid, quiet_or_not (errors r.0) framed)
