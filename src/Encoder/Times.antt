-- ===== src/Encoder/Times.antt =====
-- The turns of `Encoder::encodeAudioLoop` for an encoder with pictures: the pictures that they ask for.
use mathlib.Core.List.{map-append}
use encoder_with_web_socket.Prelude.{
  ℕ, ◌-◌, ◌≡◌, refl, subst, ◌⊎◌, inl, inr, Bool, false, ◌&&◌, Option, none, some, List, [], ◌∷◌,
  ◌++◌, ltb, Bool-cases, replicate,
}
use encoder_with_web_socket.Queue.{EncoderElement, map_outcome, done, fault}
use encoder_with_web_socket.Encoder.Codec.{Bytes, Answer, frames-append, deleted}
use encoder_with_web_socket.Encoder.Audio.{AudioState, finished, aborted}
use encoder_with_web_socket.Encoder.Framing.{IsValid}
use encoder_with_web_socket.Encoder.Sync.{
  SyncEvent, pictures, SyncStep, sync_turn, differ, catch_up, Piece, Turns, prepend, then_turns,
  sync_turns, audio,
}
use encoder_with_web_socket.Encoder.Turns.{AllFit, sync_turns-deletions}
use encoder_with_web_socket.Encoder.Pictures.{
  sounds-append, pictures-append, wanted, frame_times, Meets, sync_turn-Meets, wanted-append,
  reached-append,
}

module _ (codec : ℕ → Bytes → Answer) (rescale : ℕ → ℕ) (is_silent : ℕ → Bool) where
  -- Events that hand no frame to the codec and ask for no picture.
  abbrev Aside : List SyncEvent → Type 0
  Aside es = (pictures es ≡ []) × (frame_times codec rescale is_silent es ≡ [])

  abbrev MeetsTurns : ℕ → Turns → Type 0
  MeetsTurns v fault = Unit {0}
  MeetsTurns v (done o) = Meets codec rescale is_silent v o

  frame_times-append :
      (es fs : List SyncEvent)
      → frame_times codec rescale is_silent (es ++ fs)
        ≡ frame_times codec rescale is_silent es ++ frame_times codec rescale is_silent fs
  frame_times-append es fs = rw (sounds-append, frames-append) (map-append _ _ _)

  prepend-Meets :
      (pre es : List SyncEvent) (s : AudioState) (v u : ℕ) (n : Turns)
      → Aside pre
      → Meets codec rescale is_silent v (some (es, s, u, finished))
      → MeetsTurns u n
      → MeetsTurns v (map_outcome (λ r. prepend (pre ++ es) r) n)
  prepend-Meets pre es s v u fault p m k = record {}
  prepend-Meets pre es s v u (done none) p m k = record {}
  prepend-Meets pre es s v u (done (some (fs, t, w, x))) p m k =
      let ts = frame_times-append (pre ++ es) fs in
      let us = frame_times-append pre es in
      (
        rw (ts, us, p.1, wanted-append, pictures-append, pictures-append, p.0, m.0, ← m.1, k.0)
            refl,
        rw (ts, us, p.1, reached-append, ← m.1) k.1,
      )

  then_turns-Meets :
      (pre : List SyncEvent) (v : ℕ) (r : Option SyncStep) (next : AudioState → ℕ → Turns)
      → Aside pre
      → Meets codec rescale is_silent v r
      → ((t : AudioState) (u : ℕ) → MeetsTurns u (next t u))
      → MeetsTurns v (then_turns pre r next)
  then_turns-Meets pre v none next p m k = record {}
  then_turns-Meets pre v (some (es, s, u, aborted)) next p m k =
      let ts = frame_times-append pre es in
      (rw (ts, p.1, pictures-append, p.0) m.0, rw (ts, p.1) m.1)
  then_turns-Meets pre v (some (es, s, u, finished)) next p m k =
      prepend-Meets pre es s v u (next s u) p m (k s u)

  catch_up_cases :
      (silent : Bool) (p : Piece)
      → let c = catch_up silent p.flag p.copy p.padded p.element p.pcm in
        (c ≡ fault)
        ⊎ ((es : List SyncEvent) × (b : Bool) × (e : EncoderElement) × (pcm : Bytes) × (c
              ≡ done (es, b, e, pcm))
            × Aside es)
  unfolding catch_up
  catch_up_cases silent p =
      elim (Bool-cases (differ silent p.flag && differ p.element.fake p.flag)) [
        | inl late ↦ elim (Bool-cases (ltb p.padded p.element.size)) [
          | inl short ↦ inl (rw (late, short) refl)
          | inr room ↦ inr (
            audio (deleted p.element.buffer) ∷ [],
            p.flag,
            record { buffer = p.copy; size = p.padded; fake = false },
            p.pcm ++ replicate (p.padded - p.element.size) 0,
            rw (late, room) refl,
            (refl, refl),
          )
        ]
        | inr same ↦ inr ([], silent, p.element, p.pcm, rw same refl, (refl, refl))
      ]

  sync_turns-Meets :
      (ps : List Piece) (silent : Bool) (s : AudioState) (v : ℕ)
      → MeetsTurns v (sync_turns codec rescale is_silent ps silent s v)
  unfolding sync_turns
  sync_turns-Meets [] silent s v = (refl, refl)
  sync_turns-Meets (p ∷ ps) silent s v = elim (catch_up_cases silent p) [
    | inl halts ↦ rw halts (record {})
    | inr (es, b, e, pcm, goes, aside) ↦ rw goes (
        then_turns-Meets es v (sync_turn codec rescale is_silent s v e pcm)
          (λ t u. sync_turns codec rescale is_silent ps b t u) aside
          (sync_turn-Meets codec rescale is_silent s v e pcm) (λ t u. sync_turns-Meets ps b t u))
  ]

  -- If every element has the size of its bytes, a padded copy has room for them, and the frame buffer
  -- is allocated and not full, the turns come to an end, without a fault but for the calls of
  -- `videoCQ.enqueue`, which Encoder/Filled adds, and the pictures that they have asked for are those that are wanted for all the frames that they have handed to the codec, in
  -- their order: one for each frame that is reached while the flag is down, at a rescaled time that the
  -- frame before did not have, and no other.
  pub sync_turns-pictures :
      (ps : List Piece) (silent : Bool) (s : AudioState) (v : ℕ)
      → IsValid s
      → AllFit ps
      → (r : SyncStep) × (sync_turns codec rescale is_silent ps silent s v ≡ done (some r))
        × (pictures r.0
            ≡ wanted codec rescale is_silent v (frame_times codec rescale is_silent r.0))
  sync_turns-pictures ps silent s v valid fit =
      let (r, runs, ends) = sync_turns-deletions codec rescale is_silent ps silent s v valid fit in
      let m = sync_turns-Meets ps silent s v in (r, runs, (subst (MeetsTurns v) runs m).0)
