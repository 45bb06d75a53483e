-- ===== src/Encoder/Turns.antt =====
-- The turns of `Encoder::encodeAudioLoop` for an encoder with pictures: buffers and errors.
use encoder_with_web_socket.Prelude.{
  ℕ, ◌-◌, ◌≤◌, ◌≡◌, refl, sym, ◌∙◌, subst, ◌⊎◌, inl, inr, Bool, false, ◌&&◌, Option, none, some,
  List, [], ◌∷◌, ◌++◌, arith, ltb, if◌then◌else◌, Bool-cases, length, length-append, replicate,
  length-replicate,
}
use encoder_with_web_socket.Queue.{EncoderElement, done}
use encoder_with_web_socket.Encoder.Codec.{Bytes, Answer, errors, deleted}
use encoder_with_web_socket.Encoder.State.{EncoderState}
use encoder_with_web_socket.Encoder.Errors.{
  deletions, errors-append, deletions-append, encode_audio_impl-errors,
}
use encoder_with_web_socket.Encoder.Framing.{IsValid, encode_audio_impl-Framed}
use encoder_with_web_socket.Encoder.Audio.{AudioState, Step, finished, aborted}
use encoder_with_web_socket.Encoder.Sync.{
  SyncEvent, sounds, SyncStep, sync_turn, differ, catch_up, Piece, Turns, then_turns, sync_turns,
  audio,
}
use encoder_with_web_socket.Encoder.Pictures.{sounds-append, heard, sync_turn-encode_audio_impl}

-- How the turns end: behind the last, in a state that is valid, with no error and with these buffers
-- deleted; or by a `return`, with one error.
abbrev pub EndsSound : List ℕ → Step → Type 0
EndsSound buffers x =
    ((x.2 ≡ finished) × IsValid x.1 × (errors x.0 ≡ []) × (deletions x.0 ≡ buffers))
    ⊎ ((x.2 ≡ aborted) × ((e : EncoderState) × (errors x.0 ≡ e ∷ [])))

abbrev pub Ends : List ℕ → SyncStep → Type 0
Ends buffers r = EndsSound buffers (sounds r.0, r.1, r.3)

module _ (codec : ℕ → Bytes → Answer) (rescale : ℕ → ℕ) (is_silent : ℕ → Bool) where
  heard-some :
      (o : Option SyncStep) (x : Step)
      → heard o ≡ some x
      → (r : SyncStep) × (o ≡ some r) × ((sounds r.0, r.1, r.3) ≡ x)
  heard-some none x h = cc h
  heard-some (some r) x h = (r, refl, cc h)

  sync_turn-Ends :
      (s : AudioState) (v : ℕ) (element : EncoderElement) (pcm : Bytes)
      → IsValid s
      → element.size ≡ length pcm
      → (r : SyncStep) × (sync_turn codec rescale is_silent s v element pcm ≡ some r)
        × Ends (element.buffer ∷ []) r
  sync_turn-Ends s v element pcm valid whole =
      let (x, runs, ends) = encode_audio_impl-errors codec s element pcm valid.not_full in
      let (y, runs', good) = encode_audio_impl-Framed codec s element pcm valid whole in
      let (r, same, parts) =
        heard-some (sync_turn codec rescale is_silent s v element pcm) x
          (sync_turn-encode_audio_impl codec rescale is_silent s v element pcm ∙ runs) in
      let y_x : y ≡ x = cc (runs, runs') in
      let good' : x.2 ≡ finished → IsValid x.1 =
        subst (λ z. z.2 ≡ finished → IsValid z.1) y_x (λ e. (good e).valid) in
      let all : EndsSound (element.buffer ∷ []) x = elim ends [
        | inl ok ↦ inl (ok.0, good' ok.0, ok.1, ok.2)
        | inr bad ↦ inr (bad.0, bad.1)
      ] in
      (r, same, subst (EndsSound (element.buffer ∷ [])) (sym parts) all)

-- The condition of `catch_up`: the flag has changed, and the element is not of the kind that the new
-- flag asks for.
abbrev pub catches_up : Bool → Piece → Bool
catches_up silent p = differ silent p.flag && differ p.element.fake p.flag

-- The buffers that the turns are responsible for: those of the elements, and the padded copies.
abbrev pub buffers : Bool → List Piece → List ℕ
buffers silent [] = []
buffers silent (p ∷ ps) =
    if catches_up silent p
    then p.element.buffer ∷ p.copy ∷ buffers p.flag ps
    else p.element.buffer ∷ buffers silent ps

-- An element has the size of its bytes, and a padded copy has room for them.
abbrev pub AllFit : List Piece → Type 0
AllFit [] = Unit {0}
AllFit (p ∷ ps) = (p.element.size ≡ length p.pcm) × (p.element.size ≤ p.padded) × AllFit ps

abbrev Quiet : List SyncEvent → Type 0
Quiet es = errors (sounds es) ≡ []

module _ (codec : ℕ → Bytes → Answer) (rescale : ℕ → ℕ) (is_silent : ℕ → Bool) where
  prepend-Ends :
      (pre es : List SyncEvent) (r : SyncStep) (xs ys : List ℕ)
      → Quiet pre
      → Quiet es
      → deletions (sounds pre) ++ deletions (sounds es) ≡ xs
      → Ends ys r
      → Ends (xs ++ ys) ((pre ++ es) ++ r.0, r.1, r.2, r.3)
  prepend-Ends pre es r xs ys p q d (inl ok) = inl (
    ok.0,
    ok.1,
    rw (sounds-append, sounds-append, errors-append, errors-append, p, q) ok.2,
    rw (sounds-append, sounds-append, deletions-append, deletions-append, d, ok.3) refl,
  )
  prepend-Ends pre es r xs ys p q d (inr bad) =
      let one : errors (sounds ((pre ++ es) ++ r.0)) ≡ bad.1.0 ∷ [] =
        rw (sounds-append, sounds-append, errors-append, errors-append, p, q) bad.1.1 in
      inr (bad.0, (bad.1.0, one))

  then_turns-Ends :
      (pre : List SyncEvent) (r : SyncStep) (a : ℕ) (xs ys : List ℕ) (next : AudioState → ℕ → Turns)
      → Quiet pre
      → deletions (sounds pre) ++ a ∷ [] ≡ xs
      → Ends (a ∷ []) r
      → ((t : AudioState) (u : ℕ)
          → IsValid t
          → (z : SyncStep) × (next t u ≡ done (some z)) × Ends ys z)
      → (z : SyncStep) × (then_turns pre (some r) next ≡ done (some z)) × Ends (xs ++ ys) z
  then_turns-Ends pre (es, s, v, finished) a xs ys next p d (inl ok) more =
      let (z, runs, ends) = more s v ok.1 in
      (
        ((pre ++ es) ++ z.0, z.1, z.2, z.3),
        rw runs refl,
        prepend-Ends pre es z xs ys p ok.2 (rw ok.3 d) ends,
      )
  then_turns-Ends pre (es, s, v, finished) a xs ys next p d (inr bad) more = cc bad.0
  then_turns-Ends pre (es, s, v, aborted) a xs ys next p d (inl ok) more = cc ok.0
  then_turns-Ends pre (es, s, v, aborted) a xs ys next p d (inr bad) more =
      let one : errors (sounds (pre ++ es)) ≡ bad.1.0 ∷ [] =
        rw (sounds-append, errors-append, p) bad.1.1 in
      ((pre ++ es, s, v, aborted), refl, inr (refl, (bad.1.0, one)))

  -- If every element has the size of its bytes, a padded copy has room for them, and the frame buffer
  -- is allocated and not full, the turns run, without a fault but for the
  -- calls of `videoCQ.enqueue`, which Encoder/Filled adds: either all of them, with no error
  -- reported, a valid state behind them, and the buffer of every element and every padded copy deleted
  -- exactly once, in order; or up to one that reports exactly one error and ends the loop.
  pub sync_turns-deletions :
      (ps : List Piece) (silent : Bool) (s : AudioState) (v : ℕ)
      → IsValid s
      → AllFit ps
      → (r : SyncStep) × (sync_turns codec rescale is_silent ps silent s v ≡ done (some r))
        × Ends (buffers silent ps) r
  unfolding sync_turns catch_up
  sync_turns-deletions [] silent s v valid fit =
      (([], s, v, finished), refl, inl (refl, valid, refl, refl))
  sync_turns-deletions (p ∷ ps) silent s v valid fit = elim (Bool-cases (catches_up silent p)) [
    | inl late ↦
        let room : ltb p.padded p.element.size ≡ false = ground (arith, fit.1) in
        let pcm : Bytes = p.pcm ++ replicate (p.padded - p.element.size) 0 in
        let e : EncoderElement = record { buffer = p.copy; size = p.padded; fake = false } in
        let whole : p.padded ≡ length pcm =
          rw (length-append, length-replicate) (omega (arith, fit.0, fit.1)) in
        let (r, runs, ends) = sync_turn-Ends codec rescale is_silent s v e pcm valid whole in
        let all =
          then_turns-Ends (audio (deleted p.element.buffer) ∷ []) r p.copy
            (p.element.buffer ∷ p.copy ∷ []) (buffers p.flag ps)
            (λ t u. sync_turns codec rescale is_silent ps p.flag t u) refl refl ends
            (λ t u ok. sync_turns-deletions ps p.flag t u ok fit.2) in
        (all.0, rw (late, room, runs) all.1, rw late all.2)
    | inr same ↦
        let (r, runs, ends) =
          sync_turn-Ends codec rescale is_silent s v p.element p.pcm valid fit.0 in
        let all =
          then_turns-Ends [] r p.element.buffer (p.element.buffer ∷ []) (buffers silent ps)
            (λ t u. sync_turns codec rescale is_silent ps silent t u) refl refl ends
            (λ t u ok. sync_turns-deletions ps silent t u ok fit.2) in
        (all.0, rw (same, runs) all.1, rw same all.2)
  ]
