-- ===== src/Encoder/Pieces.antt =====
-- What a piece of the sound leaves, whether it is finished or an error has come.

use encoder_with_web_socket.Prelude.{
  ℕ, zero, suc, ◌+◌, ◌-◌, ◌≤◌, ◌<◌, ◌≡◌, refl, subst, ◌≢◌, ◌⊎◌, inl, inr, some, List, [], ◌∷◌, ◌++◌,
  arith, leb, ◌==◌, Bool-cases, length,
}
use encoder_with_web_socket.Encoder.Codec.{Bytes, Answer, errors, deleted}
use encoder_with_web_socket.Encoder.Audio.{
  AudioState, frame_size, Step, send_audio, after_send, frames_loop, then_delete, encode_audio_impl,
  finished, aborted,
}
use encoder_with_web_socket.Encoder.Errors.{encode_audio_impl-errors}
use encoder_with_web_socket.Encoder.State.{EncoderState}
use encoder_with_web_socket.Encoder.Framing.{
  IsValid, Framed, filled, part, part-Framed, send_audio-IsValid, filled-IsValid,
  encode_audio_impl-Framed,
}
use encoder_with_web_socket.Queue.{EncoderElement}

pub append-nils : (xs ys : List EncoderState) → xs ++ ys ≡ [] → (xs ≡ []) × (ys ≡ [])
append-nils [] ys h = (refl, h)
append-nils (x ∷ xs) ys h = cc h

pub quiet_or_not : {X : Type 0} (es : List EncoderState) → (es ≡ [] → X) → X ⊎ (es ≢ [])
quiet_or_not [] f = inl (f refl)
quiet_or_not (e ∷ es) f = inr (λ h. cc h)

module _ (codec : ℕ → Bytes → Answer) where
  after_send-IsValid :
      (u r : Step)
      → IsValid u.1
      → IsValid r.1
      → (x : Step) × (after_send codec u (some r) ≡ some x) × IsValid x.1
  after_send-IsValid (es, s, aborted) r p q = ((es, s, aborted), refl, p)
  after_send-IsValid (es, s, finished) (fs, t, x) p q = ((es ++ fs, t, x), refl, q)

  frames_loop-IsValid :
      (fuel : ℕ) (s : AudioState) (pcm : Bytes) (encoded : ℕ)
      → IsValid s
      → encoded ≤ length pcm
      → length pcm - encoded < fuel
      → (r : Step) × (frames_loop codec fuel s pcm (length pcm) encoded ≡ some r) × IsValid r.1
  unfolding frames_loop
  frames_loop-IsValid zero s pcm encoded v h lt = absurd (omega arith)
  frames_loop-IsValid (suc fuel) s pcm encoded v h lt = elim (Bool-cases (encoded == length pcm)) [
    | inl end ↦ (([], s, finished), rw end refl, v)
    | inr more ↦ elim (Bool-cases (leb (frame_size s - s.remained) (length pcm - encoded))) [
      | inl fits ↦
          let n : ℕ = frame_size s - s.remained in
          let b : n ≤ length pcm - encoded = ground arith in
          let u = send_audio codec (filled s pcm encoded) in
          let w =
            send_audio-IsValid codec (filled s pcm encoded)
              (filled-IsValid codec s pcm encoded v h b) in
          let (r, run, ok) =
            frames_loop-IsValid fuel u.1 pcm (encoded + n) w (omega arith)
              (omega (arith, v.not_full)) in
          let (x, joins, valid) = after_send-IsValid u r w ok in
          (x, rw (more, fits, run) joins, valid)
      | inr short ↦ (
        ([], part s pcm encoded, finished),
        rw (more, short) refl,
        (part-Framed s pcm encoded v h (ground arith)).valid,
      )
    ]
  ]

  then_delete-IsValid :
      (a : ℕ) (r : Step)
      → IsValid r.1
      → (x : Step) × (then_delete codec a (some r) ≡ some x) × IsValid x.1
  then_delete-IsValid a (es, s, finished) v = ((es ++ deleted a ∷ [], s, finished), refl, v)
  then_delete-IsValid a (es, s, aborted) v = ((es, s, aborted), refl, v)

  whole_loop-IsValid :
      (s : AudioState) (pcm : Bytes)
      → IsValid s
      → (r : Step) × (frames_loop codec (length pcm + 1) s pcm (length pcm) 0 ≡ some r)
        × IsValid r.1
  whole_loop-IsValid s pcm v =
      frames_loop-IsValid (length pcm + 1) s pcm 0 v (omega arith) (omega arith)

  encode_audio_impl-IsValid :
      (s : AudioState) (element : EncoderElement) (pcm : Bytes)
      → IsValid s
      → element.size ≡ length pcm
      → (x : Step) × (encode_audio_impl codec s element pcm ≡ some x) × IsValid x.1
  unfolding encode_audio_impl
  encode_audio_impl-IsValid s element pcm v e =
      let (r, run, ok) = whole_loop-IsValid s pcm v in
      let (x, deletes, valid) = then_delete-IsValid element.buffer r ok in
      (x, rw (e, run) deletes, valid)

  pub finished-Framed :
      (s : AudioState) (element : EncoderElement) (pcm : Bytes)
      → IsValid s
      → element.size ≡ length pcm
      → (x : Step) × (encode_audio_impl codec s element pcm ≡ some x)
        × IsValid x.1
        × (errors x.0 ≡ [] → Framed s pcm x.0 x.1)
  finished-Framed s element pcm v e =
      let (x, runs, valid) = encode_audio_impl-IsValid s element pcm v e in
      let (y, runs', good) = encode_audio_impl-Framed codec s element pcm v e in
      let (z, runs'', ends) = encode_audio_impl-errors codec s element pcm v.not_full in
      let y_x : y ≡ x = cc (runs, runs') in
      let z_x : z ≡ x = cc (runs, runs'') in
      let framed : x.2 ≡ finished → Framed s pcm x.0 x.1 =
        subst (λ k. k.2 ≡ finished → Framed s pcm k.0 k.1) y_x good in
      let ends' : (errors x.0 ≡ []) → x.2 ≡ finished =
        subst (λ k. errors k.0 ≡ [] → k.2 ≡ finished) z_x
          (λ none_reported. elim ends [
            | inl ok ↦ ok.0
            | inr bad ↦ absurd (cc (none_reported, bad.1.1))
          ]) in
      (x, runs, valid, λ h. framed (ends' h))

  -- Every element counts its bytes.
  abbrev pub AllWhole : List (EncoderElement × Bytes) → Type 0
  AllWhole [] = Unit {0}
  AllWhole (j ∷ js) = (j.0.size ≡ length j.1) × AllWhole js
