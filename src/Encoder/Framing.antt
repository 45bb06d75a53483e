-- ===== src/Encoder/Framing.antt =====
-- The frames that `encodeAudioImpl` makes of a stream of captured pieces.
pub mod Frames
use encoder_with_web_socket.Prelude.{
  slice-append-drop, ℕ, zero, suc, ◌+◌, ◌-◌, ◌≤◌, ◌<◌, ◌≡◌, refl, ◌∙◌, inl, inr, some, List, [],
  ◌∷◌, ◌++◌, append_assoc, append-nil, arith, leb, ◌==◌, Bool-cases, length, drop,
}
use encoder_with_web_socket.Encoder.Codec.{
  Bytes, Answer, Event, frames, frames-append, frames-receive_loop, deleted,
}
use encoder_with_web_socket.Encoder.Audio.{
  AudioState, frame_size, Step, send_audio, after_send, frames_loop, then_delete, encode_audio_impl,
  finished, aborted,
}
use encoder_with_web_socket.Encoder.State.{audio_write_frame_error, audio_receive_packet_error}
use encoder_with_web_socket.Queue.{EncoderElement}
pub use encoder_with_web_socket.Encoder.Framing.Frames.{
  pending, IsValid, joined, Regular, Framed, filled, part, part-Framed,
}
use encoder_with_web_socket.Encoder.Framing.Frames.{Good, tmp-filled, end-Framed}

module _ (codec : ℕ → Bytes → Answer) where
  -- A call that hands one full frame to the codec.
  send_audio_lem :
      (s : AudioState)
      → (send_audio codec s).2 ≡ finished
      → (frames (send_audio codec s).0 ≡ (s.frame_pts, s.tmp) ∷ [])
        × ((send_audio codec s).1 ≡ record s { frame_pts = s.frame_pts + s.nb_samples })
  unfolding send_audio
  send_audio_lem s e =
      let a = codec s.frame_pts s.tmp in
      ground
        (arith, frames-receive_loop audio_receive_packet_error audio_write_frame_error a.receives)

  -- A round that fills the frame buffer, and the rounds behind it.
  full-Framed :
      (s t : AudioState) (pcm : Bytes) (encoded : ℕ) (fs : List Event)
      → IsValid s
      → encoded ≤ length pcm
      → frame_size s - s.remained ≤ length pcm - encoded
      → let u = send_audio codec (filled s pcm encoded) in
        u.2 ≡ finished
        → Framed u.1 (drop (encoded + (frame_size s - s.remained)) pcm) fs t
        → Framed s (drop encoded pcm) (u.0 ++ fs) t
  full-Framed s t pcm encoded fs v h fits e framed =
      let n : ℕ = frame_size s - s.remained in
      let r = send_audio_lem (filled s pcm encoded) e in
      let b = tmp-filled s pcm encoded v h fits in
      let f = rw r.1 at framed in
      let frames_of : frames ((send_audio codec (filled s pcm encoded)).0 ++ fs)
          ≡ (s.frame_pts, (filled s pcm encoded).tmp) ∷ frames fs =
        rw (frames-append, r.0) refl in
      record {
        valid = f.valid;
        samples = f.samples;
        width = f.width;
        bytes =
            rw
              (frames_of, append_assoc, f.bytes, b.0, append_assoc, slice-append-drop encoded n pcm)
              refl;
        regular = rw frames_of (refl, b.1, f.regular);
      }

  pub send_audio-IsValid : (s : AudioState) → IsValid s → IsValid (send_audio codec s).1
  unfolding send_audio
  send_audio-IsValid s v = ground arith

  pub filled-IsValid :
      (s : AudioState) (pcm : Bytes) (encoded : ℕ)
      → IsValid s
      → encoded ≤ length pcm
      → frame_size s - s.remained ≤ length pcm - encoded
      → IsValid (filled s pcm encoded)
  filled-IsValid s pcm encoded v h fits = record {
    allocated = (tmp-filled s pcm encoded v h fits).1;
    not_full = omega arith;
  }

  -- Both parts of a round that comes to its end have come to theirs.
  after_send_lem :
      (u r : Step)
      → (x : Step) × (after_send codec u (some r) ≡ some x)
        × (x.2 ≡ finished → (u.2 ≡ finished) × (r.2 ≡ finished) × (x ≡ (u.0 ++ r.0, r.1, r.2)))
  after_send_lem (es, s, aborted) r = ((es, s, aborted), refl, λ e. cc)
  after_send_lem (es, s, finished) (fs, t, x) = ((es ++ fs, t, x), refl, λ e. (refl, e, refl))

  frames_loop-Framed :
      (fuel : ℕ) (s : AudioState) (pcm : Bytes) (encoded : ℕ)
      → IsValid s
      → encoded ≤ length pcm
      → length pcm - encoded < fuel
      → (r : Step) × (frames_loop codec fuel s pcm (length pcm) encoded ≡ some r)
        × Good s (drop encoded pcm) r
  unfolding frames_loop
  frames_loop-Framed zero s pcm encoded v h lt = absurd (omega arith)
  frames_loop-Framed (suc fuel) s pcm encoded v h lt = elim (Bool-cases (encoded == length pcm)) [
    | inl end ↦ (([], s, finished), rw end refl, λ _. end-Framed s pcm encoded v (ground arith))
    | inr more ↦ elim (Bool-cases (leb (frame_size s - s.remained) (length pcm - encoded))) [
      | inl fits ↦
          let n : ℕ = frame_size s - s.remained in
          let b : n ≤ length pcm - encoded = ground arith in
          let u = send_audio codec (filled s pcm encoded) in
          let w = send_audio-IsValid (filled s pcm encoded) (filled-IsValid s pcm encoded v h b) in
          let (r, run, good) =
            frames_loop-Framed fuel u.1 pcm (encoded + n) w (omega arith)
              (omega (arith, v.not_full)) in
          let (x, joins, parts) = after_send_lem u r in
          (
            x,
            rw (more, fits, run) joins,
            λ e. let p = parts e in rw p.2 (full-Framed s r.1 pcm encoded r.0 v h b p.0 (good p.1)),
          )
      | inr short ↦ (
        ([], part s pcm encoded, finished),
        rw (more, short) refl,
        λ _. part-Framed s pcm encoded v h (ground arith),
      )
    ]
  ]

  then_delete_lem :
      (a : ℕ) (r : Step)
      → (x : Step) × (then_delete codec a (some r) ≡ some x)
        × (x.2 ≡ finished → (r.2 ≡ finished) × (x ≡ (r.0 ++ deleted a ∷ [], r.1, r.2)))
  then_delete_lem a (es, s, aborted) = ((es, s, aborted), refl, λ e. cc)
  then_delete_lem a (es, s, finished) =
      ((es ++ deleted a ∷ [], s, finished), refl, λ e. (refl, refl))

  Framed-deleted :
      (s t : AudioState) (rest : Bytes) (es : List Event) (a : ℕ)
      → Framed s rest es t
      → Framed s rest (es ++ deleted a ∷ []) t
  Framed-deleted s t rest es a f =
      let e : frames (es ++ deleted a ∷ []) ≡ frames es =
        frames-append es (deleted a ∷ []) ∙ append-nil (frames es) in
      record {
        valid = f.valid;
        samples = f.samples;
        width = f.width;
        bytes = rw e f.bytes;
        regular = rw e f.regular;
      }

  whole_loop-Framed :
      (s : AudioState) (pcm : Bytes)
      → IsValid s
      → (r : Step) × (frames_loop codec (length pcm + 1) s pcm (length pcm) 0 ≡ some r)
        × Good s pcm r
  whole_loop-Framed s pcm v =
      frames_loop-Framed (length pcm + 1) s pcm 0 v (omega arith) (omega arith)

  -- With a frame buffer of the size of a frame that is not full, and for the bytes that the element
  -- counts, a piece of captured sound is cut up without loss: `encodeAudioImpl` always ends, and
  -- when it reaches its end, the frames it has handed to the codec, joined, and the bytes that now
  -- wait in the frame buffer are the bytes that waited before and the piece. Every frame has the
  -- codec's size, and its time is one frame behind the one before.
  pub encode_audio_impl-Framed :
      (s : AudioState) (element : EncoderElement) (pcm : Bytes)
      → IsValid s
      → element.size ≡ length pcm
      → (r : Step) × (encode_audio_impl codec s element pcm ≡ some r)
        × (r.2 ≡ finished → Framed s pcm r.0 r.1)
  unfolding encode_audio_impl
  encode_audio_impl-Framed s element pcm v e =
      let (r, run, good) = whole_loop-Framed s pcm v in
      let (x, deletes, parts) = then_delete_lem element.buffer r in
      (
        x,
        rw (e, run) deletes,
        λ end. let p = parts end in rw p.1 (Framed-deleted s r.1 pcm r.0 element.buffer (good p.0)),
      )
