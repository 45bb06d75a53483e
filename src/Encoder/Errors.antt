-- ===== src/Encoder/Errors.antt =====
-- The ends of `encodeAudioImpl` and `encodeVideoImpl`: what is reported, and what is deleted.
use encoder_with_web_socket.Prelude.{
  slice, ℕ, zero, suc, ◌+◌, ◌-◌, ◌≤◌, ◌<◌, ◌≡◌, refl, ap, ◌⊎◌, inl, inr, Bool, true, false, some,
  List, [], ◌∷◌, ◌++◌, arith, leb, ◌==◌, if◌then◌else◌, Bool-cases,
}
use encoder_with_web_socket.Encoder.State.{
  EncoderState, audio_encode_error, audio_write_frame_error, audio_receive_packet_error,
}
use encoder_with_web_socket.Encoder.Codec.{
  Bytes, Receive, Answer, Event, receive_loop, errors, again, failed, packet, offered, written,
  stops, deleted,
}
use encoder_with_web_socket.Encoder.Audio.{
  AudioState, frame_size, copy_at, Step, send_audio, after_send, frames_loop, then_delete,
  encode_audio_impl, finished, aborted,
}
use encoder_with_web_socket.Queue.{EncoderElement, size}

-- The buffers that are deleted.
abbrev pub deletions : List Event → List ℕ
deletions [] = []
deletions (deleted a ∷ es) = a ∷ deletions es
deletions (offered pts b ∷ es) = deletions es
deletions (written ∷ es) = deletions es
deletions (stops s ∷ es) = deletions es

pub errors-append : (es fs : List Event) → errors (es ++ fs) ≡ errors es ++ errors fs
errors-append [] fs = refl
errors-append (offered pts b ∷ es) fs = errors-append es fs
errors-append (written ∷ es) fs = errors-append es fs
errors-append (stops s ∷ es) fs = ap (◌∷◌ s) (errors-append es fs)
errors-append (deleted a ∷ es) fs = errors-append es fs

pub deletions-append : (es fs : List Event) → deletions (es ++ fs) ≡ deletions es ++ deletions fs
deletions-append [] fs = refl
deletions-append (offered pts b ∷ es) fs = deletions-append es fs
deletions-append (written ∷ es) fs = deletions-append es fs
deletions-append (stops s ∷ es) fs = deletions-append es fs
deletions-append (deleted a ∷ es) fs = ap (◌∷◌ a) (deletions-append es fs)

-- Nothing is deleted; and nothing is reported, or one error.
abbrev pub Clean : List Event → Type 0
Clean es = (errors es ≡ []) × (deletions es ≡ [])

abbrev pub Failed : List Event → Type 0
Failed es = ((e : EncoderState) × (errors es ≡ e ∷ [])) × (deletions es ≡ [])

Clean-Clean : (es fs : List Event) → Clean es → Clean fs → Clean (es ++ fs)
Clean-Clean es fs p q = (rw (errors-append es fs, p.0) q.0, rw (deletions-append es fs, p.1) q.1)

Clean-Failed : (es fs : List Event) → Clean es → Failed fs → Failed (es ++ fs)
Clean-Failed es fs p q =
    ((q.0.0, rw (errors-append es fs, p.0) q.0.1), rw (deletions-append es fs, p.1) q.1)

pub receive_loop-errors :
    (a b : EncoderState) (rs : List Receive)
    → let r = receive_loop a b rs in ((r.1 ≡ true) × Clean r.0) ⊎ ((r.1 ≡ false) × Failed r.0)
unfolding receive_loop
receive_loop-errors a b [] = inl (refl, (refl, refl))
receive_loop-errors a b (again ∷ rs) = inl (refl, (refl, refl))
receive_loop-errors a b (failed ∷ rs) = inr (refl, ((a, refl), refl))
receive_loop-errors a b (packet true ∷ rs) = receive_loop-errors a b rs
receive_loop-errors a b (packet false ∷ rs) = inr (refl, ((b, refl), refl))

module _ (codec : ℕ → Bytes → Answer) where
  abbrev Ends : Step → Type 0
  Ends r = ((r.2 ≡ finished) × Clean r.0) ⊎ ((r.2 ≡ aborted) × Failed r.0)

  received-Ends :
      (s : AudioState) (b : Bytes) (r : List Event × Bool)
      → ((r.1 ≡ true) × Clean r.0) ⊎ ((r.1 ≡ false) × Failed r.0)
      → (pts : ℕ) → Ends (offered pts b ∷ r.0, s, (if r.1 then finished else aborted))
  received-Ends s b r (inl ok) pts = inl (rw ok.0 refl, ok.1)
  received-Ends s b r (inr bad) pts = inr (rw bad.0 refl, bad.1)

  send_audio-Ends : (s : AudioState) → Ends (send_audio codec s)
  unfolding send_audio
  send_audio-Ends s =
      let a = codec s.frame_pts s.tmp in
      let r = receive_loop-errors audio_receive_packet_error audio_write_frame_error a.receives in
      elim (Bool-cases a.accepted) [
        | inl taken ↦ rw taken (
            received-Ends (record s { frame_pts = s.frame_pts + s.nb_samples }) s.tmp
              (receive_loop audio_receive_packet_error audio_write_frame_error a.receives) r
              s.frame_pts)
        | inr refused ↦ rw refused (inr (refl, ((audio_encode_error, refl), refl)))
      ]

  after_send-Ends :
      (u : Step) (r : Step)
      → Ends u
      → Ends r
      → (x : Step) × (after_send codec u (some r) ≡ some x) × Ends x
  after_send-Ends (es, s, aborted) r p q = ((es, s, aborted), refl, p)
  after_send-Ends (es, s, finished) (fs, t, x) (inl p) (inl q) =
      ((es ++ fs, t, x), refl, inl (q.0, Clean-Clean es fs p.1 q.1))
  after_send-Ends (es, s, finished) (fs, t, x) (inl p) (inr q) =
      ((es ++ fs, t, x), refl, inr (q.0, Clean-Failed es fs p.1 q.1))
  after_send-Ends (es, s, finished) (fs, t, x) (inr p) q = cc p.0

  send_audio-room :
      (s : AudioState)
      → s.remained < frame_size s
      → (send_audio codec s).1.remained < frame_size (send_audio codec s).1
  unfolding send_audio
  send_audio-room s v = ground arith

  frames_loop-Ends :
      (fuel : ℕ) (s : AudioState) (pcm : Bytes) (size encoded : ℕ)
      → s.remained < frame_size s
      → encoded ≤ size
      → size - encoded < fuel
      → (r : Step) × (frames_loop codec fuel s pcm size encoded ≡ some r) × Ends r
  unfolding frames_loop
  frames_loop-Ends zero s pcm size encoded v h lt = absurd (omega arith)
  frames_loop-Ends (suc fuel) s pcm size encoded v h lt = elim (Bool-cases (encoded == size)) [
    | inl end ↦ (([], s, finished), rw end refl, inl (refl, (refl, refl)))
    | inr more ↦ elim (Bool-cases (leb (frame_size s - s.remained) (size - encoded))) [
      | inl fits ↦
          let n : ℕ = frame_size s - s.remained in
          let b : n ≤ size - encoded = ground arith in
          let full : AudioState = record s {
            tmp = copy_at s.tmp s.remained (slice pcm encoded n);
            remained = 0;
          } in
          let u = send_audio codec full in
          let w = send_audio-room full (omega arith) in
          let (r, run, ends) =
            frames_loop-Ends fuel u.1 pcm size (encoded + n) w (omega arith) (omega (arith, v)) in
          let (x, joins, both) = after_send-Ends u r (send_audio-Ends full) ends in
          (x, rw (more, fits, run) joins, both)
      | inr short ↦ (
        ((
          [],
          record s {
            tmp = copy_at s.tmp s.remained (slice pcm encoded (size - encoded));
            remained = s.remained + (size - encoded);
          },
          finished,
        )),
        rw (more, short) refl,
        inl (refl, (refl, refl)),
      )
    ]
  ]

  -- If fewer bytes wait than a frame has, `encodeAudioImpl` reaches its end, reports nothing and
  -- deletes the captured buffer; or it returns early, reports exactly one error and leaves the
  -- buffer undeleted.
  pub encode_audio_impl-errors :
      (s : AudioState) (element : EncoderElement) (pcm : Bytes)
      → s.remained < frame_size s
      → (r : Step) × (encode_audio_impl codec s element pcm ≡ some r)
        × (((r.2 ≡ finished) × (errors r.0 ≡ []) × (deletions r.0 ≡ element.buffer ∷ []))
            ⊎ ((r.2 ≡ aborted)
                × ((e : EncoderState) × (errors r.0 ≡ e ∷ []))
                × (deletions r.0 ≡ [])))
  unfolding encode_audio_impl
  encode_audio_impl-errors s element pcm v =
      let (r, run, ends) =
        frames_loop-Ends (element.size + 1) s pcm element.size 0 v (omega arith) (omega arith) in
      let (x, deletes, both) = close r ends in (x, rw run deletes, both)
    where
      close :
          (r : Step)
          → Ends r
          → (x : Step) × (then_delete codec element.buffer (some r) ≡ some x)
            × (((x.2 ≡ finished) × (errors x.0 ≡ []) × (deletions x.0 ≡ element.buffer ∷ []))
                ⊎ ((x.2 ≡ aborted)
                    × ((e : EncoderState) × (errors x.0 ≡ e ∷ []))
                    × (deletions x.0 ≡ [])))
      close (es, t, finished) (inl p) = (
        (es ++ deleted element.buffer ∷ [], t, finished),
        refl,
        inl (refl, rw (errors-append, p.1.0) refl, rw (deletions-append, p.1.1) refl),
      )
      close (es, t, finished) (inr p) = cc p.0
      close (es, t, aborted) (inl p) = cc p.0
      close (es, t, aborted) (inr p) = ((es, t, aborted), refl, inr (refl, p.1.0, p.1.1))
