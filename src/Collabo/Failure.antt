-- ===== src/Collabo/Failure.antt =====
-- `encoderStateCallback`: the way of an error of the encoder through the server to the emulator, once
-- `loopStop` calls it; as it stands it does not come to that, see Encoder/Stopping.
use encoder_with_web_socket.Prelude.{
  slice, ℕ, zero, suc, ◌+◌, ◌-◌, ◌*◌, ◌≤◌, ◌<◌, ◌≡◌, refl, ◌⊎◌, inl, inr, true, false, Option, none,
  some, List, [], ◌∷◌, ◌++◌, map, arith, ltb, leb, ◌==◌, Bool-cases, length,
}
use encoder_with_web_socket.Queue.{EncoderElement, size, done}
use encoder_with_web_socket.Encoder.State.{
  EncoderState, success, already_stop_error, video_write_frame_error, video_receive_packet_error,
  audio_write_frame_error, audio_receive_packet_error,
}
use encoder_with_web_socket.Encoder.Codec.{
  Bytes, Receive, Answer, Event, receive_loop, errors, again, failed, packet, offered, written,
  stops, deleted,
}
use encoder_with_web_socket.Encoder.Audio.{
  AudioState, frame_size, copy_at, Step, send_audio, after_send, frames_loop, then_delete,
  encode_audio_impl, finished, aborted,
}
use encoder_with_web_socket.Encoder.Video.{Encoded, after_scale, encode_video_impl}
use encoder_with_web_socket.Emulator.{
  Surface, Emulator, Calls, ClbState, qemu_video_stop, clb_stop, state_callback, stop_streaming,
  server_stop, exit, stop_program,
}
use encoder_with_web_socket.Encoder.Errors.{encode_audio_impl-errors}
use encoder_with_web_socket.Encoder.Screen.{after_scale-ends}
use encoder_with_web_socket.Encoder.Setup.{EncoderContext}

-- `encoderStateCallback`: what it calls `clbStateCallback` with.
unfoldable pub encoder_state_callback : EncoderState → List ClbState
encoder_state_callback success = []
encoder_state_callback already_stop_error = []
encoder_state_callback s = stop_program ∷ []

-- What `encoderStateCallback` makes of the errors in a row of events, each of which is handed to it.
abbrev pub callbacks : List Event → List ClbState
callbacks [] = []
callbacks (stops s ∷ es) = encoder_state_callback s ++ callbacks es
callbacks (offered pts b ∷ es) = callbacks es
callbacks (written ∷ es) = callbacks es
callbacks (deleted a ∷ es) = callbacks es

-- The emulator answers to a row of calls of `clbStateCallback`.
abbrev pub notified : Surface → List ClbState → Emulator → Calls × Emulator
notified surface [] e = ([], e)
notified surface (c ∷ cs) e =
    let (es, e1) = state_callback surface c e in
    let (fs, e2) = notified surface cs e1 in (es ++ fs, e2)

-- What the emulator does when it is told to end.
abbrev pub exit_calls : Calls
exit_calls = stop_streaming ∷ stop_streaming ∷ server_stop ∷ exit ∷ []

abbrev IsFatal : EncoderState → Type 0
IsFatal s = encoder_state_callback s ≡ stop_program ∷ []

-- Every error of the events ends the program.
abbrev AllFatal : List Event → Type 0
AllFatal [] = Unit {0}
AllFatal (stops s ∷ es) = IsFatal s × AllFatal es
AllFatal (offered pts b ∷ es) = AllFatal es
AllFatal (written ∷ es) = AllFatal es
AllFatal (deleted a ∷ es) = AllFatal es

callbacks-errors :
    (es : List Event) → AllFatal es → callbacks es ≡ map (λ s. stop_program) (errors es)
callbacks-errors [] h = refl
callbacks-errors (stops s ∷ es) h = rw (h.0, callbacks-errors es h.1) refl
callbacks-errors (offered pts b ∷ es) h = callbacks-errors es h
callbacks-errors (written ∷ es) h = callbacks-errors es h
callbacks-errors (deleted a ∷ es) h = callbacks-errors es h

AllFatal-append : (es fs : List Event) → AllFatal es → AllFatal fs → AllFatal (es ++ fs)
AllFatal-append [] fs p q = q
AllFatal-append (stops s ∷ es) fs p q = (p.0, AllFatal-append es fs p.1 q)
AllFatal-append (offered pts b ∷ es) fs p q = AllFatal-append es fs p q
AllFatal-append (written ∷ es) fs p q = AllFatal-append es fs p q
AllFatal-append (deleted a ∷ es) fs p q = AllFatal-append es fs p q

receive_loop-AllFatal :
    (a b : EncoderState) (rs : List Receive)
    → IsFatal a
    → IsFatal b
    → AllFatal (receive_loop a b rs).0
unfolding receive_loop
receive_loop-AllFatal a b [] p q = record {}
receive_loop-AllFatal a b (again ∷ rs) p q = record {}
receive_loop-AllFatal a b (failed ∷ rs) p q = (p, record {})
receive_loop-AllFatal a b (packet true ∷ rs) p q = receive_loop-AllFatal a b rs p q
receive_loop-AllFatal a b (packet false ∷ rs) p q = (q, record {})

module _ (codec : ℕ → Bytes → Answer) where
  abbrev Fatal : Option Step → Type 0
  Fatal none = Unit {0}
  Fatal (some r) = AllFatal r.0

  send_audio-AllFatal : (s : AudioState) → AllFatal (send_audio codec s).0
  unfolding send_audio encoder_state_callback
  send_audio-AllFatal s = elim (Bool-cases (codec s.frame_pts s.tmp).accepted) [
    | inl taken ↦ rw taken (
        receive_loop-AllFatal audio_receive_packet_error audio_write_frame_error
          (codec s.frame_pts s.tmp).receives refl refl)
    | inr refused ↦ rw refused (refl, record {})
  ]

  after_send-Fatal :
      (u : Step) (r : Option Step) → AllFatal u.0 → Fatal r → Fatal (after_send codec u r)
  after_send-Fatal (es, s, aborted) r p q = p
  after_send-Fatal (es, s, finished) none p q = q
  after_send-Fatal (es, s, finished) (some (fs, t, x)) p q = AllFatal-append es fs p q

  frames_loop-Fatal :
      (fuel : ℕ) (s : AudioState) (pcm : Bytes) (size encoded : ℕ)
      → Fatal (frames_loop codec fuel s pcm size encoded)
  unfolding frames_loop
  frames_loop-Fatal zero s pcm size encoded = record {}
  frames_loop-Fatal (suc fuel) s pcm size encoded =
      let n : ℕ = frame_size s - s.remained in
      let full : AudioState = record s {
        tmp = copy_at s.tmp s.remained (slice pcm encoded n);
        remained = 0;
      } in
      let sent = send_audio codec full in
      elim (Bool-cases (encoded == size)) [
        | inl end ↦ rw end (record {})
        | inr more ↦ elim (Bool-cases (leb n (size - encoded))) [
          | inl fits ↦
              rw (more, fits)
                (after_send-Fatal sent (frames_loop codec fuel sent.1 pcm size (encoded + n))
                  (send_audio-AllFatal full) (frames_loop-Fatal fuel sent.1 pcm size (encoded + n)))
          | inr short ↦ rw (more, short) (record {})
        ]
      ]

  then_delete-Fatal : (a : ℕ) (r : Option Step) → Fatal r → Fatal (then_delete codec a r)
  then_delete-Fatal a none h = h
  then_delete-Fatal a (some (es, s, finished)) h = AllFatal-append es (deleted a ∷ []) h (record {})
  then_delete-Fatal a (some (es, s, aborted)) h = h

  encode_audio_impl-Fatal :
      (s : AudioState) (element : EncoderElement) (pcm : Bytes)
      → Fatal (encode_audio_impl codec s element pcm)
  unfolding encode_audio_impl
  encode_audio_impl-Fatal s element pcm =
      then_delete-Fatal element.buffer (frames_loop codec (element.size + 1) s pcm element.size 0)
        (frames_loop-Fatal (element.size + 1) s pcm element.size 0)

  -- If fewer bytes wait than a frame has, `encodeAudioImpl` ends. If it reaches its end, the emulator is
  -- told nothing; if it returns early, and the error is handed to `encoderStateCallback`, the emulator
  -- stops the streams and the server and exits.
  encode_audio_impl-exits :
      (surface : Surface) (emulator : Emulator) (s : AudioState) (element : EncoderElement)
      (pcm : Bytes)
      → s.remained < frame_size s
      → (r : Step) × (encode_audio_impl codec s element pcm ≡ some r)
        × (((r.2 ≡ finished) × (notified surface (callbacks r.0) emulator ≡ ([], emulator)))
            ⊎ ((r.2 ≡ aborted)
                × (notified surface (callbacks r.0) emulator
                    ≡ (exit_calls, record emulator { stopped = true }))))
  unfolding state_callback qemu_video_stop clb_stop
  encode_audio_impl-exits surface emulator s element pcm room =
      let (r, runs, ends) = encode_audio_impl-errors codec s element pcm room in
      let f : Fatal (some r) = rw runs at (encode_audio_impl-Fatal s element pcm) in
      let q = callbacks-errors r.0 f in
      elim ends [
        | inl ok ↦ (r, runs, inl (ok.0, rw (q, ok.1) refl))
        | inr bad ↦ (r, runs, inr (bad.0, rw (q, bad.1.1) refl))
      ]

  after_scale-AllFatal :
      (scale : ℕ → ℕ → Bytes → Bytes) (pts : ℕ) (element : EncoderElement) (frame : Bytes)
      → AllFatal (after_scale codec scale pts element frame).0
  unfolding encoder_state_callback
  after_scale-AllFatal scale pts element frame = elim (Bool-cases (codec pts frame).accepted) [
    | inl taken ↦ rw taken (
        receive_loop-AllFatal video_receive_packet_error video_write_frame_error
          (codec pts frame).receives refl refl)
    | inr refused ↦ rw refused (refl, record {})
  ]

  -- If the buffer holds a frame of the size that the encoder has been set up for, the emulator is told
  -- nothing if `encodeVideoImpl` returns true; if it returns false, and the error is handed to
  -- `encoderStateCallback`, the emulator stops the streams and the server and exits.
  encode_video_impl-exits :
      (scale : ℕ → ℕ → Bytes → Bytes) (surface : Surface) (emulator : Emulator)
      (ctx : EncoderContext) (pts : ℕ) (element : EncoderElement) (pixels : Bytes)
      → ctx.width * ctx.height * 3 ≤ length pixels
      → (r : Encoded) × (encode_video_impl codec scale ctx pts element pixels ≡ done r)
        × (((r.2 ≡ true) × (notified surface (callbacks r.0) emulator ≡ ([], emulator)))
            ⊎ ((r.2 ≡ false)
                × (notified surface (callbacks r.0) emulator
                    ≡ (exit_calls, record emulator { stopped = true }))))
  unfolding encode_video_impl state_callback qemu_video_stop clb_stop
  encode_video_impl-exits scale surface emulator ctx pts element pixels fits =
      let frame = scale ctx.width ctx.height pixels in
      let long : ltb (length pixels) (ctx.width * ctx.height * 3) ≡ false = ground arith in
      let x = after_scale codec scale pts element frame in
      let ends = after_scale-ends codec scale pts element frame in
      let q = callbacks-errors x.0 (after_scale-AllFatal scale pts element frame) in
      elim ends.2 [
        | inl ok ↦ (x, rw long refl, inl (ok.0, rw (q, ok.1) refl))
        | inr bad ↦ (x, rw long refl, inr (bad.0, rw (q, bad.1.1) refl))
      ]
