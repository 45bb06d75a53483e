-- ===== src/Encoder/Screen.antt =====
-- The ends of `encodeVideoImpl`, and the screens of a new size in `encodeVideoLoop`.
use encoder_with_web_socket.Prelude.{
  ℕ, zero, suc, ◌+◌, ◌*◌, ◌≤◌, ◌≡◌, refl, ◌≢◌, ◌⊎◌, inl, inr, Bool, true, false, ◌&&◌, none, some,
  List, [], ◌∷◌, ◌++◌, arith, ltb, ◌==◌, if◌then◌else◌, Bool-cases, length,
}
use encoder_with_web_socket.Encoder.Cycle.{initialize_again}
use encoder_with_web_socket.Queue.{
  EncoderElement, Dequeue, dequeue, queue_success, queue_stop, queue_noelement, queue_full, done,
  fault, returned, waits,
}
use encoder_with_web_socket.Encoder.State.{
  EncoderState, video_encode_error, video_write_frame_error, video_receive_packet_error,
}
use encoder_with_web_socket.Encoder.Errors.{deletions, Clean, Failed, receive_loop-errors}
use encoder_with_web_socket.Encoder.Setup.{
  EncoderContext, Answers, Work, nothing_owned, only_io, clear_pointers, build, go,
}
use encoder_with_web_socket.Encoder.Life.{Encoder, Launch, launches, after_build, initialize}
use encoder_with_web_socket.Encoder.Life
use encoder_with_web_socket.Encoder.Video.{
  Screen, Encoded, after_dequeue, video_turn, resize, after_scale, encode_video_impl, leaves,
}
use encoder_with_web_socket.Encoder.Codec.{
  Bytes, Answer, Event, receive_loop, frames, errors, frames-receive_loop, offered, stops, deleted,
}

encode_video_impl_ended :
    (a : Answer) (pts buffer : ℕ) (frame : Bytes) (r : List Event × Bool)
    → frames r.0 ≡ []
    → ((r.1 ≡ true) × Clean r.0) ⊎ ((r.1 ≡ false) × Failed r.0)
    → let x : Encoded =
        if a.accepted
        then (deleted buffer ∷ offered pts frame ∷ r.0, pts + 1, r.1)
        else (deleted buffer ∷ offered pts frame ∷ stops video_encode_error ∷ [], pts, false) in
      (deletions x.0 ≡ buffer ∷ [])
      × (frames x.0 ≡ (pts, frame) ∷ [])
      × (((x.2 ≡ true) × (errors x.0 ≡ []) × (x.1 ≡ pts + 1))
          ⊎ ((x.2 ≡ false) × ((e : EncoderState) × (errors x.0 ≡ e ∷ []))))
encode_video_impl_ended a pts buffer frame r none_offered ends = elim (Bool-cases a.accepted) [
  | inl taken ↦ elim ends [
    | inl ok ↦ rw taken (rw (ok.1.1) refl, rw none_offered refl, inl (ok.0, ok.1.0, refl))
    | inr bad ↦ rw taken (rw (bad.1.1) refl, rw none_offered refl, inr (bad.0, bad.1.0))
  ]
  | inr refused ↦ rw refused (refl, refl, inr (refl, (video_encode_error, refl)))
]

pub after_scale-ends :
    (codec : ℕ → Bytes → Answer) (scale : ℕ → ℕ → Bytes → Bytes) (pts : ℕ)
    (element : EncoderElement) (frame : Bytes)
    → let x = after_scale codec scale pts element frame in
      (deletions x.0 ≡ element.buffer ∷ [])
      × (frames x.0 ≡ (pts, frame) ∷ [])
      × (((x.2 ≡ true) × (errors x.0 ≡ []) × (x.1 ≡ pts + 1))
          ⊎ ((x.2 ≡ false) × ((e : EncoderState) × (errors x.0 ≡ e ∷ []))))
after_scale-ends codec scale pts element frame =
    let a = codec pts frame in
    encode_video_impl_ended a pts element.buffer frame
      (receive_loop video_receive_packet_error video_write_frame_error a.receives)
      (frames-receive_loop video_receive_packet_error video_write_frame_error a.receives)
      (receive_loop-errors video_receive_packet_error video_write_frame_error a.receives)

-- If the buffer holds a frame of the size that the encoder has been set up for, `encodeVideoImpl`
-- deletes the buffer once and hands the codec one frame, with the time that is next; it returns true,
-- has reported no error and counts the time up by one, or it returns false and has reported exactly
-- one error.
pub encode_video_impl-errors :
    (codec : ℕ → Bytes → Answer) (scale : ℕ → ℕ → Bytes → Bytes) (ctx : EncoderContext) (pts : ℕ)
    (element : EncoderElement) (pixels : Bytes)
    → ctx.width * ctx.height * 3 ≤ length pixels
    → (r : Encoded) × (encode_video_impl codec scale ctx pts element pixels ≡ done r)
      × (deletions r.0 ≡ element.buffer ∷ [])
      × (frames r.0 ≡ (pts, scale ctx.width ctx.height pixels) ∷ [])
      × (((r.2 ≡ true) × (errors r.0 ≡ []) × (r.1 ≡ pts + 1))
          ⊎ ((r.2 ≡ false) × ((e : EncoderState) × (errors r.0 ≡ e ∷ []))))
unfolding encode_video_impl
encode_video_impl-errors codec scale ctx pts element pixels fits =
    let frame = scale ctx.width ctx.height pixels in
    let long : ltb (length pixels) (ctx.width * ctx.height * 3) ≡ false = ground arith in
    let ends = after_scale-ends codec scale pts element frame in
    (after_scale codec scale pts element frame, rw long refl, ends.0, ends.1, ends.2)

-- The threads that a row of screens starts, and the encoder behind them.
abbrev pub resizes : Answers → List Screen → Encoder → List Launch × Encoder
resizes a [] e = ([], e)
resizes a (s ∷ ss) e =
    let (launched, released, e1) = resize a s e in
    let (more, e2) = resizes a ss e1 in (launched ++ more, e2)

-- Each screen has another size than the one before it.
abbrev pub Alternates : ℕ → ℕ → List Screen → Type 0
Alternates w h [] = Unit {0}
Alternates w h (s ∷ ss) =
    (((s.width == w) && (s.height == h)) ≡ false) × Alternates s.width s.height ss

-- `n` times the same list.
abbrev pub times {ℓ} : {A : Type ℓ} → ℕ → List A → List A
times zero xs = []
times (suc n) xs = xs ++ times n xs

-- The libraries let an encoder that owns nothing be set up with this context. The size of the context
-- does not matter for it.
abbrev pub Restarts : Answers → EncoderContext → Type 0
Restarts a c = (w : Work) × (build a c (clear_pointers nothing_owned) ≡ go w)

abbrev sized : EncoderContext → Screen → EncoderContext
sized c s = record c { width = s.width; height = s.height }

sized-Restarts :
    (a : Answers) (c : EncoderContext) (s : Screen) → Restarts a c → Restarts a (sized c s)
unfolding build
sized-Restarts a c s ok = ok

launches-sized : (c : EncoderContext) (s : Screen) → launches (sized c s) ≡ launches c
unfolding launches
launches-sized c s = refl

stop_halts :
    (e : Encoder)
    → e.stopped ≡ false
    → ((Life.stop e).2.stopped ≡ true) × ((Life.stop e).2.owned ≡ only_io e.owned.io_ctx)
unfolding Life.stop
stop_halts e running = simp running (refl, refl)

resize_lem :
    (a : Answers) (s : Screen) (e : Encoder)
    → e.stopped ≡ false
    → Restarts a e.context
    → ((s.width == e.context.width) && (s.height == e.context.height)) ≡ false
    → let r = resize a s e in
      (r.0 ≡ launches e.context) × (r.2.stopped ≡ false) × (r.2.context ≡ sized e.context s)
unfolding resize
resize_lem a s e running ok other =
    let e0 : Encoder = record e { context = sized e.context s } in
    let halted = stop_halts e0 running in
    let (w, built) = sized-Restarts a e.context s ok in
    let i =
      initialize_again a (sized e.context s) (Life.stop e0).2 w e.owned.io_ctx halted.0 halted.1
        built in
    rw (other, i) (launches-sized e.context s, refl, refl)

after_dequeue-ne-leaves : (d : Dequeue) → after_dequeue d ≢ leaves
after_dequeue-ne-leaves waits h = ground arith
after_dequeue-ne-leaves (returned fault) h = ground arith
after_dequeue-ne-leaves (returned (done (queue_stop, x, q))) h = ground arith
after_dequeue-ne-leaves (returned (done (queue_success, some x, q))) h = ground arith
after_dequeue-ne-leaves (returned (done (queue_success, none, q))) h = ground arith
after_dequeue-ne-leaves (returned (done (queue_noelement, x, q))) h = ground arith
after_dequeue-ne-leaves (returned (done (queue_full, x, q))) h = ground arith

video_turn-ne-leaves :
    (only_video : Bool) (e : Encoder) → e.stopped ≡ false → video_turn only_video e ≢ leaves
unfolding video_turn
video_turn-ne-leaves only_video e running h =
    let q = after_dequeue-ne-leaves (dequeue e.video_cq) in ground arith

-- On an encoder that runs, and that the libraries let be set up with its context, each screen that
-- has another size than the one before it starts the loops of the context once more; the encoder
-- runs behind them, and a turn of `encodeVideoLoop` on it does not end the loop.
resizes-launches :
    (a : Answers) (ss : List Screen) (e : Encoder) (only_video : Bool)
    → e.stopped ≡ false
    → Restarts a e.context
    → Alternates e.context.width e.context.height ss
    → let r = resizes a ss e in
      (r.0 ≡ times (length ss) (launches e.context))
      × (r.1.stopped ≡ false)
      × (video_turn only_video r.1 ≢ leaves)
resizes-launches a [] e only_video running ok other =
    (refl, running, video_turn-ne-leaves only_video e running)
resizes-launches a (s ∷ ss) e only_video running ok other =
    let r = resize_lem a s e running ok other.0 in
    let again : Restarts a (resize a s e).2.context = rw r.2 (sized-Restarts a e.context s ok) in
    let other' : Alternates (resize a s e).2.context.width (resize a s e).2.context.height ss =
      rw r.2 other.1 in
    let i = resizes-launches a ss (resize a s e).2 only_video r.1 again other' in
    let l : launches (resize a s e).2.context ≡ launches e.context =
      rw r.2 (launches-sized e.context s) in
    (rw (r.0, i.0, l) refl, i.1, i.2)
