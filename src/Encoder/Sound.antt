-- ===== src/Encoder/Sound.antt =====
-- `Encoder::encodeAudioLoop` for an encoder without pictures: its turns, and the silence that it makes.
use mathlib.Core.Option
use encoder_with_web_socket.Prelude.{
  ℕ, ◌*◌, ◌/◌, ◌≡◌, refl, ◌≢◌, true, false, Option, none, some, List, [], ◌∷◌, ◌++◌, arith,
  if◌then◌else◌, replicate,
}
use encoder_with_web_socket.Queue.{
  EncoderElement, EncoderCq, Outcome, map_outcome, take_front, dequeue, queue_success, done, fault,
}
use encoder_with_web_socket.Queue
use encoder_with_web_socket.Encoder.Life.{Encoder}
use encoder_with_web_socket.Encoder.Codec.{Bytes, Answer, Event}
use encoder_with_web_socket.Encoder.Video.{
  Turn, turn_of, after_dequeue, leaves, spawns, spins, sleeps, encodes, crashes,
}
use encoder_with_web_socket.Encoder.Audio.{AudioState, Step, encode_audio_impl}

-- `audioCQ.start()` before the loop, and `audioCQ.clear()` behind it, with what that deletes.
unfoldable pub enter_loop : Encoder → Encoder
unfolding Queue.start
enter_loop e = record e { audio_cq = Queue.start e.audio_cq }

unfoldable pub leave_loop : Encoder → List ℕ × Encoder
unfolding Queue.clear
leave_loop e = let r = Queue.clear e.audio_cq in (r.0, record e { audio_cq = r.1 })

-- `if(msg == QUEUE_STOP) break;`
abbrev pub break_stop : Turn → Turn
break_stop spins = leaves
break_stop leaves = leaves
break_stop spawns = spawns
break_stop sleeps = sleeps
break_stop (encodes e) = encodes e
break_stop crashes = crashes

-- The tests of the loop in a turn.
unfoldable pub audio_turn : Encoder → Turn
audio_turn e =
    if e.stopped
    then leaves
    else if e.context.is_silent
    then spawns
    else break_stop (after_dequeue (dequeue e.audio_cq))

-- The element of a silent turn: `audioBytes * audioCC->time_base.den / fps` bytes, all 0.
unfoldable pub silence : ℕ → ℕ → ℕ → ℕ → EncoderElement × Bytes
silence buffer audio_bytes den fps =
    let n = (audio_bytes * den) / fps in
    (record { buffer = buffer; size = n; fake = true }, replicate n 0)

module _ (codec : ℕ → Bytes → Answer) where
  abbrev pub join_jobs :
      Option Step
      → (AudioState → Option (List Event × AudioState))
      → Option (List Event × AudioState)
  join_jobs none next = none
  join_jobs (some (es, s, x)) next = Option.map (λ r. (es ++ r.0, r.1)) (next s)

  -- The calls of `encodeAudioImpl` in turns one behind the other. None of them ends the loop.
  unfoldable pub sound_jobs :
      List (EncoderElement × Bytes) → AudioState → Option (List Event × AudioState)
  sound_jobs [] s = some ([], s)
  sound_jobs (j ∷ js) s = join_jobs (encode_audio_impl codec s j.0 j.1) (λ t. sound_jobs js t)

taken-stays :
    (r : EncoderCq) (o : Outcome EncoderElement)
    → break_stop (turn_of (map_outcome (λ e. (queue_success, some e, r)) o)) ≢ leaves
taken-stays r (done e) h = ground arith
taken-stays r fault h = ground arith

take_front-stays :
    (q : EncoderCq) → q.is_stop ≡ false → break_stop (turn_of (take_front q)) ≢ leaves
unfolding take_front
take_front-stays q goes = simp goes (taken-stays _ _)

dequeue-stays :
    (q : EncoderCq) → q.is_stop ≡ false → break_stop (after_dequeue (dequeue q)) ≢ leaves
unfolding dequeue
dequeue-stays q goes h = let k = take_front-stays q goes in ground arith

-- A loop that begins on an encoder that runs does not leave in its first turn, even if its queue has
-- been stopped before.
audio_turn-enter_loop : (e : Encoder) → e.stopped ≡ false → audio_turn (enter_loop e) ≢ leaves
unfolding audio_turn enter_loop Queue.start
audio_turn-enter_loop e running h =
    let q = dequeue-stays (Queue.start e.audio_cq) refl in ground arith
