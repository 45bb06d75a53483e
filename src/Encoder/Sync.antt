-- ===== src/Encoder/Sync.antt =====
-- `Encoder::encodeAudioLoop` for an encoder with pictures: the loop of the sound, which also asks for
-- the pictures.
use encoder_with_web_socket.Prelude.{
  slice, ℕ, zero, suc, ◌+◌, ◌-◌, Bool, true, false, not, ◌&&◌, Option, none, some, List, [], ◌∷◌,
  ◌++◌, map, ltb, leb, ◌==◌, if◌then◌else◌, replicate,
}
use encoder_with_web_socket.Queue.{EncoderElement, Outcome, size, map_outcome, done, fault}
use encoder_with_web_socket.Encoder.Codec.{Bytes, Answer, Event, deleted}
use encoder_with_web_socket.Encoder.Audio.{
  AudioState, frame_size, copy_at, Exit, Step, send_audio, finished, aborted,
}

-- What the loop does with the sound, and that it asks for a picture and puts it into the queue of
-- the video, which Encoder/Filled carries out: with the time, in units of the video, that it asks for.
pub data SyncEvent : Type 0 where
  audio : Event → SyncEvent
  captured : ℕ → SyncEvent

abbrev pub sounds : List SyncEvent → List Event
sounds [] = []
sounds (audio e ∷ es) = e ∷ sounds es
sounds (captured t ∷ es) = sounds es

abbrev pub pictures : List SyncEvent → List ℕ
pictures [] = []
pictures (audio e ∷ es) = pictures es
pictures (captured t ∷ es) = t ∷ pictures es

-- What the loop leaves: the second number is `videoSyncPts`.
abbrev pub SyncStep : Type 0
SyncStep = List SyncEvent × AudioState × ℕ × Exit

-- `if(!eCtx.isSilent) { … } else videoSyncPts = …;`, for the flag, the time of the frame and
-- `videoSyncPts`.
abbrev pub meet_video : Bool → ℕ → ℕ → List SyncEvent × ℕ
meet_video is_silent sync video_sync =
    if is_silent
    then ([], sync)
    else if sync == video_sync
    then ([], video_sync)
    else (captured sync ∷ [], sync)

-- The libraries: the codec, and `av_rescale_q` from the clock of the sound to that of the video. The
-- flag can change while the loop runs: `is_silent` tells how it stands when the frame of a time is
-- reached.
module _ (codec : ℕ → Bytes → Answer) (rescale : ℕ → ℕ) (is_silent : ℕ → Bool) where
  abbrev pub after_frame : List SyncEvent → ℕ → Step → Option SyncStep → Option SyncStep
  after_frame asked v (es, s, aborted) rest = some (asked ++ map audio es, s, v, aborted)
  after_frame asked v (es, s, finished) none = none
  after_frame asked v (es, s, finished) (some (fs, t, u, x)) =
      some (asked ++ (map audio es ++ fs), t, u, x)

  -- The loop `while(encodedSize != size)`; `none` if the fuel runs out.
  unfoldable pub sync_loop : ℕ → AudioState → ℕ → Bytes → ℕ → ℕ → Option SyncStep
  sync_loop zero s v pcm size encoded = none
  sync_loop (suc fuel) s v pcm size encoded =
      let rest_frame = frame_size s - s.remained in
      let rest_data = size - encoded in
      let full = record s {
        tmp = copy_at s.tmp s.remained (slice pcm encoded rest_frame);
        remained = 0;
      } in
      let part = record s {
        tmp = copy_at s.tmp s.remained (slice pcm encoded rest_data);
        remained = s.remained + rest_data;
      } in
      let asked = meet_video (is_silent s.frame_pts) (rescale s.frame_pts) v in
      let sent = send_audio codec full in
      let rest = sync_loop fuel sent.1 asked.1 pcm size (encoded + rest_frame) in
      if encoded == size
      then some ([], s, v, finished)
      else if leb rest_frame rest_data
      then after_frame asked.0 asked.1 sent rest
      else some ([], part, v, finished)

  -- `delete data` stands behind the loop.
  abbrev pub then_free : ℕ → Option SyncStep → Option SyncStep
  then_free a none = none
  then_free a (some (es, s, v, finished)) = some (es ++ audio (deleted a) ∷ [], s, v, finished)
  then_free a (some (es, s, v, aborted)) = some (es, s, v, aborted)

  -- A turn of the loop, with the element that it has taken out of its queue.
  unfoldable pub sync_turn : AudioState → ℕ → EncoderElement → Bytes → Option SyncStep
  sync_turn s v element pcm =
      then_free element.buffer (sync_loop (element.size + 1) s v pcm element.size 0)

abbrev pub differ : Bool → Bool → Bool
differ true b = not b
differ false b = b

-- `if(silent != eCtx.isSilent && element.fake != eCtx.isSilent) { … }`, for the buffer `copy` that is
-- allocated and its size `padded`, which the source computes in floating point. The new element's `fake`
-- is not set there, and not read later. A size that is too small makes `memcpy` write behind the buffer.
unfoldable pub catch_up :
    Bool
    → Bool
    → ℕ
    → ℕ
    → EncoderElement
    → Bytes
    → Outcome (List SyncEvent × Bool × EncoderElement × Bytes)
catch_up silent is_silent copy padded element pcm =
    if differ silent is_silent && differ element.fake is_silent
    then (if ltb padded element.size
        then fault
        else done (
          audio (deleted element.buffer) ∷ [],
          is_silent,
          record { buffer = copy; size = padded; fake = false },
          pcm ++ replicate (padded - element.size) 0,
        ))
    else done ([], silent, element, pcm)

-- What a turn finds: the element with its bytes, how the flag stands then, and the buffer and the
-- size that `catch_up` has for it.
pub record Piece : Type 0 where
  pub element : EncoderElement
  pub pcm : Bytes
  pub flag : Bool
  pub copy : ℕ
  pub padded : ℕ

abbrev pub Turns : Type 0
Turns = Outcome (Option SyncStep)

abbrev pub prepend : List SyncEvent → Option SyncStep → Option SyncStep
prepend es none = none
prepend es (some (fs, s, v, x)) = some (es ++ fs, s, v, x)

-- The next turns follow a turn that has not returned.
abbrev pub then_turns : List SyncEvent → Option SyncStep → (AudioState → ℕ → Turns) → Turns
then_turns pre none next = done none
then_turns pre (some (es, s, v, aborted)) next = done (some (pre ++ es, s, v, aborted))
then_turns pre (some (es, s, v, finished)) next =
    map_outcome (λ r. prepend (pre ++ es) r) (next s v)

module _ (codec : ℕ → Bytes → Answer) (rescale : ℕ → ℕ) (is_silent : ℕ → Bool) where
  abbrev pub after_catch_up :
      Outcome (List SyncEvent × Bool × EncoderElement × Bytes)
      → AudioState
      → ℕ
      → (Bool → AudioState → ℕ → Turns)
      → Turns
  after_catch_up fault s v next = fault
  after_catch_up (done (es, silent, element, pcm)) s v next =
      then_turns es (sync_turn codec rescale is_silent s v element pcm) (next silent)

  -- The loop `while(!stopped)`, up to the turn that finds the queue or the encoder stopped.
  unfoldable pub sync_turns : List Piece → Bool → AudioState → ℕ → Turns
  sync_turns [] silent s v = done (some ([], s, v, finished))
  sync_turns (p ∷ ps) silent s v =
      after_catch_up (catch_up silent p.flag p.copy p.padded p.element p.pcm) s v
        (λ b t u. sync_turns ps b t u)
