-- ===== src/Encoder/Audio.antt =====
-- `Encoder::encodeAudioImpl`: it cuts what is captured into frames of the codec's size.
use encoder_with_web_socket.Prelude.{
  slice, ℕ, zero, suc, ◌+◌, ◌-◌, ◌*◌, Option, none, some, List, [], ◌∷◌, ◌++◌, leb, ◌==◌,
  if◌then◌else◌, length, take, drop,
}
use encoder_with_web_socket.Encoder.State.{
  audio_encode_error, audio_write_frame_error, audio_receive_packet_error,
}
use encoder_with_web_socket.Encoder.Codec.{
  Bytes, Answer, Event, receive_loop, offered, stops, deleted,
}
use encoder_with_web_socket.Queue.{EncoderElement, size}

-- The fields of `class Encoder` that the loop reads and writes; `tmp` is `audioTmpFrame->data[0]`.
pub record AudioState : Type 0 where
  pub nb_samples : ℕ
  pub audio_bytes : ℕ
  pub remained : ℕ
  pub tmp : Bytes
  pub frame_pts : ℕ

-- The bytes of a frame: `audioTmpFrame->nb_samples * audioBytes`.
abbrev pub frame_size : AudioState → ℕ
frame_size s = s.nb_samples * s.audio_bytes

-- `memcpy(to + at, from, n)`, where `from` holds the `n` bytes.
unfoldable pub copy_at : Bytes → ℕ → Bytes → Bytes
copy_at to i from = take i to ++ (from ++ drop (i + length from) to)

-- How a call ends: behind its loop, or by `return` behind `loopStop`.
pub data Exit : Type 0 where
  finished : Exit
  aborted : Exit

abbrev pub Step : Type 0
Step = List Event × AudioState × Exit

module _ (codec : ℕ → Bytes → Answer) where
  -- `avcodec_send_frame` and the loop over the packets behind it.
  unfoldable pub send_audio : AudioState → Step
  send_audio s =
      let a = codec s.frame_pts s.tmp in
      let r = receive_loop audio_receive_packet_error audio_write_frame_error a.receives in
      if a.accepted
      then (
        offered s.frame_pts s.tmp ∷ r.0,
        record s { frame_pts = s.frame_pts + s.nb_samples },
        (if r.1 then finished else aborted),
      )
      else (offered s.frame_pts s.tmp ∷ stops audio_encode_error ∷ [], s, aborted)

  abbrev pub after_send : Step → Option Step → Option Step
  after_send (es, s, aborted) rest = some (es, s, aborted)
  after_send (es, s, finished) none = none
  after_send (es, s, finished) (some (fs, t, x)) = some (es ++ fs, t, x)

  -- The loop `while(encodedSize != size)`; `none` if the fuel runs out.
  unfoldable pub frames_loop : ℕ → AudioState → Bytes → ℕ → ℕ → Option Step
  frames_loop zero s pcm size encoded = none
  frames_loop (suc fuel) s pcm size encoded =
      let rest_frame = frame_size s - s.remained in
      let rest_data = size - encoded in
      let full = record s {
        tmp = copy_at s.tmp s.remained (slice pcm encoded rest_frame);
        remained = 0;
      } in
      let part = record s {
        tmp = copy_at s.tmp s.remained (slice pcm encoded rest_data);
        remained = s.remained + rest_data;
      } in
      let sent = send_audio full in
      let rest = frames_loop fuel sent.1 pcm size (encoded + rest_frame) in
      if encoded == size
      then some ([], s, finished)
      else if leb rest_frame rest_data
      then after_send sent rest
      else some ([], part, finished)

  -- `delete data` stands behind the loop, and is not reached by its `return`s.
  abbrev pub then_delete : ℕ → Option Step → Option Step
  then_delete a none = none
  then_delete a (some (es, s, finished)) = some (es ++ deleted a ∷ [], s, finished)
  then_delete a (some (es, s, aborted)) = some (es, s, aborted)

  -- `encodeAudioImpl`, with the bytes that `element.data` points to.
  unfoldable pub encode_audio_impl : AudioState → EncoderElement → Bytes → Option Step
  encode_audio_impl s element pcm =
      then_delete element.buffer (frames_loop (element.size + 1) s pcm element.size 0)
