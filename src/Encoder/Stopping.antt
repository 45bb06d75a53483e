-- ===== src/Encoder/Stopping.antt =====
-- `Encoder::loopStop` of Encoder.cpp: what an error of a loop makes of the process.
use encoder_with_web_socket.Prelude.{
  ℕ, ◌<◌, ◌≡◌, refl, ◌⊎◌, inl, inr, Bool, true, false, some, List, [], ◌∷◌, ◌++◌, if◌then◌else◌,
}
use encoder_with_web_socket.Queue.{EncoderElement}
use encoder_with_web_socket.Encoder.State.{EncoderState}
use encoder_with_web_socket.Encoder.Codec.{Bytes, Answer, errors}
use encoder_with_web_socket.Encoder.Audio.{
  AudioState, frame_size, Step, encode_audio_impl, finished, aborted,
}
use encoder_with_web_socket.Encoder.Errors.{deletions, encode_audio_impl-errors}

-- A thread that runs `stop` is started, the process is ended by `std::terminate`, and
-- `encStateCallback` is called.
pub data Effect : Type 0 where
  stop_started : Effect
  terminated : Effect
  told : EncoderState → Effect

-- The end of a statement whose value is a thread: the destructor of a thread that is joinable, as one is
-- that has been started and neither joined nor detached, calls `std::terminate`, and nothing runs behind
-- that.
abbrev pub destroy_thread : Bool → List Effect → List Effect
destroy_thread joinable rest = if joinable then terminated ∷ [] else rest

-- `loopStop`
unfoldable pub loop_stop : EncoderState → List Effect
loop_stop s = stop_started ∷ destroy_thread true (told s ∷ [])

abbrev pub survives : List Effect → Bool
survives [] = true
survives (stop_started ∷ xs) = survives xs
survives (terminated ∷ xs) = false
survives (told s ∷ xs) = survives xs

-- The calls of `loopStop` one behind the other, as far as the process goes on.
unfoldable pub loop_stops : List EncoderState → List Effect
loop_stops [] = []
loop_stops (s ∷ ss) =
    let xs = loop_stop s in let rest = loop_stops ss in if survives xs then xs ++ rest else xs

-- If fewer bytes wait than a frame has, `encodeAudioImpl` ends: either it reaches its end, the captured
-- buffer is deleted and `loopStop` has had no effect; or it returns early, the captured buffer is not
-- deleted, and the process has been ended right behind the start of the thread for `stop`, before
-- `encStateCallback` is called.
pub encode_audio_impl-terminates :
    (codec : ℕ → Bytes → Answer) (s : AudioState) (element : EncoderElement) (pcm : Bytes)
    → s.remained < frame_size s
    → (r : Step) × (encode_audio_impl codec s element pcm ≡ some r)
      × (((r.2 ≡ finished) × (deletions r.0 ≡ element.buffer ∷ []) × (loop_stops (errors r.0) ≡ []))
          ⊎ ((r.2 ≡ aborted)
              × (deletions r.0 ≡ [])
              × (loop_stops (errors r.0) ≡ stop_started ∷ terminated ∷ [])))
unfolding loop_stops loop_stop
encode_audio_impl-terminates codec s element pcm room =
    let (r, runs, ends) = encode_audio_impl-errors codec s element pcm room in
    (
      r,
      runs,
      elim ends [
        | inl ok ↦ inl (ok.0, ok.2, rw ok.1 refl)
        | inr bad ↦ inr (bad.0, bad.2, rw bad.1.1 refl)
      ],
    )
