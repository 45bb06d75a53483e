-- ===== src/Encoder/LoopTests.antt =====
-- Turns of the loops of Encoder.cpp with concrete frames of the screen and pieces of sound.
use encoder_with_web_socket.Prelude.{
  ◌+◌, ℕ, zero, suc, ◌/◌, ◌≡◌, refl, ◌≢◌, ◌⊎◌, Bool, true, false, some, List, [], ◌∷◌, arith,
}
use encoder_with_web_socket.Queue.{EncoderElement, done, new_sized}
use encoder_with_web_socket.Encoder.Codec.{Bytes, Event, frames, errors}
use encoder_with_web_socket.Encoder.State.{EncoderState}
use encoder_with_web_socket.Encoder.Audio.{AudioState, encode_audio_impl}
use encoder_with_web_socket.Encoder.Errors.{deletions}
use encoder_with_web_socket.Encoder.Framing.{IsValid}
use encoder_with_web_socket.Encoder.Video.{Encoded, encode_video_impl}
use encoder_with_web_socket.Encoder.Screen.{encode_video_impl-errors}
use encoder_with_web_socket.Encoder.Sync.{pictures, SyncStep, sync_turn, Piece, sync_turns}
use encoder_with_web_socket.Encoder.Sound.{sound_jobs}
use encoder_with_web_socket.Encoder.Pictures.{
  heard, sync_turn-encode_audio_impl, wanted, frame_times,
}
use encoder_with_web_socket.Encoder.Turns.{Ends, AllFit}
use encoder_with_web_socket.Encoder.Filled.{
  Shot, Fills, queued_turns-pictures, queued_turns-deletions,
}
use encoder_with_web_socket.Encoder.Pipe.{Tick, ticks, HasRoom, capture, look}
use encoder_with_web_socket.Encoder.Delivery.{read, Delivered, ticks-Delivered}
use encoder_with_web_socket.Encoder.Life.{Encoder}
use encoder_with_web_socket.Queue.Order.{new_sized-IsValid}
use encoder_with_web_socket.Encoder.Tests.{
  one_packet, sound, piece, piece_element, sound-IsValid, both, running,
}

-- A screen of two pixels, of which the encoder keeps the bytes.
abbrev keep : ℕ → ℕ → Bytes → Bytes
keep w h pixels = pixels

abbrev pixels : Bytes
pixels = 1 ∷ 2 ∷ 3 ∷ 4 ∷ 5 ∷ 6 ∷ []

encode_video_impl-errors_example :
    (r : Encoded) × (encode_video_impl one_packet keep both 7 piece_element pixels ≡ done r)
    × (deletions r.0 ≡ 3 ∷ [])
    × (frames r.0 ≡ (7, pixels) ∷ [])
    × (((r.2 ≡ true) × (errors r.0 ≡ []) × (r.1 ≡ 8))
        ⊎ ((r.2 ≡ false) × ((e : EncoderState) × (errors r.0 ≡ e ∷ []))))
encode_video_impl-errors_example =
    encode_video_impl-errors one_packet keep both 7 piece_element pixels (omega arith)

-- The clock of the video ticks once in four samples, and the flag is down.
abbrev quarter : ℕ → ℕ
quarter t = t / 4

abbrev loud : ℕ → Bool
loud t = false

sync_turn-encode_audio_impl_example :
    heard (sync_turn one_packet quarter loud sound 0 piece_element piece)
    ≡ encode_audio_impl one_packet sound piece_element piece
sync_turn-encode_audio_impl_example =
    sync_turn-encode_audio_impl one_packet quarter loud sound 0 piece_element piece

-- A piece that is marked as silence and comes while the flag falls, and one as it comes then.
abbrev pieces : List Piece
pieces =
    record {
      element = record { buffer = 3; size = 5; fake = true };
      pcm = piece;
      flag = false;
      copy = 6;
      padded = 8;
    }
    ∷ record { element = piece_element; pcm = piece; flag = false; copy = 7; padded = 9 }
    ∷ []

pieces-AllFit : AllFit pieces
pieces-AllFit = (refl, omega arith, (refl, omega arith, record {}))

-- The emulator shows a screen of two pixels, each time at another address.
abbrev shots : ℕ → Shot
shots k = record { address = 100 + k; width = 2; height = 1 }

queued_turns-pictures_example :
    (r : SyncStep) × (sync_turns one_packet quarter loud pieces true sound 0 ≡ done (some r))
    × (pictures r.0 ≡ wanted one_packet quarter loud 0 (frame_times one_packet quarter loud r.0))
    × Fills shots one_packet quarter loud pieces true sound 0 (new_sized true 40) r
unfolding new_sized
queued_turns-pictures_example =
    queued_turns-pictures shots one_packet quarter loud pieces true sound 0 (new_sized true 40)
      sound-IsValid pieces-AllFit (new_sized-IsValid true 40).0 refl

queued_turns-deletions_example :
    (r : SyncStep) × (sync_turns one_packet quarter loud pieces true sound 0 ≡ done (some r))
    × Ends (3 ∷ 6 ∷ 3 ∷ []) r
    × Fills shots one_packet quarter loud pieces true sound 0 (new_sized true 40) r
unfolding new_sized
queued_turns-deletions_example =
    queued_turns-deletions shots one_packet quarter loud pieces true sound 0 (new_sized true 40)
      sound-IsValid pieces-AllFit (new_sized-IsValid true 40).0 refl

-- Pieces that are captured while the loop looks three times.
abbrev memory : ℕ → Bytes
memory zero = piece
memory (suc a) = 9 ∷ 8 ∷ []

abbrev alternating : List Tick
alternating = look ∷ capture 0 ∷ capture 1 ∷ look ∷ capture 2 ∷ look ∷ []

flowing : HasRoom memory running alternating
unfolding new_sized
flowing = (refl, refl, refl, refl, (new_sized-IsValid true 40).0, omega arith)

ticks-Delivered_example :
    (xs : List EncoderElement) × (d : Encoder) × (ticks memory running alternating ≡ done (xs, d))
    × (r : List Event × AudioState) × (sound_jobs one_packet (read memory xs) sound ≡ some r)
    × IsValid r.1
    × (Delivered memory one_packet sound alternating r d ⊎ (errors r.0 ≢ []))
ticks-Delivered_example =
    ticks-Delivered memory one_packet running sound alternating flowing
      (new_sized-IsValid true 40).1 sound-IsValid
