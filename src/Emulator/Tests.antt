-- ===== src/Emulator/Tests.antt =====
-- Frames and moves of the mouse on a small screen.
use encoder_with_web_socket.Prelude.{
  ℕ, ◌*◌, ◌<◌, ◌≡◌, refl, ◌↔◌, ◌⊎◌, Bool, true, false, Option, none, some, [], ◌∷◌, arith, ◌==◌,
  replicate,
}
use encoder_with_web_socket.Emulator.{Surface, Emulator, request_video_callback, server_start, exit}
use encoder_with_web_socket.Emulator.Start.{collabo_thread_func, collabo_thread_func-ends}
use encoder_with_web_socket.Emulator.Frames.{IsStale, request_video_callback-IsStale}

-- A grey screen of two by one pixels.
abbrev screen : Surface
screen = record { width = 2; height = 1; row = λ w y. replicate (w * 3) 128 }

abbrev emulator : Emulator
emulator = record {
  stopped = false;
  width = 2;
  height = 1;
  linebuf = some 2;
  is_audio_enabled = true;
  is_silent = true;
  clb_width = 2;
  clb_height = 1;
  last_bmask = 0;
}

-- The line buffer is of a narrower screen.
abbrev narrow : Emulator
narrow = record emulator { linebuf = some 1 }

request_video_callback-IsStale_example :
    (request_video_callback screen narrow ≡ none) ↔ IsStale screen narrow 1
request_video_callback-IsStale_example = request_video_callback-IsStale screen narrow 1 refl

-- The first console is that of index 1.
abbrev second_console : ℕ → Bool
second_console i = i == 1

abbrev one_surface : ℕ → Option Surface
one_surface i = some screen

no_console_before : (j : ℕ) → j < 1 → second_console j ≡ false
no_console_before j h = ground arith

collabo_thread_func-ends_example :
    ((collabo_thread_func second_console one_surface 5 80 81 emulator ≡ some (exit ∷ [], emulator))
      × (one_surface 1 ≡ none))
    ⊎ ((s : Surface) × (one_surface 1 ≡ some s)
        × (e' : Emulator) × (collabo_thread_func second_console one_surface 5 80 81 emulator
            ≡ some (server_start 80 81 ∷ [], e'))
        × (e'.width ≡ s.width)
        × (e'.height ≡ s.height)
        × (e'.is_silent ≡ true))
collabo_thread_func-ends_example =
    collabo_thread_func-ends second_console one_surface 1 5 80 81 emulator refl no_console_before
      (omega arith)
