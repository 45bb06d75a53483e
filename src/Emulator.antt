-- ===== src/Emulator.antt =====
-- test_collabo.h: what the emulator gives to the server, frames of its screen, sound and input.
pub mod Frames
pub mod Input
pub mod Start
mod Tests
use encoder_with_web_socket.Prelude.{
  ℕ, zero, suc, ◌+◌, Bool, true, false, not, ◌&&◌, Option, none, some, List, [], ◌∷◌, ◌++◌, ltb,
  ◌==◌, if◌then◌else◌,
}

abbrev pub Bytes : Type 0
Bytes = List ℕ

-- The surface of the console: its size, and `row w y`, what `qemu_pixman_linebuf_fill` writes for
-- the first `w` pixels of row `y`.
pub record Surface : Type 0 where
  pub width : ℕ
  pub height : ℕ
  pub row : ℕ → ℕ → Bytes

-- The variables of the file. `linebuf` is the width that the line buffer has been created with, and
-- `none` is NULL; `is_silent`, `clb_width` and `clb_height` are fields of `clbCtx`.
pub record Emulator : Type 0 where
  pub stopped : Bool
  pub width : ℕ
  pub height : ℕ
  pub linebuf : Option ℕ
  pub is_audio_enabled : Bool
  pub is_silent : Bool
  pub clb_width : ℕ
  pub clb_height : ℕ
  pub last_bmask : ℕ

-- What the file calls in the server and in the emulator. A number is its 32 bits.
pub data Event : Type 0 where
  start_streaming : ℕ → ℕ → Bool → Event
  stop_streaming : Event
  server_start : ℕ → ℕ → Event
  server_stop : Event
  exit : Event
  set_silent : Bool → Event
  encode_audio : Bytes → Event
  update_buttons : ℕ → ℕ → Event
  queue_abs : ℕ → ℕ → Event
  queue_rel : ℕ → Event
  input_sync : Event
  key : ℕ → Bool → Event

abbrev pub Calls : Type 0
Calls = List Event

-- `enum ClbState`
pub data ClbState : Type 0 where
  start_state : ClbState
  stop_state : ClbState
  stop_program : ClbState

-- `qemu_video_init`: its `width` and `height` are its own, and not the variables of the file.
unfoldable pub qemu_video_init : Surface → Emulator → List Event × Emulator
qemu_video_init s e = (
  start_streaming s.width s.height e.is_silent ∷ [],
  record e { linebuf = some s.width; clb_width = s.width; clb_height = s.height; stopped = false },
)

-- `qemu_video_stop`
unfoldable pub qemu_video_stop : Emulator → List Event × Emulator
qemu_video_stop e = (stop_streaming ∷ [], record e { stopped = true })

-- `clbStop` of Collabo.cpp, which calls `state_callback(STOP_STREAMING)`.
unfoldable pub clb_stop : Emulator → List Event × Emulator
clb_stop e = let (es, e') = qemu_video_stop e in (es ++ server_stop ∷ [], e')

-- `signal_event`
unfoldable pub signal_event : Emulator → List Event × Emulator
signal_event e =
    let (es, e1) = qemu_video_stop e in let (fs, e2) = clb_stop e1 in (es ++ (fs ++ exit ∷ []), e2)

-- `state_callback`
unfoldable pub state_callback : Surface → ClbState → Emulator → List Event × Emulator
state_callback s start_state e = qemu_video_init s e
state_callback s stop_state e = qemu_video_stop e
state_callback s stop_program e =
    let (es, e1) = qemu_video_stop e in let (fs, e2) = clb_stop e1 in (es ++ (fs ++ exit ∷ []), e2)

-- The loop of `request_video_callback` from row `y` on, with `n` rows left.
unfoldable pub copy_rows : (ℕ → ℕ → Bytes) → ℕ → ℕ → ℕ → Bytes
copy_rows row width y zero = []
copy_rows row width y (suc n) = row width y ++ copy_rows row width (y + 1) n

-- The line buffer follows the size of the screen.
unfoldable pub fit_linebuf : Surface → Emulator → Emulator
fit_linebuf s e =
    if (s.width == e.width) && (s.height == e.height)
    then e
    else record e { width = s.width; height = s.height; linebuf = some s.width }

-- The rows that the line buffer gives; `none` if it is NULL or shorter than a row that is read.
abbrev pub copy_frame : Surface → Emulator → Option ℕ → Option (Bytes × Emulator)
copy_frame s e none = none
copy_frame s e (some l) =
    if ltb l e.width then none else some (copy_rows s.row e.width 0 e.height, e)

-- `request_video_callback`: the frame, in a buffer of `width * height * 3` bytes.
unfoldable pub request_video_callback : Surface → Emulator → Option (Bytes × Emulator)
request_video_callback s e = let e' = fit_linebuf s e in copy_frame s e' e'.linebuf

-- `audio_capture_notify`, for whether the sound is enabled.
unfoldable pub audio_capture_notify : Bool → Emulator → List Event × Emulator
audio_capture_notify on e = (set_silent (not on) ∷ [], record e { is_silent = not on })

-- `audio_capture`
unfoldable pub audio_capture : Bytes → Emulator → List Event
audio_capture buf e = if not e.stopped && e.is_audio_enabled then encode_audio buf ∷ [] else []

-- `mouse_callback`, for whether the input is absolute; `queue_abs` has the value and the maximum.
unfoldable pub mouse_callback : Bool → Surface → ℕ → ℕ → ℕ → Emulator → List Event × Emulator
mouse_callback absolute s x y mask e = (
  (if e.last_bmask == mask then [] else update_buttons e.last_bmask mask ∷ [])
      ++ ((if absolute
            then queue_abs x s.width ∷ queue_abs y s.height ∷ []
            else queue_rel x ∷ queue_rel y ∷ [])
          ++ input_sync ∷ []),
  record e { last_bmask = mask },
)

-- `kbd_callback`, for the code of the generated keymap and for whether the console is graphic.
unfoldable pub kbd_callback : (ℕ → ℕ) → Bool → ℕ → Bool → List Event
kbd_callback keycode graphic code flag = if graphic then key (keycode code) flag ∷ [] else []
