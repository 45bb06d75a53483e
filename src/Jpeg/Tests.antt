-- ===== src/Jpeg/Tests.antt =====
-- Runs of the loop of JpegCompressor.cpp on frames of a few pixels.
use encoder_with_web_socket.Prelude.{
  le_value, slice, ℕ, zero, suc, ◌+◌, ◌-◌, ◌*◌, ◌<◌, ◌≡◌, refl, inl, inr, true, false, none, some,
  List, [], ◌∷◌, ◌++◌, arith, ◌==◌, get_elem?, drop, replicate,
}
use encoder_with_web_socket.Jpeg.{
  Bytes, Region, same_bytes, mark, visit, scan_row, scan_rows, changed_region,
}
use encoder_with_web_socket.Jpeg.Loop.{
  Captured, Compressor, TjCall, TjResult, image_message, held, resize, refresh, compare_prev, Input,
  tj_call, round, step, run, frame, send_full, stop,
}
use encoder_with_web_socket.Jpeg.Canvas.{pixel_at, Canvas, view}
use encoder_with_web_socket.Jpeg.Viewer.{fresh-Shows}
use encoder_with_web_socket.Jpeg.Viewer.Part.{IsCodec, Shows}
use encoder_with_web_socket.Jpeg.Failed.{images, run-failed}
use encoder_with_web_socket.Jpeg.Frame.{changed_region-misses}
use encoder_with_web_socket.Jpeg.Rounds.{deletions, received, run-deletions}
use encoder_with_web_socket.Jpeg.Numbers.{image_message_layout}

-- Two frames of two by two pixels that differ in their first byte.
abbrev black : Bytes
black = replicate 12 0

abbrev dotted : Bytes
dotted = 255 ∷ replicate 11 0

-- Two pixels side by side, with another blue in the second one.
abbrev pair : Bytes
pair = 1 ∷ 2 ∷ 3 ∷ 4 ∷ 5 ∷ 6 ∷ []

abbrev other_pair : Bytes
other_pair = 1 ∷ 2 ∷ 3 ∷ 4 ∷ 5 ∷ 9 ∷ []

pair-same : (k : ℕ) → k + 2 < 1 * 2 * 3 → get_elem? pair k ≡ get_elem? other_pair k
pair-same zero h = refl
pair-same (suc zero) h = refl
pair-same (suc (suc zero)) h = refl
pair-same (suc (suc (suc zero))) h = refl
pair-same (suc (suc (suc (suc k)))) h = absurd (omega arith)

changed_region-misses_example : (changed_region pair other_pair 2 1).is_changed ≡ false
changed_region-misses_example = changed_region-misses pair other_pair 2 1 pair-same

abbrev pub screen : Captured
screen = record { address = 5; bytes = dotted; width = 2; height = 2 }

abbrev pub next_screen : Captured
next_screen = record { address = 6; bytes = black; width = 2; height = 2 }

abbrev pub started : Compressor
started = record {
  stopped = false;
  full_flag = false;
  width = 2;
  height = 2;
  prev_buf = none;
  seq = 0;
}

-- A compressor whose jpeg is the number of columns.
abbrev pub columns : TjCall → TjResult
columns c = record { failed = false; jpeg = some (c.part_width ∷ []) }

abbrev pub inputs : List Input
inputs = frame screen ∷ frame next_screen ∷ send_full ∷ frame screen ∷ stop ∷ frame next_screen ∷ []

run-deletions_example :
    deletions (run columns started inputs).0 ++ held (run columns started inputs).1.prev_buf
    ≡ held none ++ received columns false inputs
run-deletions_example = run-deletions columns started inputs

abbrev box : Region
box = record { min_x = 1; min_y = 2; max_x = 4; max_y = 300; is_changed = true }

image_message_layout_example :
    let m = image_message 9 box (8 ∷ []) in
    (le_value (slice m 0 4) ≡ 9)
    × (le_value (slice m 4 4) ≡ 1)
    × (le_value (slice m 8 4) ≡ 2)
    × (le_value (slice m 12 4) ≡ 4 - 1)
    × (le_value (slice m 16 4) ≡ 300 - 2)
    × (drop 20 m ≡ 8 ∷ [])
image_message_layout_example =
    image_message_layout 9 box (8 ∷ []) (omega arith) (omega arith) (omega arith) (omega arith)
      (omega arith)

-- A compressor that keeps the frame, with its pitch and the place of the part in front.
abbrev pub keep : TjCall → TjResult
keep t = record { failed = false; jpeg = some (t.pitch ∷ t.x ∷ t.y ∷ t.source) }

abbrev pub unpack : Bytes → Canvas
unpack (w ∷ x ∷ y ∷ source) i j = pixel_at source w (y + i) (x + j)
unpack _ i j = (none, none, none)

pub keep-IsCodec : IsCodec keep unpack ◌≡◌
keep-IsCodec t hx hy w h p = (t.pitch ∷ t.x ∷ t.y ∷ t.source, refl, λ a b below right. refl)

abbrev pub blank : Canvas
blank i j = (none, none, none)

abbrev with_screen : Compressor
with_screen = record started { prev_buf = some screen }

fresh-Shows_example :
    let (es, d) = run keep started (frame screen ∷ send_full ∷ []) in
    Shows ◌≡◌ (view unpack (es ++ (round keep d next_screen).0) blank) next_screen
unfolding run step round resize refresh
fresh-Shows_example =
    fresh-Shows keep unpack ◌≡◌ started (frame screen ∷ send_full ∷ []) next_screen blank
      keep-IsCodec (inr (inl refl)) (omega arith, omega arith)

-- A compressor that fails on parts of one column.
abbrev fails_on_column : TjCall → TjResult
fails_on_column t = record { failed = t.part_width == 1; jpeg = some [] }

abbrev later_screen : Captured
later_screen = record next_screen { address = 7 }

run-failed_example :
    images (run fails_on_column with_screen (frame next_screen ∷ frame later_screen ∷ [])).0 ≡ []
unfolding compare_prev changed_region scan_rows scan_row visit same_bytes mark refresh resize
    tj_call
run-failed_example =
    run-failed fails_on_column with_screen next_screen (later_screen ∷ []) refl refl
      ((refl, refl, refl), tt)
