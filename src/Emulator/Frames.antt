-- ===== src/Emulator/Frames.antt =====
-- The frames that `request_video_callback` copies, row by row, out of the line buffer.
use encoder_with_web_socket.Prelude.{
  take-append, drop-append, slice, drop-drop, ℕ, zero, suc, ◌+◌, ◌*◌, ◌≤◌, ◌<◌, ◌≡◌, refl, subst,
  ◌↔◌, inl, inr, ◌&&◌, Option, none, some, ◌++◌, arith, ◌==◌, Bool-cases, length, length-append,
}
use encoder_with_web_socket.Emulator.{
  Bytes, Surface, Emulator, qemu_video_init, copy_rows, fit_linebuf, copy_frame,
  request_video_callback,
}

-- Every row that is filled has three bytes for each pixel.
abbrev pub RowSized : Surface → Type 0
RowSized s = (w y : ℕ) → length (s.row w y) ≡ w * 3

length-copy_rows :
    (s : Surface) (w y n : ℕ) → RowSized s → length (copy_rows s.row w y n) ≡ n * (w * 3)
unfolding copy_rows
length-copy_rows s w y zero h = omega arith
length-copy_rows s w y (suc n) h =
    rw (length-append, h w y, length-copy_rows s w (y + 1) n h) (omega arith)

slice-copy_rows :
    (s : Surface) (w y n k : ℕ)
    → RowSized s
    → k < n
    → slice (copy_rows s.row w y n) (k * (w * 3)) (w * 3) ≡ s.row w (y + k)
unfolding copy_rows slice
slice-copy_rows s w y zero k h l = absurd (omega arith)
slice-copy_rows s w y (suc n) zero h l =
    let e : y + 0 ≡ y = omega arith in
    let z : 0 * (w * 3) ≡ 0 = omega arith in
    rw (e, z) (take-append (s.row w y) (copy_rows s.row w (y + 1) n) (w * 3) (h w y))
slice-copy_rows s w y (suc n) (suc k) h l =
    let rest = copy_rows s.row w (y + 1) n in
    let e : suc k * (w * 3) ≡ w * 3 + k * (w * 3) = omega arith in
    let f : y + suc k ≡ y + 1 + k = omega arith in
    let d = drop-append (s.row w y) rest (w * 3) (h w y) in
    rw (e, ← drop-drop (w * 3) (k * (w * 3)) (s.row w y ++ rest), d, f)
      (slice-copy_rows s w (y + 1) n k h (omega arith))

-- The screen has the size that the variables hold, and the line buffer is shorter than its rows.
abbrev pub IsStale : Surface → Emulator → ℕ → Type 0
IsStale s e l = (s.width ≡ e.width) × (s.height ≡ e.height) × (l < s.width)

-- With a line buffer of the width `l`, a frame reads past its end exactly if `l` is less than the
-- width of a screen whose size the variables of the file already hold.
pub request_video_callback-IsStale :
    (s : Surface) (e : Emulator) (l : ℕ)
    → e.linebuf ≡ some l
    → (request_video_callback s e ≡ none) ↔ IsStale s e l
unfolding request_video_callback fit_linebuf
request_video_callback-IsStale s e l h = rw h (ground arith)

fit_linebuf-size :
    (s : Surface) (e : Emulator)
    → ((fit_linebuf s e).width ≡ s.width) × ((fit_linebuf s e).height ≡ s.height)
unfolding fit_linebuf
fit_linebuf-size s e = ground arith

copy_frame-some :
    (s : Surface) (e : Emulator) (l : Option ℕ) (frame : Bytes) (e' : Emulator)
    → copy_frame s e l ≡ some (frame, e')
    → (frame ≡ copy_rows s.row e.width 0 e.height) × (e' ≡ e)
copy_frame-some s e none frame e' r = cc
copy_frame-some s e (some l) frame e' r = ground arith

-- If every row that is filled has three bytes for each pixel, a frame has as many bytes as are
-- allocated for the size of the screen, and its rows in turn; the variables then hold that size.
request_video_callback-rows :
    (s : Surface) (e : Emulator) (frame : Bytes) (e' : Emulator)
    → RowSized s
    → request_video_callback s e ≡ some (frame, e')
    → (length frame ≡ s.height * (s.width * 3))
      × ((y : ℕ) → y < s.height → slice frame (y * (s.width * 3)) (s.width * 3) ≡ s.row s.width y)
      × (e'.width ≡ s.width)
      × (e'.height ≡ s.height)
unfolding request_video_callback
request_video_callback-rows s e frame e' h r =
    let e1 = fit_linebuf s e in
    let (p, q) = copy_frame-some s e1 e1.linebuf frame e' r in
    let (w, t) = fit_linebuf-size s e in
    rw (p, q, w, t)
      (
        length-copy_rows s s.width 0 s.height h,
        (λ y k.
            let z : 0 + y ≡ y = omega arith in
            subst
              (λ v.
                slice (copy_rows s.row s.width 0 s.height) (y * (s.width * 3)) (s.width * 3)
                ≡ s.row s.width v)
              z (slice-copy_rows s s.width 0 s.height y h k)),
        refl,
        refl,
      )

-- The line buffer is as wide as the rows that are read.
abbrev pub Fits : Emulator → Type 0
Fits e = (l : ℕ) × (e.linebuf ≡ some l) × (e.width ≤ l)

copy_frame-Fits :
    (s : Surface) (e : Emulator)
    → Fits e
    → copy_frame s e e.linebuf ≡ some (copy_rows s.row e.width 0 e.height, e)
copy_frame-Fits s e (l, p, h) = rw p (ground arith)

fit_linebuf-Fits : (s : Surface) (e : Emulator) → Fits e → Fits (fit_linebuf s e)
unfolding fit_linebuf
fit_linebuf-Fits s e (l, p, h) =
    elim (Bool-cases ((s.width == e.width) && (s.height == e.height))) [
      | inl k ↦ rw k (l, p, h)
      | inr k ↦ rw k (s.width, refl, omega arith)
    ]

-- Once the line buffer is as wide as a row of the known size, a frame is copied whatever the size of
-- the screen is by then, and the line buffer still is; it is so behind `qemu_video_init` exactly if
-- the variables hold no wider screen than the one there is.
request_video_callback-Fits :
    (s : Surface) (e : Emulator)
    → (Fits e
        → (frame : Bytes) × (e' : Emulator) × (request_video_callback s e ≡ some (frame, e'))
          × Fits e')
      × (Fits (qemu_video_init s e).1 ↔ (e.width ≤ s.width))
unfolding request_video_callback qemu_video_init
request_video_callback-Fits s e = (
  (λ f.
      let e1 = fit_linebuf s e in
      let g = fit_linebuf-Fits s e f in
      (copy_rows s.row e1.width 0 e1.height, e1, copy_frame-Fits s e1 g, g)),
  ((λ (l, p, h). ground arith), (λ h. (s.width, refl, h))),
)
