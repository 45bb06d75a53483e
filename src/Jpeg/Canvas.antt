-- ===== src/Jpeg/Canvas.antt =====
-- The picture of a client of the loop of JpegCompressor.cpp, which paints each image at its place.
use encoder_with_web_socket.Prelude.{
  le_value-le_bytes, le_bytes, le_value, slice, ℕ, ◌+◌, ◌-◌, ◌*◌, ◌^◌, ◌≤◌, ◌<◌, ◌≡◌, refl, Bool,
  ◌&&◌, Option, List, [], ◌∷◌, ◌++◌, arith, ltb, leb, if◌then◌else◌, get_elem?, drop,
}
use encoder_with_web_socket.Jpeg.Loop.{Event, image_message, image_init, deleted, image}
use encoder_with_web_socket.Jpeg.{Bytes, Region}

-- The red, green and blue of a pixel in a frame whose rows have `width` pixels.
abbrev pub Pixel : Type 0
Pixel = Option ℕ × Option ℕ × Option ℕ

abbrev pub pixel : Bytes → ℕ → ℕ → ℕ → Pixel
pixel bytes width i j =
    let o = i * width * 3 + j * 3 in
    (get_elem? bytes o, get_elem? bytes (o + 1), get_elem? bytes (o + 2))

-- The pixel at row `i` and column `j` of what is read with `pitch` bytes from row to row.
abbrev pub pixel_at : Bytes → ℕ → ℕ → ℕ → Pixel
pixel_at bytes pitch i j =
    let o = i * pitch + j * 3 in
    (get_elem? bytes o, get_elem? bytes (o + 1), get_elem? bytes (o + 2))

pub pixel_at-width :
    (bytes : Bytes) (width i j : ℕ) → pixel_at bytes (width * 3) i j ≡ pixel bytes width i j
pixel_at-width bytes width i j = let e : i * (width * 3) ≡ i * width * 3 = grind arith in rw e refl

-- A picture, by row and column.
abbrev pub Canvas : Type 0
Canvas = ℕ → ℕ → Pixel

-- The rectangle at column `x` and row `y`, of `w` columns and `h` rows, has row `i` and column `j`.
abbrev pub inside : ℕ → ℕ → ℕ → ℕ → ℕ → ℕ → Bool
inside x y w h i j = (leb x j && ltb j (x + w)) && (leb y i && ltb i (y + h))

module _ (decode : Bytes → Canvas) where
  -- The jpeg behind the five numbers of a message is painted into the rectangle that they name.
  unfoldable pub paint : Bytes → Canvas → Canvas
  paint m canvas i j =
      let x = le_value (slice m 4 4) in
      let y = le_value (slice m 8 4) in
      let w = le_value (slice m 12 4) in
      let h = le_value (slice m 16 4) in
      if inside x y w h i j then decode (drop 20 m) (i - y) (j - x) else canvas i j

  abbrev pub view : List Event → Canvas → Canvas
  view [] canvas = canvas
  view (image m ∷ es) canvas = view es (paint m canvas)
  view (image_init w h ∷ es) canvas = view es canvas
  view (deleted a ∷ es) canvas = view es canvas

  pub view-append :
      (es fs : List Event) (canvas : Canvas) → view (es ++ fs) canvas ≡ view fs (view es canvas)
  view-append [] fs canvas = refl
  view-append (image m ∷ es) fs canvas = view-append es fs (paint m canvas)
  view-append (image_init w h ∷ es) fs canvas = view-append es fs canvas
  view-append (deleted a ∷ es) fs canvas = view-append es fs canvas

  -- An image that the loop has built is painted into its region, if the region's corners are below
  -- 2³².
  pub paint-image_message :
      (seq : ℕ) (r : Region) (jpeg : Bytes) (canvas : Canvas) (i j : ℕ)
      → r.max_x < 256 ^ 4
      → r.max_y < 256 ^ 4
      → r.min_x ≤ r.max_x
      → r.min_y ≤ r.max_y
      → paint (image_message seq r jpeg) canvas i j ≡ (
          if inside r.min_x r.min_y (r.max_x - r.min_x) (r.max_y - r.min_y) i j
          then decode jpeg (i - r.min_y) (j - r.min_x)
          else canvas i j)
  unfolding paint image_message slice le_bytes
  paint-image_message seq r jpeg canvas i j hx hy px py =
      rw
        (
          le_value-le_bytes 4 r.min_x (omega arith),
          le_value-le_bytes 4 r.min_y (omega arith),
          le_value-le_bytes 4 (r.max_x - r.min_x) (omega arith),
          le_value-le_bytes 4 (r.max_y - r.min_y) (omega arith),
        )
        refl
