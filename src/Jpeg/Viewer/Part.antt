-- ===== src/Jpeg/Viewer/Part.antt =====
-- One image of the loop of JpegCompressor.cpp on a picture: the part that it covers, and the rest.
use encoder_with_web_socket.Prelude.{
  ℕ, ◌+◌, ◌-◌, ◌*◌, ◌^◌, ◌≤◌, ◌<◌, ◌≡◌, refl, Bool, true, false, some, arith,
}
use encoder_with_web_socket.Jpeg.Loop.{Captured, Compressor, TjCall, TjResult, tj_call, send_region}
use encoder_with_web_socket.Jpeg.Rounds.{send_region-made}
use encoder_with_web_socket.Jpeg.Canvas.{
  Pixel, pixel, pixel_at, pixel_at-width, Canvas, inside, view, paint-image_message,
}
use encoder_with_web_socket.Jpeg.{Bytes, Region, whole_region}

-- What the loop relies on: with `pitch` bytes from row to row of the source, `tjCompress2` makes a jpeg
-- of a part that lies in the frame and is not empty, whose pixels, decoded, are near those that it has
-- read. How near is left to `Near`.
abbrev pub IsCodec : (TjCall → TjResult) → (Bytes → Canvas) → (Pixel → Pixel → Type 0) → Type 0
IsCodec tj_compress decode Near =
    (t : TjCall)
    → t.x + t.part_width ≤ t.raw_width
    → t.y + t.part_height ≤ t.raw_height
    → 0 < t.part_width
    → 0 < t.part_height
    → 0 < t.pitch
    → (jpeg : Bytes) × (tj_compress t ≡ record { failed = false; jpeg = some jpeg })
      × ((a b : ℕ)
          → a < t.part_height
          → b < t.part_width
          → Near (decode jpeg a b) (pixel_at t.source t.pitch (t.y + a) (t.x + b)))

-- The picture is near the frame at every pixel.
abbrev pub Shows : (Pixel → Pixel → Type 0) → Canvas → Captured → Type 0
Shows Near canvas f =
    (i j : ℕ) → i < f.height → j < f.width → Near (canvas i j) (pixel f.bytes f.width i j)

abbrev pub IsSized : Captured → Type 0
IsSized f = (f.width < 256 ^ 4) × (f.height < 256 ^ 4)

-- The rectangle lies in the frame, and is not empty.
abbrev pub Fits : Region → Captured → Type 0
Fits r f = (r.min_x < r.max_x) × (r.max_x ≤ f.width) × (r.min_y < r.max_y) × (r.max_y ≤ f.height)

abbrev pub within : Region → ℕ → ℕ → Bool
within r i j = inside r.min_x r.min_y (r.max_x - r.min_x) (r.max_y - r.min_y) i j

module _ (tj_compress : TjCall → TjResult) (decode : Bytes → Canvas) (Near : Pixel → Pixel → Type 0)
    (codec : IsCodec tj_compress decode Near) where
  tj_call-made :
      (r : Region) (f : Captured)
      → Fits r f
      → (jpeg : Bytes) × (tj_call tj_compress r f ≡ record { failed = false; jpeg = some jpeg })
        × ((i j : ℕ)
            → within r i j ≡ true
            → Near
                (decode jpeg (i - r.min_y) (j - r.min_x))
                (pixel_at f.bytes ((r.max_x - r.min_x) * 3) i j))
  unfolding tj_call
  tj_call-made r f fits =
      let (jpeg, made, near) =
        codec
          (record {
            source = f.bytes;
            raw_width = f.width;
            pitch = (r.max_x - r.min_x) * 3;
            raw_height = f.height;
            x = r.min_x;
            y = r.min_y;
            part_width = r.max_x - r.min_x;
            part_height = r.max_y - r.min_y;
          })
          (omega (arith, fits)) (omega (arith, fits)) (omega (arith, fits)) (omega (arith, fits))
          (omega (arith, fits)) in
      (
        jpeg,
        made,
        λ i j w.
            let n = near (i - r.min_y) (j - r.min_x) (ground arith) (ground arith) in
            let a : r.min_y + (i - r.min_y) ≡ i = ground arith in
            let b : r.min_x + (j - r.min_x) ≡ j = ground arith in rw (a, b) at n,
      )

  -- The image of a region of a frame is painted over the region, with what has been read at the
  -- pitch of the region.
  pub send_region-inside :
      (c : Compressor) (r : Region) (f : Captured) (canvas : Canvas) (i j : ℕ)
      → IsSized f
      → Fits r f
      → r.is_changed ≡ true
      → within r i j ≡ true
      → Near
          (view decode (send_region tj_compress c r f).0 canvas i j)
          (pixel_at f.bytes ((r.max_x - r.min_x) * 3) i j)
  send_region-inside c r f canvas i j size fits changed w =
      let (jpeg, made, near) = tj_call-made r f fits in
      let p =
        paint-image_message decode c.seq r jpeg canvas i j (omega (arith, size, fits))
          (omega (arith, size, fits)) (omega (arith, fits)) (omega (arith, fits)) in
      rw (send_region-made tj_compress c r f jpeg changed made, p, w) (near i j w)

  -- A frame that is not compared goes out whole.
  pub whole-near :
      (c : Compressor) (f : Captured) (canvas : Canvas)
      → IsSized f
      → Shows Near
          (view decode (send_region tj_compress c (whole_region f.width f.height) f).0 canvas)
          f
  whole-near c f canvas size i j hi hj =
      let columns : f.width - 0 ≡ f.width = omega arith in
      let painted =
        send_region-inside c (whole_region f.width f.height) f canvas i j size
          (omega arith, omega arith, omega arith, omega arith) refl (ground arith) in
      let read = rw columns at painted in rw (pixel_at-width f.bytes f.width i j) at read
