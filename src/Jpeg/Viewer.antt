-- ===== src/Jpeg/Viewer.antt =====
-- What a client of the loop of JpegCompressor.cpp sees, where `tjCompress2` reads at its pitch.
pub mod Part
use encoder_with_web_socket.Prelude.{
  ◌≡◌, refl, sym, ◌∙◌, ◌⊎◌, inl, inr, Option, none, some, List, [], ◌∷◌, ◌++◌, map, arith,
  Bool-cases, Option-cases,
}
use encoder_with_web_socket.Jpeg.Loop.{
  Captured, Compressor, TjCall, TjResult, Event, held, resize, refresh, compare_prev, Input,
  send_region, round, step, run, deleted, frame, send_full, stop,
}
use encoder_with_web_socket.Jpeg.Rounds.{IsFresh, IsFresh-prev_buf}
use encoder_with_web_socket.Jpeg.Canvas.{Pixel, Canvas, view, view-append}
use encoder_with_web_socket.Jpeg.{Bytes}
use encoder_with_web_socket.Jpeg.Viewer.Part.{IsCodec, Shows, IsSized, whole-near}

module _ (tj_compress : TjCall → TjResult) (decode : Bytes → Canvas) (Near : Pixel → Pixel → Type 0)
    (codec : IsCodec tj_compress decode Near) where
  resize-view :
      (c : Compressor) (f : Captured) (canvas : Canvas) → view decode (resize c f).0 canvas ≡ canvas
  unfolding resize
  resize-view c f canvas = elim (Option-cases c.prev_buf) [
    | inl e ↦ simp e (ground arith)
    | inr (p, e) ↦ simp e (ground arith)
  ]

  refresh-view : (c : Compressor) (canvas : Canvas) → view decode (refresh c).0 canvas ≡ canvas
  unfolding refresh
  refresh-view c canvas = elim (Option-cases c.prev_buf) [
    | inl e ↦ simp e (ground arith)
    | inr (p, e) ↦ simp e (ground arith)
  ]

  held-view :
      (o : Option Captured) (canvas : Canvas) → view decode (map deleted (held o)) canvas ≡ canvas
  held-view none canvas = refl
  held-view (some f) canvas = refl

  -- The two tests at the head of a round, and the deletion of the frame before, paint nothing.
  head-view :
      (c : Compressor) (f : Captured) (canvas : Canvas) (es : List Event)
      → let (e1, c1) = resize c f in
        let (e2, c2) = refresh c1 in
        view decode (e1 ++ (e2 ++ (map deleted (held c2.prev_buf) ++ es))) canvas
        ≡ view decode es canvas
  head-view c f canvas es =
      let (e1, c1) = resize c f in
      let (e2, c2) = refresh c1 in
      let e3 = map deleted (held c2.prev_buf) in
      rw
        (
          view-append decode e1 (e2 ++ (e3 ++ es)) canvas,
          resize-view c f canvas,
          view-append decode e2 (e3 ++ es) canvas,
          refresh-view c1 canvas,
          view-append decode e3 es canvas,
          held-view c2.prev_buf canvas,
        )
        refl

  round-view :
      (c : Compressor) (f : Captured) (canvas : Canvas)
      → let d = (refresh (resize c f).1).1 in
        view decode (round tj_compress c f).0 canvas
        ≡ view decode
            (send_region tj_compress
              (record d { prev_buf = some f })
              (compare_prev d.prev_buf f)
              f).0
            canvas
  unfolding round
  round-view c f canvas =
      let d = (refresh (resize c f).1).1 in
      head-view c f canvas
        (send_region tj_compress (record d { prev_buf = some f }) (compare_prev d.prev_buf f) f).0

-- A round at whose head nothing is left to compare with (the first one, one with a new size, one behind
-- a call of `sendFull`) shows its frame at every pixel to a client that paints every image at its place,
-- whatever went before in the run and whatever the client saw. The sizes are below 2³², and
-- `tjCompress2` makes a jpeg of what it reads.
pub fresh-Shows :
    (tj_compress : TjCall → TjResult) (decode : Bytes → Canvas) (Near : Pixel → Pixel → Type 0)
    (c : Compressor) (is : List Input) (f : Captured) (canvas : Canvas)
    → IsCodec tj_compress decode Near
    → IsFresh (run tj_compress c is).1 f
    → IsSized f
    → let (es, d) = run tj_compress c is in
      Shows Near (view decode (es ++ (round tj_compress d f).0) canvas) f
unfolding compare_prev
fresh-Shows tj_compress decode Near c is f canvas codec fresh size =
    let (es, d) = run tj_compress c is in
    let e = (refresh (resize d f).1).1 in
    let seen = view decode es canvas in
    rw
      (
        view-append decode es (round tj_compress d f).0 canvas,
        round-view tj_compress decode Near codec d f seen,
        IsFresh-prev_buf d f fresh,
      )
      (whole-near tj_compress decode Near codec (record e { prev_buf = some f }) f seen size)
