-- ===== src/Jpeg/Failed.antt =====
-- A frame of JpegCompressor.cpp that `tjCompress2` fails on, and the frames behind it.
use encoder_with_web_socket.Prelude.{
  ◌≡◌, refl, ap, ◌∙◌, inl, inr, true, false, Option, none, some, List, [], ◌∷◌, ◌++◌, map, arith,
  ◌==◌, Option-cases, get_elem?,
}
use encoder_with_web_socket.Jpeg.Rounds.{
  prepared, head-prev, send_region_lem, round-stopped, send_region-size,
}
use encoder_with_web_socket.Jpeg.Loop.{
  Captured, Compressor, TjCall, TjResult, Event, held, resize, refresh, compare_prev, Input,
  tj_call, finish, send_region, round, step, run, image_init, deleted, image, frame,
}
use encoder_with_web_socket.Jpeg.{Bytes, Region}
use encoder_with_web_socket.Jpeg.Frame.{changed_region-misses}

-- The messages that go out, in order.
abbrev pub images : List Event → List Bytes
images [] = []
images (image m ∷ es) = m ∷ images es
images (image_init w h ∷ es) = images es
images (deleted a ∷ es) = images es

images-append : (es fs : List Event) → images (es ++ fs) ≡ images es ++ images fs
images-append [] fs = refl
images-append (image m ∷ es) fs = ap (◌∷◌ m) (images-append es fs)
images-append (image_init w h ∷ es) fs = images-append es fs
images-append (deleted a ∷ es) fs = images-append es fs

resize-images : (c : Compressor) (f : Captured) → images (resize c f).0 ≡ []
unfolding resize
resize-images c f = elim (Option-cases c.prev_buf) [
  | inl e ↦ simp e (ground arith)
  | inr (p, e) ↦ simp e (ground arith)
]

refresh-images : (c : Compressor) → images (refresh c).0 ≡ []
unfolding refresh
refresh-images c = elim (Option-cases c.prev_buf) [
  | inl e ↦ simp e (ground arith)
  | inr (p, e) ↦ simp e (ground arith)
]

held-images : (o : Option Captured) → images (map deleted (held o)) ≡ []
held-images none = refl
held-images (some f) = refl

-- The same picture on a screen of the same size.
abbrev pub SamePicture : Captured → Captured → Type 0
SamePicture f g = (f.bytes ≡ g.bytes) × (f.width ≡ g.width) × (f.height ≡ g.height)

abbrev pub AllSamePicture : Captured → List Captured → Type 0
AllSamePicture f [] = Unit {0}
AllSamePicture f (g ∷ gs) = SamePicture f g × AllSamePicture g gs

-- The loop holds the frame, and nothing else asks it for a whole one.
abbrev Holds : Compressor → Captured → Type 0
Holds c f =
    (c.stopped ≡ false)
    × (c.full_flag ≡ false)
    × (c.prev_buf ≡ some f)
    × (c.width ≡ f.width)
    × (c.height ≡ f.height)

module _ (tj_compress : TjCall → TjResult) where
  finish-flag :
      (c : Compressor) (r : Region) (t : TjResult) (o : Option Bytes)
      → (finish tj_compress c r t o).1.full_flag ≡ c.full_flag
  finish-flag c r t none = refl
  finish-flag c r t (some jpeg) = ground arith

  send_region-flag :
      (c : Compressor) (r : Region) (f : Captured)
      → (send_region tj_compress c r f).1.full_flag ≡ c.full_flag
  unfolding send_region
  send_region-flag c r f =
      let t = tj_call tj_compress r f in ground (arith, finish-flag c r t t.jpeg)

  -- What a round sends is what its last part sends.
  round-images :
      (c : Compressor) (f : Captured)
      → let d = (refresh (resize c f).1).1 in
        images (round tj_compress c f).0
        ≡ images
            (send_region tj_compress
              (record d { prev_buf = some f })
              (compare_prev d.prev_buf f)
              f).0
  unfolding round
  round-images c f =
      let (e1, c1) = resize c f in
      let (e2, c2) = refresh c1 in
      rw
        (
          images-append e1,
          images-append e2,
          images-append (map deleted (held c2.prev_buf)),
          resize-images c f,
          refresh-images c1,
          held-images c2.prev_buf,
        )
        refl

  round-Holds :
      (c : Compressor) (f : Captured) → c.stopped ≡ false → Holds (round tj_compress c f).1 f
  unfolding round
  round-Holds c f running =
      let d = (refresh (resize c f).1).1 in
      let r = compare_prev d.prev_buf f in
      let e = record d { prev_buf = some f } in
      let (w, h) = send_region-size tj_compress e r f in
      let (dw, dh, _) = head-prev c f in
      let p = prepared c f in
      (
        round-stopped tj_compress c f ∙ running,
        send_region-flag e r f ∙ p.2,
        (send_region_lem tj_compress e r f).1,
        w ∙ dw,
        h ∙ dh,
      )

  still-head :
      (c : Compressor) (g : Captured)
      → c.full_flag ≡ false
      → c.width ≡ g.width
      → c.height ≡ g.height
      → (refresh (resize c g).1).1 ≡ c
  unfolding resize refresh
  still-head c g e w h =
      let a : (c.width == g.width) ≡ true = ground arith in
      let b : (c.height == g.height) ≡ true = ground arith in simp (a, b, e)

  still-round :
      (c : Compressor) (f g : Captured)
      → Holds c f
      → SamePicture f g
      → images (round tj_compress c g).0 ≡ []
  unfolding compare_prev send_region
  still-round c f g (running, flag, prev, w, h) (bytes, fw, fh) =
      let still =
        changed_region-misses f.bytes g.bytes g.width g.height
          (λ k b. ap (λ (s : Bytes). get_elem? s k) bytes) in
      round-images c g ∙ rw (still-head c g flag (w ∙ fw) (h ∙ fh), prev, still) refl

  run-frame :
      (c : Compressor) (f : Captured) (is : List Input)
      → c.stopped ≡ false
      → (run tj_compress c (frame f ∷ is)).0
        ≡ (round tj_compress c f).0 ++ (run tj_compress (round tj_compress c f).1 is).0
  unfolding run step
  run-frame c f is running = simp running

  still-run :
      (c : Compressor) (f : Captured) (gs : List Captured)
      → Holds c f
      → AllSamePicture f gs
      → images (run tj_compress c (map frame gs)).0 ≡ []
  unfolding run
  still-run c f [] holds same = refl
  still-run c f (g ∷ gs) holds same =
      let r = round tj_compress c g in
      let is = map frame gs in
      rw
        (
          run-frame c g is holds.0,
          images-append r.0 (run tj_compress r.1 is).0,
          still-round c f g holds same.0,
        )
        (still-run r.1 g gs (round-Holds c g holds.0) same.1)

  finish-failed :
      (c : Compressor) (r : Region) (t : TjResult) (o : Option Bytes)
      → t.failed ≡ true
      → finish tj_compress c r t o ≡ ([], c)
  finish-failed c r t none e = refl
  finish-failed c r t (some jpeg) e = rw e refl

  send_region-failed :
      (c : Compressor) (r : Region) (f : Captured)
      → (tj_call tj_compress r f).failed ≡ true
      → send_region tj_compress c r f ≡ ([], c)
  unfolding send_region
  send_region-failed c r f bad =
      let t = tj_call tj_compress r f in ground (arith, finish-failed c r t t.jpeg bad)

  -- A frame on which `tjCompress2` fails is not sent, and neither is any frame of the same picture
  -- behind it, however many they are, until `sendFull` or `stop` is called: the loop compares them
  -- with the frame that it has not sent.
  pub run-failed :
      (c : Compressor) (f : Captured) (gs : List Captured)
      → c.stopped ≡ false
      → (tj_call tj_compress (compare_prev (refresh (resize c f).1).1.prev_buf f) f).failed ≡ true
      → AllSamePicture f gs
      → images (run tj_compress c (frame f ∷ map frame gs)).0 ≡ []
  run-failed c f gs running bad same =
      let r = round tj_compress c f in
      let is = map frame gs in
      let d = (refresh (resize c f).1).1 in
      let e = record d { prev_buf = some f } in
      rw
        (
          run-frame c f is running,
          images-append r.0 (run tj_compress r.1 is).0,
          round-images c f,
          send_region-failed e (compare_prev d.prev_buf f) f bad,
        )
        (still-run r.1 f gs (round-Holds c f running) same)
