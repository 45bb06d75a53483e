-- ===== src/Jpeg/Rounds.antt =====
-- The rounds of `compressJpegLoop`: who owns the frames, what is sent, and how it is numbered.
use encoder_with_web_socket.Prelude.{
  ℕ, ◌+◌, ◌≡◌, refl, sym, ap, ◌∙◌, ◌≢◌, ◌⊎◌, inl, inr, Bool, true, false, Option, none, some, List,
  [], ◌∷◌, ◌++◌, map, append_assoc, append-nil, arith, if◌then◌else◌, Bool-cases,
}
use encoder_with_web_socket.Jpeg.{Bytes, Region, whole_region}
use encoder_with_web_socket.Jpeg.Loop.{
  Captured, Compressor, TjCall, TjResult, Event, image_message, held, resize, refresh, compare_prev,
  Input, tj_call, finish, send_region, round, step, run, image_init, deleted, image, frame,
  send_full, stop,
}

-- The buffers that are deleted, in order.
abbrev pub deletions : List Event → List ℕ
deletions [] = []
deletions (deleted a ∷ es) = a ∷ deletions es
deletions (image_init w h ∷ es) = deletions es
deletions (image m ∷ es) = deletions es

deletions-append : (xs ys : List Event) → deletions (xs ++ ys) ≡ deletions xs ++ deletions ys
deletions-append [] ys = refl
deletions-append (deleted a ∷ es) ys = ap (◌∷◌ a) (deletions-append es ys)
deletions-append (image_init w h ∷ es) ys = deletions-append es ys
deletions-append (image m ∷ es) ys = deletions-append es ys

deletions-held : (o : Option Captured) → deletions (map deleted (held o)) ≡ held o
deletions-held none = refl
deletions-held (some f) = refl

-- A part of a round keeps every frame: what it deletes and what it holds on to is what it held.
abbrev Keeps : Compressor → List Event × Compressor → Type 0
Keeps c r = deletions r.0 ++ held r.1.prev_buf ≡ held c.prev_buf

resize-Keeps : (c : Compressor) (f : Captured) → Keeps c (resize c f)
unfolding resize
resize-Keeps c f = ground (arith, deletions-held c.prev_buf, append-nil (held c.prev_buf))

refresh-Keeps : (c : Compressor) → Keeps c (refresh c)
unfolding refresh
refresh-Keeps c = ground (arith, deletions-held c.prev_buf, append-nil (held c.prev_buf))

-- The two tests at the head of a round leave the number, the stop flag and no open request.
pub prepared :
    (c : Compressor) (f : Captured)
    → let d = (refresh (resize c f).1).1 in
      (d.seq ≡ c.seq) × (d.stopped ≡ c.stopped) × (d.full_flag ≡ false)
unfolding resize refresh
prepared c f = (ground arith, ground arith, ground arith)

-- What a frame is compared with is gone after a change of size or a call of `sendFull`.
abbrev pub IsFresh : Compressor → Captured → Type 0
IsFresh c f =
    (c.prev_buf ≡ none) ⊎ (c.full_flag ≡ true) ⊎ (c.width ≢ f.width) ⊎ (c.height ≢ f.height)

pub IsFresh-prev_buf :
    (c : Compressor) (f : Captured) → IsFresh c f → (refresh (resize c f).1).1.prev_buf ≡ none
unfolding resize refresh
IsFresh-prev_buf c f h = ground arith

-- A frame that is compared has the size of the frame at hand, and is the one the loop held.
pub head-prev :
    (c : Compressor) (f : Captured)
    → let d = (refresh (resize c f).1).1 in
      (d.width ≡ f.width)
      × (d.height ≡ f.height)
      × ((d.prev_buf ≡ none)
          ⊎ ((d.prev_buf ≡ c.prev_buf) × (c.width ≡ f.width) × (c.height ≡ f.height)))
unfolding resize refresh
head-prev c f = (ground arith, ground arith, ground arith)

deletions-chain :
    (es fs : List Event) (x y z h : List ℕ)
    → deletions es ++ x ≡ y
    → deletions fs ++ h ≡ x ++ z
    → deletions (es ++ fs) ++ h ≡ y ++ z
deletions-chain es fs x y z h p q =
    rw (deletions-append es fs, append_assoc, q, ← append_assoc, p) refl

module _ (tj_compress : TjCall → TjResult) where
  finish_lem :
      (c : Compressor) (r : Region) (t : TjResult) (o : Option Bytes)
      → (deletions (finish tj_compress c r t o).0 ≡ [])
        × ((finish tj_compress c r t o).1.prev_buf ≡ c.prev_buf)
  finish_lem c r t none = (refl, refl)
  finish_lem c r t (some jpeg) = ground arith

  pub send_region_lem :
      (c : Compressor) (r : Region) (f : Captured)
      → (deletions (send_region tj_compress c r f).0 ≡ [])
        × ((send_region tj_compress c r f).1.prev_buf ≡ c.prev_buf)
  unfolding send_region
  send_region_lem c r f = let t = tj_call tj_compress r f in ground (arith, finish_lem c r t t.jpeg)

  round-deletions :
      (c : Compressor) (f : Captured)
      → deletions (round tj_compress c f).0 ++ held (round tj_compress c f).1.prev_buf
        ≡ held c.prev_buf ++ f.address ∷ []
  unfolding round
  round-deletions c f =
      let (e1, c1) = resize c f in
      let (e2, c2) = refresh c1 in
      let r = compare_prev c2.prev_buf f in
      let s = send_region_lem (record c2 { prev_buf = some f }) r f in
      let e3 = (send_region tj_compress (record c2 { prev_buf = some f }) r f).0 in
      rw
        (
          deletions-append e1,
          deletions-append e2,
          deletions-append (map deleted (held c2.prev_buf)),
          deletions-held c2.prev_buf,
          s.0,
          s.1,
          append-nil (held c2.prev_buf),
          refresh-Keeps c1,
          resize-Keeps c f,
        )
        refl

  finish-stopped :
      (c : Compressor) (r : Region) (t : TjResult) (o : Option Bytes)
      → (finish tj_compress c r t o).1.stopped ≡ c.stopped
  finish-stopped c r t none = refl
  finish-stopped c r t (some jpeg) = ground arith

  send_region-stopped :
      (c : Compressor) (r : Region) (f : Captured)
      → (send_region tj_compress c r f).1.stopped ≡ c.stopped
  unfolding send_region
  send_region-stopped c r f =
      let t = tj_call tj_compress r f in ground (arith, finish-stopped c r t t.jpeg)

  pub round-stopped :
      (c : Compressor) (f : Captured) → (round tj_compress c f).1.stopped ≡ c.stopped
  unfolding round
  round-stopped c f =
      let c2 = (refresh (resize c f).1).1 in
      send_region-stopped (record c2 { prev_buf = some f }) (compare_prev c2.prev_buf f) f
      ∙ (prepared c f).1

  -- The buffers that the loop has received: none after a `stop()`.
  abbrev pub received : Bool → List Input → List ℕ
  received b [] = []
  received b (frame f ∷ is) = (if b then [] else f.address ∷ []) ++ received b is
  received b (send_full ∷ is) = received b is
  received b (stop ∷ is) = received true is

  step-deletions :
      (c : Compressor) (i : Input)
      → deletions (step tj_compress c i).0 ++ held (step tj_compress c i).1.prev_buf
        ≡ held c.prev_buf ++ received c.stopped (i ∷ [])
  unfolding step
  step-deletions c (frame f) = elim (Bool-cases c.stopped) [
    | inl s ↦ simp (s, append-nil)
    | inr s ↦ simp (s, round-deletions c f, append-nil)
  ]
  step-deletions c send_full = sym (append-nil (held c.prev_buf))
  step-deletions c stop = sym (append-nil (held c.prev_buf))

  received-step :
      (c : Compressor) (i : Input) (is : List Input)
      → received c.stopped (i ∷ []) ++ received (step tj_compress c i).1.stopped is
        ≡ received c.stopped (i ∷ is)
  unfolding step
  received-step c (frame f) is = elim (Bool-cases c.stopped) [
    | inl s ↦ simp s
    | inr s ↦ simp (s, round-stopped c f)
  ]
  received-step c send_full is = refl
  received-step c stop is = refl

  -- Every buffer that `requestVideo` has handed over is deleted exactly once and in order, but the
  -- last one, which the loop still holds.
  pub run-deletions :
      (c : Compressor) (is : List Input)
      → deletions (run tj_compress c is).0 ++ held (run tj_compress c is).1.prev_buf
        ≡ held c.prev_buf ++ received c.stopped is
  unfolding run
  run-deletions c [] = sym (append-nil (held c.prev_buf))
  run-deletions c (i ∷ is) =
      let (es, d) = step tj_compress c i in
      let r = run tj_compress d is in
      deletions-chain es r.0 (held d.prev_buf) _ (received d.stopped is) (held r.1.prev_buf)
        (step-deletions c i) (run-deletions d is)
      ∙ (append_assoc (held c.prev_buf) _ _ ∙ ap (◌++◌ (held c.prev_buf)) (received-step c i is))

  finish-size :
      (c : Compressor) (r : Region) (t : TjResult) (o : Option Bytes)
      → let d = (finish tj_compress c r t o).1 in (d.width ≡ c.width) × (d.height ≡ c.height)
  finish-size c r t none = (refl, refl)
  finish-size c r t (some jpeg) = ground arith

  pub send_region-size :
      (c : Compressor) (r : Region) (f : Captured)
      → let d = (send_region tj_compress c r f).1 in (d.width ≡ c.width) × (d.height ≡ c.height)
  unfolding send_region
  send_region-size c r f =
      let t = tj_call tj_compress r f in ground (arith, finish-size c r t t.jpeg)

  pub send_region-made :
      (c : Compressor) (r : Region) (f : Captured) (j : Bytes)
      → r.is_changed ≡ true
      → tj_call tj_compress r f ≡ record { failed = false; jpeg = some j }
      → send_region tj_compress c r f
        ≡ (image (image_message c.seq r j) ∷ [], record c { seq = c.seq + 1 })
  unfolding send_region
  send_region-made c r f j changed made = simp (made, changed)

  -- The first frame, the first one of a new size and the first one behind a call of `sendFull` go
  -- out whole, behind the other events of the round, if the compressor makes a jpeg of them without
  -- an error, and the call of `sendFull` is answered.
  pub round-whole :
      (c : Compressor) (f : Captured) (j : Bytes)
      → IsFresh c f
      → tj_call tj_compress (whole_region f.width f.height) f
        ≡ record { failed = false; jpeg = some j }
      → (es : List Event) × ((round tj_compress c f).0
          ≡ es ++ image (image_message c.seq (whole_region f.width f.height) j) ∷ [])
        × ((round tj_compress c f).1.full_flag ≡ false)
  unfolding round compare_prev
  round-whole c f j fresh made =
      let (e1, c1) = resize c f in
      let (e2, c2) = refresh c1 in
      let p = prepared c f in
      let q = IsFresh-prev_buf c f fresh in
      let whole = whole_region f.width f.height in
      let sent = send_region-made (record c2 { prev_buf = some f }) whole f j refl made in
      (e1 ++ e2, rw (q, sent, p.0) (sym (append_assoc e1 e2 _)), rw (q, sent) p.2)
