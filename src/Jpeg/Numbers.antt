-- ===== src/Jpeg/Numbers.antt =====
-- The messages of the compressor: their layout and their numbers.
use encoder_with_web_socket.Prelude.{
  length-le_bytes, le_value-le_bytes, take-append, le_bytes, le_value, slice, ℕ, ◌+◌, ◌-◌, ◌^◌, ◌≤◌,
  ◌<◌, ◌≡◌, refl, subst, inl, inr, Option, none, some, List, [], ◌∷◌, ◌++◌, map, arith, Bool-cases,
  take, drop,
}
use encoder_with_web_socket.Jpeg.{Bytes, Region}
use encoder_with_web_socket.Jpeg.Rounds.{prepared}
use encoder_with_web_socket.Jpeg.Loop.{
  Captured, Compressor, TjCall, TjResult, Event, image_message, held, resize, refresh, compare_prev,
  Input, tj_call, finish, send_region, round, step, run, image_init, deleted, image, frame,
  send_full, stop,
}

-- The images carry the numbers from `n` up to `m`.
abbrev pub Numbered : ℕ → List Event → ℕ → Type 0
Numbered n [] m = n ≡ m
Numbered n (image b ∷ es) m = (take 4 b ≡ le_bytes 4 n) × Numbered (n + 1) es m
Numbered n (image_init w h ∷ es) m = Numbered n es m
Numbered n (deleted a ∷ es) m = Numbered n es m

Numbered-append :
    (n : ℕ) (es fs : List Event) (k m : ℕ)
    → Numbered n es k
    → Numbered k fs m
    → Numbered n (es ++ fs) m
Numbered-append n [] fs k m p q = rw p q
Numbered-append n (image b ∷ es) fs k m p q = (p.0, Numbered-append (n + 1) es fs k m p.1 q)
Numbered-append n (image_init w h ∷ es) fs k m p q = Numbered-append n es fs k m p q
Numbered-append n (deleted a ∷ es) fs k m p q = Numbered-append n es fs k m p q

resize-Numbered : (c : Compressor) (f : Captured) (n : ℕ) → Numbered n (resize c f).0 n
unfolding resize
resize-Numbered c f n = ground arith

refresh-Numbered : (c : Compressor) (n : ℕ) → Numbered n (refresh c).0 n
unfolding refresh
refresh-Numbered c n = ground arith

held-Numbered : (o : Option Captured) (n : ℕ) → Numbered n (map deleted (held o)) n
held-Numbered none n = refl
held-Numbered (some f) n = refl

take_four : (n : ℕ) (rest : Bytes) → take 4 (le_bytes 4 n ++ rest) ≡ le_bytes 4 n
take_four n rest = take-append (le_bytes 4 n) rest 4 (length-le_bytes 4 n)

module _ (tj_compress : TjCall → TjResult) where
  finish-Numbered :
      (c : Compressor) (r : Region) (t : TjResult) (o : Option Bytes)
      → let x = finish tj_compress c r t o in Numbered c.seq x.0 x.1.seq
  unfolding image_message
  finish-Numbered c r t none = refl
  finish-Numbered c r t (some jpeg) = elim (Bool-cases t.failed) [
    | inl e ↦ rw e refl
    | inr e ↦ rw e (take_four c.seq _, refl)
  ]

  send_region-Numbered :
      (c : Compressor) (r : Region) (f : Captured)
      → let x = send_region tj_compress c r f in Numbered c.seq x.0 x.1.seq
  unfolding send_region
  send_region-Numbered c r f = elim (Bool-cases r.is_changed) [
    | inl e ↦ let t = tj_call tj_compress r f in simp e (finish-Numbered c r t t.jpeg)
    | inr e ↦ simp e
  ]

  round-Numbered :
      (c : Compressor) (f : Captured)
      → Numbered c.seq (round tj_compress c f).0 (round tj_compress c f).1.seq
  unfolding round
  round-Numbered c f =
      let (e1, c1) = resize c f in
      let (e2, c2) = refresh c1 in
      let r = compare_prev c2.prev_buf f in
      let s = send_region tj_compress (record c2 { prev_buf = some f }) r f in
      Numbered-append c.seq e1 _ c.seq _ (resize-Numbered c f c.seq) (
        Numbered-append c.seq e2 _ c.seq _ (refresh-Numbered c1 c.seq) (
          Numbered-append c.seq (map deleted (held c2.prev_buf)) s.0 c.seq _
            (held-Numbered c2.prev_buf c.seq)
            (subst (λ n. Numbered n s.0 s.1.seq) (prepared c f).0
              (send_region-Numbered (record c2 { prev_buf = some f }) r f))))

  step-Numbered :
      (c : Compressor) (i : Input)
      → Numbered c.seq (step tj_compress c i).0 (step tj_compress c i).1.seq
  unfolding step
  step-Numbered c (frame f) = elim (Bool-cases c.stopped) [
    | inl s ↦ simp s
    | inr s ↦ simp s (round-Numbered c f)
  ]
  step-Numbered c send_full = refl
  step-Numbered c stop = refl

  -- The images of a run carry consecutive numbers in their first four bytes, from `seq` on, with no
  -- gap and none twice, and `seq` is the next number.
  run-Numbered :
      (c : Compressor) (is : List Input)
      → Numbered c.seq (run tj_compress c is).0 (run tj_compress c is).1.seq
  unfolding run
  run-Numbered c [] = refl
  run-Numbered c (i ∷ is) =
      let (es, d) = step tj_compress c i in
      Numbered-append c.seq es _ d.seq _ (step-Numbered c i) (run-Numbered d is)

-- What a client reads from the message behind its first byte: five numbers of four bytes, lowest
-- byte first, and the jpeg; they are what the round has put in, for a number and a rectangle below
-- 2³² whose corners are in order.
pub image_message_layout :
    (seq : ℕ) (r : Region) (jpeg : Bytes)
    → seq < 256 ^ 4
    → r.max_x < 256 ^ 4
    → r.max_y < 256 ^ 4
    → r.min_x ≤ r.max_x
    → r.min_y ≤ r.max_y
    → let m = image_message seq r jpeg in
      (le_value (slice m 0 4) ≡ seq)
      × (le_value (slice m 4 4) ≡ r.min_x)
      × (le_value (slice m 8 4) ≡ r.min_y)
      × (le_value (slice m 12 4) ≡ r.max_x - r.min_x)
      × (le_value (slice m 16 4) ≡ r.max_y - r.min_y)
      × (drop 20 m ≡ jpeg)
unfolding image_message slice le_bytes
image_message_layout seq r jpeg hs hx hy px py = (
  le_value-le_bytes 4 seq hs,
  le_value-le_bytes 4 r.min_x (omega arith),
  le_value-le_bytes 4 r.min_y (omega arith),
  le_value-le_bytes 4 (r.max_x - r.min_x) (omega arith),
  le_value-le_bytes 4 (r.max_y - r.min_y) (omega arith),
  refl,
)
