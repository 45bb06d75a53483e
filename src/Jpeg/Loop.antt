-- ===== src/Jpeg/Loop.antt =====
-- The rounds of `compressJpegLoop`, and what the other threads do between them.
use encoder_with_web_socket.Prelude.{
  le_bytes, ℕ, ◌+◌, ◌-◌, ◌*◌, Bool, true, false, ◌&&◌, Option, none, some, List, [], ◌∷◌, ◌++◌, map,
  ◌==◌, if◌then◌else◌,
}
use encoder_with_web_socket.Jpeg.{Bytes, Region, changed_region, whole_region}

-- What `requestVideo` returns: a buffer that the caller owns, and the size of the screen.
pub record Captured : Type 0 where
  pub address : ℕ
  pub bytes : Bytes
  pub width : ℕ
  pub height : ℕ

-- The fields of `class JpegCompressor` and the variables of the loop that outlive a round.
pub record Compressor : Type 0 where
  pub stopped : Bool
  pub full_flag : Bool
  pub width : ℕ
  pub height : ℕ
  pub prev_buf : Option Captured
  pub seq : ℕ

-- The arguments of `tjCompress2` that vary.
pub record TjCall : Type 0 where
  pub source : Bytes
  pub raw_width : ℕ
  pub pitch : ℕ
  pub raw_height : ℕ
  pub x : ℕ
  pub y : ℕ
  pub part_width : ℕ
  pub part_height : ℕ

-- What `tjCompress2` leaves: whether `err < 0`, and `jpeg` if it is not null.
pub record TjResult : Type 0 where
  pub failed : Bool
  pub jpeg : Option Bytes

pub data Event : Type 0 where
  image_init : ℕ → ℕ → Event
  deleted : ℕ → Event
  image : Bytes → Event

-- `sendBuf` from its second byte on; `sendImage` writes the first.
unfoldable pub image_message : ℕ → Region → Bytes → Bytes
image_message seq r jpeg =
    le_bytes 4 seq
    ++ (le_bytes 4 r.min_x
        ++ (le_bytes 4 r.min_y
            ++ (le_bytes 4 (r.max_x - r.min_x) ++ (le_bytes 4 (r.max_y - r.min_y) ++ jpeg))))

abbrev pub held : Option Captured → List ℕ
held none = []
held (some f) = f.address ∷ []

-- `if(prevBuf != NULL) { delete prevBuf; prevBuf = NULL; }`
unfoldable pub drop_prev : Compressor → List Event × Compressor
drop_prev c = (map deleted (held c.prev_buf), record c { prev_buf = none })

-- The first test of a round: the screen has another size.
unfoldable pub resize : Compressor → Captured → List Event × Compressor
unfolding drop_prev
resize c f =
    if (c.width == f.width) && (c.height == f.height)
    then ([], c)
    else let (es, c') = drop_prev (record c { width = f.width; height = f.height }) in
      (image_init f.width f.height ∷ es, c')

-- The second test: somebody has asked for a whole frame.
unfoldable pub refresh : Compressor → List Event × Compressor
unfolding drop_prev
refresh c = if c.full_flag then drop_prev (record c { full_flag = false }) else ([], c)

-- The region to send; the frame before is deleted once it has been compared.
unfoldable pub compare_prev : Option Captured → Captured → Region
compare_prev none f = whole_region f.width f.height
compare_prev (some p) f = changed_region p.bytes f.bytes f.width f.height

-- What happens in turn: a round of the loop, `sendFull()` or `stop()` on another thread.
pub data Input : Type 0 where
  frame : Captured → Input
  send_full : Input
  stop : Input

module _ (tj_compress : TjCall → TjResult) where
  unfoldable pub tj_call : Region → Captured → TjResult
  tj_call r f = tj_compress (record {
    source = f.bytes;
    raw_width = f.width;
    pitch = (r.max_x - r.min_x) * 3;
    raw_height = f.height;
    x = r.min_x;
    y = r.min_y;
    part_width = r.max_x - r.min_x;
    part_height = r.max_y - r.min_y;
  })

  -- The image goes out, and `seq` is counted up, if there is a jpeg and no error.
  abbrev pub finish : Compressor → Region → TjResult → Option Bytes → List Event × Compressor
  finish c r t none = ([], c)
  finish c r t (some jpeg) =
      if t.failed
      then ([], c)
      else (image (image_message c.seq r jpeg) ∷ [], record c { seq = c.seq + 1 })

  -- The end of a round: `if(isChanged) { … }`.
  unfoldable pub send_region : Compressor → Region → Captured → List Event × Compressor
  unfolding tj_call
  send_region c r f = let t = tj_call r f in if r.is_changed then finish c r t t.jpeg else ([], c)

  -- One round of the `while` loop with the frame that `requestVideo` has returned.
  unfoldable pub round : Compressor → Captured → List Event × Compressor
  round c f =
      let (e1, c1) = resize c f in
      let (e2, c2) = refresh c1 in
      let r = compare_prev c2.prev_buf f in
      let (e3, c3) = send_region (record c2 { prev_buf = some f }) r f in
      (e1 ++ (e2 ++ (map deleted (held c2.prev_buf) ++ e3)), c3)

  unfoldable pub step : Compressor → Input → List Event × Compressor
  unfolding round
  step c (frame f) = let r = round c f in if c.stopped then ([], c) else r
  step c send_full = ([], record c { full_flag = true })
  step c stop = ([], record c { stopped = true })

  unfoldable pub run : Compressor → List Input → List Event × Compressor
  run c [] = ([], c)
  run c (i ∷ is) = let (es, c') = step c i in let (fs, d) = run c' is in (es ++ fs, d)

-- `compressJpegLoop` up to its `while`, for the size that `initialize` was called with.
unfoldable pub begin_loop : Bool → ℕ → ℕ → List Event × Compressor
begin_loop full w h = (
  image_init w h ∷ [],
  record { stopped = false; full_flag = full; width = w; height = h; prev_buf = none; seq = 0 },
)
