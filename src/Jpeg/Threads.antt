-- ===== src/Jpeg/Threads.antt =====
-- The object of class JpegCompressor and the threads that run its `compressJpegLoop`.
pub mod Stops
use encoder_with_web_socket.Prelude.{
  ℕ, Bool, true, false, Option, none, some, List, [], ◌∷◌, ◌++◌, if◌then◌else◌, get_elem?, set,
}
use encoder_with_web_socket.Jpeg.Loop.{
  Captured, Compressor, TjCall, TjResult, Event, round, begin_loop,
}

-- A detached thread: it has not come to the first line of its loop, it is in the loop, or it has
-- returned. Of the `Compressor` of a loop, the two flags are read from the object at each turn.
pub data Thread : Type 0 where
  begins : ℕ → ℕ → Thread
  looping : Compressor → Thread
  ended : Thread

-- The flags of the object, which all threads share, and the threads in the order of their making.
pub record Pool : Type 0 where
  pub stopped : Bool
  pub full_flag : Bool
  pub threads : List Thread

-- `JpegCompressor()`
unfoldable pub new_pool : Pool
new_pool = record { stopped = false; full_flag = false; threads = [] }

-- `initialize`: its thread is made, and has not run.
unfoldable pub initialize : Pool → ℕ → ℕ → Pool
initialize p w h = record p { threads = p.threads ++ begins w h ∷ [] }

-- `~JpegCompressor()`
abbrev pub destroyed : Pool → Pool
destroyed p = record p { stopped = true }

-- The object's fields, as a thread in its loop reads them.
abbrev pub loaded : Pool → Compressor → Compressor
loaded p c = record c { stopped = p.stopped; full_flag = p.full_flag }

-- What happens next: a call on the object, its destructor included, or a thread's turn: up to
-- its `while`, or one round of it, with the frame that `requestVideo` returns.
pub data Act : Type 0 where
  call_initialize : ℕ → ℕ → Act
  call_send_full : Act
  call_stop : Act
  destroy : Act
  turn : ℕ → Captured → Act

module _ (tj_compress : TjCall → TjResult) where
  -- A turn of a thread that is in its loop: the test of `while`, and the round.
  unfoldable pub loop_turn : Pool → ℕ → Compressor → Captured → List Event × Pool
  loop_turn p i c f =
      let (es, d) = round tj_compress (loaded p c) f in
      if p.stopped
      then ([], record p { threads = set p.threads i ended })
      else (es, record p { full_flag = d.full_flag; threads = set p.threads i (looping d) })

  abbrev pub thread_turn : Pool → ℕ → Captured → Option Thread → List Event × Pool
  thread_turn p i f none = ([], p)
  thread_turn p i f (some ended) = ([], p)
  thread_turn p i f (some (begins w h)) =
      let (es, c) = begin_loop p.full_flag w h in
      (es, record p { stopped = c.stopped; threads = set p.threads i (looping c) })
  thread_turn p i f (some (looping c)) = loop_turn p i c f

  unfoldable pub act : Pool → Act → List Event × Pool
  act p (call_initialize w h) = ([], initialize p w h)
  act p call_send_full = ([], record p { full_flag = true })
  act p call_stop = ([], record p { stopped = true })
  act p destroy = ([], destroyed p)
  act p (turn i f) = thread_turn p i f (get_elem? p.threads i)

  unfoldable pub acts : Pool → List Act → List Event × Pool
  acts p [] = ([], p)
  acts p (a ∷ rest) = let (es, q) = act p a in let (fs, r) = acts q rest in (es ++ fs, r)
