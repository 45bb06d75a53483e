-- ===== src/Collabo/Overlap.antt =====
-- The last client of Collabo.cpp goes and another comes, in the mode of images.
use encoder_with_web_socket.Prelude.{
  ℕ, ◌≡◌, refl, true, false, some, List, [], ◌∷◌, ◌++◌, arith, ◌==◌, if◌then◌else◌, length,
  get_elem?, set,
}
use encoder_with_web_socket.Collabo.Clients.{Client, find_ws, find_mcode, insert, erase_ws}
use encoder_with_web_socket.Collabo.Session.{
  Session, Event, on_open, on_close, start_streaming, stop_streaming, send_full,
}
use encoder_with_web_socket.Jpeg.Loop.{
  Captured, Compressor, TjCall, TjResult, round, begin_loop, image_init,
}
use encoder_with_web_socket.Jpeg.Threads.{
  Pool, Act, acts, looping, call_initialize, call_send_full, call_stop, turn,
}
use encoder_with_web_socket.Jpeg.Threads.Stops.{stop-lost}

-- What `startStreaming`, `stopStreaming` and SETTING make of the compressor in a mode, on a screen of
-- a size.
unfoldable pub act_on : ℕ → ℕ → ℕ → Event → List Act
act_on mode w h start_streaming = if mode == 1 then call_initialize w h ∷ [] else []
act_on mode w h stop_streaming = if mode == 1 then call_stop ∷ [] else []
act_on mode w h send_full = call_send_full ∷ []
act_on mode w h _ = []

abbrev pub acts_on : ℕ → ℕ → ℕ → List Event → List Act
acts_on mode w h [] = []
acts_on mode w h (e ∷ es) = act_on mode w h e ++ acts_on mode w h es

-- A session with one client, in the mode of images.
abbrev pub single : Client → Session → Session
single k s = record s { clients = k ∷ []; mode = 1 }

alone-find : (k : Client) → find_ws k.ws (k ∷ []) ≡ some k
unfolding find_ws
alone-find k = let same : (k.ws == k.ws) ≡ true = ground arith in rw same refl

alone-erase : (k : Client) → erase_ws k.ws (k ∷ []) ≡ []
unfolding erase_ws
alone-erase k = let same : (k.ws == k.ws) ≡ true = ground arith in rw same refl

last-on_close :
    (k : Client) (s : Session)
    → on_close k.ws (single k s) ≡ some (stop_streaming ∷ [], record s { clients = []; mode = 1 })
unfolding on_close
last-on_close k s = rw (on_close, alone-find k) (rw (alone-erase k) refl)

-- If the last client goes and another comes, and its loop starts, before the compressor's loop has
-- looked at its flag again, that loop goes on beside the new one: the stop is undone.
pub rejoin-overlaps :
    (tj_compress : TjCall → TjResult) (ws : ℕ) (k : Client) (s : Session) (p : Pool) (i w h : ℕ)
    (c : Compressor) (f g : Captured)
    → get_elem? p.threads i ≡ some (looping c)
    → (t : Session) × (on_close k.ws (single k s) ≡ some (stop_streaming ∷ [], t))
      × (let n = length p.threads in
          let calls = acts_on t.mode w h (stop_streaming ∷ (on_open ws t).0) in
          let r = acts tj_compress p (calls ++ (turn n f ∷ turn i g ∷ [])) in
          let old = round tj_compress (record c { stopped = false; full_flag = p.full_flag }) g in
          (r.0 ≡ image_init w h ∷ old.0)
          × (r.1.stopped ≡ false)
          × (r.1.threads
              ≡ set (p.threads ++ looping (begin_loop p.full_flag w h).1 ∷ []) i (looping old.1)))
unfolding on_open insert find_mcode act_on
rejoin-overlaps tj_compress ws k s p i w h c f g there = (
  record s { clients = []; mode = 1 },
  last-on_close k s,
  stop-lost tj_compress p i w h c f g there,
)
