-- ===== src/Emulator/Input.antt =====
-- The mouse buttons over a sequence of `mouse_callback`s.
use encoder_with_web_socket.Prelude.{
  ℕ, ◌≡◌, refl, inl, inr, Bool, true, false, List, [], ◌∷◌, ◌++◌, arith, ◌==◌, Bool-cases,
}
use encoder_with_web_socket.Emulator.{
  Surface, Emulator, Event, mouse_callback, start_streaming, stop_streaming, server_start,
  server_stop, exit, set_silent, encode_audio, update_buttons, queue_abs, queue_rel, input_sync,
  key,
}

-- What a client's mouse does: a place, and the buttons that are down.
pub record Move : Type 0 where
  pub x : ℕ
  pub y : ℕ
  pub buttons : ℕ

-- The calls of `mouse_callback` in turn.
unfoldable pub moves : Bool → Surface → List Move → Emulator → List Event × Emulator
moves absolute s [] e = ([], e)
moves absolute s (v ∷ vs) e =
    let (es, e1) = mouse_callback absolute s v.x v.y v.buttons e in
    let (fs, e2) = moves absolute s vs e1 in (es ++ fs, e2)

-- Every update of the buttons starts from the buttons behind the one before: from `a` up to `b`.
abbrev pub Chained : ℕ → List Event → ℕ → Type 0
Chained a [] b = a ≡ b
Chained a (update_buttons old new ∷ es) b = (a ≡ old) × Chained new es b
Chained a (start_streaming w h q ∷ es) b = Chained a es b
Chained a (stop_streaming ∷ es) b = Chained a es b
Chained a (server_stop ∷ es) b = Chained a es b
Chained a (exit ∷ es) b = Chained a es b
Chained a (server_start p q ∷ es) b = Chained a es b
Chained a (set_silent q ∷ es) b = Chained a es b
Chained a (encode_audio p ∷ es) b = Chained a es b
Chained a (queue_abs v m ∷ es) b = Chained a es b
Chained a (queue_rel v ∷ es) b = Chained a es b
Chained a (input_sync ∷ es) b = Chained a es b
Chained a (key k d ∷ es) b = Chained a es b

mouse-Chained :
    (absolute : Bool) (s : Surface) (x y mask : ℕ) (e : Emulator) (es : List Event) (b : ℕ)
    → Chained mask es b
    → Chained e.last_bmask ((mouse_callback absolute s x y mask e).0 ++ es) b
unfolding mouse_callback
mouse-Chained true s x y mask e es b h = elim (Bool-cases (e.last_bmask == mask)) [
  | inl k ↦ let q : e.last_bmask ≡ mask = ground arith in rw (k, q) h
  | inr k ↦ rw k (refl, h)
]
mouse-Chained false s x y mask e es b h = elim (Bool-cases (e.last_bmask == mask)) [
  | inl k ↦ let q : e.last_bmask ≡ mask = ground arith in rw (k, q) h
  | inr k ↦ rw k (refl, h)
]

-- No press or release of a button is lost or reported twice: the updates of a sequence of moves lead,
-- one from the end of the other, from the buttons before it to the buttons behind it.
moves-Chained :
    (absolute : Bool) (s : Surface) (vs : List Move) (e : Emulator)
    → Chained e.last_bmask (moves absolute s vs e).0 (moves absolute s vs e).1.last_bmask
unfolding moves mouse_callback
moves-Chained absolute s [] e = refl
moves-Chained absolute s (v ∷ vs) e =
    let e1 = (mouse_callback absolute s v.x v.y v.buttons e).1 in
    mouse-Chained absolute s v.x v.y v.buttons e (moves absolute s vs e1).0
      (moves absolute s vs e1).1.last_bmask (moves-Chained absolute s vs e1)
