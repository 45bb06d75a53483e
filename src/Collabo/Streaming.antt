-- ===== src/Collabo/Streaming.antt =====
-- What the handlers of Collabo.cpp tell the host about streaming, and whether clients are left.
use encoder_with_web_socket.Prelude.{
  ℕ, ◌≡◌, refl, inl, inr, Bool, true, false, Option, none, some, List, [], ◌∷◌, ◌++◌, arith, ◌==◌,
  if◌then◌else◌, Option-cases,
}
use Prim.Native.String.{String}
use encoder_with_web_socket.Collabo.Clients.{
  Client, find_ws, find_mcode, insert, erase_ws, modify_mcode, replace_ws,
}
use encoder_with_web_socket.Collabo.Session.{
  Session, Event, Result, send_each, turn_authority, hand_over, terminate_other, admit, change_mode,
  mouse_callback, keyboard_callback, start_streaming, stop_streaming, db_change_auth,
  db_change_chief, send, send_all, terminate, send_full,
}
use encoder_with_web_socket.Collabo.Wire.{Bytes, video_init_message}

-- Whether the host streams behind a row of events, for whether it does before.
abbrev pub streaming : Bool → List Event → Bool
streaming b [] = b
streaming b (start_streaming ∷ es) = streaming true es
streaming b (stop_streaming ∷ es) = streaming false es
streaming b (mouse_callback x y f ∷ es) = streaming b es
streaming b (keyboard_callback k f ∷ es) = streaming b es
streaming b (db_change_auth d a m ∷ es) = streaming b es
streaming b (db_change_chief c d m ∷ es) = streaming b es
streaming b (send w m ∷ es) = streaming b es
streaming b (send_all m ∷ es) = streaming b es
streaming b (terminate w ∷ es) = streaming b es
streaming b (send_full ∷ es) = streaming b es

abbrev pub has_clients : List Client → Bool
has_clients [] = false
has_clients (c ∷ cs) = true

pub streaming-append :
    (b : Bool) (es fs : List Event) → streaming b (es ++ fs) ≡ streaming (streaming b es) fs
streaming-append b [] fs = refl
streaming-append b (start_streaming ∷ es) fs = streaming-append true es fs
streaming-append b (stop_streaming ∷ es) fs = streaming-append false es fs
streaming-append b (mouse_callback x y f ∷ es) fs = streaming-append b es fs
streaming-append b (keyboard_callback k f ∷ es) fs = streaming-append b es fs
streaming-append b (db_change_auth d a m ∷ es) fs = streaming-append b es fs
streaming-append b (db_change_chief c d m ∷ es) fs = streaming-append b es fs
streaming-append b (send w m ∷ es) fs = streaming-append b es fs
streaming-append b (send_all m ∷ es) fs = streaming-append b es fs
streaming-append b (terminate w ∷ es) fs = streaming-append b es fs
streaming-append b (send_full ∷ es) fs = streaming-append b es fs

pub streaming-send_each :
    (b : Bool) (m : Bytes) (cs : List Client) → streaming b (send_each m cs) ≡ b
streaming-send_each b m [] = refl
streaming-send_each b m (c ∷ cs) = streaming-send_each b m cs

pub insert-has_clients : (c : Client) (cs : List Client) → has_clients (insert c cs) ≡ true
unfolding insert find_mcode
insert-has_clients c [] = refl
insert-has_clients c (d ∷ cs) = elim (Option-cases (find_mcode c.mcode (d ∷ cs))) [
  | inl e ↦ rw (insert, e) refl
  | inr (k, e) ↦ rw (insert, e) refl
]

pub has_clients-modify :
    (m : String) (f : Client → Client) (cs : List Client)
    → has_clients (modify_mcode m f cs) ≡ has_clients cs
unfolding modify_mcode
has_clients-modify m f [] = refl
has_clients-modify m f (c ∷ cs) = ground arith

pub found-has_clients :
    (ws : ℕ) (c : Client) (cs : List Client) → find_ws ws cs ≡ some c → has_clients cs ≡ true
unfolding find_ws
found-has_clients ws c [] h = cc h
found-has_clients ws c (d ∷ cs) h = refl

-- What a message leaves: its handler starts with a client on the list, and ends with one.
abbrev pub Stays : Result → Type 0
Stays none = Unit {0}
Stays (some (es, s)) = (streaming true es ≡ true) × (has_clients s.clients ≡ true)

pub turn_authority-Stays :
    (d : String) (s : Session) → has_clients s.clients ≡ true → Stays (turn_authority d s)
unfolding turn_authority
turn_authority-Stays d s h = elim (Option-cases (find_mcode d s.clients)) [
  | inl e ↦ rw (turn_authority, e) (record {})
  | inr (k, e) ↦ rw (turn_authority, e, streaming-send_each, has_clients-modify, h) (refl, refl)
]

pub hand_over-Stays :
    (c : Client) (d : String) (s : Session) → has_clients s.clients ≡ true → Stays (hand_over c d s)
unfolding hand_over
hand_over-Stays c d s h = elim (Option-cases (find_mcode d s.clients)) [
  | inl e ↦ rw (hand_over, e) (record {})
  | inr (k, e) ↦
      rw (hand_over, e, streaming-send_each, has_clients-modify, has_clients-modify, h) (refl, refl)
]

pub streaming-terminate_other : (o : Option Client) → streaming true (terminate_other o) ≡ true
streaming-terminate_other none = refl
streaming-terminate_other (some d) = refl

pub streaming-if :
    (b c : Bool) (e : Event) → streaming c (e ∷ []) ≡ c → streaming c (if b then e ∷ [] else []) ≡ c
streaming-if true c e h = h
streaming-if false c e h = refl

pub admit-Stays : (now : ℕ) (c : Client) (s : Session) → Stays (some (admit now c s))
unfolding admit replace_ws
admit-Stays now c s =
    let full = streaming-if (s.mode == 1) true send_full refl in
    let init = video_init_message now s.video_enabled s.audio_enabled s.width s.height s.header in
    let first = streaming-if (s.first_count == 2) true (send c.ws init) refl in
    (
      rw (streaming-append, streaming-terminate_other, streaming-append, first) full,
      insert-has_clients c (erase_ws c.ws s.clients),
    )

pub change_mode-Stays :
    (m : String) (s : Session) → has_clients s.clients ≡ true → Stays (some (change_mode m s))
unfolding change_mode
change_mode-Stays m s h = ground arith
