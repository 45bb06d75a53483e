-- ===== src/Collabo/Rights.antt =====
-- Who may do what: the rights of the clients, and how AUTHORITY and CHIEF change them.
use encoder_with_web_socket.Prelude.{
  ℕ, ◌≡◌, refl, subst, inl, inr, Bool, true, false, not, Option, none, some, List, [], ◌∷◌, arith,
  if◌then◌else◌, Bool-cases, Option-cases,
}
use encoder_with_web_socket.Collabo.Clients.{
  Client, find_ws, find_mcode, modify_mcode, change_auth, change_chief,
}
use encoder_with_web_socket.Collabo.Session.{
  Session, Event, Message, IsSuited, Result, send_each, turn_authority, hand_over, dispatch, on_msg,
  mouse_callback, keyboard_callback, start_streaming, stop_streaming, db_change_auth,
  db_change_chief, send, send_all, terminate, send_full, mouse, keyboard, authority, chief, setting,
  set_mode, unknown,
}
use mathlib.Core.Option
use encoder_with_web_socket.Collabo.Wire.{Bytes}
use Prim.Native.String.{String}
use text.Mathlib.Text.{◌==◌ as str_eq}
use text.Mathlib.TextEquality.{eq_iff}

-- The input that reaches the machine.
abbrev pub injected : List Event → List Event
injected [] = []
injected (mouse_callback x y f ∷ es) = mouse_callback x y f ∷ injected es
injected (keyboard_callback k f ∷ es) = keyboard_callback k f ∷ injected es
injected (start_streaming ∷ es) = injected es
injected (stop_streaming ∷ es) = injected es
injected (db_change_auth d b m ∷ es) = injected es
injected (db_change_chief a b m ∷ es) = injected es
injected (send w b ∷ es) = injected es
injected (send_all b ∷ es) = injected es
injected (terminate w ∷ es) = injected es
injected (send_full ∷ es) = injected es

abbrev pub IsSetting : Message → Type 0
IsSetting (setting a b c d) = Unit {0}
IsSetting (mouse f x y) = ⊥
IsSetting (keyboard f k) = ⊥
IsSetting (authority d) = ⊥
IsSetting (chief d) = ⊥
IsSetting (set_mode m) = ⊥
IsSetting unknown = ⊥

injected-send_each : (m : Bytes) (cs : List Client) → injected (send_each m cs) ≡ []
injected-send_each m [] = refl
injected-send_each m (c ∷ cs) = injected-send_each m cs

module _ (is_suited : IsSuited) (now : ℕ) where
  -- A message that is no SETTING, from a client with neither right, has no effect at all.
  pub on_msg-unprivileged :
      (ws : ℕ) (m : Message) (s : Session) (c : Client)
      → find_ws ws s.clients ≡ some c
      → c.chief ≡ false
      → c.authority ≡ false
      → ¬ IsSetting m
      → on_msg is_suited now ws m s ≡ some ([], s)
  unfolding on_msg dispatch
  on_msg-unprivileged ws (mouse f x y) s c e h a n = rw (e, on_msg) (ground arith)
  on_msg-unprivileged ws (keyboard f k) s c e h a n = rw (e, on_msg) (ground arith)
  on_msg-unprivileged ws (authority d) s c e h a n = rw (e, on_msg) (ground arith)
  on_msg-unprivileged ws (chief d) s c e h a n = rw (e, on_msg) (ground arith)
  on_msg-unprivileged ws (setting p q r t) s c e h a n = absurd (n tt)
  on_msg-unprivileged ws (set_mode m) s c e h a n = rw (e, on_msg) (ground arith)
  on_msg-unprivileged ws unknown s c e h a n = rw (e, on_msg) (ground arith)

-- The change that a hand-over makes to the client of each `mcode`.
abbrev pub handed : String → String → String → Client → Client
handed src dst m c =
    if str_eq dst m
    then change_auth true (change_chief true c)
    else if str_eq src m
    then change_chief false c
    else c

pub find-modify :
    (k m : String) (f : Client → Client) (cs : List Client)
    → ((c : Client) → (f c).mcode ≡ c.mcode)
    → find_mcode m (modify_mcode k f cs)
      ≡ (if str_eq k m then Option.map f (find_mcode m cs) else find_mcode m cs)
unfolding find_mcode modify_mcode
find-modify k m f [] keep = ground arith
find-modify k m f (c ∷ cs) keep =
    ground
      (arith, keep c, eq_iff c.mcode k, eq_iff c.mcode m, eq_iff k m, find-modify k m f cs keep)

turned :
    (p q : Bool) (o : Option Client)
    → (if p
        then Option.map
            (λ k. change_auth true (change_chief true k))
            (if q then Option.map (change_chief false) o else o)
        else (if q then Option.map (change_chief false) o else o))
      ≡ Option.map
          (λ k.
            if p
            then change_auth true (change_chief true k)
            else if q
            then change_chief false k
            else k)
          o
turned true true none = refl
turned true false none = refl
turned false true none = refl
turned false false none = refl
turned true true (some k) = refl
turned true false (some k) = refl
turned false true (some k) = refl
turned false false (some k) = refl

-- A hand-over that runs to its end makes `dst` chief with authority, takes the chief's right from
-- the sender, unless it is `dst` itself, and changes nothing of any other member.
pub hand_over-rights :
    (c : Client) (dst : String) (s s' : Session) (es : List Event)
    → hand_over c dst s ≡ some (es, s')
    → (m : String)
    → find_mcode m s'.clients ≡ Option.map (handed c.mcode dst m) (find_mcode m s.clients)
unfolding hand_over
hand_over-rights c dst s s' es h m = elim (Option-cases (find_mcode dst s.clients)) [
  | inl e ↦ cc (rw (e, hand_over) at h)
  | inr (d, e) ↦ rw (← clients_of (rw (e, hand_over) at h)) (looked_up m)
]
  where
    new_clients : List Client
    new_clients =
        modify_mcode dst (λ k. change_auth true (change_chief true k))
          (modify_mcode c.mcode (change_chief false) s.clients)

    clients_of :
        {fs : List Event}
        → ◌≡◌ {A = Result} (some (fs, record s { clients = new_clients })) (some (es, s'))
        → new_clients ≡ s'.clients
    clients_of q = ground arith

    looked_up :
        (m : String)
        → find_mcode m new_clients ≡ Option.map (handed c.mcode dst m) (find_mcode m s.clients)
    looked_up m =
        rw
          (
            find-modify dst m (λ k. change_auth true (change_chief true k))
                (modify_mcode c.mcode (change_chief false) s.clients) (λ k. refl),
            find-modify c.mcode m (change_chief false) s.clients (λ k. refl),
          )
          (turned (str_eq dst m) (str_eq c.mcode m) (find_mcode m s.clients))

map_self : (o : Option Client) → o ≡ Option.map (λ k. k) o
map_self none = refl
map_self (some k) = refl

-- AUTHORITY, if it runs to its end, turns the right of `dst` over and changes nothing of any other
-- member.
turn_authority-rights :
    (dst : String) (s s' : Session) (es : List Event)
    → turn_authority dst s ≡ some (es, s')
    → (m : String)
    → find_mcode m s'.clients
      ≡ Option.map
          (λ k. if str_eq dst m then change_auth (not k.authority) k else k)
          (find_mcode m s.clients)
unfolding turn_authority
turn_authority-rights dst s s' es h m = elim (Option-cases (find_mcode dst s.clients)) [
  | inl e ↦ cc (rw (e, turn_authority) at h)
  | inr (d, e) ↦
      rw (← clients_of d (rw (e, turn_authority) at h))
        (rw (find-modify dst m (change_auth (not d.authority)) s.clients (λ k. refl)) (found d e))
]
  where
    clients_of :
        (d : Client) {fs : List Event}
        → let cs = modify_mcode dst (change_auth (not d.authority)) s.clients in
          ◌≡◌ {A = Result} (some (fs, record s { clients = cs })) (some (es, s')) → cs ≡ s'.clients
    clients_of d q = ground arith

    found :
        (d : Client)
        → find_mcode dst s.clients ≡ some d
        → (if str_eq dst m
            then Option.map (change_auth (not d.authority)) (find_mcode m s.clients)
            else find_mcode m s.clients)
          ≡ Option.map
              (λ k. if str_eq dst m then change_auth (not k.authority) k else k)
              (find_mcode m s.clients)
    found d e = elim (Bool-cases (str_eq dst m)) [
      | inl same ↦
          (let p : dst ≡ m = (eq_iff dst m).0 same in
            let f : find_mcode m s.clients ≡ some d =
              subst (λ x. find_mcode x s.clients ≡ some d) p e in
            rw (same, f) refl)
      | inr other ↦ rw other (map_self (find_mcode m s.clients))
    ]
