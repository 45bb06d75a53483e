-- ===== src/Collabo/Session.antt =====
-- The handlers that `clbStart` gives to the server: a client comes, sends a message, or goes.
use encoder_with_web_socket.Prelude.{
  ℕ, Bool, true, false, not, ◌&&◌, Option, none, some, List, [], ◌∷◌, ◌++◌, ◌==◌, if◌then◌else◌,
  length,
}
use encoder_with_web_socket.Collabo.Clients.{
  Client, new_client, find_ws, find_mcode, insert, erase_ws, modify_mcode, replace_ws, change_auth,
  change_chief,
}
use encoder_with_web_socket.Collabo.Wire.{
  Bytes, flag, video_init_message, auth_message, chief_message, access_message, has_role,
  list_message,
}
use Prim.Native.String.{String}
use text.Mathlib.Text.{◌==◌ as str_eq}

-- The variables of Collabo.cpp that the handlers read and write; `header` holds `headerSize` bytes.
pub record Session : Type 0 where
  pub clients : List Client
  pub first_count : ℕ
  pub header : Bytes
  pub mode : ℕ
  pub video_enabled : Bool
  pub audio_enabled : Bool
  pub width : ℕ
  pub height : ℕ

-- What the handlers do to the outside, in order.
pub data Event : Type 0 where
  mouse_callback : ℕ → ℕ → ℕ → Event
  keyboard_callback : ℕ → Bool → Event
  start_streaming : Event
  stop_streaming : Event
  db_change_auth : String → Bool → String → Event
  db_change_chief : String → String → String → Event
  send : ℕ → Bytes → Event
  send_all : Bytes → Event
  terminate : ℕ → Event
  send_full : Event

-- A message as the json parser gives it back: `identifier` and the fields that its case reads. A
-- number is its 32 bits.
pub data Message : Type 0 where
  mouse : ℕ → ℕ → ℕ → Message
  keyboard : ℕ → ℕ → Message
  authority : String → Message
  chief : String → Message
  setting : String → String → String → String → Message
  set_mode : String → Message
  unknown : Message

-- `isSuited` of the database: for an `mcode` and an `mscode`, what it writes to `authority`, `chief`
-- and `role`, or that it refuses. A role below 0, which stands for no role, is `none`.
abbrev pub IsSuited : Type 0
IsSuited = String → String → Option (Bool × Bool × Option ℕ)

-- A handler runs to its end, or reads through the `end()` of an index.
abbrev pub Result : Type 0
Result = Option (List Event × Session)

-- A message to every client of the list.
abbrev pub send_each : Bytes → List Client → List Event
send_each m [] = []
send_each m (c ∷ cs) = send c.ws m ∷ send_each m cs

-- `clbStateCallback(START_STREAMING)`. The host answers by `startStreaming`, which begins a new
-- header; the size of the screen, which the host sets too, is left as it is.
abbrev pub restarted : Session → Session
restarted s = record s {
  first_count = 0;
  header = [];
  video_enabled = s.mode == 0;
  audio_enabled = true;
}

unfoldable pub on_open : ℕ → Session → List Event × Session
on_open ws s =
    let cs = insert (new_client ws) s.clients in
    let s' = record s { clients = cs } in
    if length cs == 1 then (start_streaming ∷ [], restarted s') else ([], s')

unfoldable pub on_close : ℕ → Session → Result
on_close ws s = elim (find_ws ws s.clients) [
  | none ↦ none
  | some c ↦
      let cs = erase_ws ws s.clients in
      some ((if length cs == 0 then stop_streaming ∷ [] else []), record s { clients = cs })
]

-- case AUTHORITY, for a client that is chief: the right of `dst` is turned over.
unfoldable pub turn_authority : String → Session → Result
turn_authority dst s = elim (find_mcode dst s.clients) [
  | none ↦ none
  | some d ↦
      let b = not d.authority in
      let cs = modify_mcode dst (change_auth b) s.clients in
      some (
        db_change_auth dst b d.mscode ∷ send_each (auth_message (change_auth b d)) cs,
        record s { clients = cs },
      )
]

-- case CHIEF, for a client that is chief: `dst` becomes chief in its place, with authority.
unfoldable pub hand_over : Client → String → Session → Result
hand_over c dst s = elim (find_mcode dst s.clients) [
  | none ↦ none
  | some d ↦
      let demoted = modify_mcode c.mcode (change_chief false) s.clients in
      let cs = modify_mcode dst (λ k. change_auth true (change_chief true k)) demoted in
      some (
        db_change_chief c.mcode dst c.mscode ∷ send_each (chief_message c.mcode dst) cs,
        record s { clients = cs },
      )
]

-- `if(mIt != mcodeType.end()) mIt->ws->terminate();`
abbrev pub terminate_other : Option Client → List Event
terminate_other none = []
terminate_other (some d) = terminate d.ws ∷ []

-- case SETTING, for a member that the database knows. What the hub does with the socket that is
-- terminated, and its handler, are not part of it.
unfoldable pub admit : ℕ → Client → Session → List Event × Session
admit now c s =
    let cs = replace_ws c s.clients in
    let init = video_init_message now s.video_enabled s.audio_enabled s.width s.height s.header in
    (
      terminate_other (find_mcode c.mcode s.clients)
          ++ (send_all (access_message c)
              ∷ send c.ws (list_message cs)
              ∷ ((if s.first_count == 2 then send c.ws init ∷ [] else [])
                  ++ (if s.mode == 1 then send_full ∷ [] else []))),
      record s { clients = cs },
    )

abbrev pub suited : Client → String → String → String → String → Bool × Bool × Option ℕ → Client
suited c mcode mscode custom name (a, ch, r) = record {
  ws = c.ws;
  chief = ch;
  authority = a;
  role = r;
  mcode = mcode;
  mscode = mscode;
  custom = custom;
  name = name;
}

-- case MODE, for a chief: the stream is stopped, and started again in the other mode.
abbrev pub switch_to : ℕ → Session → List Event × Session
switch_to m s =
    if s.mode == m
    then ([], s)
    else (stop_streaming ∷ start_streaming ∷ [], restarted (record s { mode = m }))

unfoldable pub change_mode : String → Session → List Event × Session
change_mode m s =
    if str_eq m "video" then switch_to 0 s else if str_eq m "image" then switch_to 1 s else ([], s)

module _ (is_suited : IsSuited) (now : ℕ) where
  -- The `switch` over the message of the client `c`.
  unfoldable pub dispatch : Client → Message → Session → Result
  dispatch c (mouse flag x y) s =
      some ((if c.authority then mouse_callback x y flag ∷ [] else []), s)
  dispatch c (keyboard flag k) s =
      some ((if c.authority then keyboard_callback k (not (flag == 0)) ∷ [] else []), s)
  dispatch c (authority dst) s = if c.chief then turn_authority dst s else some ([], s)
  dispatch c (chief dst) s = if c.chief then hand_over c dst s else some ([], s)
  dispatch c (setting mcode mscode custom name) s = elim (is_suited mcode mscode) [
    | none ↦ some (terminate c.ws ∷ [], s)
    | some r ↦ some (admit now (suited c mcode mscode custom name r) s)
  ]
  dispatch c (set_mode m) s = some (if has_role c && c.chief then change_mode m s else ([], s))
  dispatch c unknown s = some ([], s)

  -- `onMsgPtr`
  unfoldable pub on_msg : ℕ → Message → Session → Result
  on_msg ws m s = elim (find_ws ws s.clients) [ none ↦ none | some c ↦ dispatch c m s ]
