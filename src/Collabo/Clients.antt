-- ===== src/Collabo/Clients.antt =====
-- `struct Client` and `clientList`, a container with an index by socket and one by `mcode`.
use encoder_with_web_socket.Prelude.{
  ℕ, Bool, false, Option, none, some, List, [], ◌∷◌, ◌==◌, if◌then◌else◌,
}
use Prim.Native.String.{String}
use text.Mathlib.Text.{◌==◌ as str_eq}

-- A socket is the number that stands for its address; `role` is `none` for -1.
pub record Client : Type 0 where
  pub ws : ℕ
  pub chief : Bool
  pub authority : Bool
  pub role : Option ℕ
  pub mcode : String
  pub mscode : String
  pub custom : String
  pub name : String

-- `Client(ws)`
abbrev pub new_client : ℕ → Client
new_client ws = record {
  ws = ws;
  chief = false;
  authority = false;
  role = none;
  mcode = "";
  mscode = "";
  custom = "";
  name = "";
}

-- `get<0>().find(ws)`; `none` is `end()`.
unfoldable pub find_ws : ℕ → List Client → Option Client
find_ws ws [] = none
find_ws ws (c ∷ cs) = if c.ws == ws then some c else find_ws ws cs

-- `get<1>().find(mcode)`
unfoldable pub find_mcode : String → List Client → Option Client
find_mcode m [] = none
find_mcode m (c ∷ cs) = if str_eq c.mcode m then some c else find_mcode m cs

-- `insert`: the index by `mcode` takes no second client of one `mcode`.
unfoldable pub insert : Client → List Client → List Client
insert c cs = elim (find_mcode c.mcode cs) [ none ↦ c ∷ cs | some d ↦ cs ]

-- `erase` of what `find_ws` has found.
unfoldable pub erase_ws : ℕ → List Client → List Client
erase_ws ws [] = []
erase_ws ws (c ∷ cs) = if c.ws == ws then cs else c ∷ erase_ws ws cs

-- `modify` of what `find_mcode` has found, by a change that leaves `mcode` alone.
unfoldable pub modify_mcode : String → (Client → Client) → List Client → List Client
modify_mcode m f [] = []
modify_mcode m f (c ∷ cs) = if str_eq c.mcode m then f c ∷ cs else c ∷ modify_mcode m f cs

-- `modify` of what `find_ws` has found, by a new client of the same socket: it is put back if no
-- other client has its `mcode`, and else dropped.
unfoldable pub replace_ws : Client → List Client → List Client
replace_ws c cs = insert c (erase_ws c.ws cs)

-- `changeAuth` and `changeChief`
abbrev pub change_auth : Bool → Client → Client
change_auth b c = record c { authority = b }

abbrev pub change_chief : Bool → Client → Client
change_chief b c = record c { chief = b }
