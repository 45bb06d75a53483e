-- ===== src/Collabo/Stored.antt =====
-- The member list of Collabo.cpp beside the database of MySQLConnector.cpp.
use encoder_with_web_socket.Prelude.{
  codes, ℤ, pos, ℕ, ◌≡◌, refl, ◌⊎◌, inl, inr, Bool, true, false, not, Option, some, List, [], ◌∷◌,
  if◌then◌else◌, Bool-cases,
}
use Prim.Native.String.{String}
use text.Mathlib.Text.{◌==◌ as str_eq}
use text.Mathlib.TextEquality.{eq_iff}
use encoder_with_web_socket.Collabo.Session.{
  Session, Event, send_each, turn_authority, hand_over, mouse_callback, keyboard_callback,
  start_streaming, stop_streaming, db_change_auth, db_change_chief, send, send_all, terminate,
  send_full,
}
use encoder_with_web_socket.Collabo.Clients.{
  Client, find_mcode, modify_mcode, change_auth, change_chief,
}
use encoder_with_web_socket.Collabo.Wire.{auth_message, chief_message}
use encoder_with_web_socket.Mysql.Statements.{
  number_text, meet_seq, select_member, select_participant, update_auth, update_former, Database,
  Call, thrown, empty, row, ended, broken,
}
use mathlib.Core.Option
use encoder_with_web_socket.Mysql.Rights.{
  StandsForItself, KeepsRoles, change_auth-is_suited, change_chief-lost,
}
use encoder_with_web_socket.Mysql.Suited.{is_suited, suits}
use encoder_with_web_socket.Mysql.Change
use encoder_with_web_socket.Collabo.Rights.{find-modify}

module _ (db : Database) (decode : List ℕ → List ℕ) where
  abbrev pub then_store : Call db.Store → (db.Store → Call db.Store) → Call db.Store
  then_store (ended st) next = next st
  then_store broken next = broken

  -- What the events of a handler do to the database.
  abbrev pub stored : List Event → db.Store → Call db.Store
  stored [] st = ended st
  stored (db_change_auth d b m ∷ es) st =
      then_store (Change.change_auth db decode (codes d) b (codes m) st) (λ st'. stored es st')
  stored (db_change_chief c d m ∷ es) st =
      then_store (Change.change_chief db decode (codes c) (codes d) (codes m) st)
        (λ st'. stored es st')
  stored (mouse_callback x y f ∷ es) st = stored es st
  stored (keyboard_callback k f ∷ es) st = stored es st
  stored (start_streaming ∷ es) st = stored es st
  stored (stop_streaming ∷ es) st = stored es st
  stored (send w m ∷ es) st = stored es st
  stored (send_all m ∷ es) st = stored es st
  stored (terminate w ∷ es) st = stored es st
  stored (send_full ∷ es) st = stored es st

  stored-send_each :
      (m : List ℕ) (cs : List Client) (st : db.Store) → stored (send_each m cs) st ≡ ended st
  stored-send_each m [] st = refl
  stored-send_each m (c ∷ cs) st = stored-send_each m cs st

  find-turned :
      (dst : String) (b : Bool) (cs : List Client) (d : Client)
      → find_mcode dst cs ≡ some d
      → find_mcode dst (modify_mcode dst (change_auth b) cs) ≡ some (change_auth b d)
  find-turned dst b cs d e =
      let same : str_eq dst dst ≡ true = (eq_iff dst dst).1 refl in
      rw (find-modify dst dst (change_auth b) cs (λ k. refl), same, e) refl

  -- If the database does what the sentences of SQL say, as in `KeepsRoles`, and the texts in the statements
  -- have no quote and no backslash, AUTHORITY for a member of a meeting leaves the member list and the database with the same authority for it, the other way
  -- round than before; but the database knows it as no chief then, while the list keeps what it was.
  pub turn_authority-stored :
      KeepsRoles db
      → (dst : String) (s : Session) (d : Client) (n seq : List ℕ) (auth was : Bool) (mnum : ℤ)
        (old : Option (List ℕ)) (st st' : db.Store)
      → StandsForItself (codes dst)
      → StandsForItself n
      → StandsForItself seq
      → find_mcode dst s.clients ≡ some d
      → db.connects st ≡ true
      → db.member (select_member (codes dst)) st ≡ row mnum
      → number_text mnum ≡ some n
      → meet_seq (decode (codes d.mscode)) ≡ some seq
      → db.participant (select_participant seq n) st ≡ row old
      → db.update (update_auth (not d.authority) n seq) st ≡ some st'
      → (es : List Event) × (s' : Session) × (d' : Client) × (turn_authority dst s ≡ some (es, s'))
        × (stored es st ≡ ended st')
        × (find_mcode dst s'.clients ≡ some d')
        × (d'.authority ≡ not d.authority)
        × (d'.chief ≡ d.chief)
        × (is_suited db decode (codes dst) (codes d.mscode) auth was st'
            ≡ ended (suits d'.authority false (pos (if d'.authority then 1 else 2))))
  unfolding turn_authority
  turn_authority-stored law dst s d n seq auth was mnum old st st' pd pn ps e c m t q p u =
      let b = not d.authority in
      let k =
        change_auth-is_suited db decode law (codes dst) (codes d.mscode) n seq b auth was mnum old
          st st' pd pn ps c m t q p u in
      let cs = modify_mcode dst (change_auth b) s.clients in
      let told = auth_message (change_auth b d) in
      (
        db_change_auth dst b d.mscode ∷ send_each told cs,
        record s { clients = cs },
        change_auth b d,
        rw (turn_authority, e) refl,
        rw k.0 (stored-send_each told cs st'),
        find-turned dst b s.clients d e,
        refl,
        refl,
        k.1,
      )

  -- If the database knows `dst` no more when CHIEF hands over to it, or its query throws, the handler
  -- runs to its end and the member list has `dst` as chief with authority, while in the database only
  -- the role of the former chief has been written.
  pub hand_over-stored :
      (c d : Client) (dst : String) (s : Session) (n seq : List ℕ) (mnum : ℤ) (st st1 : db.Store)
      → find_mcode dst s.clients ≡ some d
      → db.connects st ≡ true
      → db.member (select_member (codes c.mcode)) st ≡ row mnum
      → number_text mnum ≡ some n
      → meet_seq (decode (codes c.mscode)) ≡ some seq
      → db.update (update_former n seq) st ≡ some st1
      → (db.member (select_member (codes dst)) st1 ≡ empty)
        ⊎ (db.member (select_member (codes dst)) st1 ≡ thrown)
      → (es : List Event) × (s' : Session) × (d' : Client) × (hand_over c dst s ≡ some (es, s'))
        × (stored es st ≡ ended st1)
        × (find_mcode dst s'.clients ≡ some d')
        × (d'.chief ≡ true)
        × (d'.authority ≡ true)
  unfolding hand_over
  hand_over-stored c d dst s n seq mnum st st1 e on m t q u gone =
      let lost =
        change_chief-lost db decode (codes c.mcode) (codes dst) (codes c.mscode) n seq mnum st st1
          on m t q u gone in
      let demoted = modify_mcode c.mcode (change_chief false) s.clients in
      let crown : Client → Client = λ k. change_auth true (change_chief true k) in
      let cs = modify_mcode dst crown demoted in
      let same : str_eq dst dst ≡ true = (eq_iff dst dst).1 refl in
      let crowned : find_mcode dst cs ≡ Option.map crown (find_mcode dst demoted) =
        rw (find-modify dst dst crown demoted (λ k. refl), same) refl in
      let before : find_mcode dst demoted
          ≡ (if str_eq c.mcode dst then some (change_chief false d) else some d) =
        rw (find-modify c.mcode dst (change_chief false) s.clients (λ k. refl), e) refl in
      let told = chief_message c.mcode dst in
      (
        db_change_chief c.mcode dst c.mscode ∷ send_each told cs,
        record s { clients = cs },
        crown (if str_eq c.mcode dst then change_chief false d else d),
        rw (hand_over, e) refl,
        rw lost (stored-send_each told cs st1),
        elim (Bool-cases (str_eq c.mcode dst)) [
          | inl own ↦ rw (crowned, before, own) refl
          | inr other ↦ rw (crowned, before, other) refl
        ],
        refl,
        refl,
      )
