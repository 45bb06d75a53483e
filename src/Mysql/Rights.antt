-- ===== src/Mysql/Rights.antt =====
-- What `isSuited` reads after `changeAuth` and `changeChief` of MySQLConnector.cpp have written.
use encoder_with_web_socket.Prelude.{
  leading_number, atoi, getline, codes, ℤ, pos, ◌≡◌, refl, ◌⊎◌, inl, inr, Bool, true, false, Option,
  some, [], ◌∷◌, ◌++◌, ◌≢◌, if◌then◌else◌,
}
use encoder_with_web_socket.Mysql.Statements.{
  Bytes, number_text, meet_seq, select_member, select_participant, update_auth, update_former,
  update_chief, Database, Call, thrown, empty, row, ended,
}
use encoder_with_web_socket.Mysql.Suited.{Verdict, rights_of, suited_member, is_suited, suits}
use encoder_with_web_socket.Mysql.Change.{run_update, for_member, change_auth, change_chief}

-- No quote and no backslash: between quotes, the text stands for itself.
abbrev pub StandsForItself : Bytes → Type 0
StandsForItself [] = Unit {0}
StandsForItself (c ∷ s) = (c ≢ 39) × (c ≢ 92) × StandsForItself s

abbrev pub role_text : Bool → Bytes
role_text b = if b then codes "1" else codes "2"

-- The sentences of SQL that write the role of the participant `n` of the meeting `seq`, read that
-- participant, and look a member up.
abbrev pub set_role_text : Bool → Bytes → Bytes → Bytes
set_role_text b n seq =
    codes "UPDATE `participant` SET role='"
    ++ (role_text b
        ++ (codes "' WHERE mnum='" ++ (n ++ (codes "' AND meet_seq='" ++ (seq ++ codes "'")))))

abbrev pub participant_text : Bytes → Bytes → Bytes
participant_text seq n =
    codes "SELECT * FROM `participant` WHERE meet_seq='"
    ++ (seq ++ (codes "' AND mnum='" ++ (n ++ codes "'")))

abbrev pub member_text : Bytes → Bytes
member_text mcode = codes "SELECT mnum FROM `member` WHERE mcode='" ++ (mcode ++ codes "'")

-- What the database does with such a sentence, if the texts in it stand for themselves: it writes the role
-- of the participant that is named, and leaves the members alone.
pub record KeepsRoles (db : Database) : Type 0 where
  pub written :
      (b : Bool) (n seq : Bytes) (st st' : db.Store) (old : Option Bytes)
      → StandsForItself n
      → StandsForItself seq
      → db.update (set_role_text b n seq) st ≡ some st'
      → db.participant (participant_text seq n) st ≡ row old
      → db.participant (participant_text seq n) st' ≡ row (some (role_text b))
  pub members :
      (b : Bool) (n seq mcode : Bytes) (st st' : db.Store)
      → StandsForItself n
      → StandsForItself seq
      → StandsForItself mcode
      → db.update (set_role_text b n seq) st ≡ some st'
      → (db.member (member_text mcode) st' ≡ db.member (member_text mcode) st)
        × (db.connects st' ≡ db.connects st)

update_auth-set_role_text : (b : Bool) (n seq : Bytes) → update_auth b n seq ≡ set_role_text b n seq
unfolding update_auth
update_auth-set_role_text true n seq = refl
update_auth-set_role_text false n seq = refl

module _ (db : Database) (decode : Bytes → Bytes) where
  -- A member of a meeting whose right `changeAuth` has written logs in with this right, and never as
  -- a chief, even if it was one.
  pub change_auth-is_suited :
      KeepsRoles db
      → (mcode mscode n seq : Bytes) (b auth chief : Bool) (mnum : ℤ) (old : Option Bytes)
        (st st' : db.Store)
      → StandsForItself mcode
      → StandsForItself n
      → StandsForItself seq
      → db.connects st ≡ true
      → db.member (select_member mcode) st ≡ row mnum
      → number_text mnum ≡ some n
      → meet_seq (decode mscode) ≡ some seq
      → db.participant (select_participant seq n) st ≡ row old
      → db.update (update_auth b n seq) st ≡ some st'
      → (change_auth db decode mcode b mscode st ≡ ended st')
        × (is_suited db decode mcode mscode auth chief st'
            ≡ ended (suits b false (pos (if b then 1 else 2))))
  unfolding change_auth is_suited getline atoi leading_number rights_of select_member
      select_participant
  change_auth-is_suited law mcode mscode n seq b auth chief mnum old st st' pm pn ps c m t s p u =
      let u' = rw (update_auth-set_role_text b n seq) at u in
      let k = law.members b n seq mcode st st' pn ps pm u' in
      let w = law.written b n seq st st' old pn ps u' p in
      (
        rw (c, s, m, for_member, t, run_update, u) refl,
        rw (k.1, c, k.0, m, suited_member, t, s, w) (read b),
      )
    where
      read :
          (b : Bool)
          → ◌≡◌ {A = Call Verdict}
              (ended (rights_of (atoi (getline 5 (if b then codes "1" else codes "2"))) auth chief))
              (ended (suits b false (pos (if b then 1 else 2))))
      read true = refl
      read false = refl

  -- `changeChief` writes the role of the former chief before it looks for the new one: if that is no
  -- member, or the query throws, it ends with the former chief written and no other.
  pub change_chief-lost :
      (src dst mscode n seq : Bytes) (mnum : ℤ) (st st1 : db.Store)
      → db.connects st ≡ true
      → db.member (select_member src) st ≡ row mnum
      → number_text mnum ≡ some n
      → meet_seq (decode mscode) ≡ some seq
      → db.update (update_former n seq) st ≡ some st1
      → (db.member (select_member dst) st1 ≡ empty) ⊎ (db.member (select_member dst) st1 ≡ thrown)
      → change_chief db decode src dst mscode st ≡ ended st1
  unfolding change_chief
  change_chief-lost src dst mscode n seq mnum st st1 c m t s u (inl d) =
      rw (c, s, m, for_member, t, run_update, u, d) refl
  change_chief-lost src dst mscode n seq mnum st st1 c m t s u (inr d) =
      rw (c, s, m, for_member, t, run_update, u, d) refl

  -- If both are members and both statements succeed, both are written.
  change_chief-both :
      (src dst mscode n k seq : Bytes) (mnum new : ℤ) (st st1 st2 : db.Store)
      → db.connects st ≡ true
      → db.member (select_member src) st ≡ row mnum
      → number_text mnum ≡ some n
      → meet_seq (decode mscode) ≡ some seq
      → db.update (update_former n seq) st ≡ some st1
      → db.member (select_member dst) st1 ≡ row new
      → number_text new ≡ some k
      → db.update (update_chief k seq) st1 ≡ some st2
      → change_chief db decode src dst mscode st ≡ ended st2
  unfolding change_chief
  change_chief-both src dst mscode n k seq mnum new st st1 st2 c m t s u d e v =
      rw (c, s, m, for_member, t, run_update, u, d, e, v) refl
