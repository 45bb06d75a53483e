-- ===== src/Mysql/Suited.antt =====
-- `isSuited` and `getVMInfo` of MySQLConnector.cpp.
use encoder_with_web_socket.Prelude.{
  atoi, getline, ℤ, pos, negsuc, zero, suc, Bool, true, false, Option, none, some, if◌then◌else◌,
}
use encoder_with_web_socket.Mysql.Statements.{
  Bytes, number_text, meet_seq, select_member, select_participant, select_meeting, Answer, Database,
  Call, thrown, empty, row, ended, broken,
}

-- What `isSuited` leaves: it returns false, or true with `checkAuth`, `checkChief` and `role`.
pub data Verdict : Type 0 where
  refuses : Verdict
  suits : Bool → Bool → ℤ → Verdict

-- The tests of `intAuth`; another role leaves both flags as they are.
unfoldable pub rights_of : ℤ → Bool → Bool → Verdict
rights_of (pos zero) auth chief = suits true true (pos 0)
rights_of (pos (suc zero)) auth chief = suits true false (pos 1)
rights_of (pos (suc (suc zero))) auth chief = suits false false (pos 2)
rights_of (pos (suc (suc (suc n)))) auth chief = suits auth chief (pos (suc (suc (suc n))))
rights_of (negsuc n) auth chief = suits auth chief (negsuc n)

-- The role of the row of `participant`, as `getline` and `atoi` read it.
abbrev pub read_role : Answer (Option Bytes) → Bool → Bool → Verdict
read_role thrown auth chief = refuses
read_role empty auth chief = refuses
read_role (row none) auth chief = refuses
read_role (row (some blob)) auth chief = rights_of (atoi (getline 5 blob)) auth chief

abbrev pub password_of : Answer (Option Bytes) → Option ℤ
password_of thrown = none
password_of empty = none
password_of (row none) = none
password_of (row (some blob)) = some (atoi (getline 11 blob))

abbrev pub both_texts : Option Bytes → Option Bytes → (Bytes → Bytes → Verdict) → Call Verdict
both_texts none s f = broken
both_texts (some n) none f = broken
both_texts (some n) (some s) f = ended (f n s)

module _ (db : Database) (decode : Bytes → Bytes) where
  open db use {Store, connects, member, participant, meeting}

  abbrev pub suited_member : Answer ℤ → Bytes → Bool → Bool → Store → Call Verdict
  suited_member thrown mscode auth chief st = ended refuses
  suited_member empty mscode auth chief st = ended refuses
  suited_member (row mnum) mscode auth chief st =
      both_texts (number_text mnum) (meet_seq (decode mscode))
        (λ n s. read_role (participant (select_participant s n) st) auth chief)

  -- `isSuited`, with what `checkAuth` and `checkChief` hold before it.
  unfoldable pub is_suited : Bytes → Bytes → Bool → Bool → Store → Call Verdict
  is_suited mcode mscode auth chief st =
      if connects st
      then suited_member (member (select_member mcode) st) mscode auth chief st
      else ended refuses

  -- `getVMInfo`: the password, if there is one. With no connection it goes on with a statement that
  -- has not been created.
  unfoldable pub vm_info : Bytes → Store → Call (Option ℤ)
  vm_info mscode st =
      if connects st then ended (password_of (meeting (select_meeting mscode) st)) else broken
