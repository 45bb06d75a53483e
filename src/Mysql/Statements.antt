-- ===== src/Mysql/Statements.antt =====
-- The texts that MySQLConnector.cpp sends to the database, and the buffers they are made of.
use encoder_with_web_socket.Prelude.{
  before_zero, strncpy, strstr, print_int, codes, ℤ, ℕ, Bool, Option, none, some, List, ◌++◌, ltb,
  if◌then◌else◌, length, take,
}

abbrev pub Bytes : Type 0
Bytes = List ℕ

-- `struct MySQLContext`, each text without its end mark.
pub record MysqlContext : Type 0 where
  pub ip : Bytes
  pub id : Bytes
  pub pw : Bytes
  pub schema : Bytes

-- The fields of `class MySQLConnector`: four arrays of 255 bytes.
pub record MysqlConnector : Type 0 where
  pub server_ip : Bytes
  pub server_id : Bytes
  pub server_pw : Bytes
  pub server_schema : Bytes

-- The constructor, on the bytes that the arrays hold before it.
unfoldable pub connector : MysqlContext → MysqlConnector → MysqlConnector
connector ctx m = record {
  server_ip = strncpy m.server_ip ctx.ip 15;
  server_id = strncpy m.server_id ctx.id 255;
  server_pw = strncpy m.server_pw ctx.pw 255;
  server_schema = strncpy m.server_schema ctx.schema 255;
}

-- `char mnumChar[10]; sprintf(mnumChar, "%d", …)`; `none` if the text and its end mark do not fit.
unfoldable pub number_text : ℤ → Option Bytes
number_text n = let s = print_int n in if ltb (length s) 10 then some s else none

-- `char meetSeqChar[10]`: the part of the decoded text before "from"; `none` where `strstr` returns
-- NULL, and where the part leaves no room for an end mark.
unfoldable pub meet_seq : Bytes → Option Bytes
meet_seq decoded = elim (strstr (before_zero decoded) (codes "from")) [
  | none ↦ none
  | some k ↦ if ltb k 10 then some (take k (before_zero decoded)) else none
]

-- "SELECT mnum FROM `member` WHERE mcode='…'"
unfoldable pub select_member : Bytes → Bytes
select_member mcode = codes "SELECT mnum FROM `member` WHERE mcode='" ++ (mcode ++ codes "'")

unfoldable pub select_participant : Bytes → Bytes → Bytes
select_participant seq mnum =
    codes "SELECT * FROM `participant` WHERE meet_seq='"
    ++ (seq ++ (codes "' AND mnum='" ++ (mnum ++ codes "'")))

-- The statement of `getVMInfo`.
unfoldable pub select_meeting : Bytes → Bytes
select_meeting mscode =
    codes "SELECT storagepassword FROM `meeting` WHERE mscode='" ++ (mscode ++ codes "'")

-- The statement of `changeAuth`.
unfoldable pub update_auth : Bool → Bytes → Bytes → Bytes
update_auth authority mnum seq =
    (if authority
      then codes "UPDATE `participant` SET role='1' WHERE mnum='"
      else codes "UPDATE `participant` SET role='2' WHERE mnum='")
    ++ (mnum ++ (codes "'" ++ (codes " AND meet_seq='" ++ (seq ++ codes "'"))))

-- The statements of `changeChief` for the member that is chief no more, and for the new one.
unfoldable pub update_former : Bytes → Bytes → Bytes
update_former mnum seq =
    codes "UPDATE `participant` SET role=1 WHERE mnum=" ++ (mnum ++ (codes " AND meet_seq=" ++ seq))

unfoldable pub update_chief : Bytes → Bytes → Bytes
update_chief mnum seq =
    codes "UPDATE `participant` SET role=0 WHERE mnum=" ++ (mnum ++ (codes " AND meet_seq=" ++ seq))

-- What a query gives: an exception, no row, or what is read of the first row.
pub data Answer (A : Type 0) : Type 0 where
  thrown : Answer A
  empty : Answer A
  row : A → Answer A

-- The database and its driver. `connects` tells whether `connect` returns a connection; a query
-- changes nothing; `update` gives `none` where it throws. A blob is `none` where `getBlob` returns null.
pub record Database : Type 1 where
  pub Store : Type 0
  pub connects : Store → Bool
  pub member : Bytes → Store → Answer ℤ
  pub participant : Bytes → Store → Answer (Option Bytes)
  pub meeting : Bytes → Store → Answer (Option Bytes)
  pub update : Bytes → Store → Option Store

-- A call ends, or writes outside an array or uses a pointer that is not set.
pub data Call (A : Type 0) : Type 0 where
  ended : A → Call A
  broken : Call A
