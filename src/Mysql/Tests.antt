-- ===== src/Mysql/Tests.antt =====
-- MySQLConnector.cpp on a small database.
use encoder_with_web_socket.Prelude.{
  ℕ, codes, pos, ◌≡◌, refl, Bool, true, false, Option, none, some, arith, ◌==◌, if◌then◌else◌,
  length, get_elem?,
}
use encoder_with_web_socket.Mysql.Statements.{Bytes, MysqlContext, Answer, Database, empty, row}
use encoder_with_web_socket.Mysql.Rights.{KeepsRoles, StandsForItself, set_role_text, role_text}

abbrev context : MysqlContext
context = record {
  ip = codes "163.180.117.201";
  id = codes "u";
  pw = codes "p";
  schema = codes "s";
}

-- A backslash and n are a new line; the other escapes of this reading are the byte itself.
abbrev escape : ℕ → ℕ
escape d = if d == 110 then 10 else d

abbrev broken_mcode : Bytes
broken_mcode = codes "a' OR '1"

-- A database with one member, whose role is all that it stores; the statement of `changeAuth` has the
-- role as its byte 31.
abbrev pub one_member : Database
one_member = record {
  Store = Bytes;
  connects = λ st. true;
  member = λ text st. if length text == 41 then row (pos 7) else empty;
  participant = λ text st. row (some st);
  meeting = λ text st. empty;
  update = λ text st. elim (get_elem? text 31) [
    | none ↦ none
    | some c ↦ some (if c == b'1' then codes "1" else codes "2")
  ];
}

pub one_member-KeepsRoles : KeepsRoles one_member
one_member-KeepsRoles = record {
  written = written;
  members = λ b n seq mcode st st' pn ps pm u. (refl, refl);
}
  where
    written :
        (b : Bool) (n seq : Bytes) (st st' : Bytes) (old : Option Bytes)
        → StandsForItself n
        → StandsForItself seq
        → one_member.update (set_role_text b n seq) st ≡ some st'
        → ◌≡◌ {A = Answer (Option Bytes)} (row (some st)) (row old)
        → ◌≡◌ {A = Answer (Option Bytes)} (row (some st')) (row (some (role_text b)))
    written true n seq st st' old pn ps u p = ground arith
    written false n seq st st' old pn ps u p = ground arith
