-- ===== src/Mysql/Change.antt =====
-- `changeAuth` and `changeChief` of MySQLConnector.cpp.
use encoder_with_web_socket.Prelude.{ℤ, Bool, none, some, if◌then◌else◌}
use encoder_with_web_socket.Mysql.Statements.{
  Bytes, number_text, meet_seq, select_member, update_auth, update_former, update_chief, Answer,
  Database, Call, thrown, empty, row, ended, broken,
}

module _ (db : Database) (decode : Bytes → Bytes) where
  open db use {Store, connects, member, update}

  -- `stmt->executeUpdate`: an exception ends the `try` block, with the store as it is.
  abbrev pub run_update : Bytes → Store → (Store → Call Store) → Call Store
  run_update text st go = elim (update text st) [ none ↦ ended st | some st' ↦ go st' ]

  -- One `if(res->next())`: the member's number goes into a statement, and the block goes on; an
  -- exception of the query ends it.
  abbrev pub for_member : Answer ℤ → (Bytes → Bytes) → Store → (Store → Call Store) → Call Store
  for_member thrown text st go = ended st
  for_member empty text st go = go st
  for_member (row mnum) text st go = elim (number_text mnum) [
    | none ↦ broken
    | some n ↦ run_update (text n) st go
  ]

  -- `changeAuth`
  unfoldable pub change_auth : Bytes → Bool → Bytes → Store → Call Store
  change_auth dst authority mscode st =
      if connects st
      then elim (meet_seq (decode mscode)) [
        | none ↦ broken
        | some seq ↦
            for_member (member (select_member dst) st) (λ n. update_auth authority n seq) st
              (λ st'. ended st')
      ]
      else broken

  -- `changeChief`
  unfoldable pub change_chief : Bytes → Bytes → Bytes → Store → Call Store
  change_chief src dst mscode st =
      if connects st
      then elim (meet_seq (decode mscode)) [
        | none ↦ broken
        | some seq ↦
            for_member (member (select_member src) st) (λ n. update_former n seq) st
              (λ st'.
                for_member (member (select_member dst) st') (λ n. update_chief n seq) st'
                  (λ st''. ended st''))
      ]
      else broken
