-- ===== src/Mysql/Quoting.antt =====
-- The texts of clients inside the statements of MySQLConnector.cpp.
use encoder_with_web_socket.Prelude.{
  ℕ, ◌≡◌, ◌≢◌, ◌⊎◌, Option, none, some, [], ◌∷◌, ◌==◌, if◌then◌else◌, Bool, true, drop,
}
use encoder_with_web_socket.Mysql.Statements.{Bytes}

abbrev pub quote : ℕ
quote = 39

abbrev pub backslash : ℕ
backslash = 92

-- A backslash before % and before _ stays.
abbrev pub keeps : ℕ → Bool
keeps d = if d == 37 then true else d == 95

abbrev pub cons : ℕ → Option Bytes → Option Bytes
cons c none = none
cons c (some s) = some (c ∷ s)

-- `escape d` is what a backslash and `d` stand for.
module _ (escape : ℕ → ℕ) where
  -- What a literal that starts here holds, as MySQL reads it: two quotes are one, a backslash escapes the
  -- next byte, and a quote alone ends it. `none` if it is not ended.
  unfoldable pub literal : Bytes → Option Bytes
  literal [] = none
  literal (c ∷ []) = if c == quote then some [] else none
  literal (c ∷ d ∷ s) =
      let next = literal (d ∷ s) in
      let far = literal s in
      if c == quote
      then (if d == quote then cons quote far else some [])
      else if c == backslash
      then (if keeps d then cons c (cons d far) else cons (escape d) far)
      else cons c next

  -- No quote, and no backslash but before % and _.
  abbrev pub IsPlain : Bytes → Type 0
  IsPlain [] = Unit {0}
  IsPlain (c ∷ []) = (c ≢ quote) × (c ≢ backslash)
  IsPlain (c ∷ d ∷ s) =
      (c ≢ quote)
      × (((c ≢ backslash) × IsPlain (d ∷ s)) ⊎ ((c ≡ backslash) × (keeps d ≡ true) × IsPlain s))

  -- The text in which the statement compares a member's name.
  abbrev pub compared : Bytes → Option Bytes
  compared statement = literal (drop 39 statement)
