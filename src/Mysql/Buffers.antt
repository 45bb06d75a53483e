-- ===== src/Mysql/Buffers.antt =====
-- What fits into the buffers of MySQLConnector.cpp.
use encoder_with_web_socket.Prelude.{
  c_string, strncpy, digits, print_int, pos, length-digits_le, length-digits_lt, ℕ, zero, suc, ◌^◌,
  ◌≤◌, ◌<◌, ◌≡◌, refl, ap, ◌≢◌, ◌↔◌, inl, inr, true, false, Option, none, some, [], ◌∷◌, ◌++◌,
  append_assoc, append-nil, arith, ltb, ◌==◌, if◌then◌else◌, Bool-cases, length, take, drop,
  replicate,
}
use mathlib.Core.Option
use encoder_with_web_socket.Mysql.Statements.{
  Bytes, MysqlContext, MysqlConnector, connector, number_text,
}

-- A number goes into its buffer of ten bytes exactly below 10⁹, although it may be an int.
number_text_fits : (n : ℕ) → (number_text (pos n) ≢ none) ↔ (n < 10 ^ 9)
unfolding number_text print_int
number_text_fits n = elim (Bool-cases (ltb n (10 ^ 9))) [
  | inl k ↦
      let h : n < 10 ^ 9 = ground arith in
      let l = length-digits_le 20 n 8 [] h in
      let t : ltb (length (digits 20 n [])) 10 ≡ true = ground arith in
      (λ q. h, λ q. rw t (λ e. cc))
  | inr k ↦
      let h : 10 ^ 9 ≤ n = ground arith in
      let l = length-digits_lt 20 n 9 [] h (omega arith) in
      let t : ltb (length (digits 20 n [])) 10 ≡ false = ground arith in
      (λ q. absurd (q (rw t refl)), λ q. absurd (omega arith))
]

abbrev pub NoZero : Bytes → Type 0
NoZero [] = Unit {0}
NoZero (b ∷ bs) = (b ≢ 0) × NoZero bs

map-map :
    (x : ℕ) (xs : Bytes) (o : Option Bytes)
    → Option.map (λ s. x ∷ s) (Option.map (λ s. xs ++ s) o) ≡ Option.map (λ s. (x ∷ xs) ++ s) o
map-map x xs none = refl
map-map x xs (some s) = refl

map-id : (o : Option Bytes) → o ≡ Option.map (λ s. [] ++ s) o
map-id none = refl
map-id (some s) = refl

NoZero-take : (n : ℕ) (xs : Bytes) → NoZero xs → NoZero (take n xs)
NoZero-take zero xs h = record {}
NoZero-take (suc n) [] h = record {}
NoZero-take (suc n) (x ∷ xs) (h, hs) = (h, NoZero-take n xs hs)

take-append_le : (n : ℕ) (xs ys : Bytes) → n ≤ length xs → take n (xs ++ ys) ≡ take n xs
take-append_le zero xs ys h = refl
take-append_le (suc n) [] ys h = absurd (omega arith)
take-append_le (suc n) (x ∷ xs) ys h = ap (◌∷◌ x) (take-append_le n xs ys (omega arith))

-- A source that is shorter than the bound is padded with zeros.
take-append_zeros :
    (n k : ℕ) (xs : Bytes)
    → length xs < n
    → n ≤ k
    → (rest : Bytes) × (take n (xs ++ replicate k 0) ≡ xs ++ 0 ∷ rest)
take-append_zeros zero k xs h l = absurd (omega arith)
take-append_zeros (suc n) zero [] h l = absurd (omega arith)
take-append_zeros (suc n) (suc k) [] h l = (take n (replicate k 0), refl)
take-append_zeros (suc n) k (x ∷ xs) h l =
    let (rest, e) = take-append_zeros n k xs (omega arith) (omega arith) in (rest, ap (◌∷◌ x) e)

c_string-append :
    (xs ys : Bytes) → NoZero xs → c_string (xs ++ ys) ≡ Option.map (λ s. xs ++ s) (c_string ys)
unfolding c_string
c_string-append [] ys h = map-id (c_string ys)
c_string-append (x ∷ xs) ys (h, hs) =
    let t : x == 0 ≡ false = ground arith in
    rw (t, c_string-append xs ys hs) (map-map x xs (c_string ys))

-- The address is read back from its array as it was given if it has less than 15 bytes; from 15 on
-- it has no end mark, and what the array held before is read behind its first 15 bytes.
server_ip-read :
    (ctx : MysqlContext) (m : MysqlConnector)
    → NoZero ctx.ip
    → c_string (connector ctx m).server_ip ≡ (
        if ltb (length ctx.ip) 15
        then some ctx.ip
        else Option.map (λ s. take 15 ctx.ip ++ s) (c_string (drop 15 m.server_ip)))
unfolding connector strncpy c_string
server_ip-read ctx m h = elim (Bool-cases (ltb (length ctx.ip) 15)) [
  | inl t ↦
      let (rest, e) = take-append_zeros 15 15 ctx.ip (ground arith) (omega arith) in
      simp (t, e)
        (rw (append_assoc, c_string-append ctx.ip (0 ∷ (rest ++ drop 15 m.server_ip)) h)
          (rw (append-nil ctx.ip) refl))
  | inr t ↦
      simp (t, take-append_le 15 ctx.ip (replicate 15 0) (ground arith))
        (c_string-append (take 15 ctx.ip) (drop 15 m.server_ip) (NoZero-take 15 ctx.ip h))
]
