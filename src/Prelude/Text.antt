-- ===== src/Prelude/Text.antt =====
-- Texts as bytes, and what the sources call of the C library for them.
use Prim.Native.Nat.{ℕ, zero, suc, ◌+◌, ◌*◌, ◌-◌, ◌/◌, ◌%◌, ◌^◌, ◌≤◌, ◌<◌}
use Prim.Native.String.{String}
use Prim.Native.Char.{code}
use mathlib.Core.Path.{◌≡◌}
use mathlib.Core.Logic.{inl, inr}
use mathlib.Core.Bool.{Bool, true, false, ◌&&◌}
use mathlib.Core.List.{List, [], ◌∷◌, ◌++◌}
use mathlib.Core.Option.{Option, none, some}
use mathlib.Core.Option
use native.Mathlib.Omega.{arith}
use native.Mathlib.Nat.{pow-suc, one-le-pow}
use encoder_with_web_socket.Prelude.Lists.{length, take, drop, replicate}
use encoder_with_web_socket.Prelude.Tests.{ltb, leb, ◌==◌, if◌then◌else◌, Bool-cases}

-- The bytes of a text, which is taken to be ASCII.
abbrev pub codes : String → List ℕ
codes String.[] = []
codes (String.◌∷◌ c s) = code c ∷ codes s

-- The C string that starts a buffer: the bytes before the first 0; `none` if there is no 0.
unfoldable pub c_string : List ℕ → Option (List ℕ)
c_string [] = none
c_string (b ∷ bs) = if b == 0 then some [] else Option.map (λ s. b ∷ s) (c_string bs)

-- The bytes before the first 0 of a text that ends.
unfoldable pub before_zero : List ℕ → List ℕ
before_zero [] = []
before_zero (b ∷ bs) = if b == 0 then [] else b ∷ before_zero bs

-- `strncpy(buffer, source, n)`, where `buffer` has `n` bytes or more.
unfoldable pub strncpy : List ℕ → List ℕ → ℕ → List ℕ
strncpy buffer source n = take n (source ++ replicate n 0) ++ drop n buffer

unfoldable pub starts_with : List ℕ → List ℕ → Bool
starts_with [] s = true
starts_with (p ∷ ps) [] = false
starts_with (p ∷ ps) (c ∷ s) = p == c && starts_with ps s

-- `strstr`, as the place of the first occurrence.
unfoldable pub strstr : List ℕ → List ℕ → Option ℕ
unfolding starts_with
strstr [] p = if starts_with p [] then some 0 else none
strstr (c ∷ s) p = if starts_with p (c ∷ s) then some 0 else Option.map suc (strstr s p)

-- A signed integer; `negsuc n` is -(n + 1).
pub data ℤ : Type 0 where
  pos : ℕ → ℤ
  negsuc : ℕ → ℤ

-- The digits of `n` before `out`; a number of 20 digits at most has enough fuel with 20.
unfoldable pub digits : ℕ → ℕ → List ℕ → List ℕ
digits zero n out = out
digits (suc f) n out =
    let rest = digits f (n / 10) ((b'0' + n % 10) ∷ out) in
    if ltb n 10 then (b'0' + n) ∷ out else rest

-- `%d` of `sprintf`
unfoldable pub print_int : ℤ → List ℕ
unfolding digits
print_int (pos n) = digits 20 n []
print_int (negsuc n) = b'-' ∷ digits 20 (n + 1) []

abbrev pub is_digit : ℕ → Bool
is_digit c = leb b'0' c && leb c b'9'

-- The number that the digits at the head of a text spell behind `n`.
unfoldable pub leading_number : ℕ → List ℕ → ℕ
leading_number n [] = n
leading_number n (c ∷ s) =
    let rest = leading_number (n * 10 + (c - b'0')) s in if is_digit c then rest else n

abbrev pub opposite : ℕ → ℤ
opposite zero = pos 0
opposite (suc n) = negsuc n

-- `atoi` of a text that has no white space at its head.
unfoldable pub atoi : List ℕ → ℤ
unfolding leading_number
atoi [] = pos 0
atoi (c ∷ s) =
    if c == b'-'
    then opposite (leading_number 0 s)
    else if c == b'+'
    then pos (leading_number 0 s)
    else pos (leading_number 0 (c ∷ s))

-- `getline(buffer, n)` of a stream: what stands before the end of its first line, and no more than
-- `n - 1` bytes.
unfoldable pub getline : ℕ → List ℕ → List ℕ
getline zero s = []
getline (suc zero) s = []
getline (suc (suc n)) [] = []
getline (suc (suc n)) (c ∷ s) = let rest = getline (suc n) s in if c == 10 then [] else c ∷ rest

length-le-digits : (f n : ℕ) (out : List ℕ) → length out ≤ length (digits f n out)
unfolding digits
length-le-digits zero n out = omega arith
length-le-digits (suc f) n out = elim (Bool-cases (ltb n 10)) [
  | inl k ↦ rw k (omega arith)
  | inr k ↦ rw k (omega (arith, length-le-digits f (n / 10) ((b'0' + n % 10) ∷ out)))
]

-- A number below 10ᵏ⁺¹ has no more than k + 1 digits, and one from 10ᵏ on has more than k.
pub length-digits_le :
    (f n k : ℕ) (out : List ℕ) → n < 10 ^ (k + 1) → length (digits f n out) ≤ k + 1 + length out
unfolding digits
length-digits_le zero n k out h = omega arith
length-digits_le (suc f) n zero out h = let t : ltb n 10 ≡ true = ground arith in rw t (omega arith)
length-digits_le (suc f) n (suc k) out h = elim (Bool-cases (ltb n 10)) [
  | inl t ↦ rw t (omega arith)
  | inr t ↦
      let p : suc k + 1 ≡ suc (k + 1) = omega arith in
      let h' = rw (p, pow-suc 10 (k + 1)) at h in
      let q : n / 10 < 10 ^ (k + 1) = omega arith in
      rw t (omega (arith, length-digits_le f (n / 10) k ((b'0' + n % 10) ∷ out) q))
]

pub length-digits_lt :
    (f n k : ℕ) (out : List ℕ) → 10 ^ k ≤ n → k < f → k + length out < length (digits f n out)
unfolding digits
length-digits_lt zero n k out h l = absurd (omega arith)
length-digits_lt (suc f) n zero out h l = elim (Bool-cases (ltb n 10)) [
  | inl t ↦ rw t (omega arith)
  | inr t ↦ rw t (omega (arith, length-le-digits f (n / 10) ((b'0' + n % 10) ∷ out)))
]
length-digits_lt (suc f) n (suc k) out h l =
    let q : 10 ^ k ≤ n / 10 = omega (arith, pow-suc 10 k) in
    let big : 10 ≤ n = omega (arith, pow-suc 10 k, one-le-pow k 10 (omega arith)) in
    let t : ltb n 10 ≡ false = ground arith in
    rw t (omega (arith, length-digits_lt f (n / 10) k ((b'0' + n % 10) ∷ out) q (omega arith)))
