-- ===== src/Base64.antt =====
-- Base64.hpp and Base64.cpp: the texts of a meeting as base64, over the iterators of boost.
use encoder_with_web_socket.Prelude.{
  ℕ, zero, suc, refl, Bool, true, false, ◌==◌, ◌+◌, ◌-◌, ◌*◌, ◌/◌, ◌%◌, ◌≡◌, subst, ◌↔◌, List, [],
  ◌∷◌, ◌++◌, arith, length, length-append, replicate, length-replicate,
}

abbrev pub Bytes : Type 0
Bytes = List ℕ

-- `[](char c) { return c == '\0'; }`
abbrev pub is_nul : ℕ → Bool
is_nul c = c == 0

-- The last byte of a text does not satisfy the test.
abbrev pub EndsOutside : (ℕ → Bool) → Bytes → Type 0
EndsOutside p [] = Unit {0}
EndsOutside p (b ∷ []) = p b ≡ false
EndsOutside p (b ∷ c ∷ bs) = EndsOutside p (c ∷ bs)

abbrev pub AllInside : (ℕ → Bool) → Bytes → Type 0
AllInside p [] = Unit {0}
AllInside p (b ∷ bs) = (p b ≡ true) × AllInside p bs

AllInside-zeros : (j : ℕ) → AllInside is_nul (replicate j 0)
AllInside-zeros zero = record {}
AllInside-zeros (suc j) = (refl, AllInside-zeros j)

-- What boost gives: the characters for the bytes of a text, one for each six bits; the bytes that
-- the characters stand for; and `trim_right_copy_if`, which takes the longest end away whose bytes satisfy
-- a test. A text that has been padded by `=` decodes to itself, and zeros behind it.
pub record Boost : Type 0 where
  pub from_binary : Bytes → Bytes
  pub to_binary : Bytes → Bytes
  pub trim_right_copy_if : Bytes → (ℕ → Bool) → Bytes
  pub length-from_binary : (v : Bytes) → length (from_binary v) ≡ (length v * 8 + 5) / 6
  pub to_binary-from_binary :
      (v : Bytes) (k : ℕ)
      → (length (from_binary v) + k) % 4 ≡ 0
      → (j : ℕ) × (to_binary (from_binary v ++ replicate k b'=') ≡ v ++ replicate j 0)
  pub trim-append :
      (p : ℕ → Bool) (v w : Bytes)
      → EndsOutside p v
      → AllInside p w
      → trim_right_copy_if (v ++ w) p ≡ v
  pub trim-EndsOutside : (p : ℕ → Bool) (v : Bytes) → EndsOutside p (trim_right_copy_if v p)

module _ (boost : Boost) where
  open boost use {
    from_binary, to_binary, trim_right_copy_if, length-from_binary, to_binary-from_binary,
    trim-append, trim-EndsOutside,
  }

  -- `Base64::encode`
  unfoldable pub encode : Bytes → Bytes
  encode v = from_binary v ++ replicate ((3 - length v % 3) % 3) b'='

  -- `Base64::decode`
  unfoldable pub decode : Bytes → Bytes
  decode v = trim_right_copy_if (to_binary v) is_nul

  -- An encoded text has four characters for each three bytes that are begun.
  length-encode : (v : Bytes) → length (encode v) ≡ (length v + 2) / 3 * 4
  unfolding encode
  length-encode v = rw (length-append, length-replicate) (omega (arith, length-from_binary v))

  -- A text comes back from its code exactly if its last byte is not 0.
  decode-encode : (v : Bytes) → (decode (encode v) ≡ v) ↔ EndsOutside is_nul v
  unfolding encode decode
  decode-encode v = (
    λ e. subst (EndsOutside is_nul) e (trim-EndsOutside is_nul _),
    λ h.
        let k : ℕ = (3 - length v % 3) % 3 in
        let (j, e) = to_binary-from_binary v k (omega (arith, length-from_binary v)) in
        rw (decode, encode, e) (trim-append is_nul v (replicate j 0) h (AllInside-zeros j)),
  )
