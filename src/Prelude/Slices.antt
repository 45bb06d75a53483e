-- ===== src/Prelude/Slices.antt =====
-- Slices of a list: `n` elements from an index on.
use Prim.Native.Nat.{ℕ, zero, suc, ◌+◌, ◌-◌, ◌<◌, ◌≤◌}
use Prim.Native.Nat.add
use mathlib.Core.Path.{◌≡◌, refl, sym, ap, ◌∙◌}
use mathlib.Core.List.{List, [], ◌∷◌, ◌++◌, append-nil}
use mathlib.Core.Option.{some}
use native.Mathlib.Numerals.{add-one}
use native.Mathlib.Omega.{arith}
use encoder_with_web_socket.Prelude.Lists.{length, get_elem?, set, take, drop}

module _ {ℓ} {A : Type ℓ} where
  unfoldable pub slice : List A → ℕ → ℕ → List A
  slice xs i n = take n (drop i xs)

  take-set_end :
      (n : ℕ) (xs : List A) (e : A)
      → n < length xs
      → take (suc n) (set xs n e) ≡ take n xs ++ (e ∷ [])
  take-set_end n [] e h = absurd (omega arith)
  take-set_end zero (x ∷ xs) e h = refl
  take-set_end (suc n) (x ∷ xs) e h = ap (◌∷◌ x) (take-set_end n xs e (omega arith))

  -- Writing just past a slice makes it longer by that element.
  pub slice-set :
      (i n : ℕ) (xs : List A) (e : A)
      → i + n < length xs
      → slice (set xs (i + n) e) i (suc n) ≡ slice xs i n ++ (e ∷ [])
  unfolding slice
  slice-set zero n xs e h = rw (add.zero n) (take-set_end n xs e (omega arith))
  slice-set (suc i) n [] e h = absurd (omega arith)
  slice-set (suc i) n (x ∷ xs) e h = rw (add.suc i n) (slice-set i n xs e (omega arith))

  -- A slice that is not empty begins with the element at its index.
  pub slice-suc :
      (i n : ℕ) (xs : List A)
      → i < length xs
      → (x : A) × (get_elem? xs i ≡ some x) × (slice xs i (suc n) ≡ x ∷ slice xs (suc i) n)
  unfolding slice
  slice-suc i n [] h = absurd (omega arith)
  slice-suc zero n (x ∷ xs) h = (x, refl, refl)
  slice-suc (suc i) n (x ∷ xs) h = let r = slice-suc i n xs (omega arith) in (r.0, r.1, r.2)

  pub slice-zero : (i : ℕ) (xs : List A) → slice xs i 0 ≡ []
  unfolding slice
  slice-zero i xs = refl

  pub length-slice : (i n : ℕ) (xs : List A) → i + n ≤ length xs → length (slice xs i n) ≡ n
  unfolding slice
  length-slice i zero xs h = refl
  length-slice zero (suc n) [] h = absurd (omega arith)
  length-slice (suc i) (suc n) [] h = absurd (omega arith)
  length-slice zero (suc n) (x ∷ xs) h = ap suc (length-slice zero n xs (omega arith))
  length-slice (suc i) (suc n) (x ∷ xs) h = length-slice i (suc n) xs (omega arith)

  pub slice-cons :
      (i n : ℕ) (xs : List A)
      → i < length xs
      → 0 < n
      → (x : A) × (get_elem? xs i ≡ some x) × (slice xs i n ≡ x ∷ slice xs (i + 1) (n - 1))
  slice-cons i zero xs h p = absurd (omega arith)
  slice-cons i (suc n) xs h p =
      let r = slice-suc i n xs h in
      let e : suc n - 1 ≡ n = omega arith in (r.0, r.1, rw (e, add-one) r.2)

  pub drop_all : (n : ℕ) (xs : List A) → length xs ≤ n → drop n xs ≡ []
  drop_all zero [] h = refl
  drop_all (suc n) [] h = refl
  drop_all zero (x ∷ xs) h = absurd (omega arith)
  drop_all (suc n) (x ∷ xs) h = drop_all n xs (omega arith)

  pub take_all : (n : ℕ) (xs : List A) → length xs ≤ n → take n xs ≡ xs
  take_all zero [] h = refl
  take_all (suc n) [] h = refl
  take_all zero (x ∷ xs) h = absurd (omega arith)
  take_all (suc n) (x ∷ xs) h = ap (◌∷◌ x) (take_all n xs (omega arith))

  take-append-drop' : (n : ℕ) (xs : List A) → take n xs ++ drop n xs ≡ xs
  take-append-drop' zero xs = refl
  take-append-drop' (suc n) [] = refl
  take-append-drop' (suc n) (x ∷ xs) = ap (◌∷◌ x) (take-append-drop' n xs)

  drop-nil : (n : ℕ) → drop n (let e : List A = [] in e) ≡ []
  drop-nil zero = refl
  drop-nil (suc n) = refl

  pub drop-drop : (i n : ℕ) (xs : List A) → drop n (drop i xs) ≡ drop (i + n) xs
  drop-drop zero n xs = rw (add.zero n)
  drop-drop (suc i) n [] = drop-nil n ∙ sym (drop-nil (suc i + n))
  drop-drop (suc i) n (x ∷ xs) = rw (add.suc i n) (drop-drop i n xs)

  -- A slice and what follows it.
  pub slice-append-drop : (i n : ℕ) (xs : List A) → slice xs i n ++ drop (i + n) xs ≡ drop i xs
  unfolding slice
  slice-append-drop i n xs = rw (← drop-drop i n xs) (take-append-drop' n (drop i xs))

  -- A slice up to the end.
  pub slice-to_end : (i n : ℕ) (xs : List A) → length xs ≤ i + n → slice xs i n ≡ drop i xs
  slice-to_end i n xs h =
      sym (append-nil (slice xs i n))
      ∙ ap (◌++◌ (slice xs i n)) (sym (drop_all (i + n) xs h))
      ∙ slice-append-drop i n xs
