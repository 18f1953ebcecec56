-- ===== src/Prelude/Slices.antt =====
-- Slices of buffers: `take` and `drop` at the places where two pieces were joined.
use Prim.Native.Nat.{ℕ, zero, suc, ◌+◌, ◌-◌, ◌≤◌, min}
use mathlib.Core.Path.{◌≡◌, refl, ap, ◌∙◌}
use mathlib.Core.List.{List, [], ◌∷◌, ◌++◌}
use native.Mathlib.Omega.{arith}
use Prim.Native.Nat.add
use czrpc.Prelude.Lists.{length, take, drop}

module _ {ℓ} {A : Type ℓ} where
  -- `n` entries from the place `i` on.
  abbrev pub slice : ℕ → ℕ → List A → List A
  slice i n xs = take n (drop i xs)

  pub take-append : (xs ys : List A) → take (length xs) (xs ++ ys) ≡ xs
  take-append [] ys = refl
  take-append (x ∷ xs) ys = ap (◌∷◌ x) (take-append xs ys)

  pub drop-append : (xs ys : List A) → drop (length xs) (xs ++ ys) ≡ ys
  drop-append [] ys = refl
  drop-append (x ∷ xs) ys = drop-append xs ys

  pub take-length : (xs : List A) → take (length xs) xs ≡ xs
  take-length [] = refl
  take-length (x ∷ xs) = ap (◌∷◌ x) (take-length xs)

  pub take-drop : (n : ℕ) (xs : List A) → take n xs ++ drop n xs ≡ xs
  take-drop zero xs = refl
  take-drop (suc n) [] = refl
  take-drop (suc n) (x ∷ xs) = ap (◌∷◌ x) (take-drop n xs)

  pub drop-add : (i j : ℕ) (xs : List A) → drop (i + j) xs ≡ drop j (drop i xs)
  drop-add zero j xs = ap (λ n. drop n xs) (add.zero j)
  drop-add (suc i) zero [] = ap (λ n. drop n []) (add.suc i 0)
  drop-add (suc i) (suc j) [] = ap (λ n. drop n []) (add.suc i (suc j))
  drop-add (suc i) j (x ∷ xs) = ap (λ n. drop n (x ∷ xs)) (add.suc i j) ∙ drop-add i j xs

  pub length-take : (n : ℕ) (xs : List A) → length (take n xs) ≡ min n (length xs)
  length-take zero xs = omega arith
  length-take (suc n) [] = omega arith
  length-take (suc n) (x ∷ xs) = omega (arith, length-take n xs)

  pub length-drop : (n : ℕ) (xs : List A) → length (drop n xs) ≡ length xs - n
  length-drop zero xs = omega arith
  length-drop (suc n) [] = omega arith
  length-drop (suc n) (x ∷ xs) = omega (arith, length-drop n xs)

-- Three texts laid out one behind another are cut apart by their lengths.
module _ {ℓ} {A : Type ℓ} (p n b : List A) where
  pub slice_first : slice 0 (length p) (p ++ (n ++ b)) ≡ p
  slice_first = take-append p (n ++ b)

  pub slice_second : slice (length p) (length n) (p ++ (n ++ b)) ≡ n
  slice_second = rw (drop-append p (n ++ b)) (take-append n b)

  pub slice_third : slice (length p + length n) (length b) (p ++ (n ++ b)) ≡ b
  slice_third =
      rw (drop-add (length p) (length n) (p ++ (n ++ b)), drop-append p (n ++ b), drop-append n b)
        (take-length b)

module _ {ℓ} {A : Type ℓ} where
  -- A cut behind the first piece leaves it whole.
  pub take-append_le :
      (n : ℕ) (xs ys : List A) → length xs ≤ n → take n (xs ++ ys) ≡ xs ++ take (n - length xs) ys
  take-append_le n [] ys h = ap (λ m. take m ys) (omega arith)
  take-append_le zero (x ∷ xs) ys h = absurd (omega arith)
  take-append_le (suc n) (x ∷ xs) ys h =
      ap (◌∷◌ x) (take-append_le n xs ys (omega arith) ∙ ap (λ m. xs ++ take m ys) (omega arith))
