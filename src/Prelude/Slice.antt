-- ===== src/Prelude/Slice.antt =====
-- Slices `xs[:n]` and `xs[n:]`, and what they do to lists put together.
use super.Prelude.{ℕ, zero, suc, ◌+◌, ◌-◌, ◌≤◌, ◌≡◌, refl, ap, List, [], ◌∷◌, ◌++◌, arith}
use super.Prelude.{length}

module _ {V : Type 0} where
  abbrev pub take : ℕ → List V → List V
  take zero xs = []
  take (suc n) [] = []
  take (suc n) (x ∷ xs) = x ∷ take n xs

  abbrev pub drop : ℕ → List V → List V
  drop zero xs = xs
  drop (suc n) [] = []
  drop (suc n) (x ∷ xs) = drop n xs

  pub take_nil : (n : ℕ) → take n [] ≡ []
  take_nil zero = refl
  take_nil (suc n) = refl

  pub drop_nil : (n : ℕ) → drop n [] ≡ []
  drop_nil zero = refl
  drop_nil (suc n) = refl

  pub take-append_short :
      (n m : ℕ) (xs ys : List V) → n ≡ length xs + m → take n (xs ++ ys) ≡ xs ++ take m ys
  take-append_short n m [] ys h = ap (λ k. take k ys) (omega arith)
  take-append_short zero m (x ∷ xs) ys h = absurd (omega arith)
  take-append_short (suc n) m (x ∷ xs) ys h =
      ap (λ l. x ∷ l) (take-append_short n m xs ys (omega arith))

  pub take-append_long : (n : ℕ) (xs ys : List V) → n ≤ length xs → take n (xs ++ ys) ≡ take n xs
  take-append_long zero xs ys h = refl
  take-append_long (suc n) [] ys h = absurd (omega arith)
  take-append_long (suc n) (x ∷ xs) ys h = ap (λ l. x ∷ l) (take-append_long n xs ys (omega arith))

  pub drop-append_short :
      (n m : ℕ) (xs ys : List V) → n ≡ length xs + m → drop n (xs ++ ys) ≡ drop m ys
  drop-append_short n m [] ys h = ap (λ k. drop k ys) (omega arith)
  drop-append_short zero m (x ∷ xs) ys h = absurd (omega arith)
  drop-append_short (suc n) m (x ∷ xs) ys h = drop-append_short n m xs ys (omega arith)

  pub drop-append_long :
      (n : ℕ) (xs ys : List V) → n ≤ length xs → drop n (xs ++ ys) ≡ drop n xs ++ ys
  drop-append_long zero xs ys h = refl
  drop-append_long (suc n) [] ys h = absurd (omega arith)
  drop-append_long (suc n) (x ∷ xs) ys h = drop-append_long n xs ys (omega arith)

  pub length-drop : (n : ℕ) (xs : List V) → length (drop n xs) ≡ length xs - n
  length-drop zero xs = omega arith
  length-drop (suc n) [] = omega arith
  length-drop (suc n) (x ∷ xs) = omega (arith, length-drop n xs)

  pub length-take : (n : ℕ) (xs : List V) → n ≤ length xs → length (take n xs) ≡ n
  length-take zero xs h = refl
  length-take (suc n) [] h = absurd (omega arith)
  length-take (suc n) (x ∷ xs) h = ap suc (length-take n xs (omega arith))
