-- ===== src/Prelude/Keep.antt =====
-- The elements of a list that pass a test, in order.
use mathlib.Core.Path.{◌≡◌, refl, sym, ◌∙◌, ap}
use mathlib.Core.Bool.{Bool, true, false, ◌&&◌}
use mathlib.Core.List.{List, [], ◌∷◌, ◌++◌}
use super.Prelude.Tests.{Bool-cases}
use mathlib.Core.Logic.{inl, inr}
use native.Mathlib.Omega.{arith}

module _ {ℓ} {A : Type ℓ} where
  unfoldable pub keep : (A → Bool) → List A → List A
  keep p [] = []
  keep p (x ∷ xs) = let rest = keep p xs in elim (p x) [ true ↦ x ∷ rest | false ↦ rest ]

  pub keep-append : (p : A → Bool) (xs ys : List A) → keep p (xs ++ ys) ≡ keep p xs ++ keep p ys
  unfolding keep
  keep-append p [] ys = refl
  keep-append p (x ∷ xs) ys = elim (Bool-cases (p x)) [
    | inl t ↦ rw (t, keep) (ap (λ l. x ∷ l) (keep-append p xs ys))
    | inr f ↦ rw (f, keep) (keep-append p xs ys)
  ]

  -- Two tests that agree, after another, keep the same.
  pub keep-keep :
      (p q r : A → Bool)
      → ((x : A) → (p x && q x) ≡ r x)
      → (xs : List A) → keep p (keep q xs) ≡ keep r xs
  unfolding keep
  keep-keep p q r h [] = refl
  keep-keep p q r h (x ∷ xs) =
      let e = h x in
      let g = keep-keep p q r h xs in
      elim (Bool-cases (q x)) [
        | inl t ↦ elim (Bool-cases (p x)) [
          | inl u ↦
              let v : r x ≡ true = ground arith in
              rw (t, keep) (rw (u, keep) (rw (v, keep) (ap (λ l. x ∷ l) g)))
          | inr u ↦
              let v : r x ≡ false = ground arith in rw (t, keep) (rw (u, keep) (rw (v, keep) g))
        ]
        | inr t ↦ let v : r x ≡ false = ground arith in rw (t, keep) (rw (v, keep) g)
      ]

  pub keep_agree : (p q : A → Bool) → ((x : A) → p x ≡ q x) → (xs : List A) → keep p xs ≡ keep q xs
  unfolding keep
  keep_agree p q h [] = refl
  keep_agree p q h (x ∷ xs) = elim (Bool-cases (p x)) [
    | inl t ↦ rw (t, keep) (rw (sym (h x) ∙ t, keep) (ap (λ l. x ∷ l) (keep_agree p q h xs)))
    | inr f ↦ rw (f, keep) (rw (sym (h x) ∙ f, keep) (keep_agree p q h xs))
  ]
