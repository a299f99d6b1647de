-- ===== src/Branch/Ancestor.antt =====
-- The commit that two branches grew from (the function commonAncestor of lake/branch.go).
use super.Prelude.{◌≡◌, refl, ap, true, false, ◌⊎◌, inl, inr, List, [], ◌∷◌, ◌++◌}
use super.Prelude.{nat_eq, elem, All, Bool-cases}
use super.Commits.Types.{Ksuid, nil}
use super.Branch.Run.{common_ancestor}

-- The commit is on both paths, and nothing above it on the second one is on the first.
pub record Joins (a b : List Ksuid) (c : Ksuid) : Type 0 where
  pub above : List Ksuid
  pub below : List Ksuid
  pub path : b ≡ above ++ (c ∷ below)
  pub shared : elem c a ≡ true
  pub apart : All (λ x. elem x a ≡ false) above

skip : (a b : List Ksuid) (x c : Ksuid) → elem x a ≡ false → Joins a b c → Joins a (x ∷ b) c
skip a b x c e j = record {
  above = x ∷ j.above;
  below = j.below;
  path = ap (λ l. x ∷ l) j.path;
  shared = j.shared;
  apart = (e, j.apart);
}

-- The function commonAncestor returns the first commit of the second path that is on the first path,
-- or nil if the paths share no commit.
pub common_ancestor_lem :
    (a b : List Ksuid)
    → Joins a b (common_ancestor a b)
      ⊎ ((common_ancestor a b ≡ nil) × All (λ x. elem x a ≡ false) b)
unfolding common_ancestor
common_ancestor_lem a [] = inr (refl, tt)
common_ancestor_lem a (x ∷ b) = elim (Bool-cases (elem x a)) [
  | inl e ↦ inl (
      rw (e, common_ancestor)
        (record { above = []; below = b; path = refl; shared = e; apart = tt }))
  | inr e ↦ elim (common_ancestor_lem a b) [
    | inl j ↦ inl (rw (e, common_ancestor) (skip a b x _ e j))
    | inr (n, h) ↦ inr (rw (e, common_ancestor) n, (e, h))
  ]
]
