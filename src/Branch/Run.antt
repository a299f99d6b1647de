-- ===== src/Branch/Run.antt =====
-- The objects that the methods of Branch build for a parent commit (lake/branch.go). A method's
-- messages, once formatted, are its `Note`, and what its stamps and queries return are arguments.
use super.Prelude.{not, Option, none, some, List, [], ◌∷◌}
use super.Prelude.{nat_eq, elem, if◌then◌else◌}
use super.Prelude.Result.{Result, ok, err}
use super.Commits.Types.{Ksuid, nil, Value, DataObject, Object}
use super.Commits.Types as Types
use super.Commits.Writeable.{exists}
use super.Commits.Snapshot.{Snapshot}
use super.Commits.Snapshot as Snap
use super.Commits.Patch.{Patch}
use super.Branches.{Config}
use super.Branches as Branches
use super.Journal.Queue as Queue

pub data Error : Type 0 where
  from_commits : Types.Error → Error
  from_branches : Branches.Error → Error
  from_journal : Queue.Error → Error
  commit_failed same_branch no_ancestor nothing_to_compact : Error
  commit_missing non_existent vector_exists vector_missing : Ksuid → Error

-- The last branch is found on both paths.
unfoldable pub common_ancestor : List Ksuid → List Ksuid → Ksuid
common_ancestor a [] = nil
common_ancestor a (c ∷ cs) = let rest = common_ancestor a cs in if elem c a then c else rest

unfoldable pub from_result : {A : Type 0} → Result Types.Error A → Result Error A
from_result (ok a) = ok a
from_result (err e) = err (from_commits e)

-- Every identifier is looked up before any is deleted.
unfoldable pub lookup_each : Snapshot → List Ksuid → Result Error (List DataObject)
lookup_each snap [] = ok []
lookup_each snap (i ∷ ids) =
    let rest = lookup_each snap ids in
    elim (Snap.lookup snap i) [
      | err e ↦ err (from_commits e)
      | ok o ↦ elim rest [ err e ↦ err e | ok os ↦ ok (o ∷ os) ]
    ]

unfoldable pub check_add_vectors : Snapshot → List Ksuid → Result Error (Unit {0})
check_add_vectors snap [] = ok tt
check_add_vectors snap (i ∷ ids) =
    let rest = check_add_vectors snap ids in
    if not (exists (Snap.view snap) i)
    then err (non_existent i)
    else if Snap.has_vector snap i
    then err (vector_exists i)
    else rest

unfoldable pub check_delete_vectors : Snapshot → List Ksuid → Result Error (Unit {0})
check_delete_vectors snap [] = ok tt
check_delete_vectors snap (i ∷ ids) =
    let rest = check_delete_vectors snap ids in
    if not (exists (Snap.view snap) i)
    then err (non_existent i)
    else if not (Snap.has_vector snap i)
    then err (vector_missing i)
    else rest

-- `for _, x := range xs { if err := f(patch, x); err != nil { return nil, err } }`
unfoldable pub patch_each :
    {X : Type 0} → (Patch → X → Result Types.Error Patch) → Patch → List X → Result Error Patch
patch_each f p [] = ok p
patch_each f p (x ∷ xs) = elim (f p x) [ err e ↦ err (from_commits e) | ok q ↦ patch_each f q xs ]

-- The same loop where the error is not looked at.
unfoldable pub patch_each_unchecked :
    {X : Type 0} → (Patch → X → Result Types.Error Patch) → Patch → List X → Patch
patch_each_unchecked f p [] = p
patch_each_unchecked f p (x ∷ xs) = elim (f p x) [
  | err e ↦ patch_each_unchecked f p xs
  | ok q ↦ patch_each_unchecked f q xs
]

-- What a read of the store of commits does: `none` is the fuel that ran out.
abbrev pub Run : Type 0 → Type 0 → Type 0
Run S A = S → Option (Result Error A × S)

module _ {S A : Type 0} where
  unfoldable pub give : Result Error A → Run S A
  give r s = some (r, s)

  unfoldable pub read : (S → Option (Result Types.Error A × S)) → Run S A
  unfolding from_result
  read f s = elim (f s) [ none ↦ none | some (r, s1) ↦ some (from_result r, s1) ]

infixl 20 ◌>>=◌
unfoldable pub ◌>>=◌ : {S A B : Type 0} → Run S A → (A → Run S B) → Run S B
m >>= k =
    λ s. elim (m s) [ none ↦ none | some (err e, s1) ↦ some (err e, s1) | some (ok a, s1) ↦ k a s1 ]
