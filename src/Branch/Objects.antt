-- ===== src/Branch/Objects.antt =====
-- The constructors that the methods of Branch pass to commit (lake/branch.go): each reads the store
-- of commits and gives the object that goes on top of the parent commit.
use super.Prelude.{ℕ, none, some, List, [], ◌∷◌, map}
use super.Prelude.{◌==◌, nat_eq, if◌then◌else◌}
use super.Prelude.Result.{ok, err}
use super.Commits.Types.{Ksuid, nil, Value, DataObject, Object, empty_transaction}
use super.Commits.Object.{
  Stamp, Note, null_value, new_adds_object, new_deletes_object, new_add_vectors_object,
  new_delete_vectors_object,
}
use super.Commits.Snapshot.{Snapshot}
use super.Commits.Snapshot as Snap
use super.Commits.Patch.{Patch, new_patch, new_commit_object, diff_of}
use super.Commits.Patch as Patches
use super.Commits.Store.{ArcCache, Store, snapshot, path, patch_of_path, patch_of_commit}
use super.Branch.Run.{
  from_commits, no_ancestor, commit_missing, common_ancestor, from_result, lookup_each,
  check_add_vectors, check_delete_vectors, patch_each, patch_each_unchecked, Run, give, read, ◌>>=◌,
}

-- Load, behind its test that there are any: the objects are those that the writer made.
unfoldable pub build_load :
    {S : Type 0} → List DataObject → Stamp → Note → Value → Ksuid → ℕ → Run S Object
unfolding new_adds_object give
build_load objects st note meta parent retries =
    give (ok (new_adds_object st parent retries note meta objects))

module _ {oc : ArcCache Object} {pc : ArcCache (List Ksuid)} {sc : ArcCache Snapshot}
    (fuel : ℕ) where
  unfoldable pub build_delete : List Ksuid → Stamp → Note → Ksuid → ℕ → Run (Store oc pc sc) Object
  unfolding lookup_each read give snapshot ◌>>=◌
  build_delete ids st note parent retries = do
    snap ← read (λ s. snapshot fuel s parent)
    objects ← give (lookup_each snap ids)
    give (ok (new_deletes_object st parent retries note ids))

  -- DeleteWhere: the query's deletions and the objects that the writer made of what it kept.
  unfoldable pub build_delete_where :
      List Ksuid → List DataObject → Stamp → Note → Value → Ksuid → ℕ → Run (Store oc pc sc) Object
  unfolding patch_each_unchecked read give snapshot ◌>>=◌
  build_delete_where deleted added st note meta parent retries = do
    base ← read (λ s. snapshot fuel s parent)
    elim deleted [
      | [] ↦ give (err (from_commits empty_transaction))
      | i ∷ ids ↦
          let p =
            patch_each_unchecked Patches.delete_object (new_patch (Snap.view base)) (i ∷ ids) in
          let q = patch_each_unchecked Patches.add_data_object p added in
          give (ok (new_commit_object q st parent retries note meta))
    ]

  -- The error of PatchOfCommit is replaced.
  unfoldable pub or_commit_missing :
      {A : Type 0} → Ksuid → Run (Store oc pc sc) A → Run (Store oc pc sc) A
  or_commit_missing c m s = elim (m s) [
    | none ↦ none
    | some (err e, s1) ↦ some (err (commit_missing c), s1)
    | some (ok a, s1) ↦ some (ok a, s1)
  ]

  unfoldable pub build_revert : Ksuid → Stamp → Note → Ksuid → ℕ → Run (Store oc pc sc) Object
  unfolding or_commit_missing read give from_result snapshot patch_of_commit Patches.revert ◌>>=◌
  build_revert commit st note parent retries = do
    patch ← or_commit_missing commit (read (λ s. patch_of_commit fuel s commit))
    tip ← read (λ s. snapshot fuel s parent)
    give (from_result (Patches.revert patch tip st parent retries note))

  -- CommitCompact, behind its test that there is something in `rollup`.
  unfoldable pub build_compact :
      List DataObject
      → List DataObject
      → List Ksuid
      → Stamp
      → Note
      → Value
      → Ksuid
      → ℕ
      → Run (Store oc pc sc) Object
  unfolding patch_each read give snapshot ◌>>=◌
  build_compact src rollup rollup_vecs st note meta parent retries = do
    base ← read (λ s. snapshot fuel s parent)
    p ← give (patch_each Patches.add_data_object (new_patch (Snap.view base)) rollup)
    p ← give (patch_each Patches.add_vector p rollup_vecs)
    p ← give (patch_each Patches.delete_object p (map (λ o. o.id) src))
    give (ok (new_commit_object p st parent retries note meta))

  -- The method buildMergeObject; `child` is the commit of the branch that is merged.
  unfoldable pub build_merge_object : Ksuid → Stamp → Note → Ksuid → ℕ → Run (Store oc pc sc) Object
  unfolding read give from_result common_ancestor path snapshot patch_of_path diff_of ◌>>=◌
  build_merge_object child st note parent retries = do
    child_path ← read (λ s. path fuel s child)
    parent_path ← read (λ s. path fuel s parent)
    let base_id = common_ancestor parent_path child_path
    if base_id == nil then give (err no_ancestor) else (do
      base ← read (λ s. snapshot fuel s base_id)
      child_patch ← read (λ s. patch_of_path fuel s base base_id child)
      parent_patch ← read (λ s. patch_of_path fuel s base base_id parent)
      diff ← give (from_result (diff_of parent_patch child_patch))
      give (ok (new_commit_object diff st parent retries note null_value)))

  unfoldable pub build_add_vectors :
      List Ksuid → Stamp → Note → Ksuid → ℕ → Run (Store oc pc sc) Object
  unfolding check_add_vectors read give snapshot ◌>>=◌
  build_add_vectors ids st note parent retries = do
    snap ← read (λ s. snapshot fuel s parent)
    u ← give (check_add_vectors snap ids)
    give (ok (new_add_vectors_object st parent note ids retries))

  unfoldable pub build_delete_vectors :
      List Ksuid → Stamp → Note → Ksuid → ℕ → Run (Store oc pc sc) Object
  unfolding check_delete_vectors read give snapshot ◌>>=◌
  build_delete_vectors ids st note parent retries = do
    snap ← read (λ s. snapshot fuel s parent)
    u ← give (check_delete_vectors snap ids)
    give (ok (new_delete_vectors_object st parent note ids retries))
