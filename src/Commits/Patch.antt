-- ===== src/Commits/Patch.antt =====
-- The type Patch of lake/commits/patch.go.
pub mod Valid
pub mod Commit
pub mod Once
pub mod Simulation
pub mod Revert
pub mod Diff
pub mod Merge
use super.Prelude.{
  ℕ, Bool, true, false, not, ◌&&◌, ◌||◌, Option, none, some, List, [], ◌∷◌, ◌++◌, map,
}
use super.Prelude.{if◌then◌else◌, nat_eq, elem, length, ◌==◌}
use super.Prelude.Result.{Result, ok, err, ◌>>=◌}
use super.GoMap.{has, keys, values}
use super.Commits.Types.{
  Ksuid, Value, DataObject, Object, Error, already_exists, not_found, empty_revert, parent_deletes,
  delete_conflict, empty_difference,
}
use super.Commits.Object.{
  Stamp, Note, new_object, append_add, append_delete, append_add_vector, append_delete_vector,
  append_each, null_value,
}
use super.Commits.Writeable.{View, Writeable, exists}
use super.Commits.Snapshot.{Snapshot, new_snapshot}
use super.Commits.Snapshot as Snap

pub record Patch : Type 0 where
  pub base : View
  pub diff : Snapshot
  pub deleted_objects : List Ksuid
  pub deleted_vectors : List Ksuid

unfoldable pub new_patch : View → Patch
new_patch base = record {
  base = base;
  diff = new_snapshot;
  deleted_objects = [];
  deleted_vectors = [];
}

-- What the diff has, or else what the base has: the lists of deletions are not looked at.
unfoldable pub lookup : Patch → Ksuid → Result Error DataObject
lookup p i = elim (Snap.lookup p.diff i) [ ok o ↦ ok o | err e ↦ p.base.lookup i ]

unfoldable pub has_vector : Patch → Ksuid → Bool
has_vector p i = Snap.has_vector p.diff i || p.base.has_vector i

unfoldable pub select_all : Patch → List DataObject
select_all p = p.base.select_all ++ Snap.select_all p.diff

abbrev pub view : Patch → View
view p = record { lookup = lookup p; has_vector = has_vector p; select_all = select_all p }

-- The method DataObjects.
unfoldable pub data_objects : Patch → List Ksuid
data_objects p = map (λ o. o.id) (Snap.select_all p.diff)

unfoldable pub with_diff : Patch → Result Error Snapshot → Result Error Patch
with_diff p (ok d) = ok (record p { diff = d })
with_diff p (err e) = err e

unfoldable pub add_data_object : Patch → DataObject → Result Error Patch
unfolding with_diff
add_data_object p o =
    if exists p.base o.id then err already_exists else with_diff p (Snap.add_data_object p.diff o)

unfoldable pub delete_object : Patch → Ksuid → Result Error Patch
unfolding with_diff
delete_object p i =
    if exists (Snap.view p.diff) i
    then with_diff p (Snap.delete_object p.diff i)
    else if not (exists p.base i)
    then err not_found
    else ok (record p { deleted_objects = p.deleted_objects ++ (i ∷ []) })

unfoldable pub add_vector : Patch → Ksuid → Result Error Patch
unfolding with_diff
add_vector p i =
    if has_vector p i then err already_exists else with_diff p (Snap.add_vector p.diff i)

unfoldable pub delete_vector : Patch → Ksuid → Result Error Patch
unfolding with_diff
delete_vector p i =
    if Snap.has_vector p.diff i
    then with_diff p (Snap.delete_vector p.diff i)
    else if not (p.base.has_vector i)
    then err not_found
    else ok (record p { deleted_vectors = p.deleted_vectors ++ (i ∷ []) })

instance abbrev pub patch_writeable : Writeable Patch
patch_writeable = record {
  add_data_object = add_data_object;
  delete_object = delete_object;
  add_vector = add_vector;
  delete_vector = delete_vector;
}

unfoldable pub new_commit_object : Patch → Stamp → Ksuid → ℕ → Note → Value → Object
new_commit_object p st parent retries note meta =
    let o = new_object st parent note meta retries in
    let o = append_each append_delete o p.deleted_objects in
    let o = append_each append_add o (values p.diff.objects) in
    let o = append_each append_delete_vector o p.deleted_vectors in
    append_each append_add_vector o (keys p.diff.vectors)

-- The first loop of Revert.
unfoldable pub revert_adds : Snapshot → Object → List DataObject → Object
unfolding append_delete
revert_adds tip object [] = object
revert_adds tip object (o ∷ os) =
    revert_adds tip (if exists (Snap.view tip) o.id then append_delete object o.id else object) os

-- The second loop of Revert. A lookup that succeeds returns no nil pointer.
unfoldable pub revert_deletes : Patch → Snapshot → Object → List Ksuid → Result Error Object
unfolding append_add
revert_deletes p tip object [] = ok object
revert_deletes p tip object (i ∷ ids) = do
  o ← p.base.lookup i
  revert_deletes p tip (if exists (Snap.view tip) o.id then object else append_add object o) ids

-- The Go method also takes a commit identifier, which it does not use.
unfoldable pub revert : Patch → Snapshot → Stamp → Ksuid → ℕ → Note → Result Error Object
unfolding revert_adds revert_deletes
revert p tip st parent retries note = do
  let object = new_object st parent note null_value retries
  object ← revert_deletes p tip (revert_adds tip object (Snap.select_all p.diff)) p.deleted_objects
  if length object.actions == 1 then err empty_revert else ok object

-- The first loop of Diff, over the objects of the child; `dirty` is set by what is added.
unfoldable pub diff_adds :
    Patch → List Ksuid → Patch × Bool → List DataObject → Result Error (Patch × Bool)
unfolding add_data_object
diff_adds parent deleted (p, dirty) [] = ok (p, dirty)
diff_adds parent deleted (p, dirty) (o ∷ os) = elim (exists (view parent) o.id) [
  | true ↦ diff_adds parent deleted (p, dirty) os
  | false ↦ elim (elem o.id deleted) [
    | true ↦ err (parent_deletes o.id)
    | false ↦ add_data_object p o >>= λ p'. diff_adds parent deleted (p', true) os
  ]
]

-- The second loop of Diff, over the deletions of the child.
unfoldable pub diff_deletes : Patch → Patch × Bool → List Ksuid → Result Error (Patch × Bool)
unfolding delete_object
diff_deletes parent (p, dirty) [] = ok (p, dirty)
diff_deletes parent (p, dirty) (i ∷ ids) = elim (exists (view parent) i) [
  | true ↦ delete_object p i >>= λ p'. diff_deletes parent (p', true) ids
  | false ↦ err (delete_conflict i)
]

unfoldable pub diff_of : Patch → Patch → Result Error Patch
unfolding diff_adds diff_deletes new_patch
diff_of parent child = do
  added ← diff_adds parent child.deleted_objects (new_patch (view parent), false) (select_all child)
  (p, dirty) ← diff_deletes parent added child.deleted_objects
  if not dirty then err empty_difference else ok p
