-- ===== src/Commits/Types.antt =====
-- The data of lake/commits (actions.go, and the struct and errors of object.go, snapshot.go,
-- patch.go and store.go) and the struct `data.Object` of lake/data/object.go.
use super.Prelude.{ℕ, Bool, true, false, Option, List}

-- A ksuid.KSUID. Identifiers are only compared, and `nil` is the zero one.
abbrev pub Ksuid : Type 0
Ksuid = ℕ

-- ksuid.Nil
abbrev pub nil : Ksuid
nil = 0

-- A super.Value: the number of its type, and its bytes or null.
pub record Value : Type 0 where
  pub typ : ℕ
  pub bytes : Option (List ℕ)

-- data.Object
pub record DataObject : Type 0 where
  pub id : Ksuid
  pub min : Value
  pub max : Value
  pub count : ℕ
  pub size : ℕ

-- The struct Commit, of which Retries is a uint8.
pub record Commit : Type 0 where
  pub id : Ksuid
  pub parent : Ksuid
  pub retries : ℕ
  pub author : List ℕ
  pub date : ℕ
  pub message : List ℕ
  pub meta : Value

pub data Action : Type 0 where
  add : Ksuid → DataObject → Action
  add_vector : Ksuid → Ksuid → Action
  delete : Ksuid → Ksuid → Action
  delete_vector : Ksuid → Ksuid → Action
  commit : Commit → Action

-- The method CommitID of each action.
pub commit_id : Action → Ksuid
commit_id (add c o) = c
commit_id (add_vector c i) = c
commit_id (delete c i) = c
commit_id (delete_vector c i) = c
commit_id (commit c) = c.id

-- The struct Object.
pub record Object : Type 0 where
  pub commit : Ksuid
  pub parent : Ksuid
  pub actions : List Action

-- The first four wrap ErrWriteConflict, and name the data object.
pub data Error : Type 0 where
  duplicate_object missing_object duplicate_vector missing_vector : Ksuid → Error
  -- ErrExists, ErrNotFound, ErrBadCommitObject, ErrEmptyTransaction
  already_exists not_found bad_commit_object empty_transaction : Error
  -- errors of Patch.Revert and Diff
  corrupt_snapshot : Ksuid → Error
  empty_revert : Error
  parent_deletes delete_conflict : Ksuid → Error
  empty_difference : Error
  -- errors of Store, and fs.ErrNotExist of the storage engine
  no_path pathless not_exist : Error

-- errors.Is(err, ErrWriteConflict)
unfoldable pub is_write_conflict : Error → Bool
is_write_conflict (duplicate_object i) = true
is_write_conflict (missing_object i) = true
is_write_conflict (duplicate_vector i) = true
is_write_conflict (missing_vector i) = true
is_write_conflict e = false
