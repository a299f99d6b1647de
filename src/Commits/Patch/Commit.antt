-- ===== src/Commits/Patch/Commit.antt =====
-- Playing the commit object of a patch over the snapshot that the patch was made on.
use super.Prelude.{ℕ, ◌≡◌, sym, ◌∙◌, true, false, none, List, [], ◌∷◌, ◌++◌, map, arith}
use super.Prelude.{nat_eq, if◌then◌else◌, or_else, elem, Distinct}
use super.Prelude.Result.{ok}
use super.GoMap.{get, has, keys, values, copy_into, delete_each, get-copy_into, get-delete_each}
use super.Commits.Types.{Ksuid, Value, Action, add, add_vector, delete, delete_vector}
use super.Commits.Object.{
  Stamp, Note, append, new_object, append_add, append_delete, append_add_vector,
  append_delete_vector,
}
use super.Commits.Object.Actions.{
  first_commit, append_each_lem, append_add-Appends, append_delete-Appends,
  append_add_vector-Appends, append_delete_vector-Appends,
}
use super.Commits.Writeable.{exists, play, play_action, play_actions}
use super.Commits.Snapshot.{Snapshot, snapshot_writeable}
use super.Commits.Snapshot as Snap
use super.Commits.Snapshot.Play.{
  play_actions-append, play_adds, play_add_vectors, play_deletes, play_delete_vectors, AllIn,
  Disjoint,
}
use super.Commits.Patch.{Patch, new_commit_object}
use super.Commits.Patch.Valid.{IsValid}

-- The actions of the commit object, in order: the commit, the deletions of data objects, the
-- additions, the deletions of vectors and their additions.
abbrev pub commit_actions : Patch → Stamp → Ksuid → ℕ → Note → Value → List Action
commit_actions p st parent retries note meta =
    ((((first_commit st parent note meta retries ∷ []) ++ map (delete st.id) p.deleted_objects)
        ++ map (add st.id) (values p.diff.objects))
      ++ map (delete_vector st.id) p.deleted_vectors)
    ++ map (add_vector st.id) (keys p.diff.vectors)

pub actions-new_commit_object :
    (p : Patch) (st : Stamp) (parent : Ksuid) (retries : ℕ) (note : Note) (meta : Value)
    → new_commit_object p st parent retries note meta ≡ record {
      commit = st.id;
      parent = parent;
      actions = commit_actions p st parent retries note meta;
    }
unfolding new_commit_object new_object append
actions-new_commit_object p st parent retries note meta = simp (
  append_each_lem append_delete delete _ _ append_delete-Appends,
  append_each_lem append_add add _ _ append_add-Appends,
  append_each_lem append_delete_vector delete_vector _ _ append_delete_vector-Appends,
  append_each_lem append_add_vector add_vector _ _ append_add_vector-Appends,
)

-- The snapshot that a patch stands for, over the snapshot `s`.
abbrev pub apply_patch : Patch → Snapshot → Snapshot
apply_patch p s = record {
  objects = copy_into (delete_each s.objects p.deleted_objects) p.diff.objects;
  vectors = copy_into (delete_each s.vectors p.deleted_vectors) p.diff.vectors;
}

append_ok :
    (s t : Snapshot) (xs ys : List Action)
    → play_actions s xs ≡ ok t
    → play_actions s (xs ++ ys) ≡ play_actions t ys
append_ok s t xs ys e = play_actions-append s xs ys ∙ rw e

pub play-new_commit_object :
    (s : Snapshot) (p : Patch) (st : Stamp) (parent : Ksuid) (retries : ℕ) (note : Note)
    (meta : Value)
    → Snap.IsValid p.diff
    → Distinct p.deleted_objects
    → AllIn p.deleted_objects s.objects
    → Disjoint p.diff.objects (delete_each s.objects p.deleted_objects)
    → Distinct p.deleted_vectors
    → AllIn p.deleted_vectors s.vectors
    → Disjoint p.diff.vectors (delete_each s.vectors p.deleted_vectors)
    → play s (new_commit_object p st parent retries note meta) ≡ ok (apply_patch p s)
unfolding play play_actions play_action
play-new_commit_object s p st parent retries note meta v d a j dv av jv =
    let f : List Action = first_commit st parent note meta retries ∷ [] in
    let d_acts : List Action = map (delete st.id) p.deleted_objects in
    let a_acts : List Action = map (add st.id) (values p.diff.objects) in
    let dv_acts : List Action = map (delete_vector st.id) p.deleted_vectors in
    let s1 = record s { objects = delete_each s.objects p.deleted_objects } in
    let s2 = record s1 { objects = copy_into s1.objects p.diff.objects } in
    let s3 = record s2 { vectors = delete_each s.vectors p.deleted_vectors } in
    let e1 : play_actions s (f ++ d_acts) ≡ ok s1 = play_deletes st.id s p.deleted_objects d a in
    let e2 : play_actions s ((f ++ d_acts) ++ a_acts) ≡ ok s2 =
      append_ok s s1 (f ++ d_acts) a_acts e1
      ∙ play_adds st.id s1 p.diff.objects v.objects_map v.named j in
    let e3 : play_actions s (((f ++ d_acts) ++ a_acts) ++ dv_acts) ≡ ok s3 =
      append_ok s s2 ((f ++ d_acts) ++ a_acts) dv_acts e2
      ∙ play_delete_vectors st.id s2 p.deleted_vectors dv av in
    rw (actions-new_commit_object p st parent retries note meta) (
      append_ok s s3 (((f ++ d_acts) ++ a_acts) ++ dv_acts) _ e3
      ∙ play_add_vectors st.id s3 p.diff.vectors v.vectors_map jv)

pub exists-view : (s : Snapshot) (i : Ksuid) → exists (Snap.view s) i ≡ has s.objects i
unfolding exists Snap.lookup
exists-view s i = ground arith

-- What the invariant says of a patch over a snapshot.
module _ (s : Snapshot) (p : Patch) (b : p.base ≡ Snap.view s) (v : IsValid p) where
  base_has : (i : Ksuid) → exists p.base i ≡ has s.objects i
  base_has i = rw b (exists-view s i)

  base_has_vector : (i : Ksuid) → p.base.has_vector i ≡ has s.vectors i
  unfolding Snap.has_vector
  base_has_vector i = rw b

  pub deleted_in : AllIn p.deleted_objects s.objects
  deleted_in i e = sym (base_has i) ∙ v.old_objects i e

  pub deleted_vectors_in : AllIn p.deleted_vectors s.vectors
  deleted_vectors_in i e = sym (base_has_vector i) ∙ v.old_vectors i e

  pub diff_new : (i : Ksuid) → has p.diff.objects i ≡ true → has s.objects i ≡ false
  diff_new i e = sym (base_has i) ∙ v.new_objects i e

  pub diff_new_vector : (i : Ksuid) → has p.diff.vectors i ≡ true → has s.vectors i ≡ false
  diff_new_vector i e = sym (base_has_vector i) ∙ v.new_vectors i e

  diff-Disjoint : Disjoint p.diff.objects (delete_each s.objects p.deleted_objects)
  diff-Disjoint i e = ground (arith, get-delete_each s.objects p.deleted_objects i, diff_new i e)

  diff_vectors-Disjoint : Disjoint p.diff.vectors (delete_each s.vectors p.deleted_vectors)
  diff_vectors-Disjoint i e =
      ground (arith, get-delete_each s.vectors p.deleted_vectors i, diff_new_vector i e)

  pub play-new_commit_object_valid :
      (st : Stamp) (parent : Ksuid) (retries : ℕ) (note : Note) (meta : Value)
      → Distinct p.deleted_objects
      → Distinct p.deleted_vectors
      → play s (new_commit_object p st parent retries note meta) ≡ ok (apply_patch p s)
  play-new_commit_object_valid st parent retries note meta d dv =
      play-new_commit_object s p st parent retries note meta v.diff d deleted_in diff-Disjoint dv
        deleted_vectors_in diff_vectors-Disjoint

pub get-apply_patch :
    (p : Patch) (s : Snapshot) (i : Ksuid)
    → Snap.IsValid p.diff
    → get (apply_patch p s).objects i
      ≡ or_else (get p.diff.objects i) (if elem i p.deleted_objects then none else get s.objects i)
get-apply_patch p s i v =
    get-copy_into (delete_each s.objects p.deleted_objects) p.diff.objects i v.objects_map
    ∙ rw (get-delete_each s.objects p.deleted_objects i)

pub get_vector-apply_patch :
    (p : Patch) (s : Snapshot) (i : Ksuid)
    → Snap.IsValid p.diff
    → get (apply_patch p s).vectors i
      ≡ or_else (get p.diff.vectors i) (if elem i p.deleted_vectors then none else get s.vectors i)
get_vector-apply_patch p s i v =
    get-copy_into (delete_each s.vectors p.deleted_vectors) p.diff.vectors i v.vectors_map
    ∙ rw (get-delete_each s.vectors p.deleted_vectors i)

-- A valid patch over a snapshot, in which nothing of the base is deleted twice, has a commit object
-- that plays over the snapshot, and the outcome holds what the diff holds and, of the snapshot,
-- what the patch does not delete.
pub new_commit_object_realises_patch :
    (s : Snapshot) (p : Patch) (st : Stamp) (parent : Ksuid) (retries : ℕ) (note : Note)
    (meta : Value)
    → p.base ≡ Snap.view s
    → IsValid p
    → Distinct p.deleted_objects
    → Distinct p.deleted_vectors
    → (t : Snapshot) × (play s (new_commit_object p st parent retries note meta) ≡ ok t)
      × ((i : Ksuid)
          → get t.objects i
            ≡ or_else
                (get p.diff.objects i)
                (if elem i p.deleted_objects then none else get s.objects i))
      × ((i : Ksuid)
          → get t.vectors i
            ≡ or_else
                (get p.diff.vectors i)
                (if elem i p.deleted_vectors then none else get s.vectors i))
new_commit_object_realises_patch s p st parent retries note meta b v d dv = (
  apply_patch p s,
  play-new_commit_object_valid s p b v st parent retries note meta d dv,
  λ i. get-apply_patch p s i v.diff,
  λ i. get_vector-apply_patch p s i v.diff,
)
