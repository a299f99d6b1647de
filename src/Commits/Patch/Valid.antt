-- ===== src/Commits/Patch/Valid.antt =====
-- The invariant of patches, and that playing actions into a patch keeps it.
use super.Prelude.{◌≡◌, refl, sym, subst, true, false, List, [], ◌∷◌, ◌++◌, arith}
use super.Prelude.{nat_eq, nat_beq_iff, elem, elem-append, Bool-cases, inl, inr, ◌⊎◌, ap}
use super.Prelude.Result.{Result, ok, err, Result-cases, ok-injective}
use super.GoMap
use super.GoMap.{get, has, put, get-put, get-delete}
use super.Commits.Types.{
  Ksuid, DataObject, Action, add, add_vector, delete, delete_vector, commit, Error,
}
use super.Commits.Writeable.{View, exists, play_action, play_actions}
use super.Commits.Snapshot.{Snapshot, snapshot_writeable}
use super.Commits.Snapshot as Snap
use super.Commits.Snapshot.Play as Play
use super.Commits.Snapshot.Inversion.{
  add_data_object-eq-ok, delete_object-eq-ok, add_vector-eq-ok, delete_vector-eq-ok,
}
use super.Commits.Patch.{
  Patch, with_diff, add_data_object, delete_object, patch_writeable, has_vector, new_patch,
}
use super.Commits.Patch as Pat

-- The diff holds only what the base lacks, and the lists only what the base has.
pub record IsValid (p : Patch) : Type 0 where
  pub diff : Snap.IsValid p.diff
  pub new_objects : (i : Ksuid) → has p.diff.objects i ≡ true → exists p.base i ≡ false
  pub old_objects : (i : Ksuid) → elem i p.deleted_objects ≡ true → exists p.base i ≡ true
  pub new_vectors : (i : Ksuid) → has p.diff.vectors i ≡ true → p.base.has_vector i ≡ false
  pub old_vectors : (i : Ksuid) → elem i p.deleted_vectors ≡ true → p.base.has_vector i ≡ true

pub new_patch-IsValid : (v : View) → IsValid (new_patch v)
unfolding new_patch get
new_patch-IsValid v = record {
  diff = record { objects_map = tt; vectors_map = tt; named = λ i o e. cc };
  new_objects = λ i e. cc;
  old_objects = λ i e. cc;
  new_vectors = λ i e. cc;
  old_vectors = λ i e. cc;
}

pub with_diff-eq-ok :
    (p q : Patch) (r : Result Error Snapshot)
    → with_diff p r ≡ ok q
    → (d : Snapshot) × (r ≡ ok d) × (record p { diff = d } ≡ q)
unfolding with_diff
with_diff-eq-ok p q (ok d) e = (d, refl, cc)
with_diff-eq-ok p q (err x) e = cc

-- A patch whose diff is replaced by a valid one that holds no more than what the base lacks.
replace_diff :
    (p q : Patch) (d : Snapshot)
    → IsValid p
    → record p { diff = d } ≡ q
    → Snap.IsValid d
    → ((i : Ksuid) → has d.objects i ≡ true → exists p.base i ≡ false)
    → ((i : Ksuid) → has d.vectors i ≡ true → p.base.has_vector i ≡ false)
    → IsValid q
replace_diff p q d v e dv fresh fresh_v = subst IsValid e (record {
  diff = dv;
  new_objects = fresh;
  old_objects = v.old_objects;
  new_vectors = fresh_v;
  old_vectors = v.old_vectors;
})

-- A key of a map that a method has changed was there before, or is the new one.
key_of_put :
    {V : Type 0} (m n : GoMap.Map Ksuid V) (k i : Ksuid) (v : V)
    → put m k v ≡ n
    → has n i ≡ true
    → (k ≡ i) ⊎ (has m i ≡ true)
key_of_put m n k i v e h = ground (arith, get-put m k i v, nat_beq_iff k i)

key_of_delete :
    {V : Type 0} (m n : GoMap.Map Ksuid V) (k i : Ksuid)
    → GoMap.delete m k ≡ n
    → has n i ≡ true
    → has m i ≡ true
key_of_delete m n k i e h = ground (arith, get-delete m k i)

add_data_object-IsValid :
    (p q : Patch) (o : DataObject) → IsValid p → add_data_object p o ≡ ok q → IsValid q
unfolding add_data_object play_action
add_data_object-IsValid p q o v e = elim (Bool-cases (exists p.base o.id)) [
  | inl h ↦ cc (rw h at e)
  | inr h ↦
      let (d, r, eq) = with_diff-eq-ok p q (Snap.add_data_object p.diff o) (rw h at e) in
      let de = (add_data_object-eq-ok p.diff d o r).1 in
      replace_diff p q d v eq (Play.play_action-IsValid p.diff d (add 0 o) v.diff r)
        (λ i m. ground (
          arith,
          key_of_put p.diff.objects d.objects o.id i o (ap (λ x. x.objects) de) m,
          v.new_objects i,
          h,
        ))
        (λ i m. v.new_vectors i (subst (λ x. has x.vectors i ≡ true) (sym de) m))
]

add_vector-IsValid : (p q : Patch) (k : Ksuid) → IsValid p → Pat.add_vector p k ≡ ok q → IsValid q
unfolding Pat.add_vector has_vector play_action
add_vector-IsValid p q k v e = elim (Bool-cases (has_vector p k)) [
  | inl h ↦ cc (rw h at e)
  | inr h ↦
      let (d, r, eq) = with_diff-eq-ok p q (Snap.add_vector p.diff k) (rw h at e) in
      let de = (add_vector-eq-ok p.diff d k r).1 in
      replace_diff p q d v eq (Play.play_action-IsValid p.diff d (add_vector 0 k) v.diff r)
        (λ i m. v.new_objects i (subst (λ x. has x.objects i ≡ true) (sym de) m))
        (λ i m. ground (
          arith,
          key_of_put p.diff.vectors d.vectors k i tt (ap (λ x. x.vectors) de) m,
          v.new_vectors i,
          h,
        ))
]

-- A deletion of something that the diff holds.
delete_new_object :
    (p q : Patch) (k : Ksuid)
    → IsValid p
    → with_diff p (Snap.delete_object p.diff k) ≡ ok q
    → IsValid q
unfolding play_action
delete_new_object p q k v e =
    let (d, r, eq) = with_diff-eq-ok p q (Snap.delete_object p.diff k) e in
    let de = (delete_object-eq-ok p.diff d k r).1 in
    replace_diff p q d v eq (Play.play_action-IsValid p.diff d (delete 0 k) v.diff r)
      (λ i m.
        v.new_objects i (key_of_delete p.diff.objects d.objects k i (ap (λ x. x.objects) de) m))
      (λ i m. v.new_vectors i (subst (λ x. has x.vectors i ≡ true) (sym de) m))

delete_new_vector :
    (p q : Patch) (k : Ksuid)
    → IsValid p
    → with_diff p (Snap.delete_vector p.diff k) ≡ ok q
    → IsValid q
unfolding play_action
delete_new_vector p q k v e =
    let (d, r, eq) = with_diff-eq-ok p q (Snap.delete_vector p.diff k) e in
    let de = (delete_vector-eq-ok p.diff d k r).1 in
    replace_diff p q d v eq (Play.play_action-IsValid p.diff d (delete_vector 0 k) v.diff r)
      (λ i m. v.new_objects i (subst (λ x. has x.objects i ≡ true) (sym de) m))
      (λ i m.
        v.new_vectors i (key_of_delete p.diff.vectors d.vectors k i (ap (λ x. x.vectors) de) m))

elem_of_append :
    (ids : List Ksuid) (k i : Ksuid)
    → elem i (ids ++ (k ∷ [])) ≡ true
    → (elem i ids ≡ true) ⊎ (k ≡ i)
elem_of_append ids k i h = ground (arith, elem-append i ids (k ∷ []), nat_beq_iff k i)

-- A deletion of something that the base has.
delete_old_object :
    (p q : Patch) (k : Ksuid)
    → IsValid p
    → exists p.base k ≡ true
    → record p { deleted_objects = p.deleted_objects ++ (k ∷ []) } ≡ q
    → IsValid q
delete_old_object p q k v h e = subst IsValid e (record {
  diff = v.diff;
  new_objects = v.new_objects;
  old_objects = λ i m. ground (arith, elem_of_append p.deleted_objects k i m, v.old_objects i, h);
  new_vectors = v.new_vectors;
  old_vectors = v.old_vectors;
})

delete_old_vector :
    (p q : Patch) (k : Ksuid)
    → IsValid p
    → p.base.has_vector k ≡ true
    → record p { deleted_vectors = p.deleted_vectors ++ (k ∷ []) } ≡ q
    → IsValid q
delete_old_vector p q k v h e = subst IsValid e (record {
  diff = v.diff;
  new_objects = v.new_objects;
  old_objects = v.old_objects;
  new_vectors = v.new_vectors;
  old_vectors = λ i m. ground (arith, elem_of_append p.deleted_vectors k i m, v.old_vectors i, h);
})

delete_object-IsValid : (p q : Patch) (k : Ksuid) → IsValid p → delete_object p k ≡ ok q → IsValid q
unfolding delete_object
delete_object-IsValid p q k v e = elim (Bool-cases (exists (Snap.view p.diff) k)) [
  | inl h ↦ delete_new_object p q k v (rw h at e)
  | inr h ↦ elim (Bool-cases (exists p.base k)) [
    | inl b ↦ delete_old_object p q k v b (ok-injective (rw (h, b) at e))
    | inr b ↦ cc (rw (h, b) at e)
  ]
]

delete_vector-IsValid :
    (p q : Patch) (k : Ksuid) → IsValid p → Pat.delete_vector p k ≡ ok q → IsValid q
unfolding Pat.delete_vector
delete_vector-IsValid p q k v e = elim (Bool-cases (Snap.has_vector p.diff k)) [
  | inl h ↦ delete_new_vector p q k v (rw h at e)
  | inr h ↦ elim (Bool-cases (p.base.has_vector k)) [
    | inl b ↦ delete_old_vector p q k v b (ok-injective (rw (h, b) at e))
    | inr b ↦ cc (rw (h, b) at e)
  ]
]

pub play_action-IsValid :
    (p q : Patch) (a : Action) → IsValid p → play_action p a ≡ ok q → IsValid q
unfolding play_action
play_action-IsValid p q (add c o) v e = add_data_object-IsValid p q o v e
play_action-IsValid p q (add_vector c i) v e = add_vector-IsValid p q i v e
play_action-IsValid p q (delete c i) v e = delete_object-IsValid p q i v e
play_action-IsValid p q (delete_vector c i) v e = delete_vector-IsValid p q i v e
play_action-IsValid p q (commit c) v e = subst IsValid (ok-injective e) v

-- Whatever actions are played into a valid patch, what comes out is a valid patch.
pub play_actions-IsValid :
    (p q : Patch) (acts : List Action) → IsValid p → play_actions p acts ≡ ok q → IsValid q
unfolding play_actions
play_actions-IsValid p q [] v e = subst IsValid (ok-injective e) v
play_actions-IsValid p q (a ∷ acts) v e = elim (Result-cases (play_action p a)) [
  | inl (u, h) ↦
      play_actions-IsValid u q acts (play_action-IsValid p u a v h) (rw (h, play_actions) at e)
  | inr (x, h) ↦ cc (rw (h, play_actions) at e)
]
