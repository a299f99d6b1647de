-- ===== src/Commits/Patch/Diff.antt =====
-- The function Diff on two patches that were made on the same snapshot.
use super.Prelude.{
  ◌≡◌, refl, sym, ◌∙◌, ap, subst, Bool, true, false, not, none, List, [], ◌∷◌, ◌++◌, arith,
  append-nil, append_assoc,
}
use super.Prelude.{
  nat_eq, nat_beq, nat_beq_iff, beq_refl, if◌then◌else◌, elem, All, Bool-cases, inl, inr, ◌||◌,
  ◌&&◌,
}
use super.Prelude.Result.{ok, err}
use super.GoMap.{Map, get, has, put, values, copy_into, IsMap, get-copy_into}
use super.Commits.Types.{Ksuid, DataObject, empty_difference}
use super.Commits.Writeable.{View, exists}
use super.Commits.Snapshot.{Snapshot}
use super.Commits.Snapshot as Snap
use super.Commits.Snapshot.Play.{
  IsNamed, Disjoint, IsNamed-head, IsNamed-tail, Disjoint-head, Disjoint-tail,
}
use super.Commits.Patch.{
  Patch, view, lookup, select_all, add_data_object, delete_object, with_diff, diff_adds,
  diff_deletes, diff_of, new_patch,
}
use super.Commits.Patch.Valid.{IsValid}
use super.Commits.Patch.Commit.{exists-view}

-- The entries of a map whose keys the view lacks.
pub fresh_of : View → Map Ksuid DataObject → Map Ksuid DataObject
fresh_of v [] = []
fresh_of v ((i, o) ∷ m) = let rest = fresh_of v m in if exists v i then rest else (i, o) ∷ rest

pub get-fresh_of :
    (v : View) (m : Map Ksuid DataObject) (i : Ksuid)
    → get (fresh_of v m) i ≡ (if exists v i then none else get m i)
unfolding fresh_of get
get-fresh_of v [] i = ground arith
get-fresh_of v ((k, o) ∷ m) i = elim (Bool-cases (nat_beq k i)) [
  | inl e ↦ ground (arith, get-fresh_of v m i, e, ap (λ x. exists v x) ((nat_beq_iff k i).0 e))
  | inr e ↦ ground (arith, get-fresh_of v m i, e)
]

pub fresh_of-IsMap : (v : View) (m : Map Ksuid DataObject) → IsMap m → IsMap (fresh_of v m)
unfolding fresh_of
fresh_of-IsMap v [] u = tt
fresh_of-IsMap v ((k, o) ∷ m) u = ground (arith, fresh_of-IsMap v m u.1, get-fresh_of v m k, u.0)

abbrev pub is_empty {ℓ} : {A : Type ℓ} → List A → Bool
is_empty [] = true
is_empty (x ∷ xs) = false

-- The parent has what its diff has and what its base has.
pub exists-parent :
    (p : Patch) (i : Ksuid) → exists (view p) i ≡ (has p.diff.objects i || exists p.base i)
unfolding exists lookup Snap.lookup
exists-parent p i = ground arith

step_skip :
    (parent p : Patch) (deleted : List Ksuid) (dirty : Bool) (o : DataObject) (os : List DataObject)
    → exists (view parent) o.id ≡ true
    → diff_adds parent deleted (p, dirty) (o ∷ os) ≡ diff_adds parent deleted (p, dirty) os
unfolding diff_adds
step_skip parent p deleted dirty o os e = rw (e, diff_adds)

step_new :
    (parent p q : Patch) (deleted : List Ksuid) (dirty : Bool) (o : DataObject)
    (os : List DataObject)
    → exists (view parent) o.id ≡ false
    → elem o.id deleted ≡ false
    → add_data_object p o ≡ ok q
    → diff_adds parent deleted (p, dirty) (o ∷ os) ≡ diff_adds parent deleted (q, true) os
unfolding diff_adds
step_new parent p q deleted dirty o os e f a = rw (e, diff_adds) (rw (f, diff_adds) (rw a))

add_new :
    (p : Patch) (i : Ksuid) (o : DataObject)
    → o.id ≡ i
    → exists p.base i ≡ false
    → has p.diff.objects i ≡ false
    → add_data_object p o
      ≡ ok (record p { diff = record p.diff { objects = put p.diff.objects i o } })
unfolding add_data_object with_diff Snap.add_data_object
add_new p i o n e f =
    subst
      (λ k.
        exists p.base k ≡ false
        → has p.diff.objects k ≡ false
        → add_data_object p o
          ≡ ok (record p { diff = record p.diff { objects = put p.diff.objects k o } }))
      n (λ e' f'. simp (e', f')) e f

skip_present :
    (parent p : Patch) (deleted : List Ksuid) (dirty : Bool) (xs ys : List DataObject)
    → All (λ o. exists (view parent) o.id ≡ true) xs
    → diff_adds parent deleted (p, dirty) (xs ++ ys) ≡ diff_adds parent deleted (p, dirty) ys
skip_present parent p deleted dirty [] ys h = refl
skip_present parent p deleted dirty (o ∷ xs) ys (e, h) =
    step_skip parent p deleted dirty o (xs ++ ys) e ∙ skip_present parent p deleted dirty xs ys h

-- The patch with data objects added to its diff.
abbrev pub with_objects : Patch → Map Ksuid DataObject → Patch
with_objects p m = record p { diff = record p.diff { objects = copy_into p.diff.objects m } }

or_false : (b : Bool) → (b || false) ≡ b
or_false b = ground arith

or_true : (b : Bool) → true ≡ (b || true)
or_true b = ground arith

adds_fresh :
    (parent : Patch) (deleted : List Ksuid) (p : Patch) (dirty : Bool) (m : Map Ksuid DataObject)
    → p.base ≡ view parent
    → IsMap m
    → IsNamed m
    → Disjoint m p.diff.objects
    → ((i : Ksuid) → has m i ≡ true → elem i deleted ≡ false)
    → diff_adds parent deleted (p, dirty) (values m)
      ≡ ok (
        with_objects p (fresh_of (view parent) m),
        dirty || not (is_empty (fresh_of (view parent) m)),
      )
unfolding diff_adds values fresh_of copy_into get
adds_fresh parent deleted p dirty [] b u n d k = ground arith
adds_fresh parent deleted p dirty ((i, o) ∷ m) b u n d k =
    elim (Bool-cases (exists (view parent) i)) [
      | inl h ↦
          step_skip parent p deleted dirty o (values m)
            (ap (λ x. exists (view parent) x) (IsNamed-head i o m n) ∙ h)
          ∙ adds_fresh parent deleted p dirty m b u.1 (IsNamed-tail i o m u n)
              (λ j e. d j (ground (arith, e))) (λ j e. k j (ground (arith, e)))
          ∙ rw h
      | inr h ↦
          step_new parent p (record p { diff = record p.diff { objects = put p.diff.objects i o } })
            deleted dirty o (values m) (ap (λ x. exists (view parent) x) (IsNamed-head i o m n) ∙ h)
            (ap (λ x. elem x deleted) (IsNamed-head i o m n) ∙ k i (rw (beq_refl i)))
            (add_new p i o (IsNamed-head i o m n) (ap (λ x. exists x i) b ∙ h)
              (Disjoint-head i o m p.diff.objects d))
          ∙ adds_fresh parent deleted
              (record p { diff = record p.diff { objects = put p.diff.objects i o } }) true m b u.1
              (IsNamed-tail i o m u n) (Disjoint-tail i o m p.diff.objects u d)
              (λ j e. k j (ground (arith, e)))
          ∙ rw h
              (ap (λ x. ok (with_objects p ((i, o) ∷ fresh_of (view parent) m), x)) (or_true dirty))
    ]

delete_old :
    (p : Patch) (i : Ksuid)
    → exists p.base i ≡ true
    → has p.diff.objects i ≡ false
    → delete_object p i ≡ ok (record p { deleted_objects = p.deleted_objects ++ (i ∷ []) })
unfolding delete_object
delete_old p i e f = simp (exists-view p.diff i, e, f)

step_delete :
    (parent p : Patch) (dirty : Bool) (i : Ksuid) (ids : List Ksuid) {q : Patch}
    → exists (view parent) i ≡ true
    → delete_object p i ≡ ok q
    → diff_deletes parent (p, dirty) (i ∷ ids) ≡ diff_deletes parent (q, true) ids
unfolding diff_deletes
step_delete parent p dirty i ids e f = rw (e, diff_deletes) (rw f)

-- Deletions of what the parent shows and the diff has not added.
deletes_old :
    (parent p : Patch) (dirty : Bool) (ids : List Ksuid)
    → p.base ≡ view parent
    → ((i : Ksuid) → elem i ids ≡ true → exists (view parent) i ≡ true)
    → ((i : Ksuid) → elem i ids ≡ true → has p.diff.objects i ≡ false)
    → diff_deletes parent (p, dirty) ids
      ≡ ok (record p { deleted_objects = p.deleted_objects ++ ids }, dirty || not (is_empty ids))
unfolding diff_deletes
deletes_old parent p dirty [] b h f = rw (append-nil, or_false dirty)
deletes_old parent p dirty (i ∷ ids) b h f =
    step_delete parent p dirty i ids (h i (rw (beq_refl i)))
      (delete_old p i (ap (λ x. exists x i) b ∙ h i (rw (beq_refl i))) (f i (rw (beq_refl i))))
    ∙ deletes_old parent (record p { deleted_objects = p.deleted_objects ++ (i ∷ []) }) true ids b
        (λ j e. h j (ground (arith, e))) (λ j e. f j (ground (arith, e)))
    ∙ rw append_assoc (
        ap (λ x. ok (record p { deleted_objects = p.deleted_objects ++ (i ∷ ids) }, x))
          (or_true dirty))

-- A view that has the data objects of the snapshot `s`, each found by its own identifier.
base_shown :
    (v : View) (m : Map Ksuid DataObject)
    → IsMap m
    → IsNamed m
    → ((i : Ksuid) → has m i ≡ true → exists v i ≡ true)
    → All (λ o. exists v o.id ≡ true) (values m)
unfolding values get
base_shown v [] u n h = tt
base_shown v ((i, o) ∷ m) u n h = (
  ap (λ x. exists v x) (IsNamed-head i o m n) ∙ h i (rw (beq_refl i)),
  base_shown v m u.1 (IsNamed-tail i o m u n) (λ j e. h j (ground (arith, e))),
)

-- What a merge of the child into the parent adds and deletes.
abbrev pub merge_patch : Patch → Patch → Patch
merge_patch parent child = record {
  base = view parent;
  diff = record {
    objects = copy_into [] (fresh_of (view parent) child.diff.objects);
    vectors = [];
  };
  deleted_objects = child.deleted_objects;
  deleted_vectors = [];
}

module _ (s : Snapshot) (parent child : Patch) (sv : Snap.IsValid s)
    (bp : parent.base ≡ Snap.view s) (bc : child.base ≡ Snap.view s) (vc : IsValid child) where
  parent_shows : (i : Ksuid) → exists (Snap.view s) i ≡ true → exists (view parent) i ≡ true
  parent_shows i e = ground (arith, exists-parent parent i, ap (λ x. exists x i) bp, e)

  child_deletes_shown :
      (i : Ksuid) → elem i child.deleted_objects ≡ true → exists (view parent) i ≡ true
  child_deletes_shown i e = parent_shows i (sym (ap (λ x. exists x i) bc) ∙ vc.old_objects i e)

  child_adds_kept :
      (i : Ksuid) → has child.diff.objects i ≡ true → elem i child.deleted_objects ≡ false
  child_adds_kept i e = ground (arith, vc.new_objects i e, vc.old_objects i)

  added_not_deleted :
      (i : Ksuid)
      → elem i child.deleted_objects ≡ true
      → has (copy_into [] (fresh_of (view parent) child.diff.objects)) i ≡ false
  unfolding get
  added_not_deleted i e = ground (
    arith,
    get-copy_into [] (fresh_of (view parent) child.diff.objects) i
        (fresh_of-IsMap (view parent) child.diff.objects vc.diff.objects_map),
    get-fresh_of (view parent) child.diff.objects i,
    child_deletes_shown i e,
  )

  diff_adds-merge :
      diff_adds parent child.deleted_objects (new_patch (view parent), false) (select_all child)
      ≡ ok (
        record (merge_patch parent child) { deleted_objects = [] },
        not (is_empty (fresh_of (view parent) child.diff.objects)),
      )
  unfolding select_all Snap.select_all new_patch get
  diff_adds-merge =
      ap
        (λ v.
          diff_adds parent child.deleted_objects (new_patch (view parent), false)
            (v.select_all ++ values child.diff.objects))
        bc
      ∙ skip_present parent (new_patch (view parent)) child.deleted_objects false (values s.objects)
          (values child.diff.objects)
          (base_shown (view parent) s.objects sv.objects_map sv.named
            (λ i e. parent_shows i (exists-view s i ∙ e)))
      ∙ adds_fresh parent child.deleted_objects (new_patch (view parent)) false child.diff.objects
          refl vc.diff.objects_map vc.diff.named (λ i e. refl) child_adds_kept

  -- Over one snapshot, Diff returns the merge patch, unless that has nothing to add or to delete;
  -- the errors for a conflict are never returned.
  pub diff_of-merge : diff_of parent child ≡ (
      if is_empty (fresh_of (view parent) child.diff.objects) && is_empty child.deleted_objects
      then err empty_difference
      else ok (merge_patch parent child))
  unfolding diff_of
  diff_of-merge = rw diff_adds-merge (
      rw
        (deletes_old parent (record (merge_patch parent child) { deleted_objects = [] })
          (not (is_empty (fresh_of (view parent) child.diff.objects))) child.deleted_objects refl
          child_deletes_shown added_not_deleted)
        (ground arith))
