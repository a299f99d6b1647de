-- ===== src/Commits/Patch/Simulation.antt =====
-- A patch follows the snapshot into which the same actions are played.
use super.Prelude.{◌≡◌, refl, sym, ◌∙◌, ap, subst, false, none, Option, List, [], ◌∷◌, ◌++◌, arith}
use super.Prelude.{
  nat_eq, nat_beq_iff, if◌then◌else◌, or_else, elem, elem-append, Bool-cases, inl, inr,
}
use super.Prelude.Result.{Result, ok, Result-cases, ok-injective}
use super.GoMap.{get, has, get-put, get-delete}
use super.Commits.Types.{
  Ksuid, DataObject, Action, add, add_vector, delete, delete_vector, commit, Error,
}
use super.Commits.Writeable.{exists, play_action, play_actions}
use super.Commits.Snapshot.{Snapshot, snapshot_writeable}
use super.Commits.Snapshot as Snap
use super.Commits.Snapshot.Inversion.{
  add_data_object-eq-ok, delete_object-eq-ok, add_vector-eq-ok, delete_vector-eq-ok,
}
use super.Commits.Snapshot.Contents.{SameContents}
use super.Commits.Patch.{
  Patch, new_patch, patch_writeable, with_diff, add_data_object, delete_object, has_vector,
}
use super.Commits.Patch as Pat
use super.Commits.Patch.Valid.{
  IsValid, new_patch-IsValid, play_action-IsValid, with_diff-eq-ok, play_actions-IsValid,
}
use super.Commits.Patch.Commit.{
  apply_patch, get-apply_patch, get_vector-apply_patch, exists-view, diff_new, diff_new_vector,
}

-- What a patch over `s` makes of the data objects and of the vectors of `s`.
abbrev objects_of : Patch → Snapshot → Ksuid → Option DataObject
objects_of p s i =
    or_else (get p.diff.objects i) (if elem i p.deleted_objects then none else get s.objects i)

abbrev vectors_in : Patch → Snapshot → Ksuid → Option (Unit {0})
vectors_in p s i =
    or_else (get p.diff.vectors i) (if elem i p.deleted_vectors then none else get s.vectors i)

-- The patch makes of the snapshot `s` what the snapshot `t` holds.
record Makes (p : Patch) (s t : Snapshot) : Type 0 where
  objects : (i : Ksuid) → objects_of p s i ≡ get t.objects i
  vectors : (i : Ksuid) → vectors_in p s i ≡ get t.vectors i

module _ (s : Snapshot) (p : Patch) (b : p.base ≡ Snap.view s) (v : IsValid p) where
  step_add :
      (q : Patch) (t u : Snapshot) (o : DataObject)
      → Makes p s t
      → add_data_object p o ≡ ok q
      → Snap.add_data_object t o ≡ ok u
      → Makes q s u
  unfolding add_data_object
  step_add q t u o h ep et = elim (Bool-cases (exists p.base o.id)) [
    | inl x ↦ cc (rw x at ep)
    | inr x ↦
        let (d, r, eq) = with_diff-eq-ok p q (Snap.add_data_object p.diff o) (rw x at ep) in
        let de = (add_data_object-eq-ok p.diff d o r).1 in
        let ue = (add_data_object-eq-ok t u o et).1 in
        subst (λ x. Makes x s u) eq
          (record {
            objects = λ i. ground (
              arith,
              ap (λ x. get x.objects i) de,
              ap (λ x. get x.objects i) ue,
              get-put p.diff.objects o.id i o,
              get-put t.objects o.id i o,
              h.objects i,
            );
            vectors = λ i.
                ground
                  (arith, ap (λ x. get x.vectors i) de, ap (λ x. get x.vectors i) ue, h.vectors i);
          })
  ]

  step_add_vector :
      (q : Patch) (t u : Snapshot) (k : Ksuid)
      → Makes p s t
      → Pat.add_vector p k ≡ ok q
      → Snap.add_vector t k ≡ ok u
      → Makes q s u
  unfolding Pat.add_vector
  step_add_vector q t u k h ep et = elim (Bool-cases (has_vector p k)) [
    | inl x ↦ cc (rw x at ep)
    | inr x ↦
        let (d, r, eq) = with_diff-eq-ok p q (Snap.add_vector p.diff k) (rw x at ep) in
        let de = (add_vector-eq-ok p.diff d k r).1 in
        let ue = (add_vector-eq-ok t u k et).1 in
        subst (λ x. Makes x s u) eq
          (record {
            objects = λ i.
                ground
                  (arith, ap (λ x. get x.objects i) de, ap (λ x. get x.objects i) ue, h.objects i);
            vectors = λ i. ground (
              arith,
              ap (λ x. get x.vectors i) de,
              ap (λ x. get x.vectors i) ue,
              get-put p.diff.vectors k i tt,
              get-put t.vectors k i tt,
              h.vectors i,
            );
          })
  ]

  -- A deletion of something that was added by the patch itself.
  delete_new_object :
      (q : Patch) (t u : Snapshot) (k : Ksuid)
      → Makes p s t
      → with_diff p (Snap.delete_object p.diff k) ≡ ok q
      → Snap.delete_object t k ≡ ok u
      → Makes q s u
  delete_new_object q t u k h ep et =
      let (d, r, eq) = with_diff-eq-ok p q (Snap.delete_object p.diff k) ep in
      let (f, de) = delete_object-eq-ok p.diff d k r in
      let ue = (delete_object-eq-ok t u k et).1 in
      subst (λ x. Makes x s u) eq
        (record {
          objects = λ i. ground (
            arith,
            ap (λ x. get x.objects i) de,
            ap (λ x. get x.objects i) ue,
            get-delete p.diff.objects k i,
            get-delete t.objects k i,
            h.objects i,
            diff_new s p b v k f,
            nat_beq_iff k i,
          );
          vectors = λ i.
              ground
                (arith, ap (λ x. get x.vectors i) de, ap (λ x. get x.vectors i) ue, h.vectors i);
        })

  delete_new_vector :
      (q : Patch) (t u : Snapshot) (k : Ksuid)
      → Makes p s t
      → with_diff p (Snap.delete_vector p.diff k) ≡ ok q
      → Snap.delete_vector t k ≡ ok u
      → Makes q s u
  delete_new_vector q t u k h ep et =
      let (d, r, eq) = with_diff-eq-ok p q (Snap.delete_vector p.diff k) ep in
      let (f, de) = delete_vector-eq-ok p.diff d k r in
      let ue = (delete_vector-eq-ok t u k et).1 in
      subst (λ x. Makes x s u) eq
        (record {
          objects = λ i.
              ground
                (arith, ap (λ x. get x.objects i) de, ap (λ x. get x.objects i) ue, h.objects i);
          vectors = λ i. ground (
            arith,
            ap (λ x. get x.vectors i) de,
            ap (λ x. get x.vectors i) ue,
            get-delete p.diff.vectors k i,
            get-delete t.vectors k i,
            h.vectors i,
            diff_new_vector s p b v k f,
            nat_beq_iff k i,
          );
        })

  -- A deletion of something that the snapshot had.
  delete_old_object :
      (t u : Snapshot) (k : Ksuid)
      → Makes p s t
      → has p.diff.objects k ≡ false
      → Snap.delete_object t k ≡ ok u
      → Makes (record p { deleted_objects = p.deleted_objects ++ (k ∷ []) }) s u
  delete_old_object t u k h f et =
      let ue = (delete_object-eq-ok t u k et).1 in
      record {
        objects = λ i. ground (
          arith,
          ap (λ x. get x.objects i) ue,
          get-delete t.objects k i,
          h.objects i,
          f,
          elem-append i p.deleted_objects (k ∷ []),
          nat_beq_iff k i,
        );
        vectors = λ i. ground (arith, ap (λ x. get x.vectors i) ue, h.vectors i);
      }

  delete_old_vector :
      (t u : Snapshot) (k : Ksuid)
      → Makes p s t
      → has p.diff.vectors k ≡ false
      → Snap.delete_vector t k ≡ ok u
      → Makes (record p { deleted_vectors = p.deleted_vectors ++ (k ∷ []) }) s u
  delete_old_vector t u k h f et =
      let ue = (delete_vector-eq-ok t u k et).1 in
      record {
        objects = λ i. ground (arith, ap (λ x. get x.objects i) ue, h.objects i);
        vectors = λ i. ground (
          arith,
          ap (λ x. get x.vectors i) ue,
          get-delete t.vectors k i,
          h.vectors i,
          f,
          elem-append i p.deleted_vectors (k ∷ []),
          nat_beq_iff k i,
        );
      }

  step_delete :
      (q : Patch) (t u : Snapshot) (k : Ksuid)
      → Makes p s t
      → delete_object p k ≡ ok q
      → Snap.delete_object t k ≡ ok u
      → Makes q s u
  unfolding delete_object
  step_delete q t u k h ep et = elim (Bool-cases (exists (Snap.view p.diff) k)) [
    | inl x ↦ delete_new_object q t u k h (rw x at ep) et
    | inr x ↦ elim (Bool-cases (exists p.base k)) [
      | inl y ↦
          subst (λ z. Makes z s u) (ok-injective (rw (x, y) at ep))
            (delete_old_object t u k h (sym (exists-view p.diff k) ∙ x) et)
      | inr y ↦ cc (rw (x, y) at ep)
    ]
  ]

  step_delete_vector :
      (q : Patch) (t u : Snapshot) (k : Ksuid)
      → Makes p s t
      → Pat.delete_vector p k ≡ ok q
      → Snap.delete_vector t k ≡ ok u
      → Makes q s u
  unfolding Pat.delete_vector Snap.has_vector
  step_delete_vector q t u k h ep et = elim (Bool-cases (has p.diff.vectors k)) [
    | inl x ↦ delete_new_vector q t u k h (rw x at ep) et
    | inr x ↦ elim (Bool-cases (p.base.has_vector k)) [
      | inl y ↦
          subst (λ z. Makes z s u) (ok-injective (rw (x, y) at ep)) (delete_old_vector t u k h x et)
      | inr y ↦ cc (rw (x, y) at ep)
    ]
  ]

  step :
      (q : Patch) (t u : Snapshot) (a : Action)
      → Makes p s t
      → play_action p a ≡ ok q
      → play_action t a ≡ ok u
      → Makes q s u
  unfolding play_action
  step q t u (add c o) h ep et = step_add q t u o h ep et
  step q t u (add_vector c i) h ep et = step_add_vector q t u i h ep et
  step q t u (delete c i) h ep et = step_delete q t u i h ep et
  step q t u (delete_vector c i) h ep et = step_delete_vector q t u i h ep et
  step q t u (commit c) h ep et =
      subst (λ x. Makes x s u) (ok-injective ep) (subst (λ x. Makes p s x) (ok-injective et) h)

with_diff-base : (p q : Patch) (r : Result Error Snapshot) → with_diff p r ≡ ok q → q.base ≡ p.base
with_diff-base p q r e = let (d, f, eq) = with_diff-eq-ok p q r e in ap (λ x. x.base) (sym eq)

pub play_action-base : (p q : Patch) (a : Action) → play_action p a ≡ ok q → q.base ≡ p.base
unfolding play_action add_data_object Pat.add_vector delete_object Pat.delete_vector
play_action-base p q (add c o) e =
    ground (arith, with_diff-base p q (Snap.add_data_object p.diff o))
play_action-base p q (add_vector c i) e =
    ground (arith, with_diff-base p q (Snap.add_vector p.diff i))
play_action-base p q (delete c i) e =
    ground (arith, with_diff-base p q (Snap.delete_object p.diff i))
play_action-base p q (delete_vector c i) e =
    ground (arith, with_diff-base p q (Snap.delete_vector p.diff i))
play_action-base p q (commit c) e = ground arith

-- The same run from a patch and from the snapshot for which it stands.
run :
    (s : Snapshot) (p q : Patch) (t u : Snapshot) (acts : List Action)
    → p.base ≡ Snap.view s
    → IsValid p
    → Makes p s t
    → play_actions p acts ≡ ok q
    → play_actions t acts ≡ ok u
    → Makes q s u
unfolding play_actions
run s p q t u [] b v h ep et =
    subst (λ x. Makes x s u) (ok-injective ep) (subst (λ x. Makes p s x) (ok-injective et) h)
run s p q t u (a ∷ acts) b v h ep et = elim (Result-cases (play_action p a)) [
  | inr (x, f) ↦ cc (rw (f, play_actions) at ep)
  | inl (p', f) ↦ elim (Result-cases (play_action t a)) [
    | inr (x, g) ↦ cc (rw (g, play_actions) at et)
    | inl (t', g) ↦
        run s p' q t' u acts (play_action-base p p' a f ∙ b) (play_action-IsValid p p' a v f)
          (step s p b v p' t t' a h f g) (rw (f, play_actions) at ep) (rw (g, play_actions) at et)
  ]
]

-- A run of actions that plays to its end both over a snapshot and into a new patch on that snapshot
-- leaves a patch that stands for the final snapshot: applied to the first snapshot, it has the data
-- objects and the vectors of the final one.
pub play_actions-StandsFor :
    (s u : Snapshot) (q : Patch) (acts : List Action)
    → play_actions s acts ≡ ok u
    → play_actions (new_patch (Snap.view s)) acts ≡ ok q
    → SameContents (apply_patch q s) u
unfolding new_patch get
play_actions-StandsFor s u q acts et ep =
    let start : Makes (new_patch (Snap.view s)) s s = record {
      objects = λ i. refl;
      vectors = λ i. refl;
    } in
    let v = play_actions-IsValid (new_patch (Snap.view s)) q acts (new_patch-IsValid _) ep in
    let h = run s (new_patch (Snap.view s)) q s u acts refl (new_patch-IsValid _) start ep et in
    record {
      objects = λ i. get-apply_patch q s i v.diff ∙ h.objects i;
      vectors = λ i. get_vector-apply_patch q s i v.diff ∙ h.vectors i;
    }
