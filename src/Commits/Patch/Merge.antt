-- ===== src/Commits/Patch/Merge.antt =====
-- What the commit object of a merge does to the tip of the parent branch.
use super.Prelude.{ℕ, ◌≡◌, refl, sym, ◌∙◌, ap, true, false, none, [], arith}
use super.Prelude.{nat_eq, if◌then◌else◌, is_some, or_else, or_else-none, elem, Distinct, inl, inr}
use super.Prelude.Result.{ok, is_ok, Result-cases}
use super.GoMap.{get, has, copy_into, delete_each, get-copy_into, get-delete_each, copy_into-IsMap}
use super.Commits.Types.{Ksuid, Value}
use super.Commits.Object.{Stamp, Note}
use super.Commits.Writeable.{exists, play}
use super.Commits.Snapshot.{Snapshot, snapshot_writeable}
use super.Commits.Snapshot as Snap
use super.Commits.Snapshot.Play.{AllIn, Disjoint}
use super.Commits.Patch.{Patch, view, new_commit_object, diff_of}
use super.Commits.Patch.Valid.{IsValid}
use super.Commits.Patch.Commit.{
  exists-view, apply_patch, get-apply_patch, deleted_in, diff_new, play-new_commit_object,
}
use super.Commits.Patch.Once.{play-new_commit_object-eq-ok}
use super.Commits.Patch.Diff.{
  fresh_of, get-fresh_of, fresh_of-IsMap, is_empty, exists-parent, merge_patch, diff_of-merge,
}

module _ (s : Snapshot) (parent child : Patch) (sv : Snap.IsValid s)
    (bp : parent.base ≡ Snap.view s) (bc : child.base ≡ Snap.view s) (vp : IsValid parent)
    (vc : IsValid child) where
  not_empty :
      (x : Ksuid) → elem x child.deleted_objects ≡ true → is_empty child.deleted_objects ≡ false
  not_empty x h = ground arith

  diff_of-deletes :
      (x : Ksuid)
      → elem x child.deleted_objects ≡ true
      → diff_of parent child ≡ ok (merge_patch parent child)
  diff_of-deletes x h = diff_of-merge s parent child sv bp bc vc ∙ ground (arith, not_empty x h)

  gone_from_tip :
      (x : Ksuid)
      → elem x parent.deleted_objects ≡ true
      → has (apply_patch parent s).objects x ≡ false
  gone_from_tip x h = ground (
    arith,
    get-apply_patch parent s x vp.diff,
    diff_new s parent bp vp x,
    deleted_in s parent bp vp x h,
    h,
  )

  diff_of-eq-ok : (q : Patch) → diff_of parent child ≡ ok q → merge_patch parent child ≡ q
  diff_of-eq-ok q e = ground (arith, diff_of-merge s parent child sv bp bc vc, e)

  -- If two valid patches over a valid snapshot both deleted one data object of it, then Diff finds no
  -- conflict, and the commit object of its patch does not play over the tip of the parent.
  pub diff_of_misses_conflict :
      (x : Ksuid) (st : Stamp) (commit : Ksuid) (retries : ℕ) (note : Note) (meta : Value)
      → elem x parent.deleted_objects ≡ true
      → elem x child.deleted_objects ≡ true
      → (q : Patch) × (diff_of parent child ≡ ok q)
        × (is_ok (play (apply_patch parent s) (new_commit_object q st commit retries note meta))
            ≡ false)
  diff_of_misses_conflict x st commit retries note meta hp hc =
      let q = merge_patch parent child in
      let o = new_commit_object q st commit retries note meta in
      (
        q,
        diff_of-deletes x hc,
        elim (Result-cases (play (apply_patch parent s) o)) [
          | inl (u, e) ↦
              let f =
                play-new_commit_object-eq-ok (apply_patch parent s) u q st commit retries note meta
                  e in
              absurd (ground (arith, f.1 x hc, gone_from_tip x hp))
          | inr (y, e) ↦ rw e
        ],
      )

  module _
      (apart : (i : Ksuid)
        → elem i child.deleted_objects ≡ true
        → elem i parent.deleted_objects ≡ false) where
    merge_deletes_in : AllIn child.deleted_objects (apply_patch parent s).objects
    merge_deletes_in i h =
        ground (arith, get-apply_patch parent s i vp.diff, deleted_in s child bc vc i h, apart i h)

    fresh_new :
        (i : Ksuid)
        → has (fresh_of (view parent) child.diff.objects) i ≡ true
        → has (apply_patch parent s).objects i ≡ false
    fresh_new i h = ground (
      arith,
      get-fresh_of (view parent) child.diff.objects i,
      exists-parent parent i,
      ap (λ v. exists v i) bp,
      exists-view s i,
      get-apply_patch parent s i vp.diff,
      h,
    )

    get-fresh :
        (i : Ksuid)
        → get (copy_into [] (fresh_of (view parent) child.diff.objects)) i
          ≡ get (fresh_of (view parent) child.diff.objects) i
    unfolding get
    get-fresh i =
        get-copy_into [] (fresh_of (view parent) child.diff.objects) i
          (fresh_of-IsMap (view parent) child.diff.objects vc.diff.objects_map)
        ∙ or_else-none _

    merge_diff-IsValid : Snap.IsValid (merge_patch parent child).diff
    merge_diff-IsValid = record {
      objects_map = copy_into-IsMap [] (fresh_of (view parent) child.diff.objects) tt;
      vectors_map = tt;
      named = λ i o e. ground (
        arith,
        vc.diff.named i o,
        get-fresh i,
        get-fresh_of (view parent) child.diff.objects i,
        e,
      );
    }

    merge-Disjoint :
        Disjoint
          (merge_patch parent child).diff.objects
          (delete_each (apply_patch parent s).objects child.deleted_objects)
    merge-Disjoint i h = ground (
      arith,
      get-delete_each (apply_patch parent s).objects child.deleted_objects i,
      get-fresh i,
      fresh_new i (sym (ap is_some (get-fresh i)) ∙ h),
    )

    -- What a merge makes of one data object of the tip.
    merged_object :
        (i : Ksuid)
        → get (apply_patch (merge_patch parent child) (apply_patch parent s)).objects i ≡ (
            if elem i child.deleted_objects
            then none
            else or_else (get (apply_patch parent s).objects i) (get child.diff.objects i))
    merged_object i = ground (
      arith,
      get-apply_patch (merge_patch parent child) (apply_patch parent s) i merge_diff-IsValid,
      get-fresh i,
      get-fresh_of (view parent) child.diff.objects i,
      exists-parent parent i,
      ap (λ v. exists v i) bp,
      exists-view s i,
      get-apply_patch parent s i vp.diff,
      vp.new_objects i,
      vc.new_objects i,
      vc.old_objects i,
      vp.old_objects i,
      ap (λ v. exists v i) bc,
    )

    -- If two valid patches over a valid snapshot deleted different data objects of it, the child none
    -- of them twice, and Diff returned a patch, the commit object of that plays over the tip of the
    -- parent, which is the parent's patch applied to the snapshot. The outcome has
    -- the data objects of the tip and those that the child added, less those that it deleted, and
    -- the vectors of the tip.
    pub merge_commit_plays :
        (st : Stamp) (commit : Ksuid) (retries : ℕ) (note : Note) (meta : Value) (q : Patch)
        → Distinct child.deleted_objects
        → diff_of parent child ≡ ok q
        → (u : Snapshot) × (play
              (apply_patch parent s)
              (new_commit_object q st commit retries note meta)
            ≡ ok u)
          × ((i : Ksuid)
              → get u.objects i ≡ (
                  if elem i child.deleted_objects
                  then none
                  else or_else (get (apply_patch parent s).objects i) (get child.diff.objects i)))
          × ((i : Ksuid) → get u.vectors i ≡ get (apply_patch parent s).vectors i)
    unfolding get copy_into delete_each
    merge_commit_plays st commit retries note meta q d e =
        let m = merge_patch parent child in
        let eq : m ≡ q = diff_of-eq-ok q e in
        (
          apply_patch m (apply_patch parent s),
          ap (λ x. play (apply_patch parent s) (new_commit_object x st commit retries note meta))
                (sym eq)
              ∙ play-new_commit_object (apply_patch parent s) m st commit retries note meta
                  merge_diff-IsValid d merge_deletes_in merge-Disjoint tt (λ i h. cc) (λ i h. cc),
          merged_object,
          λ i. refl,
        )
