-- ===== src/Commits/Patch/Revert.antt =====
-- The method Revert of a patch: the commit object that undoes the patch at a later tip.
use super.Prelude.{
  ℕ, ◌≡◌, refl, sym, ◌∙◌, ap, true, false, not, none, some, List, [], ◌∷◌, ◌++◌, map, arith,
  append_assoc, append-nil,
}
use super.Prelude.{
  nat_eq, nat_beq, nat_beq_iff, beq_refl, if◌then◌else◌, or_else, elem, Distinct, Bool-cases, inl,
  inr, ◌&&◌, length, ◌==◌,
}
use super.Prelude.Result.{ok, err, ◌>>=◌}
use super.GoMap.{
  Map, get, has, values, copy_into, delete_each, IsMap, get-copy_into, get-delete_each,
}
use super.Commits.Types.{Ksuid, DataObject, Action, add, delete, Object, empty_revert}
use super.Commits.Object.{Stamp, Note, append_add, append_delete, append, new_object, null_value}
use super.Commits.Object.Actions.{first_commit}
use super.Commits.Writeable.{exists, play, play_actions, play_action}
use super.Commits.Snapshot.{Snapshot, snapshot_writeable}
use super.Commits.Snapshot as Snap
use super.Commits.Snapshot.Play.{
  IsNamed, AllIn, Disjoint, IsNamed-head, IsNamed-tail, play_actions-append, play_deletes,
  play_adds,
}
use super.Commits.Patch.{Patch, revert, revert_adds, revert_deletes}
use super.Commits.Patch.Valid.{IsValid}
use super.Commits.Patch.Commit.{exists-view, diff_new, deleted_in}

-- The identifiers of a map that the tip has.
pub present : Snapshot → Map Ksuid DataObject → List Ksuid
present tip [] = []
present tip ((i, o) ∷ m) = let rest = present tip m in if has tip.objects i then i ∷ rest else rest

-- The data objects of the base that were deleted and that the tip lacks.
pub restored : Snapshot → Map Ksuid DataObject → List Ksuid → Map Ksuid DataObject
restored tip base [] = []
restored tip base (i ∷ ids) =
    let rest = restored tip base ids in
    elim (get base i) [ none ↦ rest | some o ↦ if has tip.objects i then rest else (i, o) ∷ rest ]

elem-present :
    (tip : Snapshot) (m : Map Ksuid DataObject) (i : Ksuid)
    → elem i (present tip m) ≡ (has m i && has tip.objects i)
unfolding present get
elem-present tip [] i = refl
elem-present tip ((k, o) ∷ m) i = elim (Bool-cases (nat_beq k i)) [
  | inl e ↦
      ground (arith, elem-present tip m i, e, ap (λ x. has tip.objects x) ((nat_beq_iff k i).0 e))
  | inr e ↦ ground (arith, elem-present tip m i, e)
]

present-Distinct : (tip : Snapshot) (m : Map Ksuid DataObject) → IsMap m → Distinct (present tip m)
unfolding present
present-Distinct tip [] u = tt
present-Distinct tip ((k, o) ∷ m) u =
    ground (arith, present-Distinct tip m u.1, elem-present tip m k, u.0)

get-restored :
    (tip : Snapshot) (base : Map Ksuid DataObject) (ids : List Ksuid) (i : Ksuid)
    → get (restored tip base ids) i
      ≡ (if elem i ids && not (has tip.objects i) then get base i else none)
unfolding restored get
get-restored tip base [] i = refl
get-restored tip base (k ∷ ids) i = elim (Bool-cases (nat_beq k i)) [
  | inl e ↦ ground (
    arith,
    get-restored tip base ids i,
    e,
    ap (λ x. has tip.objects x) ((nat_beq_iff k i).0 e),
    ap (λ x. get base x) ((nat_beq_iff k i).0 e),
  )
  | inr e ↦ ground (arith, get-restored tip base ids i, e)
]

restored-IsMap :
    (tip : Snapshot) (base : Map Ksuid DataObject) (ids : List Ksuid)
    → Distinct ids
    → IsMap (restored tip base ids)
unfolding restored
restored-IsMap tip base [] d = tt
restored-IsMap tip base (k ∷ ids) d =
    ground (arith, restored-IsMap tip base ids d.1, get-restored tip base ids k, d.0)

-- The object with more actions.
abbrev push : Object → List Action → Object
push o acts = record o { actions = o.actions ++ acts }

push-push : (o : Object) (xs ys : List Action) → push (push o xs) ys ≡ push o (xs ++ ys)
push-push o xs ys = ap (λ l. record o { actions = l }) (append_assoc o.actions xs ys)

revert_adds_lem :
    (tip : Snapshot) (o : Object) (m : Map Ksuid DataObject)
    → IsMap m
    → IsNamed m
    → revert_adds tip o (values m) ≡ push o (map (delete o.commit) (present tip m))
unfolding revert_adds values present append_delete append
revert_adds_lem tip o [] u n = ap (λ l. record o { actions = l }) (sym (append-nil o.actions))
revert_adds_lem tip o ((i, x) ∷ m) u n =
    ap (λ k. revert_adds tip (if exists (Snap.view tip) k then append_delete o k else o) (values m))
      (IsNamed-head i x m n)
    ∙ elim (Bool-cases (has tip.objects i)) [
      | inl e ↦
          rw (exists-view tip i, e)
            (revert_adds_lem tip (push o (delete o.commit i ∷ [])) m u.1 (IsNamed-tail i x m u n)
              ∙ push-push o (delete o.commit i ∷ []) (map (delete o.commit) (present tip m)))
      | inr e ↦ rw (exists-view tip i, e) (revert_adds_lem tip o m u.1 (IsNamed-tail i x m u n))
    ]

lookup_of_get :
    (s : Snapshot) (i : Ksuid)
    → has s.objects i ≡ true
    → (o : DataObject) × (get s.objects i ≡ some o) × (Snap.lookup s i ≡ ok o)
unfolding Snap.lookup
lookup_of_get s i h = ground arith

restored_skip :
    (tip : Snapshot) (base : Map Ksuid DataObject) (i : Ksuid) (ids : List Ksuid) (o : DataObject)
    → get base i ≡ some o
    → has tip.objects i ≡ true
    → restored tip base (i ∷ ids) ≡ restored tip base ids
unfolding restored
restored_skip tip base i ids o g e = rw (g, restored) (rw e)

restored_keep :
    (tip : Snapshot) (base : Map Ksuid DataObject) (i : Ksuid) (ids : List Ksuid) (o : DataObject)
    → get base i ≡ some o
    → has tip.objects i ≡ false
    → restored tip base (i ∷ ids) ≡ (i, o) ∷ restored tip base ids
unfolding restored
restored_keep tip base i ids o g e = rw (g, restored) (rw e)

revert_deletes_lem :
    (p : Patch) (s tip : Snapshot) (o : Object) (ids : List Ksuid)
    → p.base ≡ Snap.view s
    → Snap.IsValid s
    → AllIn ids s.objects
    → revert_deletes p tip o ids
      ≡ ok (push o (map (add o.commit) (values (restored tip s.objects ids))))
unfolding revert_deletes restored values append_add append
revert_deletes_lem p s tip o [] b v h =
    ap (λ l. ok (record o { actions = l })) (sym (append-nil o.actions))
revert_deletes_lem p s tip o (i ∷ ids) b v h =
    let (x, g, l) = lookup_of_get s i (h i (rw (beq_refl i))) in
    let tail : AllIn ids s.objects = λ j e. h j (ground (arith, e)) in
    ap
      (λ w. w.lookup i >>= λ d.
        revert_deletes p tip (if exists (Snap.view tip) d.id then o else append_add o d) ids)
      b
    ∙ rw l (
        ap (λ k. revert_deletes p tip (if exists (Snap.view tip) k then o else append_add o x) ids)
          (v.named i x g)
        ∙ elim (Bool-cases (has tip.objects i)) [
          | inl e ↦
              rw (exists-view tip i, e)
                (revert_deletes_lem p s tip o ids b v tail
                  ∙ ap (λ m. ok (push o (map (add o.commit) (values m))))
                      (sym (restored_skip tip s.objects i ids x g e)))
          | inr e ↦
              rw (exists-view tip i, e)
                (revert_deletes_lem p s tip (push o (add o.commit x ∷ [])) ids b v tail
                  ∙ ap ok (
                      push-push o (add o.commit x ∷ [])
                        (map (add o.commit) (values (restored tip s.objects ids))))
                  ∙ ap (λ m. ok (push o (map (add o.commit) (values m))))
                      (sym (restored_keep tip s.objects i ids x g e)))
        ])

module _ (p : Patch) (s tip : Snapshot) (b : p.base ≡ Snap.view s) (v : IsValid p)
    (sv : Snap.IsValid s) where
  undone : List Ksuid
  undone = present tip p.diff.objects

  redone : Map Ksuid DataObject
  redone = restored tip s.objects p.deleted_objects

  -- The actions of the commit object that undoes the patch.
  revert_actions : Stamp → Ksuid → ℕ → Note → List Action
  revert_actions st parent retries note =
      ((first_commit st parent note null_value retries ∷ []) ++ map (delete st.id) undone)
      ++ map (add st.id) (values redone)

  revert-eq :
      (st : Stamp) (parent : Ksuid) (retries : ℕ) (note : Note)
      → revert p tip st parent retries note ≡ (
          if length (revert_actions st parent retries note) == 1
          then err empty_revert
          else ok (record {
            commit = st.id;
            parent = parent;
            actions = revert_actions st parent retries note;
          }))
  unfolding revert new_object append Snap.select_all undone redone revert_actions
  revert-eq st parent retries note =
      let o : Object = record {
        commit = st.id;
        parent = parent;
        actions = first_commit st parent note null_value retries ∷ [];
      } in
      let o1 = push o (map (delete st.id) undone) in
      ap
        (λ x. revert_deletes p tip x p.deleted_objects >>= λ y.
          if length y.actions == 1 then err empty_revert else ok y)
        (revert_adds_lem tip o p.diff.objects v.diff.objects_map v.diff.named)
      ∙ ap (λ x. x >>= λ y. if length y.actions == 1 then err empty_revert else ok y)
          (revert_deletes_lem p s tip o1 p.deleted_objects b sv (deleted_in s p b v))

  revert_acts :
      (st : Stamp) (parent : Ksuid) (retries : ℕ) (note : Note) (o : Object)
      → revert p tip st parent retries note ≡ ok o
      → o.actions ≡ revert_actions st parent retries note
  revert_acts st parent retries note o e = ground (arith, revert-eq st parent retries note)

  undone_in : AllIn undone tip.objects
  unfolding undone
  undone_in i e = ground (arith, elem-present tip p.diff.objects i, e)

  redone_new : Disjoint redone (delete_each tip.objects undone)
  unfolding redone
  redone_new i e = ground (
    arith,
    get-delete_each tip.objects undone i,
    get-restored tip s.objects p.deleted_objects i,
    e,
  )

  redone-IsNamed : IsNamed redone
  unfolding redone
  redone-IsNamed i o e =
      ground (arith, get-restored tip s.objects p.deleted_objects i, sv.named i o, e)

  play-revert_actions :
      (st : Stamp) (parent : Ksuid) (retries : ℕ) (note : Note)
      → Distinct p.deleted_objects
      → play_actions tip (revert_actions st parent retries note)
        ≡ ok (record tip { objects = copy_into (delete_each tip.objects undone) redone })
  unfolding revert_actions play_actions play_action
  play-revert_actions st parent retries note d =
      let f : List Action = first_commit st parent note null_value retries ∷ [] in
      play_actions-append tip (f ++ map (delete st.id) undone) _
      ∙ ap (λ r. r >>= λ t. play_actions t (map (add st.id) (values redone)))
          (play_deletes st.id tip undone
            (unfold undone in present-Distinct tip p.diff.objects v.diff.objects_map) undone_in)
      ∙ play_adds st.id (record tip { objects = delete_each tip.objects undone }) redone
          (unfold redone in restored-IsMap tip s.objects p.deleted_objects d) redone-IsNamed
          redone_new

  -- What a revert makes of one data object of the tip.
  reverted_object :
      (i : Ksuid)
      → Distinct p.deleted_objects
      → get (copy_into (delete_each tip.objects undone) redone) i ≡ (
          if has p.diff.objects i
          then none
          else or_else
              (get tip.objects i)
              (if elem i p.deleted_objects then get s.objects i else none))
  unfolding undone redone
  reverted_object i d = ground (
    arith,
    get-copy_into (delete_each tip.objects undone) redone i
        (restored-IsMap tip s.objects p.deleted_objects d),
    get-delete_each tip.objects undone i,
    elem-present tip p.diff.objects i,
    get-restored tip s.objects p.deleted_objects i,
    diff_new s p b v i,
  )

  -- For a valid patch over a valid snapshot that deletes no data object of it twice, a revert that
  -- returns a commit object returns one that plays over the tip, whatever the tip. The
  -- outcome has none of the data objects that the patch added, all those of the base that it
  -- deleted, and otherwise those of the tip; the vectors are the tip's.
  pub revert_plays :
      (st : Stamp) (parent : Ksuid) (retries : ℕ) (note : Note) (o : Object)
      → Distinct p.deleted_objects
      → revert p tip st parent retries note ≡ ok o
      → (u : Snapshot) × (play tip o ≡ ok u)
        × ((i : Ksuid)
            → get u.objects i ≡ (
                if has p.diff.objects i
                then none
                else or_else
                    (get tip.objects i)
                    (if elem i p.deleted_objects then get s.objects i else none)))
        × (u.vectors ≡ tip.vectors)
  unfolding play
  revert_plays st parent retries note o d e = (
    record tip { objects = copy_into (delete_each tip.objects undone) redone },
    ap (λ x. play_actions tip x) (revert_acts st parent retries note o e)
        ∙ play-revert_actions st parent retries note d,
    λ i. reverted_object i d,
    refl,
  )
