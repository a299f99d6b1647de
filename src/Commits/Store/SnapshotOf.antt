-- ===== src/Commits/Store/SnapshotOf.antt =====
-- Snapshot with its caches and stored snapshots against the replay of the whole history.
use super.Prelude.{
  ℕ, ◌<◌, ◌≡◌, refl, sym, ◌∙◌, ap, subst, Option, none, some, List, [], ◌++◌, append-nil,
}
use super.Prelude.{nat_eq, Option-cases, inl, inr}
use super.Prelude.Result.{Result, ok, err, ◌>>=◌, Result-cases}
use super.Commits.Types.{Ksuid, Action, Object, Error}
use super.Commits.Writeable.{play_actions}
use super.Commits.Snapshot.{Snapshot, new_snapshot, snapshot_writeable, copy, decode_snapshot}
use super.Commits.Snapshot as Snap
use super.Commits.Snapshot.Play.{play_actions-append, play_actions-IsValid}
use super.Commits.Snapshot.Contents.{
  SameContents, SameResult, SameResult-ok, same_ok, play_actions-SameContents,
}
use super.Commits.Store.{
  ArcCache, Store, get_snapshot, put_snapshot, walk, snapshot, finish_snapshot, play_objects,
}
use super.Commits.Store.History.{
  History, depth, History-unique, actions_of, play_objects-eq-play_actions,
}
use super.Commits.Store.Coherent.{
  Recorded, IsCoherent, insert-IsCoherent, touch-IsCoherent, put_snapshot-IsCoherent,
}
use super.Commits.Store.Walk.{walk_lem, get_snapshot-Recorded}

-- The replay of the whole path, from the base that the loop found.
replay_split :
    (base start : Snapshot) (acts before : List Action) (above : List Object)
    → acts ≡ before ++ actions_of above
    → play_actions new_snapshot before ≡ ok start
    → SameContents base start
    → SameResult (play_objects base above) (play_actions new_snapshot acts)
replay_split base start acts before above sp pl sm =
    subst (λ r. SameResult r (play_actions new_snapshot acts))
      (sym (play_objects-eq-play_actions base above))
      (subst (SameResult (play_actions base (actions_of above)))
        (sym (
          ap (play_actions new_snapshot) sp
          ∙ play_actions-append new_snapshot before (actions_of above)
          ∙ ap (λ r. r >>= λ t. play_actions t (actions_of above)) pl))
        (play_actions-SameContents base start (actions_of above) sm))

module _ {oc : ArcCache Object} {pc : ArcCache (List Ksuid)} {sc : ArcCache Snapshot} where
  -- The outcome of Snapshot: the contents that the replay of `acts` leaves, or its error, and a store
  -- that is still coherent and holds the same commit objects.
  pub record Answers (s : Store oc pc sc) (acts : List Action)
      (r : Option (Result Error Snapshot × Store oc pc sc)) : Type 0 where
    pub answer : Result Error Snapshot
    pub after : Store oc pc sc
    pub result : r ≡ some (answer, after)
    pub same : SameResult answer (play_actions new_snapshot acts)
    pub coherent : IsCoherent after
    pub files : after.files ≡ s.files

  Answers-known :
      {s s' : Store oc pc sc} {c : Ksuid} {acts : List Action} {snap : Snapshot}
      {r : Option (Result Error Snapshot × Store oc pc sc)}
      → r ≡ some (ok snap, s')
      → History s.files c acts
      → Recorded s.files c snap
      → IsCoherent s'
      → s'.files ≡ s.files
      → Answers s acts r
  Answers-known {s' = s'} {snap = snap} e h rec coh f = record {
    answer = ok snap;
    after = s';
    result = e;
    same =
        subst (λ a. SameResult (ok snap) (play_actions new_snapshot a))
          (History-unique rec.history h)
          (subst (SameResult (ok snap)) (sym rec.plays) (same_ok rec.same));
    coherent = coh;
    files = f;
  }

  finish_ok :
      (s : Store oc pc sc) (c : Ksuid) (base snap : Snapshot) (objects : List Object)
      → play_objects base objects ≡ ok snap
      → finish_snapshot s c (ok (base, objects))
        ≡ (ok snap, record (put_snapshot s c snap) { snapshots = sc.insert s.snapshots c snap })
  unfolding finish_snapshot put_snapshot
  finish_ok s c base snap objects e = rw (e, finish_snapshot)

  finish_err :
      (s : Store oc pc sc) (c : Ksuid) (base : Snapshot) (objects : List Object) (x : Error)
      → play_objects base objects ≡ err x
      → finish_snapshot s c (ok (base, objects)) ≡ (err x, s)
  unfolding finish_snapshot
  finish_err s c base objects x e = rw (e, finish_snapshot)

  finish_lem :
      (s s1 : Store oc pc sc) (c : Ksuid) {acts : List Action} (base : Snapshot)
      (objects : List Object)
      → History s.files c acts
      → s1.files ≡ s.files
      → IsCoherent s1
      → Snap.IsValid base
      → SameResult (play_objects base objects) (play_actions new_snapshot acts)
      → Answers s acts (some (finish_snapshot s1 c (ok (base, objects))))
  unfolding put_snapshot
  finish_lem s s1 c {acts} base objects h f coh v sm =
      elim (Result-cases (play_objects base objects)) [
        | inr (x, e) ↦ record {
          answer = err x;
          after = s1;
          result = ap some (finish_err s1 c base objects x e);
          same = subst (λ r. SameResult r (play_actions new_snapshot acts)) e sm;
          coherent = coh;
          files = f;
        }
        | inl (snap, e) ↦
            let (t, pl, same) =
              SameResult-ok (subst (λ r. SameResult r (play_actions new_snapshot acts)) e sm) in
            let rec : Recorded s1.files c snap = record {
              acts = acts;
              history = subst (λ x. History x c acts) (sym f) h;
              end = t;
              plays = pl;
              same = same;
              valid =
                  play_actions-IsValid base snap (actions_of objects) v
                    (sym (play_objects-eq-play_actions base objects) ∙ e);
            } in
            record {
              answer = ok snap;
              after = record (put_snapshot s1 c snap) { snapshots = sc.insert s1.snapshots c snap };
              result = ap some (finish_ok s1 c base snap objects e);
              same = subst (λ r. SameResult r (play_actions new_snapshot acts)) e sm;
              coherent =
                  insert-IsCoherent (put_snapshot s1 c snap) c snap
                    (put_snapshot-IsCoherent s1 c snap coh rec) rec;
              files = f;
            }
      ]

  snapshot_cached :
      (fuel : ℕ) (s : Store oc pc sc) (c : Ksuid) (snap : Snapshot)
      → sc.lookup s.snapshots c ≡ some snap
      → snapshot fuel s c ≡ some (ok snap, record s { snapshots = sc.touch s.snapshots c })
  unfolding snapshot
  snapshot_cached fuel s c snap e = rw (e, snapshot)

  snapshot_stored :
      (fuel : ℕ) (s : Store oc pc sc) (c : Ksuid) (snap : Snapshot)
      → sc.lookup s.snapshots c ≡ none
      → get_snapshot s c ≡ ok snap
      → snapshot fuel s c ≡ some (ok snap, record s { snapshots = sc.insert s.snapshots c snap })
  unfolding snapshot
  snapshot_stored fuel s c snap e f = rw (e, snapshot) (rw (f, snapshot))

  snapshot_walked :
      (fuel : ℕ) (s s1 : Store oc pc sc) (c : Ksuid) (x : Error)
      (r : Result Error (Snapshot × List Object))
      → sc.lookup s.snapshots c ≡ none
      → get_snapshot s c ≡ err x
      → walk fuel s c [] ≡ some (r, s1)
      → snapshot fuel s c ≡ some (finish_snapshot s1 c r)
  unfolding snapshot
  snapshot_walked fuel s s1 c x r e f w = rw (e, snapshot) (rw (f, snapshot) (rw w))

  Answers-eq :
      {s : Store oc pc sc} {acts : List Action}
      {r q : Option (Result Error Snapshot × Store oc pc sc)}
      → q ≡ r
      → Answers s acts r
      → Answers s acts q
  Answers-eq {s} {acts} e a = subst (Answers s acts) (sym e) a

  -- With fuel for every commit on the path, Snapshot on a coherent store returns what the replay of
  -- the whole path from the root returns, whichever snapshots are cached or stored, and leaves a
  -- coherent store with the same commit objects.
  pub snapshot-Answers :
      (fuel : ℕ) (s : Store oc pc sc) (leaf : Ksuid) (acts : List Action)
      → IsCoherent s
      → (h : History s.files leaf acts) → depth h < fuel
      → Answers s acts (snapshot fuel s leaf)
  snapshot-Answers fuel s leaf acts coh h d = elim (Option-cases (sc.lookup s.snapshots leaf)) [
    | inr (snap, e) ↦
        Answers-known (snapshot_cached fuel s leaf snap e) h (coh.known leaf snap e)
          (touch-IsCoherent s leaf coh) refl
    | inl e ↦ elim (Result-cases (get_snapshot s leaf)) [
      | inl (snap, f) ↦
          let rec = get_snapshot-Recorded s leaf snap coh f in
          Answers-known (snapshot_stored fuel s leaf snap e f) h rec
            (insert-IsCoherent s leaf snap coh rec) refl
      | inr (x, f) ↦
          let w = walk_lem fuel s leaf [] coh h d in
          Answers-eq
            (snapshot_walked fuel s w.after leaf x (ok (w.base, w.above)) e f
              (w.result ∙ ap (λ l. some (ok (w.base, l), w.after)) (append-nil w.above)))
            (finish_lem s w.after leaf w.base w.above h w.files w.coherent w.valid
              (replay_split w.base w.start acts w.before w.above w.split w.plays w.same))
    ]
  ]
