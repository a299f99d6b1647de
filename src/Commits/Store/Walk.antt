-- ===== src/Commits/Store/Walk.antt =====
-- The loop of Snapshot: what it finds, and that its fuel is enough.
use super.Prelude.{
  ℕ, zero, suc, ◌<◌, ◌≡◌, refl, sym, ◌∙◌, ap, true, false, Option, none, some, List, [], ◌∷◌, ◌++◌,
  append_assoc, append-nil, arith,
}
use super.Prelude.{nat_eq, nat_beq_iff, Option-cases, inl, inr, ◌==◌}
use super.Prelude.Result.{Result, ok, err, Result-cases}
use super.GoMap.{get}
use super.Commits.Types.{Ksuid, nil, Action, Object, Error}
use super.Commits.Writeable.{play_actions}
use super.Commits.Snapshot.{Snapshot, new_snapshot, snapshot_writeable, copy, decode_snapshot}
use super.Commits.Snapshot as Snap
use super.Commits.Snapshot.Contents.{
  SameContents, SameContents-trans, SameContents-refl, copy-SameContents, copy-IsValid,
}
use super.Commits.Store.{ArcCache, Store, file_object, get_object, get_snapshot, walk}
use super.Commits.Store.History.{
  History, root, next, depth, History-unique, actions_of, actions_of-snoc,
}
use super.Commits.Store.Coherent.{
  Recorded, IsCoherent, with_cache, get_object_lem, insert-IsCoherent, touch-IsCoherent,
}

new_snapshot-IsValid : Snap.IsValid new_snapshot
new_snapshot-IsValid = record {
  objects_map = tt;
  vectors_map = tt;
  named = λ i o e. unfold get in cc;
}

module _ {oc : ArcCache Object} {pc : ArcCache (List Ksuid)} {sc : ArcCache Snapshot} where
  -- A base that records some commit of the path, and the objects above that commit.
  pub record Walked (s : Store oc pc sc) (acts : List Action) (objects : List Object)
      (r : Option (Result Error (Snapshot × List Object) × Store oc pc sc)) : Type 0 where
    pub base : Snapshot
    pub above : List Object
    pub before : List Action
    pub start : Snapshot
    pub after : Store oc pc sc
    pub result : r ≡ some (ok (base, above ++ objects), after)
    pub split : acts ≡ before ++ actions_of above
    pub plays : play_actions new_snapshot before ≡ ok start
    pub same : SameContents base start
    pub valid : Snap.IsValid base
    pub coherent : IsCoherent after
    pub files : after.files ≡ s.files

  -- The loop stops at a recorded commit.
  Walked-here :
      {s s' : Store oc pc sc} {c : Ksuid} {acts : List Action} {snap : Snapshot}
      (objects : List Object) {r : Option (Result Error (Snapshot × List Object) × Store oc pc sc)}
      → r ≡ some (ok (copy snap, objects), s')
      → History s.files c acts
      → Recorded s.files c snap
      → IsCoherent s'
      → s'.files ≡ s.files
      → Walked s acts objects r
  unfolding actions_of
  Walked-here {snap = snap} objects e h rec coh f = record {
    base = copy snap;
    above = [];
    before = rec.acts;
    start = rec.end;
    after = _;
    result = e;
    split = History-unique h rec.history ∙ sym (append-nil rec.acts);
    plays = rec.plays;
    same = SameContents-trans (copy-SameContents snap rec.valid) rec.same;
    valid = copy-IsValid snap rec.valid;
    coherent = coh;
    files = f;
  }

  -- One more object below those that the loop has passed.
  Walked-next :
      {s s' : Store oc pc sc} {acts : List Action} (o : Object) (objects : List Object)
      {r q : Option (Result Error (Snapshot × List Object) × Store oc pc sc)}
      → q ≡ r
      → s'.files ≡ s.files
      → Walked s' acts (o ∷ objects) r
      → Walked s (acts ++ o.actions) objects q
  Walked-next o objects e f w = record {
    base = w.base;
    above = w.above ++ (o ∷ []);
    before = w.before;
    start = w.start;
    after = w.after;
    result =
        e
        ∙ w.result
        ∙ ap (λ l. some (ok (w.base, l), w.after)) (sym (append_assoc w.above (o ∷ []) objects));
    split =
        ap (λ l. l ++ o.actions) w.split
        ∙ append_assoc w.before (actions_of w.above) o.actions
        ∙ ap (λ l. w.before ++ l) (sym (actions_of-snoc w.above o));
    plays = w.plays;
    same = w.same;
    valid = w.valid;
    coherent = w.coherent;
    files = w.files ∙ f;
  }

  pub get_snapshot-Recorded :
      (s : Store oc pc sc) (c : Ksuid) (snap : Snapshot)
      → IsCoherent s
      → get_snapshot s c ≡ ok snap
      → Recorded s.files c snap
  unfolding get_snapshot
  get_snapshot-Recorded s c snap h e = elim (Option-cases (get s.snaps c)) [
    | inl f ↦ cc (rw (f, get_snapshot) at e)
    | inr (acts, f) ↦ h.stored c acts snap f (rw (f, get_snapshot) at e)
  ]

  -- One round of the loop, in each of its cases.
  walk-nil :
      (fuel : ℕ) (s : Store oc pc sc) (c : Ksuid) (objects : List Object)
      → (c == nil) ≡ true
      → walk (suc fuel) s c objects ≡ some (ok (new_snapshot, objects), s)
  unfolding walk
  walk-nil fuel s c objects e = rw (e, walk)

  walk_cached :
      (fuel : ℕ) (s : Store oc pc sc) (c : Ksuid) (objects : List Object) (snap : Snapshot)
      → (c == nil) ≡ false
      → sc.lookup s.snapshots c ≡ some snap
      → walk (suc fuel) s c objects
        ≡ some (ok (copy snap, objects), record s { snapshots = sc.touch s.snapshots c })
  unfolding walk
  walk_cached fuel s c objects snap n e = rw (n, walk) (rw (e, walk))

  walk_stored :
      (fuel : ℕ) (s s1 : Store oc pc sc) (c : Ksuid) (objects : List Object) (snap : Snapshot)
      (r : Result Error Object)
      → (c == nil) ≡ false
      → sc.lookup s.snapshots c ≡ none
      → get_object s c ≡ (r, s1)
      → get_snapshot s1 c ≡ ok snap
      → walk (suc fuel) s c objects
        ≡ some (ok (copy snap, objects), record s1 { snapshots = sc.insert s1.snapshots c snap })
  unfolding walk
  walk_stored fuel s s1 c objects snap r n e g f = rw (n, walk) (rw (e, walk) (ground arith))

  walk_on :
      (fuel : ℕ) (s : Store oc pc sc) (c : Ksuid) (objects : List Object) (o : Object) (x : Error)
      → (c == nil) ≡ false
      → sc.lookup s.snapshots c ≡ none
      → (get_object s c).0 ≡ ok o
      → get_snapshot (get_object s c).1 c ≡ err x
      → walk (suc fuel) s c objects ≡ walk fuel (get_object s c).1 o.parent (o ∷ objects)
  unfolding walk
  walk_on fuel s c objects o x n e g f = rw (n, walk) (rw (e, walk) (rw (f, walk) (rw (g, walk))))

  walk_next :
      (fuel : ℕ) (s s1 : Store oc pc sc) (c : Ksuid) (objects : List Object) (o : Object)
      (x : Error)
      → (c == nil) ≡ false
      → sc.lookup s.snapshots c ≡ none
      → get_object s c ≡ (ok o, s1)
      → get_snapshot s1 c ≡ err x
      → walk (suc fuel) s c objects ≡ walk fuel s1 o.parent (o ∷ objects)
  walk_next fuel s s1 c objects o x n e g f =
      walk_on fuel s c objects o x n e (ap (λ r. r.0) g) (ap (λ r. get_snapshot r.1 c) g ∙ f)
      ∙ ap (λ r. walk fuel r.1 o.parent (o ∷ objects)) g

  pub walk_lem :
      (fuel : ℕ) (s : Store oc pc sc) (c : Ksuid) (objects : List Object) {acts : List Action}
      → IsCoherent s
      → (h : History s.files c acts) → depth h < fuel
      → Walked s acts objects (walk fuel s c objects)
  unfolding depth actions_of play_actions
  walk_lem zero s c objects coh h d = absurd (omega arith)
  walk_lem (suc fuel) s c objects coh (root e) d = record {
    base = new_snapshot;
    above = [];
    before = [];
    start = new_snapshot;
    after = s;
    result = walk-nil fuel s c objects ((nat_beq_iff c nil).1 e);
    split = refl;
    plays = refl;
    same = SameContents-refl new_snapshot;
    valid = new_snapshot-IsValid;
    coherent = coh;
    files = refl;
  }
  walk_lem (suc fuel) s c objects coh (next {acts = acts} o n f h) d =
      elim (Option-cases (sc.lookup s.snapshots c)) [
        | inr (snap, e) ↦
            Walked-here objects (walk_cached fuel s c objects snap n e) (next o n f h)
              (coh.known c snap e) (touch-IsCoherent s c coh) refl
        | inl e ↦
            let (k, g, coh') = get_object_lem s c coh in
            elim (Result-cases (get_snapshot (with_cache s k) c)) [
              | inl (snap, x) ↦
                  let rec = get_snapshot-Recorded (with_cache s k) c snap coh' x in
                  Walked-here objects
                    (walk_stored fuel s (with_cache s k) c objects snap (file_object s.files c) n e
                      g x)
                    (next o n f h) rec (insert-IsCoherent (with_cache s k) c snap coh' rec) refl
              | inr (y, x) ↦
                  Walked-next {s = s} {s' = with_cache s k} o objects
                    (walk_next fuel s (with_cache s k) c objects o y n e
                      (g ∙ ap (λ r. (r, with_cache s k)) f) x)
                    refl
                    (walk_lem fuel (with_cache s k) o.parent (o ∷ objects) coh' h (omega arith))
            ]
      ]
