-- ===== src/Commits/Store/Coherent.antt =====
-- The caches and the stored snapshots agree with the stored commit objects.
use super.Prelude.{◌≡◌, sym, ◌∙◌, ap, subst, some, List, arith}
use super.Prelude.{nat_eq, nat_beq_iff, Option-cases, inl, inr, ◌⊎◌}
use super.Prelude.Result.{ok, Result-cases, ok-injective}
use super.GoMap.{Map, get, put, get-put}
use super.Commits.Types.{Ksuid, Action, Object}
use super.Commits.Writeable.{play_actions}
use super.Commits.Snapshot.{Snapshot, new_snapshot, snapshot_writeable, copy, decode_snapshot}
use super.Commits.Snapshot as Snap
use super.Commits.Snapshot.Contents.{
  SameContents, SameContents-trans, copy-SameContents, copy-IsValid,
}
use super.Commits.Snapshot.RoundTrip.{decode_snapshot-serialize-eq-copy}
use super.Commits.Store.{ArcCache, Store, file_object, get_object, put_snapshot}
use super.Commits.Store.History.{History}

-- The snapshot holds what playing the history of the commit leaves.
pub record Recorded (files : Map Ksuid (List Action)) (c : Ksuid) (snap : Snapshot) : Type 0 where
  pub acts : List Action
  pub history : History files c acts
  pub end : Snapshot
  pub plays : play_actions new_snapshot acts ≡ ok end
  pub same : SameContents snap end
  pub valid : Snap.IsValid snap

pub copy-Recorded :
    {files : Map Ksuid (List Action)} {c : Ksuid} {snap : Snapshot}
    → Recorded files c snap
    → Recorded files c (copy snap)
copy-Recorded {snap = snap} r = record {
  acts = r.acts;
  history = r.history;
  end = r.end;
  plays = r.plays;
  same = SameContents-trans (copy-SameContents snap r.valid) r.same;
  valid = copy-IsValid snap r.valid;
}

put_read :
    {V : Type 0} (m : Map Ksuid V) (c j : Ksuid) (v w : V)
    → get (put m c v) j ≡ some w
    → ((c ≡ j) × (v ≡ w)) ⊎ (get m j ≡ some w)
put_read m c j v w e = ground (arith, get-put m c j v, nat_beq_iff c j)

module _ {oc : ArcCache Object} {pc : ArcCache (List Ksuid)} {sc : ArcCache Snapshot} where
  pub record IsCoherent (s : Store oc pc sc) : Type 0 where
    pub cached :
        (c : Ksuid) (o : Object) → oc.lookup s.cache c ≡ some o → file_object s.files c ≡ ok o
    pub known :
        (c : Ksuid) (snap : Snapshot)
        → sc.lookup s.snapshots c ≡ some snap
        → Recorded s.files c snap
    pub stored :
        (c : Ksuid) (acts : List Action) (snap : Snapshot)
        → get s.snaps c ≡ some acts
        → decode_snapshot acts ≡ ok snap
        → Recorded s.files c snap

  -- The store with another cache of objects.
  abbrev pub with_cache : Store oc pc sc → oc.Cache → Store oc pc sc
  with_cache s k = record s { cache = k }

  -- Get returns what is stored, and changes nothing but its cache.
  pub get_object_lem :
      (s : Store oc pc sc) (c : Ksuid)
      → IsCoherent s
      → (k : oc.Cache) × (get_object s c ≡ (file_object s.files c, with_cache s k))
        × IsCoherent (with_cache s k)
  unfolding get_object
  get_object_lem s c h = elim (Option-cases (oc.lookup s.cache c)) [
    | inr (o, e) ↦ (
      oc.touch s.cache c,
      rw (e, get_object) (rw (h.cached c o e)),
      record {
        cached = λ j w f. h.cached j w (oc.lookup_touch s.cache c j w f);
        known = h.known;
        stored = h.stored;
      },
    )
    | inl e ↦ elim (Result-cases (file_object s.files c)) [
      | inr (x, f) ↦ (s.cache, rw (e, get_object) (rw f), h)
      | inl (o, f) ↦ (
        oc.insert s.cache c o,
        rw (e, get_object) (rw f),
        record {
          cached = λ j w g. elim (oc.lookup_insert s.cache c j o w g) [
            | inl (k, v) ↦ subst (λ x. file_object s.files x ≡ ok w) k (f ∙ ap ok v)
            | inr l ↦ h.cached j w l
          ];
          known = h.known;
          stored = h.stored;
        },
      )
    ]
  ]

  -- Caching a snapshot that records its commit.
  pub insert-IsCoherent :
      (s : Store oc pc sc) (c : Ksuid) (snap : Snapshot)
      → IsCoherent s
      → Recorded s.files c snap
      → IsCoherent (record s { snapshots = sc.insert s.snapshots c snap })
  insert-IsCoherent s c snap h r = record {
    cached = h.cached;
    known = λ j w g. elim (sc.lookup_insert s.snapshots c j snap w g) [
      | inl (k, v) ↦ subst (λ x. Recorded s.files x w) k (subst (Recorded s.files c) v r)
      | inr l ↦ h.known j w l
    ];
    stored = h.stored;
  }

  pub touch-IsCoherent :
      (s : Store oc pc sc) (c : Ksuid)
      → IsCoherent s
      → IsCoherent (record s { snapshots = sc.touch s.snapshots c })
  touch-IsCoherent s c h = record {
    cached = h.cached;
    known = λ j w g. h.known j w (sc.lookup_touch s.snapshots c j w g);
    stored = h.stored;
  }

  -- Storing a snapshot that records its commit.
  pub put_snapshot-IsCoherent :
      (s : Store oc pc sc) (c : Ksuid) (snap : Snapshot)
      → IsCoherent s
      → Recorded s.files c snap
      → IsCoherent (put_snapshot s c snap)
  unfolding put_snapshot
  put_snapshot-IsCoherent s c snap h r = record {
    cached = h.cached;
    known = h.known;
    stored = λ j acts w g d. elim (put_read s.snaps c j (Snap.serialize snap) acts g) [
      | inl (e, f) ↦
          subst (λ x. Recorded s.files x w) e
            (subst (Recorded s.files c)
              (ok-injective
                (sym (decode_snapshot-serialize-eq-copy snap r.valid) ∙ ap decode_snapshot f ∙ d))
              (copy-Recorded r))
      | inr e ↦ h.stored j acts w e d
    ];
  }
