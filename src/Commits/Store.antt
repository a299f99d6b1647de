-- ===== src/Commits/Store.antt =====
-- The type Store of lake/commits/store.go: commit objects and snapshots as files of a storage
-- engine, and three caches in front of them.
pub mod History
pub mod Coherent
pub mod Walk
pub mod SnapshotOf
use super.Prelude.{
  ℕ, zero, suc, ◌≡◌, ◌⊎◌, Bool, true, false, Option, none, some, List, [], ◌∷◌, ◌++◌, ◌==◌,
}
use super.Prelude.{nat_eq, if◌then◌else◌}
use super.Prelude.Result.{Result, ok, err, ◌>>=◌}
use mathlib.Core.Option
use mathlib.Core.List.{tail, reverse}
use super.GoMap
use super.GoMap.{Map, get, put}
use super.Commits.Types.{
  Ksuid, nil, DataObject, Action, add, Object, Error, no_path, pathless, not_exist,
}
use super.Commits.Object.{serialize, decode_object}
use super.Commits.Writeable.{exists, play}
use super.Commits.Snapshot.{Snapshot, new_snapshot, snapshot_writeable, decode_snapshot}
use super.Commits.Snapshot as Snap
use super.Commits.Patch.{Patch, new_patch, patch_writeable}

-- An ARCCache of github.com/hashicorp/golang-lru: Get returns nothing or the value that was added
-- last under the key, and marks the key as used; Add may evict other keys.
pub record ArcCache (V : Type 0) : Type 1 where
  pub Cache : Type 0
  pub lookup : Cache → Ksuid → Option V
  pub touch : Cache → Ksuid → Cache
  pub insert : Cache → Ksuid → V → Cache
  pub lookup_touch :
      (c : Cache) (k j : Ksuid) (w : V) → lookup (touch c k) j ≡ some w → lookup c j ≡ some w
  pub lookup_insert :
      (c : Cache) (k j : Ksuid) (v w : V)
      → lookup (insert c k v) j ≡ some w
      → ((k ≡ j) × (v ≡ w)) ⊎ (lookup c j ≡ some w)

-- `files` is what is stored under pathOf, `snaps` what is stored under snapshotPathOf.
pub record Store (oc : ArcCache Object) (pc : ArcCache (List Ksuid)) (sc : ArcCache Snapshot)
    : Type 0 where
  pub files : Map Ksuid (List Action)
  pub snaps : Map Ksuid (List Action)
  pub cache : oc.Cache
  pub paths : pc.Cache
  pub snapshots : sc.Cache

-- The read of a file, decoded.
unfoldable pub file_object : Map Ksuid (List Action) → Ksuid → Result Error Object
file_object files c = elim (get files c) [ none ↦ err not_exist | some acts ↦ decode_object acts ]

-- `for k := len(objects) - 1; k >= 0; k--`, over a list in which the oldest object is first.
unfoldable pub play_objects : Snapshot → List Object → Result Error Snapshot
play_objects s [] = ok s
play_objects s (o ∷ os) = elim (play s o) [ err e ↦ err e | ok t ↦ play_objects t os ]

-- A cached path as far as `to`, and all of it if `to` is not on it.
unfoldable pub up_to : Ksuid → List Ksuid → List Ksuid
up_to to [] = []
up_to to (c ∷ cs) = let rest = up_to to cs in if c == to then c ∷ [] else c ∷ rest

-- The data objects that the actions add and the snapshot lacks.
unfoldable pub unreferenced : Snapshot → List Action → List DataObject
unreferenced snap [] = []
unreferenced snap (add c o ∷ acts) =
    let rest = unreferenced snap acts in if exists (Snap.view snap) o.id then rest else o ∷ rest
unreferenced snap (a ∷ acts) = unreferenced snap acts

module _ {oc : ArcCache Object} {pc : ArcCache (List Ksuid)} {sc : ArcCache Snapshot} where
  -- The method Get.
  unfoldable pub get_object : Store oc pc sc → Ksuid → Result Error Object × Store oc pc sc
  unfolding file_object
  get_object s c = elim (oc.lookup s.cache c) [
    | some o ↦ (ok o, record s { cache = oc.touch s.cache c })
    | none ↦ elim (file_object s.files c) [
      | err e ↦ (err e, s)
      | ok o ↦ (ok o, record s { cache = oc.insert s.cache c o })
    ]
  ]

  -- The method Put.
  unfoldable pub put_object : Store oc pc sc → Object → Result Error (Store oc pc sc)
  put_object s o = do b ← serialize o; ok (record s { files = put s.files o.commit b })

  -- The method Remove.
  unfoldable pub remove_object : Store oc pc sc → Object → Store oc pc sc
  remove_object s o = record s { files = GoMap.delete s.files o.commit }

  unfoldable pub get_snapshot : Store oc pc sc → Ksuid → Result Error Snapshot
  get_snapshot s c = elim (get s.snaps c) [
    | none ↦ err not_exist
    | some acts ↦ decode_snapshot acts
  ]

  -- The method putSnapshot, where the write succeeds. Snapshot only logs an error of it.
  unfoldable pub put_snapshot : Store oc pc sc → Ksuid → Snapshot → Store oc pc sc
  put_snapshot s c snap = record s { snaps = put s.snaps c (Snap.serialize snap) }

  -- The loop of Snapshot: a copy of the snapshot that it finds to start from, and the objects above
  -- that, oldest first. An error in reading a stored snapshot is only logged. The goroutine that
  -- fetches the object runs to its end also where a stored snapshot is found. `none` means that the
  -- fuel ran out.
  unfoldable pub walk :
      ℕ
      → Store oc pc sc
      → Ksuid
      → List Object
      → Option (Result Error (Snapshot × List Object) × Store oc pc sc)
  unfolding get_object get_snapshot
  walk zero s at objects = none
  walk (suc fuel) s at objects = elim (at == nil) [
    | true ↦ some (ok (new_snapshot, objects), s)
    | false ↦ elim (sc.lookup s.snapshots at) [
      | some snap ↦
          some (ok (Snap.copy snap, objects), record s { snapshots = sc.touch s.snapshots at })
      | none ↦
          let (r, s1) = get_object s at in
          elim (get_snapshot s1 at) [
            | ok snap ↦ some (
              ok (Snap.copy snap, objects),
              record s1 { snapshots = sc.insert s1.snapshots at snap },
            )
            | err e ↦ elim r [
              | err e' ↦ some (err e', s1)
              | ok o ↦ walk fuel s1 o.parent (o ∷ objects)
            ]
          ]
    ]
  ]

  -- What Snapshot does after the loop: play the objects, store the outcome and cache it.
  unfoldable pub finish_snapshot :
      Store oc pc sc
      → Ksuid
      → Result Error (Snapshot × List Object)
      → Result Error Snapshot × Store oc pc sc
  unfolding play_objects put_snapshot
  finish_snapshot s leaf (err e) = (err e, s)
  finish_snapshot s leaf (ok (base, objects)) = elim (play_objects base objects) [
    | err e ↦ (err e, s)
    | ok snap ↦
        let s1 = put_snapshot s leaf snap in
        (ok snap, record s1 { snapshots = sc.insert s1.snapshots leaf snap })
  ]

  -- The method Snapshot.
  unfoldable pub snapshot :
      ℕ → Store oc pc sc → Ksuid → Option (Result Error Snapshot × Store oc pc sc)
  unfolding walk finish_snapshot get_snapshot
  snapshot fuel s leaf = elim (sc.lookup s.snapshots leaf) [
    | some snap ↦ some (ok snap, record s { snapshots = sc.touch s.snapshots leaf })
    | none ↦ elim (get_snapshot s leaf) [
      | ok snap ↦ some (ok snap, record s { snapshots = sc.insert s.snapshots leaf snap })
      | err e ↦ Option.map (λ (r, s1). finish_snapshot s1 leaf r) (walk fuel s leaf [])
    ]
  ]

  -- The loop of PathRange; the path so far is kept in reverse.
  unfoldable pub path_range_from :
      ℕ
      → Store oc pc sc
      → Ksuid
      → Ksuid
      → List Ksuid
      → Option (Result Error (List Ksuid) × Store oc pc sc)
  unfolding get_object up_to
  path_range_from zero s at to path = none
  path_range_from (suc fuel) s at to path = elim (at == nil) [
    | true ↦ some (ok path, s)
    | false ↦ elim (pc.lookup s.paths at) [
      | some cached ↦ some (ok (path ++ up_to to cached), record s { paths = pc.touch s.paths at })
      | none ↦
          let (r, s1) = get_object s at in
          elim r [
            | err e ↦ some (err e, s1)
            | ok o ↦ elim (at == to) [
              | true ↦ some (ok (path ++ (at ∷ [])), s1)
              | false ↦ path_range_from fuel s1 o.parent to (path ++ (at ∷ []))
            ]
          ]
    ]
  ]

  -- The method PathRange.
  unfoldable pub path_range :
      ℕ → Store oc pc sc → Ksuid → Ksuid → Option (Result Error (List Ksuid) × Store oc pc sc)
  unfolding path_range_from
  path_range fuel s from to = path_range_from fuel s from to []

  cache_path :
      Ksuid
      → Result Error (List Ksuid) × Store oc pc sc
      → Result Error (List Ksuid) × Store oc pc sc
  cache_path leaf (err e, s) = (err e, s)
  cache_path leaf (ok path, s) = (ok path, record s { paths = pc.insert s.paths leaf path })

  -- The method Path.
  unfoldable pub path :
      ℕ → Store oc pc sc → Ksuid → Option (Result Error (List Ksuid) × Store oc pc sc)
  unfolding path_range cache_path
  path fuel s leaf = elim (leaf == nil) [
    | true ↦ some (err no_path, s)
    | false ↦ elim (pc.lookup s.paths leaf) [
      | some cached ↦ some (ok cached, record s { paths = pc.touch s.paths leaf })
      | none ↦ Option.map (cache_path leaf) (path_range fuel s leaf nil)
    ]
  ]

  -- The loop of PatchOfPath over the path, here oldest first.
  unfoldable pub play_path :
      Store oc pc sc → Patch → List Ksuid → Result Error Patch × Store oc pc sc
  unfolding get_object
  play_path s p [] = (ok p, s)
  play_path s p (c ∷ cs) =
      let (r, s1) = get_object s c in
      elim r [
        | err e ↦ (err e, s1)
        | ok o ↦ elim (play p o) [ err e ↦ (err e, s1) | ok q ↦ play_path s1 q cs ]
      ]

  patch_of :
      Snapshot → Result Error (List Ksuid) × Store oc pc sc → Result Error Patch × Store oc pc sc
  unfolding play_path
  patch_of base (err e, s) = (err e, s)
  patch_of base (ok p, s) = play_path s (new_patch (Snap.view base)) (tail (reverse p))

  -- The method PatchOfPath: with fewer than two identifiers nothing is played.
  unfoldable pub patch_of_path :
      ℕ → Store oc pc sc → Snapshot → Ksuid → Ksuid → Option (Result Error Patch × Store oc pc sc)
  unfolding path_range patch_of
  patch_of_path fuel s base base_id commit =
      Option.map (patch_of base) (path_range fuel s commit base_id)

  -- The last two steps of PatchOfCommit.
  patch_commit : Store oc pc sc → Snapshot → Ksuid → Result Error Patch × Store oc pc sc
  unfolding get_object
  patch_commit s base commit =
      let (r, s1) = get_object s commit in (r >>= play (new_patch (Snap.view base)), s1)

  patch_over : Ksuid → Result Error Snapshot × Store oc pc sc → Result Error Patch × Store oc pc sc
  unfolding patch_commit
  patch_over commit (err e, s) = (err e, s)
  patch_over commit (ok base, s) = patch_commit s base commit

  patch_on_path :
      ℕ
      → Ksuid
      → Result Error (List Ksuid) × Store oc pc sc
      → Option (Result Error Patch × Store oc pc sc)
  unfolding snapshot patch_over patch_commit
  patch_on_path fuel commit (err e, s) = some (err e, s)
  patch_on_path fuel commit (ok [], s) = some (err pathless, s)
  patch_on_path fuel commit (ok (c ∷ []), s) = some (patch_commit s new_snapshot commit)
  patch_on_path fuel commit (ok (c ∷ parent ∷ cs), s) =
      Option.map (patch_over commit) (snapshot fuel s parent)

  -- The method PatchOfCommit.
  unfoldable pub patch_of_commit :
      ℕ → Store oc pc sc → Ksuid → Option (Result Error Patch × Store oc pc sc)
  unfolding path patch_on_path
  patch_of_commit fuel s commit = Option.bind (path fuel s commit) (patch_on_path fuel commit)

  -- The loop of Vacuumable: an error in reading a commit object ends it without an error.
  vacuum_from :
      ℕ
      → Store oc pc sc
      → Snapshot
      → Ksuid
      → Ksuid
      → List DataObject
      → Option (List DataObject × Store oc pc sc)
  unfolding get_object unreferenced
  vacuum_from zero s snap leaf at out = none
  vacuum_from (suc fuel) s snap leaf at out = elim (at == nil) [
    | true ↦ some (out, s)
    | false ↦
        let (r, s1) = get_object s at in
        elim r [
          | err e ↦ some (out, s1)
          | ok o ↦
              vacuum_from fuel s1 snap leaf o.parent
                (if o.commit == leaf then out else out ++ unreferenced snap o.actions)
        ]
  ]

  vacuum_with :
      ℕ
      → Ksuid
      → Result Error Snapshot × Store oc pc sc
      → Option (Result Error (List DataObject) × Store oc pc sc)
  unfolding vacuum_from
  vacuum_with fuel leaf (err e, s) = some (err e, s)
  vacuum_with fuel leaf (ok snap, s) =
      Option.map (λ (out, s1). (ok out, s1)) (vacuum_from fuel s snap leaf leaf [])

  -- The method Vacuumable: the list is what it sends to its channel, if the context is not done.
  unfoldable pub vacuumable :
      ℕ → Store oc pc sc → Ksuid → Option (Result Error (List DataObject) × Store oc pc sc)
  unfolding snapshot vacuum_with
  vacuumable fuel s leaf = Option.bind (snapshot fuel s leaf) (vacuum_with fuel leaf)
