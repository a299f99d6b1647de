-- ===== src/Commits/Examples.antt =====
-- Runs of the model of lake/commits on small snapshots, patches and stores.
use super.Prelude.{◌≡◌, refl, true, false, none, some, List, [], ◌∷◌, ◌↔◌, ◌⊎◌, arith}
use super.Prelude.{nat_eq, nat_beq_iff, elem, Distinct, or_else, if◌then◌else◌}
use super.Prelude.Result.{ok, err, is_ok}
use super.GoMap.{Map, get, has, put, delete_each, copy_into, get-put}
use super.Commits.Types.{
  Ksuid, nil, DataObject, Action, add, add_vector, delete, commit, Object, Error, is_write_conflict,
}
use super.Commits.Object.{Stamp, Note, null_value}
use super.Commits.Writeable.{play, play_actions}
use super.Commits.Snapshot.{Snapshot, new_snapshot, snapshot_writeable, decode_snapshot}
use super.Commits.Snapshot as Snap
use super.Commits.Snapshot.Contents.{SameContents}
use super.Commits.Snapshot.Play.{play_actions-IsValid, play_actions-err}
use super.Commits.Snapshot.RoundTrip.{decode_snapshot-serialize}
use super.Commits.Patch.{Patch, new_patch, patch_writeable, new_commit_object, diff_of, revert}
use super.Commits.Patch as Pat
use super.Commits.Patch.Valid as Valid
use super.Commits.Patch.Commit.{apply_patch, new_commit_object_realises_patch}
use super.Commits.Patch.Once.{play-new_commit_object_iff}
use super.Commits.Patch.Simulation.{play_actions-StandsFor}
use super.Commits.Patch.Merge.{merge_commit_plays, diff_of_misses_conflict}
use super.Commits.Patch.Revert.{revert_plays}
use super.Commits.Store.{ArcCache, Store, snapshot, file_object}
use super.Commits.Store.History.{History, root, next}
use super.Commits.Store.Coherent.{IsCoherent}
use super.Commits.Store.SnapshotOf.{Answers, snapshot-Answers}

abbrev object : Ksuid → DataObject
object i = record { id = i; min = null_value; max = null_value; count = 1; size = 2 }

abbrev stamp : Stamp
stamp = record { id = 9; now = 0 }

abbrev note : Note
note = record { author = []; message = [] }

abbrev base_actions : List Action
base_actions = add 5 (object 1) ∷ add 5 (object 2) ∷ add_vector 5 2 ∷ []

abbrev base : Snapshot
base = record { objects = (2, object 2) ∷ (1, object 1) ∷ []; vectors = (2, tt) ∷ [] }

empty-IsValid : Snap.IsValid new_snapshot
unfolding new_patch
empty-IsValid = (Valid.new_patch-IsValid (Snap.view new_snapshot)).diff

base_plays : play_actions new_snapshot base_actions ≡ ok base
unfolding play_actions Snap.add_data_object get put Snap.add_vector
base_plays = refl

-- A branch that deleted the first object and added a third, one that added a fourth, and one that
-- deleted the first.
abbrev child_actions : List Action
child_actions = delete 6 1 ∷ add 6 (object 3) ∷ []

abbrev child : Patch
child = record {
  base = Snap.view base;
  diff = record { objects = (3, object 3) ∷ []; vectors = [] };
  deleted_objects = 1 ∷ [];
  deleted_vectors = [];
}

abbrev parent : Patch
parent = record {
  base = Snap.view base;
  diff = record { objects = (4, object 4) ∷ []; vectors = [] };
  deleted_objects = [];
  deleted_vectors = [];
}

abbrev rival : Patch
rival = record {
  base = Snap.view base;
  diff = new_snapshot;
  deleted_objects = 1 ∷ [];
  deleted_vectors = [];
}

child_plays : play_actions (new_patch (Snap.view base)) child_actions ≡ ok child
unfolding play_actions new_patch super.Commits.Patch.delete_object super.Commits.Writeable.exists
    Snap.lookup get super.Commits.Patch.add_data_object Snap.add_data_object put
child_plays = refl

parent_plays : play_actions (new_patch (Snap.view base)) (add 7 (object 4) ∷ []) ≡ ok parent
unfolding play_actions new_patch super.Commits.Patch.add_data_object super.Commits.Writeable.exists
    Snap.lookup get Snap.add_data_object put
parent_plays = refl

rival_plays : play_actions (new_patch (Snap.view base)) (delete 7 1 ∷ []) ≡ ok rival
unfolding play_actions new_patch super.Commits.Patch.delete_object super.Commits.Writeable.exists
    Snap.lookup get
rival_plays = refl

child-IsValid : Valid.IsValid child
child-IsValid =
    Valid.play_actions-IsValid _ child child_actions (Valid.new_patch-IsValid _) child_plays

parent-IsValid : Valid.IsValid parent
parent-IsValid = Valid.play_actions-IsValid _ parent _ (Valid.new_patch-IsValid _) parent_plays

rival-IsValid : Valid.IsValid rival
rival-IsValid = Valid.play_actions-IsValid _ rival _ (Valid.new_patch-IsValid _) rival_plays

base-IsValid : Snap.IsValid base
base-IsValid = play_actions-IsValid new_snapshot base base_actions empty-IsValid base_plays

-- Adding an object that is there.
conflict : play_actions base (add 6 (object 1) ∷ []) ≡ err (Error.duplicate_object 1)
unfolding play_actions Snap.add_data_object get
conflict = refl

play_actions-err_example : is_write_conflict (Error.duplicate_object 1) ≡ true
play_actions-err_example =
    play_actions-err base (add 6 (object 1) ∷ []) (Error.duplicate_object 1) conflict

decode_snapshot-serialize_example :
    (t : Snapshot) × (decode_snapshot (Snap.serialize base) ≡ ok t) × SameContents t base
decode_snapshot-serialize_example = decode_snapshot-serialize base base-IsValid

new_commit_object_realises_patch_example :
    (t : Snapshot) × (play base (new_commit_object child stamp 5 0 note null_value) ≡ ok t)
    × ((i : Ksuid)
        → get t.objects i
          ≡ or_else
              (get child.diff.objects i)
              (if elem i child.deleted_objects then none else get base.objects i))
    × ((i : Ksuid)
        → get t.vectors i
          ≡ or_else
              (get child.diff.vectors i)
              (if elem i child.deleted_vectors then none else get base.vectors i))
new_commit_object_realises_patch_example =
    new_commit_object_realises_patch base child stamp 5 0 note null_value refl child-IsValid
      (refl, tt) tt

play-new_commit_object_iff_example :
    (is_ok (play base (new_commit_object child stamp 5 0 note null_value)) ≡ true)
    ↔ (Distinct child.deleted_objects × Distinct child.deleted_vectors)
play-new_commit_object_iff_example =
    play-new_commit_object_iff base child stamp 5 0 note null_value refl child-IsValid

abbrev child_tip : Snapshot
child_tip = record { objects = (3, object 3) ∷ (2, object 2) ∷ []; vectors = (2, tt) ∷ [] }

child_tip_plays : play_actions base child_actions ≡ ok child_tip
unfolding play_actions Snap.delete_object get Snap.add_data_object super.GoMap.delete put
child_tip_plays = refl

play_actions-StandsFor_example : SameContents (apply_patch child base) child_tip
play_actions-StandsFor_example =
    play_actions-StandsFor base child_tip child child_actions child_tip_plays child_plays

-- What Diff makes of the two branches.
abbrev merged : Patch
merged = record {
  base = Pat.view parent;
  diff = record { objects = (3, object 3) ∷ []; vectors = [] };
  deleted_objects = 1 ∷ [];
  deleted_vectors = [];
}

merges : diff_of parent child ≡ ok merged
unfolding diff_of Pat.select_all Snap.select_all super.GoMap.values super.Commits.Writeable.exists
    Pat.lookup Snap.lookup get Snap.add_data_object put
merges = refl

merge_commit_plays_example :
    (u : Snapshot) × (play
        (apply_patch parent base)
        (new_commit_object merged stamp 5 0 note null_value)
      ≡ ok u)
    × ((i : Ksuid)
        → get u.objects i ≡ (
            if elem i child.deleted_objects
            then none
            else or_else (get (apply_patch parent base).objects i) (get child.diff.objects i)))
    × ((i : Ksuid) → get u.vectors i ≡ get (apply_patch parent base).vectors i)
merge_commit_plays_example =
    merge_commit_plays base parent child base-IsValid refl refl parent-IsValid child-IsValid
      (λ i h. refl) stamp 5 0 note null_value merged (refl, tt) merges

diff_of_misses_conflict_example :
    (q : Patch) × (diff_of rival child ≡ ok q)
    × (is_ok (play (apply_patch rival base) (new_commit_object q stamp 5 0 note null_value))
        ≡ false)
diff_of_misses_conflict_example =
    diff_of_misses_conflict base rival child base-IsValid refl refl rival-IsValid child-IsValid 1
      stamp 5 0 note null_value refl refl

abbrev undo : Object
undo = record {
  commit = 9;
  parent = 5;
  actions =
      commit (record {
        id = 9;
        parent = 5;
        retries = 0;
        author = [];
        date = 0;
        message = [];
        meta = null_value;
      })
      ∷ delete 9 3
      ∷ add 9 (object 1)
      ∷ [];
}

undoes : revert child child_tip stamp 5 0 note ≡ ok undo
unfolding revert Snap.lookup get super.Commits.Writeable.exists Snap.select_all super.GoMap.values
    super.Commits.Object.new_object
undoes = refl

revert_plays_example :
    (u : Snapshot) × (play child_tip undo ≡ ok u)
    × ((i : Ksuid)
        → get u.objects i ≡ (
            if has child.diff.objects i
            then none
            else or_else
                (get child_tip.objects i)
                (if elem i child.deleted_objects then get base.objects i else none)))
    × (u.vectors ≡ child_tip.vectors)
revert_plays_example =
    revert_plays child base child_tip refl child-IsValid base-IsValid stamp 5 0 note undo (refl, tt)
      undoes

full_cache_insert :
    {V : Type 0} (c : Map Ksuid V) (k j : Ksuid) (v w : V)
    → get (put c k v) j ≡ some w
    → ((k ≡ j) × (v ≡ w)) ⊎ (get c j ≡ some w)
full_cache_insert c k j v w e = ground (arith, get-put c k j v, nat_beq_iff k j)

-- A cache that forgets nothing.
abbrev full_cache : (V : Type 0) → ArcCache V
full_cache V = record {
  Cache = Map Ksuid V;
  lookup = λ c k. get c k;
  touch = λ c k. c;
  insert = λ c k v. put c k v;
  lookup_touch = λ c k j w e. e;
  lookup_insert = λ c k j v w e. full_cache_insert c k j v w e;
}

abbrev first_actions : List Action
first_actions =
    commit (record {
      id = 5;
      parent = nil;
      retries = 0;
      author = [];
      date = 0;
      message = [];
      meta = null_value;
    })
    ∷ base_actions

abbrev first : Object
first = record { commit = 5; parent = nil; actions = first_actions }

abbrev store : Store (full_cache Object) (full_cache (List Ksuid)) (full_cache Snapshot)
store = record {
  files = (5, first_actions) ∷ [];
  snaps = [];
  cache = [];
  paths = [];
  snapshots = [];
}

store-IsCoherent : IsCoherent store
unfolding file_object get
store-IsCoherent = record { cached = λ c o e. cc; known = λ c s e. cc; stored = λ c acts s e f. cc }

first_read : file_object store.files 5 ≡ ok first
unfolding file_object get super.Commits.Object.decode_object
first_read = refl

abbrev first_history : History store.files 5 first_actions
first_history = next {c = 5} first refl first_read (root refl)

snapshot-Answers_example : Answers store first_actions (snapshot 3 store 5)
unfolding super.Commits.Store.History.depth
snapshot-Answers_example =
    snapshot-Answers 3 store 5 first_actions store-IsCoherent first_history (omega arith)
