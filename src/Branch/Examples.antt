-- ===== src/Branch/Examples.antt =====
-- A load into an empty branch.
use super.Prelude.{◌≡◌, refl, true, false, Option, none, some, List, [], ◌∷◌}
use super.Prelude.{nat_eq, string_eq, inr, ◌⊎◌, All, elem}
use super.Prelude.Result.{Result, ok}
use super.GoMap.{Map, get, put, get-put}
use super.Commits.Types.{Ksuid, nil, DataObject, Object}
use super.Commits.Object.{Stamp, Note, null_value}
use super.Commits.Snapshot.{Snapshot}
use super.Commits.Store.{ArcCache}
use super.Journal.Queue.{Queue}
use super.Journal.Store.{add, absent}
use super.Branches.{Config}
use super.Branch.Run.{Error, common_ancestor}
use super.Branch.Ancestor.{Joins, common_ancestor_lem}
use super.Branch.Objects.{build_load}
use super.Branch.Commit.{Pool, World, Constructor, commit_from}
use super.Branch.Commit.Published.{Published, commit_from-Published}

abbrev object : DataObject
object = record { id = 1; min = null_value; max = null_value; count = 1; size = 2 }

-- A cache that holds nothing.
abbrev no_cache : (V : Type 0) → ArcCache V
no_cache V = record {
  Cache = Unit {0};
  lookup = λ c k. none;
  touch = λ c k. c;
  insert = λ c k v. c;
  lookup_touch = λ c k j w e. e;
  lookup_insert = λ c k j v w e. inr e;
}

abbrev main : Config
main = record { ts = 0; name = "main"; commit = nil }

abbrev Example : Type 0
Example = Pool (no_cache Object) (no_cache (List Ksuid)) (no_cache Snapshot)

abbrev pool : Example
pool = record {
  branches = record {
    queue = record {
      head = some 1;
      tail = some (1, 0);
      entries = (1, add main ∷ []) ∷ [];
      put_if_not_exists = true;
    };
    snapshot = absent;
  };
  known = record { table = none; at = 0 };
  commits = record { files = []; snaps = []; cache = tt; paths = tt; snapshots = tt };
}

abbrev quiet : World (no_cache Object) (no_cache (List Ksuid)) (no_cache Snapshot)
quiet = record { files = λ r s. s; branches = λ r j. j; journal = λ r n j. j }

abbrev load : Constructor (no_cache Object) (no_cache (List Ksuid)) (no_cache Snapshot)
load parent retries =
    build_load (object ∷ []) (record { id = 9; now = 0 }) (record { author = []; message = [] })
      null_value parent.commit retries

abbrev pool_of : Option (Result Error Ksuid × Example) → Example
pool_of none = pool
pool_of (some (r, p)) = p

abbrev loaded : Example
loaded = pool_of (commit_from 10 0 quiet load "main" pool)

loads : commit_from 10 0 quiet load "main" pool ≡ some (ok 9, loaded)
unfolding commit_from get super.GoMap.values put build_load super.Commits.Object.serialize
    super.Journal.Queue.commit_at
loads = refl

commit_from-Published_example : Published quiet load "main" 10 0 pool 9 loaded
commit_from-Published_example =
    commit_from-Published quiet (λ r n j h. h) (λ r j h. h) 10 0 load "main" pool loaded 9 refl
      loads

common_ancestor_lem_example :
    Joins (4 ∷ 2 ∷ 1 ∷ []) (3 ∷ 2 ∷ 1 ∷ []) (common_ancestor (4 ∷ 2 ∷ 1 ∷ []) (3 ∷ 2 ∷ 1 ∷ []))
    ⊎ ((common_ancestor (4 ∷ 2 ∷ 1 ∷ []) (3 ∷ 2 ∷ 1 ∷ []) ≡ nil)
        × All {A = Ksuid} (λ x. elem x (4 ∷ 2 ∷ 1 ∷ []) ≡ false) (3 ∷ 2 ∷ 1 ∷ []))
common_ancestor_lem_example = common_ancestor_lem (4 ∷ 2 ∷ 1 ∷ []) (3 ∷ 2 ∷ 1 ∷ [])
