-- ===== src/Branch/Commit.antt =====
-- The method commit of Branch (lake/branch.go): the optimistic loop that writes a commit object and
-- moves the branch to it.
pub mod Published
use super.Prelude.{ℕ, zero, suc, Bool, true, false, Option, none, some, List, [], ◌∷◌, String}
use super.Prelude.{◌==◌, nat_eq}
use super.Prelude.Result.{Result, ok, err}
use super.Commits.Types.{Ksuid, Object}
use super.Commits.Snapshot.{Snapshot}
use super.Commits.Store.{ArcCache, Store, put_object, remove_object}
use super.Journal.Queue.{constraint_failed}
use super.Journal.Queue as Queue
use super.Journal.Store.{Journal, Others}
use super.Journal.Store as Journals
use super.Branches.{Config, lookup_by_name, replace}
use super.Branches as Branches
use super.Branch.Run.{
  Error, from_commits, from_branches, from_journal, commit_failed, same_branch, Run,
}

-- A Pool: the journal of its branches, what is known of it in memory, and the store of commits.
pub record Pool (oc : ArcCache Object) (pc : ArcCache (List Ksuid)) (sc : ArcCache Snapshot)
    : Type 0 where
  pub branches : Journal Config
  pub known : Journals.Store Config
  pub commits : Store oc pc sc

-- What other processes do during one's attempt number `r`: to the commits before the object is built,
-- to the branches while it is built and put, and then to the journal as in Others.
pub record World (oc : ArcCache Object) (pc : ArcCache (List Ksuid)) (sc : ArcCache Snapshot)
    : Type 0 where
  pub files : ℕ → Store oc pc sc → Store oc pc sc
  pub branches : ℕ → Journal Config → Journal Config
  pub journal : ℕ → Others Config

-- The parameter of commit, for a parent and the number of retries.
abbrev pub Constructor :
    (oc : ArcCache Object) (pc : ArcCache (List Ksuid)) (sc : ArcCache Snapshot) → Type 0
Constructor oc pc sc = Config → ℕ → Run (Store oc pc sc) Object

pub max_commit_retries : ℕ
max_commit_retries = 10

-- The closure parentCheck.
abbrev pub parent_check : Config → Config → Bool
parent_check config p = p.commit == config.commit

-- `err == journal.ErrConstraint`
unfoldable pub is_constraint : Queue.Error → Bool
is_constraint constraint_failed = true
is_constraint e = false

module _ {oc : ArcCache Object} {pc : ArcCache (List Ksuid)} {sc : ArcCache Snapshot} where
  unfoldable pub look_up_branch :
      Pool oc pc sc → String → Result Branches.Error Config × Pool oc pc sc
  unfolding lookup_by_name
  look_up_branch pool name =
      let (found, (j, k)) = lookup_by_name pool.branches pool.known name in
      (found, record pool { branches = j; known = k })

  -- The update of the branch pointer to the object that was put.
  unfoldable pub move_branch :
      Others Config
      → Pool oc pc sc
      → Config
      → Object
      → Result Queue.Error (Unit {0}) × Pool oc pc sc
  unfolding replace
  move_branch others pool config object =
      let (r, (j, k)) =
        replace others (record config { commit = object.commit }) (some (parent_check config))
          pool.branches pool.known in
      (r, record pool { branches = j; known = k })

  unfoldable pub drop_object : Pool oc pc sc → Object → Pool oc pc sc
  unfolding remove_object
  drop_object pool object = record pool { commits = remove_object pool.commits object }

  -- The loop, with `n` attempts left. The outer `none` is the fuel that a reading ran out of.
  unfoldable pub commit_from :
      ℕ
      → ℕ
      → World oc pc sc
      → Constructor oc pc sc
      → String
      → Pool oc pc sc
      → Option (Result Error Ksuid × Pool oc pc sc)
  unfolding look_up_branch move_branch drop_object put_object is_constraint
  commit_from zero r w create name pool = some (err commit_failed, pool)
  commit_from (suc n) r w create name pool =
      let (found, p) = look_up_branch pool name in
      elim found [
        | err e ↦ some (err (from_branches e), p)
        | ok config ↦ elim (create config r (w.files r p.commits)) [
          | none ↦ none
          | some (err e, c) ↦ some (err e, record p { commits = c })
          | some (ok object, c) ↦ elim (put_object c object) [
            | err e ↦ some (err (from_commits e), record p { commits = c })
            | ok c' ↦
                let (moved, p') =
                  move_branch (w.journal r)
                    (record p { branches = w.branches r p.branches; commits = c' }) config object in
                elim moved [
                  | ok u ↦ some (ok object.commit, p')
                  | err e ↦ elim (is_constraint e) [
                    | true ↦ commit_from n (suc r) w create name (drop_object p' object)
                    | false ↦ some (err (from_journal e), drop_object p' object)
                  ]
                ]
          ]
        ]
      ]

  unfoldable pub commit :
      World oc pc sc
      → Constructor oc pc sc
      → String
      → Pool oc pc sc
      → Option (Result Error Ksuid × Pool oc pc sc)
  unfolding commit_from max_commit_retries
  commit = commit_from max_commit_retries 0

  -- The method mergeInto: `same` is whether the two branches are one object.
  unfoldable pub merge_into :
      Bool
      → World oc pc sc
      → Constructor oc pc sc
      → String
      → Pool oc pc sc
      → Option (Result Error Ksuid × Pool oc pc sc)
  unfolding commit
  merge_into true w create parent pool = some (err same_branch, pool)
  merge_into false w create parent pool = commit w create parent pool
