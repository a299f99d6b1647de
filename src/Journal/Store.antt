-- ===== src/Journal/Store.antt =====
-- The type Store of lake/journal/store.go: a table of entries by key, replayed from a queue. The
-- entries are of any type `V` with a key.
pub mod Replay
pub mod Settled
pub mod Loaded
pub mod Commit
pub mod Moved
use super.Prelude.{
  ℕ, zero, suc, ◌+◌, ◌-◌, ◌%◌, ◌^◌, Bool, true, false, Option, none, some, List, [], ◌∷◌, ◌++◌,
  String,
}
use super.Prelude.{if◌then◌else◌, nat_eq, string_eq, ◌==◌, ltb}
use super.Prelude.Result.{Result, ok, err, ◌>>=◌, ◌>>◌}
use super.GoMap
use super.GoMap.{Map, get, has, put, keys, values}
use super.Journal.Queue.{
  JournalId, Queue, Error, key_exists, no_such_key, constraint_failed, retries_exceeded,
  update_missing, not_exist, exists, nil_map_panic, read_head, open_range, commit_at,
}

-- The structs Add, Update and Delete.
pub data Entry (V : Type 0) : Type 0 where
  add : V → Entry V
  update : V → Entry V
  delete : String → Entry V

abbrev pub Table : Type 0 → Type 0
Table V = Map String V

-- The file that putSnapshot writes, as getSnapshot finds it: there is none or its head is not a
-- position; it can be read whole; its reading ends early with an error; or a value in it is no
-- entry.
pub data SnapshotFile (V : Type 0) : Type 0 where
  absent : SnapshotFile V
  whole : JournalId → List V → SnapshotFile V
  cut_short : JournalId → List V → SnapshotFile V
  malformed : JournalId → SnapshotFile V

-- The storage under a store's path.
pub record Journal (V : Type 0) : Type 0 where
  pub queue : Queue (List (Entry V))
  pub snapshot : SnapshotFile V

-- A Store in memory. The table is `none` where it is a nil map.
pub record Store (V : Type 0) : Type 0 where
  pub table : Option (Table V)
  pub at : JournalId

pub max_retries : ℕ
max_retries = 10

-- What other processes do to the journal between one's load and one's write, try by try.
abbrev pub Others : Type 0 → Type 0
Others V = ℕ → Journal V → Journal V

module _ {V : Type 0} (key : V → String) where
  unfoldable pub new_store : Store V
  new_store = record { table = none; at = 0 }

  -- `table[e.Key()] = e` for each value.
  unfoldable pub table_of : Table V → List V → Table V
  table_of t [] = t
  table_of t (e ∷ es) = table_of (put t (key e) e) es

  -- getSnapshot: the position and the table that load goes on from, whatever error there was.
  unfoldable pub get_snapshot : SnapshotFile V → JournalId × Option (Table V)
  unfolding table_of
  get_snapshot absent = (0, some [])
  get_snapshot (whole at es) = (at, some (table_of [] es))
  get_snapshot (cut_short at es) = (at, some (table_of [] es))
  get_snapshot (malformed at) = (at, none)

  unfoldable pub put_snapshot : Journal V → JournalId → Table V → Journal V
  put_snapshot j at t = record j { snapshot = whole at (values t) }

  -- What load does with one entry. Assigning to a nil map panics, deleting from one does nothing.
  unfoldable pub apply : Option (Table V) → Entry V → Result Error (Option (Table V))
  apply (some t) (add e) = ok (some (put t (key e) e))
  apply (some t) (update e) =
      if has t (key e) then ok (some (put t (key e) e)) else err update_missing
  apply (some t) (delete k) = ok (some (GoMap.delete t k))
  apply none (add e) = err nil_map_panic
  apply none (update e) = err update_missing
  apply none (delete k) = ok none

  unfoldable pub apply_all : Option (Table V) → List (Entry V) → Result Error (Option (Table V))
  unfolding apply
  apply_all t [] = ok t
  apply_all t (e ∷ es) = elim (apply t e) [ err x ↦ err x | ok t' ↦ apply_all t' es ]

  unfoldable pub apply_runs :
      Option (Table V) → List (List (Entry V)) → Result Error (Option (Table V))
  unfolding apply_all
  apply_runs t [] = ok t
  apply_runs t (es ∷ rest) = elim (apply_all t es) [ err x ↦ err x | ok t' ↦ apply_runs t' rest ]

  unfoldable pub store_snapshot : Journal V → JournalId → JournalId → Option (Table V) → Journal V
  unfolding put_snapshot
  store_snapshot j head at none = j
  store_snapshot j head at (some t) =
      if ltb 10 ((head + 2 ^ 64 - at) % 2 ^ 64) then put_snapshot j head t else j

  unfoldable pub load_from :
      Journal V → JournalId → JournalId × Option (Table V) → Result Error (Journal V × Store V)
  unfolding apply_runs store_snapshot
  load_from j head (at, t) = do
    runs ← open_range j.queue head at
    t' ← apply_runs t runs
    ok (store_snapshot j head at t', record { table = t'; at = head })

  -- The method load.
  unfoldable pub load : Journal V → Store V → Result Error (Journal V × Store V)
  unfolding load_from get_snapshot read_head open_range
  load j s = do
    head ← read_head j.queue
    if head == s.at then ok (j, s) else load_from j head (get_snapshot j.snapshot)

  -- s.table[k], which reads a nil map as an empty one.
  unfoldable pub find : Store V → String → Option V
  find s k = elim s.table [ none ↦ none | some t ↦ get t k ]

  -- The method All, and Values.
  unfoldable pub all : Journal V → Store V → Result Error (List V × (Journal V × Store V))
  unfolding load
  all j s = do (j', s') ← load j s; ok (elim s'.table [ none ↦ [] | some t ↦ values t ], (j', s'))

  or_no_such_key : Option V → Result Error V
  or_no_such_key none = err no_such_key
  or_no_such_key (some e) = ok e

  -- The method Lookup. `stale` is whether the table was loaded more than a second ago.
  unfoldable pub lookup :
      Bool → Journal V → Store V → String → Result Error (V × (Journal V × Store V))
  unfolding load find or_no_such_key
  lookup true j s k = do (j', s') ← load j s; e ← or_no_such_key (find s' k); ok (e, (j', s'))
  lookup false j s k = elim (find s k) [
    | some e ↦ ok (e, (j, s))
    | none ↦ do (j', s') ← load j s; e ← or_no_such_key (find s' k); ok (e, (j', s'))
  ]

  -- The loop of commit. On success the store will reload, since its position is Nil.
  unfoldable pub commit_loop :
      ℕ
      → Others V
      → (Store V → Result Error (Unit {0}))
      → List (Entry V)
      → Journal V
      → Store V
      → Result Error (Unit {0}) × (Journal V × Store V)
  unfolding load
  commit_loop zero others check es j s = (err retries_exceeded, (j, s))
  commit_loop (suc n) others check es j s = elim (load j s) [
    | err x ↦ (err x, (j, s))
    | ok (j1, s1) ↦ elim (check s1) [
      | err x ↦ (err x, (j1, s1))
      | ok u ↦
          let j2 = others n j1 in
          elim (commit_at j2.queue s1.at es) [
            | ok q ↦ (ok tt, (record j2 { queue = q }, record s1 { at = 0 }))
            | err x ↦ elim x [
              | exists ↦ commit_loop n others check es j2 s1
              | y ↦ (err y, (j2, s1))
            ]
          ]
    ]
  ]

  unfoldable pub commit :
      Others V
      → (Store V → Result Error (Unit {0}))
      → List (Entry V)
      → Journal V
      → Store V
      → Result Error (Unit {0}) × (Journal V × Store V)
  unfolding commit_loop max_retries
  commit = commit_loop max_retries

  unfoldable pub insert_check : V → Store V → Result Error (Unit {0})
  unfolding find
  insert_check e s = elim (find s (key e)) [ some v ↦ err key_exists | none ↦ ok tt ]

  unfoldable pub insert :
      Others V → V → Journal V → Store V → Result Error (Unit {0}) × (Journal V × Store V)
  unfolding commit insert_check
  insert others e = commit others (insert_check e) (add e ∷ [])

  unfoldable pub move_check : String → V → Store V → Result Error (Unit {0})
  unfolding find
  move_check old e s = elim (find s old) [
    | none ↦ err no_such_key
    | some v ↦ elim (find s (key e)) [ some w ↦ err key_exists | none ↦ ok tt ]
  ]

  unfoldable pub move :
      Others V → String → V → Journal V → Store V → Result Error (Unit {0}) × (Journal V × Store V)
  unfolding commit move_check
  move others old e = commit others (move_check old e) (delete old ∷ add e ∷ [])

  -- A Constraint is `none` where it is nil.
  unfoldable pub constraint_check : String → Option (V → Bool) → Store V → Result Error (Unit {0})
  unfolding find
  constraint_check k c s = elim (find s k) [
    | none ↦ err no_such_key
    | some v ↦ elim c [ none ↦ ok tt | some f ↦ if f v then ok tt else err constraint_failed ]
  ]

  -- The method Delete.
  unfoldable pub remove :
      Others V
      → String
      → Option (V → Bool)
      → Journal V
      → Store V
      → Result Error (Unit {0}) × (Journal V × Store V)
  unfolding commit constraint_check
  remove others k c = commit others (constraint_check k c) (delete k ∷ [])

  -- The method Update.
  unfoldable pub replace :
      Others V
      → V
      → Option (V → Bool)
      → Journal V
      → Store V
      → Result Error (Unit {0}) × (Journal V × Store V)
  unfolding commit constraint_check
  replace others e c = commit others (constraint_check (key e) c) (update e ∷ [])
