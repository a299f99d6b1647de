-- ===== src/Journal/Queue.antt =====
-- The type Queue of lake/journal/queue.go. The files HEAD and TAIL hold numbers; what a reader finds
-- in them is taken as written whole, so the retries of readID on a torn read are left out.
use super.Prelude.{
  ℕ, zero, suc, ◌+◌, ◌-◌, ◌%◌, ◌^◌, Bool, true, false, Option, none, some, List, [], ◌∷◌,
}
use super.Prelude.{◌&&◌, if◌then◌else◌, nat_eq, ◌==◌, ltb}
use super.Prelude.Result.{Result, ok, err, ◌>>=◌}
use super.GoMap.{Map, get, has, put}

-- The type ID, a uint64; 0 is Nil.
abbrev pub JournalId : Type 0
JournalId = ℕ

-- The errors of the package, and those of the storage engine that it tells apart.
pub data Error : Type 0 where
  key_exists no_such_key constraint_failed retries_exceeded : Error
  update_missing : Error
  -- fs.ErrNotExist, fs.ErrExist
  not_exist exists : Error
  -- a write into a nil map
  nil_map_panic : Error

-- The files of a queue whose entries hold transactions of the type `T`. Whether the storage engine
-- implements PutIfNotExists is fixed.
pub record Queue (T : Type 0) : Type 0 where
  pub head : Option JournalId
  pub tail : Option (JournalId × JournalId)
  pub entries : Map JournalId T
  pub put_if_not_exists : Bool

-- `id + 1` on a uint64
abbrev pub succ_id : JournalId → JournalId
succ_id i = (i + 1) % 2 ^ 64

unfoldable pub or_missing : {A : Type 0} → Option A → Result Error A
or_missing none = err not_exist
or_missing (some a) = ok a

module _ {T : Type 0} where
  unfoldable pub read_head : Queue T → Result Error JournalId
  unfolding or_missing
  read_head q = or_missing q.head

  unfoldable pub read_tail : Queue T → Result Error (JournalId × JournalId)
  unfolding or_missing
  read_tail q = or_missing q.tail

  unfoldable pub write_head : Queue T → JournalId → Queue T
  write_head q i = record q { head = some i }

  -- writeTail, and the method MoveTail that only calls it.
  unfoldable pub move_tail : Queue T → JournalId → JournalId → Queue T
  move_tail q i base = record q { tail = some (i, base) }

  -- The function Create over an empty directory.
  unfoldable pub create : Bool → JournalId → Queue T
  unfolding write_head move_tail
  create supported base =
      move_tail
        (write_head
          (record { head = none; tail = none; entries = []; put_if_not_exists = supported }) 0)
        1 base

  unfoldable pub boundaries : Queue T → Result Error (JournalId × JournalId)
  unfolding read_head read_tail
  boundaries q = do head ← read_head q; (tail, base) ← read_tail q; ok (head, tail)

  -- The write of one entry: PutIfNotExists refuses an entry that is there. Without it, Put replaces
  -- the entry.
  unfoldable pub put_entry : Queue T → JournalId → T → Result Error (Queue T)
  put_entry q i t =
      if q.put_if_not_exists && has q.entries i
      then err exists
      else ok (record q { entries = put q.entries i t })

  unfoldable pub commit_at : Queue T → JournalId → T → Result Error (Queue T)
  unfolding put_entry write_head
  commit_at q at t = do q' ← put_entry q (succ_id at) t; ok (write_head q' (succ_id at))

  unfoldable pub commit : Queue T → T → Result Error (Queue T × JournalId)
  unfolding read_head commit_at
  commit q t = do head ← read_head q; q' ← commit_at q head t; ok (q', succ_id head)

  -- The method Load of one entry.
  unfoldable pub load_entry : Queue T → JournalId → Result Error T
  unfolding or_missing
  load_entry q i = or_missing (get q.entries i)

  -- The entries that a Reader returns: it stands at `cursor` and stops when that is not below `stop`.
  unfoldable pub read_from : ℕ → Queue T → JournalId → JournalId → Result Error (List T)
  unfolding load_entry
  read_from zero q cursor stop = ok []
  read_from (suc fuel) q cursor stop = elim (ltb cursor stop) [
    | false ↦ ok []
    | true ↦ do
      t ← load_entry q (cursor + 1)
      rest ← read_from fuel q (cursor + 1) stop
      ok (t ∷ rest)
  ]

  -- newReader: the cursor is one below the tail, on a uint64. A reader returns at most `head` entries.
  unfoldable pub read_range : Queue T → JournalId → JournalId → Result Error (List T)
  unfolding read_from
  read_range q head tail = read_from head q ((tail + (2 ^ 64 - 1)) % 2 ^ 64) head

  -- The method Open, with all that its reader returns.
  unfoldable pub open_range : Queue T → JournalId → JournalId → Result Error (List T)
  unfolding read_head read_tail read_range
  open_range q head tail = do
    head ← (if head == 0 then read_head q else ok head)
    tail ← (if tail == 0 then (read_tail q >>= λ r. ok r.0) else ok tail)
    if head == 0 then ok [] else read_range q head tail
