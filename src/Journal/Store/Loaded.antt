-- ===== src/Journal/Store/Loaded.antt =====
-- What load leaves in the table of a store.
use super.Prelude.{
  ℕ, ◌+◌, ◌<◌, ◌≡◌, ◌≢◌, refl, sym, ◌∙◌, ap, subst, false, Option, none, some, List, [], ◌∷◌, ◌++◌,
  append_assoc, String, arith,
}
use super.Prelude.{nat_eq, string_eq, length, All, ◌==◌, if◌then◌else◌, inl, inr, ◌⊎◌}
use super.Prelude.Result.{Result, ok, ◌>>=◌}
use super.Journal.Queue.{JournalId, Queue, Error, read_head, open_range, or_missing}
use super.Journal.Store.{
  Entry, Table, SnapshotFile, absent, whole, Journal, Store, table_of, apply_all, apply_runs, load,
  get_snapshot, load_from, store_snapshot,
}
use super.Journal.Store.Replay.{IsLog, open_range-Segment, SameTable}
use super.Journal.Store.Settled.{
  apply_runs-first, apply_runs-cons, apply_runs-SameTable, apply_runs-split, IsSettled,
}

not_at : (h a : ℕ) → a ≢ h → (h == a) ≡ false
not_at h a n = ground arith

pub head_read : {T : Type 0} (q : Queue T) (ts : List T) → IsLog q ts → read_head q ≡ ok (length ts)
unfolding read_head or_missing
head_read q ts h = rw h.head

module _ {V : Type 0} (key : V → String) where
  -- The stored snapshot is absent, or holds the table behind some transaction of the journal.
  pub data IsSnapshot (ts : List (List (Entry V))) : SnapshotFile V → Type 0 where
    no_snapshot : IsSnapshot ts absent
    snapshot_at :
        (before after : List (List (Entry V))) (es : List (Entry V)) (vs : List V) (t : Table V)
        → ts ≡ before ++ (es ∷ after)
        → apply_runs key (some []) (before ++ (es ∷ [])) ≡ ok (some t)
        → SameTable key t (table_of key [] vs)
        → IsSnapshot ts (whole (length before + 1) vs)

  -- What is read behind the snapshot's position, played over its table, gives the whole replay.
  record Resumes (ts : List (List (Entry V))) (t : Table V) (from : JournalId × Option (Table V))
      : Type 0 where
    xs : List (List (Entry V))
    ys : List (List (Entry V))
    split : ts ≡ xs ++ ys
    at : ((from.0 ≡ 0) × (length xs ≡ 0)) ⊎ (from.0 ≡ length xs + 1)
    table : Table V
    start : Option (Table V)
    starts : from.1 ≡ start
    plays : apply_runs key start ys ≡ ok (some table)
    same : SameTable key table t

  All-middle :
      (P : List (Entry V) → Type 0) (xs ys : List (List (Entry V))) (y : List (Entry V))
      → All P (xs ++ (y ∷ ys))
      → P y
  All-middle P [] ys y h = h.0
  All-middle P (x ∷ xs) ys y h = All-middle P xs ys y h.1

  some_ok :
      {t u : Table V} {r : Result Error (Option (Table V))}
      → r ≡ ok (some t)
      → r ≡ ok (some u)
      → t ≡ u
  some_ok e f = cc

  -- Playing a transaction once more, and then what follows it.
  replay_once_more :
      (t0 u t : Table V) (es : List (Entry V)) (after : List (List (Entry V)))
      → IsSettled key es
      → apply_all key (some t0) es ≡ ok (some u)
      → apply_runs key (some u) after ≡ ok (some t)
      → (w : Table V) × (apply_runs key (some u) (es ∷ after) ≡ ok (some w)) × SameTable key t w
  replay_once_more t0 u t es after st e f =
      let (v, g, sv) = st t0 u e in
      let (w, h, sw) = apply_runs-SameTable key u v t after (λ k. sym (sv k)) f in
      (w, apply_runs-cons key (some u) (some v) es after g ∙ h, sw)

  -- The parts of the replay round one transaction.
  replay_parts :
      (ts before after : List (List (Entry V))) (es : List (Entry V)) (u t : Table V)
      → ts ≡ before ++ (es ∷ after)
      → apply_runs key (some []) (before ++ (es ∷ [])) ≡ ok (some u)
      → apply_runs key (some []) ts ≡ ok (some t)
      → (t0 : Table V) × (apply_all key (some t0) es ≡ ok (some u))
        × (apply_runs key (some u) after ≡ ok (some t))
  unfolding apply_runs
  replay_parts ts before after es u t sp bp pl =
      let (t0, p, q) = apply_runs-split key [] u before (es ∷ []) bp in
      let (u1, g, r) = apply_runs-first key t0 (some u) es [] q in
      let (u2, p', q') =
        apply_runs-split key [] t (before ++ (es ∷ [])) after
          (ap (apply_runs key (some [])) (append_assoc before (es ∷ []) after ∙ sym sp) ∙ pl) in
      (t0, g ∙ r, ap (λ x. apply_runs key (some x) after) (some_ok bp p') ∙ q')

  IsSnapshot-Resumes :
      (ts : List (List (Entry V))) (t : Table V) (f : SnapshotFile V)
      → All (IsSettled key) ts
      → apply_runs key (some []) ts ≡ ok (some t)
      → IsSnapshot ts f
      → Resumes ts t (get_snapshot key f)
  unfolding get_snapshot
  IsSnapshot-Resumes ts t f st pl no_snapshot = record {
    xs = [];
    ys = ts;
    split = refl;
    at = inl (refl, refl);
    table = t;
    start = some [];
    starts = refl;
    plays = pl;
    same = λ k. refl;
  }
  IsSnapshot-Resumes ts t f st pl (snapshot_at before after es vs u sp bp sm) =
      let (t0, g, q) = replay_parts ts before after es u t sp bp pl in
      let (w, h, sw) =
        replay_once_more t0 u t es after
          (All-middle (IsSettled key) before after es (subst (All (IsSettled key)) sp st)) g q in
      let (x, h', sx) = apply_runs-SameTable key u (table_of key [] vs) w (es ∷ after) sm h in
      record {
        xs = before;
        ys = es ∷ after;
        split = sp;
        at = inr refl;
        table = x;
        start = some (table_of key [] vs);
        starts = refl;
        plays = h';
        same = λ k. sym (sw k ∙ sx k);
      }

  load_from_lem :
      (j : Journal V) (head : JournalId) (from : JournalId × Option (Table V))
      (runs : List (List (Entry V))) (t : Table V)
      → open_range j.queue head from.0 ≡ ok runs
      → apply_runs key from.1 runs ≡ ok (some t)
      → load_from key j head from
        ≡ ok (store_snapshot key j head from.0 (some t), record { table = some t; at = head })
  unfolding load_from
  load_from_lem j head (a, b) runs t e f = rw e (rw f)

  pub queue-store_snapshot :
      (j : Journal V) (head at : JournalId) (t : Option (Table V))
      → (store_snapshot key j head at t).queue ≡ j.queue
  unfolding store_snapshot
  queue-store_snapshot j head at none = refl
  queue-store_snapshot j head at (some t) = ground arith

  pub load_behind :
      (j : Journal V) (s : Store V) (h : JournalId)
      → read_head j.queue ≡ ok h
      → (h == s.at) ≡ false
      → load key j s ≡ load_from key j h (get_snapshot key j.snapshot)
  unfolding load
  load_behind j s h e f =
      ap
        (λ r. r >>= λ h'.
          if h' == s.at then ok (j, s) else load_from key j h' (get_snapshot key j.snapshot))
        e
      ∙ rw f

  -- If the journal is a log of one or more transactions, each of which changes nothing when it is
  -- applied again to what it left, and its replay over the empty table succeeds, then a store at
  -- another position than the log's end loads a table with the entries of that replay, whether it
  -- starts from no stored snapshot or from one behind any transaction, which it then plays twice. The
  -- queue stays as it is.
  pub load_replays :
      (j : Journal V) (s : Store V) (ts : List (List (Entry V))) (t : Table V)
      → IsLog j.queue ts
      → IsSnapshot ts j.snapshot
      → All (IsSettled key) ts
      → apply_runs key (some []) ts ≡ ok (some t)
      → 0 < length ts
      → s.at ≢ length ts
      → (j' : Journal V) × (u : Table V) × (load key j s
          ≡ ok (j', record { table = some u; at = length ts }))
        × SameTable key u t
        × (j'.queue ≡ j.queue)
  load_replays j s ts t log snap st pl ne behind =
      let r = IsSnapshot-Resumes ts t j.snapshot st pl snap in
      let from = get_snapshot key j.snapshot in
      let log' : IsLog j.queue (r.xs ++ r.ys) = subst (IsLog j.queue) r.split log in
      let read : open_range j.queue (length ts) from.0 ≡ ok r.ys =
        ap (λ l. open_range j.queue (length l) from.0) r.split
        ∙ open_range-Segment j.queue r.xs r.ys from.0 log' (subst (λ l. 0 < length l) r.split ne)
            r.at in
      (
        store_snapshot key j (length ts) from.0 (some r.table),
        r.table,
        load_behind j s (length ts) (head_read j.queue ts log) (not_at (length ts) s.at behind)
            ∙ (load_from_lem j (length ts) from r.ys r.table read
                (ap (λ x. apply_runs key x r.ys) r.starts ∙ r.plays)),
        r.same,
        queue-store_snapshot j (length ts) from.0 (some r.table),
      )
