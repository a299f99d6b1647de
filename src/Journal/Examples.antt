-- ===== src/Journal/Examples.antt =====
-- Runs of the model of lake/journal on small journals.
use super.Prelude.{◌≡◌, refl, true, none, some, List, [], ◌∷◌, String, arith}
use super.Prelude.{nat_eq, string_eq, All}
use super.Prelude.Result.{ok, err}
use super.GoMap.{get, has, put}
use super.Journal.Queue.{Queue, Error, retries_exceeded, read_head, succ_id}
use super.Journal.Store.{
  Entry, add, delete, Table, absent, Journal, Store, apply_runs, load, Others, commit, commit_loop,
  insert_check, move, move_check,
}
use super.Journal.Store.Replay.{IsLog, SameTable}
use super.Journal.Store.Settled.{IsSettled, add-IsSettled, move-IsSettled}
use super.Journal.Store.Loaded.{no_snapshot, load_replays}
use super.Journal.Store.Moved.{Moved, move-Moved}
use super.Journal.Store.Commit.{Committed, commit_loop-Committed, commit_loop_lagging_head}

-- The entries are strings, each its own key.
abbrev itself : String → String
itself v = v

abbrev log : List (List (Entry String))
log = (add "a" ∷ []) ∷ (delete "a" ∷ add "b" ∷ []) ∷ []

abbrev journal : Journal String
journal = record {
  queue = record {
    head = some 2;
    tail = some (1, 0);
    entries = (2, delete "a" ∷ add "b" ∷ []) ∷ (1, add "a" ∷ []) ∷ [];
    put_if_not_exists = true;
  };
  snapshot = absent;
}

abbrev fresh : Store String
fresh = record { table = none; at = 0 }

log-IsLog : IsLog journal.queue log
unfolding get
log-IsLog = record {
  head = refl;
  base = 0;
  tail = refl;
  bounded = omega arith;
  entries = (refl, (refl, tt));
}

log-IsSettled : All (IsSettled itself) log
log-IsSettled = (add-IsSettled itself "a", (move-IsSettled itself "a" "b", tt))

log_plays : apply_runs itself (some []) log ≡ ok (some (("b", "b") ∷ []))
unfolding apply_runs put
log_plays = refl

load_replays_example :
    (j : Journal String) × (u : Table String) × (load itself journal fresh
      ≡ ok (j, record { table = some u; at = 2 }))
    × SameTable itself u (("b", "b") ∷ [])
    × (j.queue ≡ journal.queue)
load_replays_example =
    load_replays itself journal fresh log (("b", "b") ∷ []) log-IsLog no_snapshot log-IsSettled
      log_plays (omega arith) (λ e. cc)

-- No other process writes.
abbrev nobody : Others String
nobody n j = j

inserts :
    (commit_loop itself 10 nobody (insert_check itself "c") (add "c" ∷ []) journal fresh).0 ≡ ok tt
unfolding commit_loop get insert_check put super.Journal.Queue.commit_at
inserts = refl

commit_loop-Committed_example :
    Committed itself nobody
      (insert_check itself "c")
      (add "c" ∷ [])
      10
      journal
      fresh
      (commit_loop itself 10 nobody
        (insert_check itself "c")
        (add "c" ∷ [])
        journal
        fresh).1.0.queue
commit_loop-Committed_example =
    commit_loop-Committed itself nobody (insert_check itself "c") (add "c" ∷ []) (λ n j h. h) 10
      journal fresh refl inserts

-- A journal with one entry, whose entry is renamed.
abbrev single : Journal String
single = record {
  queue = record {
    head = some 1;
    tail = some (1, 0);
    entries = (1, add "a" ∷ []) ∷ [];
    put_if_not_exists = true;
  };
  snapshot = absent;
}

renames : (move itself nobody "a" "b" single fresh).0 ≡ ok tt
unfolding move commit commit_loop get move_check put super.Journal.Queue.commit_at
renames = refl

move-Moved_example :
    Moved itself nobody "a" "b" single fresh (move itself nobody "a" "b" single fresh).1.0.queue
move-Moved_example = move-Moved itself nobody (λ n j h. h) "a" "b" single fresh refl renames

-- A writer died behind its second entry.
abbrev lagging : Journal String
lagging = record journal { queue = record journal.queue { head = some 1 } }

abbrev current : Store String
current = record { table = some (("a", "a") ∷ []); at = 1 }

current_head : read_head lagging.queue ≡ ok 1
unfolding read_head
current_head = refl

taken : has lagging.queue.entries (succ_id 1) ≡ true
unfolding get
taken = refl

passes : insert_check itself "c" current ≡ ok tt
unfolding insert_check get
passes = refl

commit_loop_lagging_head_example :
    commit_loop itself 10 nobody (insert_check itself "c") (add "c" ∷ []) lagging current
    ≡ (err retries_exceeded, (lagging, current))
commit_loop_lagging_head_example =
    commit_loop_lagging_head itself 10 (insert_check itself "c") (add "c" ∷ []) lagging current refl
      current_head taken passes
