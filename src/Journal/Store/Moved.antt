-- ===== src/Journal/Store/Moved.antt =====
-- What the method Move of lake/journal/store.go does when it reports success.
use super.Prelude.{
  ◌≡◌, refl, sym, ◌∙◌, ap, true, false, none, some, inl, inr, List, [], ◌∷◌, String, ℕ, arith,
}
use super.Prelude.{if◌then◌else◌, nat_eq, string_eq, ◌==◌, beq_refl, is_some, Option-cases}
use super.Prelude.Result.{ok}
use super.GoMap
use super.GoMap.{get, has, put, get-put, get-delete}
use super.Journal.Queue.{Queue, succ_id}
use super.Journal.Store.{
  Entry, add, delete, Table, Journal, Store, apply, apply_all, find, Others, max_retries, commit,
  move_check, move,
}
use super.Journal.Store.Commit.{Committed, commit_loop-Committed}

module _ {V : Type 0} (key : V → String) where
  -- A table in which the key `old` was there and the key of `e` was not.
  record Allows (old : String) (e : V) (s : Store V) : Type 0 where
    table : Table V
    is_table : s.table ≡ some table
    found : has table old ≡ true
    vacant : has table (key e) ≡ false

  find-table : (s : Store V) (t : Table V) (k : String) → s.table ≡ some t → find key s k ≡ get t k
  unfolding find
  find-table s t k n = rw (n, find)

  move_check-Allows :
      (old : String) (e : V) (s : Store V) → move_check key old e s ≡ ok tt → Allows old e s
  unfolding move_check find
  move_check-Allows old e s f = elim (Option-cases s.table) [
    | inl n ↦ cc (rw (n, move_check) at f)
    | inr (t, n) ↦ elim (Option-cases (get t old)) [
      | inl g ↦ cc (rw (find-table s t old n ∙ g, move_check) at f)
      | inr (v, g) ↦
          let f' = rw (find-table s t old n ∙ g, move_check) at f in
          elim (Option-cases (get t (key e))) [
            | inl h ↦ record {
              table = t;
              is_table = n;
              found = ap is_some g;
              vacant = ap is_some h;
            }
            | inr (w, h) ↦ cc (rw (find-table s t (key e) n ∙ h) at f')
          ]
    ]
  ]

  -- The queue `q` holds a rename from `old` to `e`: a transaction was written behind the table that was
  -- loaded in one of the rounds of the call, `old` was in that table and the key of `e` was not, and the
  -- transaction makes of it a table that differs in these two keys alone.
  pub record Moved (others : Others V) (old : String) (e : V) (j : Journal V) (s : Store V)
      (q : Queue (List (Entry V))) : Type 0 where
    pub entries : List (Entry V)
    pub committed : Committed key others (move_check key old e) entries max_retries j s q
    pub table : Table V
    pub is_table : committed.store.table ≡ some table
    pub found : has table old ≡ true
    pub vacant : has table (key e) ≡ false
    pub written : get q.entries (succ_id committed.store.at) ≡ some entries
    pub moved : Table V
    pub applies : apply_all key (some table) entries ≡ ok (some moved)
    pub contents :
        (k : String)
        → get moved k ≡ (if key e == k then some e else if old == k then none else get table k)

  get-moved :
      (t : Table V) (old : String) (e : V) (k : String)
      → get (put (GoMap.delete t old) (key e) e) k
        ≡ (if key e == k then some e else if old == k then none else get t k)
  get-moved t old e k = ground (arith, get-put (GoMap.delete t old) (key e) k e, get-delete t old k)

  applies_lem :
      (t : Table V) (old : String) (e : V)
      → apply_all key (some t) (delete old ∷ add e ∷ [])
        ≡ ok (some (put (GoMap.delete t old) (key e) e))
  unfolding apply_all apply
  applies_lem t old e = refl

  -- Over storage with PutIfNotExists, which the other writers keep, a Move that reports success had, in
  -- one of the rounds of its loop, loaded a table with the old key and without the new one, and wrote
  -- right behind it, where no other writer had put an entry since, a transaction that makes of it the
  -- table in which the old key is gone, the new one stands for the new value, and all else is as it was.
  pub move-Moved :
      (others : Others V)
      → ((n : ℕ) (j : Journal V)
          → j.queue.put_if_not_exists ≡ true
          → (others n j).queue.put_if_not_exists ≡ true)
      → (old : String) (e : V) (j : Journal V) (s : Store V) → j.queue.put_if_not_exists ≡ true
      → (move key others old e j s).0 ≡ ok tt
      → Moved others old e j s (move key others old e j s).1.0.queue
  unfolding move commit
  move-Moved others keeps old e j s p f =
      let es = delete old ∷ add e ∷ [] in
      let c =
        commit_loop-Committed key others (move_check key old e) es keeps max_retries j s p f in
      let a = move_check-Allows old e c.store c.passes in
      let m = (others c.try c.loaded).queue.entries in
      record {
        entries = es;
        committed = c;
        table = a.table;
        is_table = a.is_table;
        found = a.found;
        vacant = a.vacant;
        written =
            ap (λ q. get q.entries (succ_id c.store.at)) (sym c.written)
            ∙ get-put m (succ_id c.store.at) (succ_id c.store.at) es
            ∙ rw (beq_refl (succ_id c.store.at));
        moved = put (GoMap.delete a.table old) (key e) e;
        applies = applies_lem a.table old e;
        contents = get-moved a.table old e;
      }
