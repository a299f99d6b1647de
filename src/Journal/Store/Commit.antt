-- ===== src/Journal/Store/Commit.antt =====
-- What the optimistic loop of commit guarantees, and where it gives up.
use super.Prelude.{
  ℕ, zero, suc, ◌≡◌, refl, sym, ◌∙◌, ap, subst, true, false, Option, some, List, String, arith,
}
use super.Prelude.{nat_eq, beq_refl, ◌==◌, if◌then◌else◌, Bool-cases, inl, inr}
use super.Prelude.Result.{Result, ok, err, ◌>>=◌, Result-cases, bind-eq-ok, ok-injective}
use super.GoMap.{Map, get, has, put, get-put}
use super.Journal.Queue.{
  JournalId, Queue, Error, exists, retries_exceeded, succ_id, read_head, commit_at, open_range,
}
use super.Journal.Store.{
  Entry, Journal, Store, apply_runs, load, get_snapshot, load_from, Others, commit_loop,
}
use super.Journal.Store.Loaded.{queue-store_snapshot}

-- With PutIfNotExists an entry is written only at a free position, and HEAD moves to it.
pub commit_at-eq-ok :
    {T : Type 0} (q q' : Queue T) (at : JournalId) (t : T)
    → q.put_if_not_exists ≡ true
    → commit_at q at t ≡ ok q'
    → (has q.entries (succ_id at) ≡ false)
      × (record q { entries = put q.entries (succ_id at) t; head = some (succ_id at) } ≡ q')
unfolding commit_at
commit_at-eq-ok q q' at t p e = ground arith

commit_at-err :
    {T : Type 0} (q : Queue T) (at : JournalId) (t : T) (x : Error)
    → commit_at q at t ≡ err x
    → x ≡ exists
unfolding commit_at
commit_at-err q at t x e = ground arith

commit_at_taken :
    {T : Type 0} (q : Queue T) (at : JournalId) (t : T)
    → q.put_if_not_exists ≡ true
    → has q.entries (succ_id at) ≡ true
    → commit_at q at t ≡ err exists
unfolding commit_at
commit_at_taken q at t p h = ground arith

module _ {V : Type 0} (key : V → String) where
  load_from-queue :
      (j j' : Journal V) (s' : Store V) (head : JournalId)
      (from : JournalId × Option (super.GoMap.Map String V))
      → load_from key j head from ≡ ok (j', s')
      → j'.queue ≡ j.queue
  unfolding load_from
  load_from-queue j j' s' head (a, t) e =
      let (runs, f, g) = bind-eq-ok (open_range j.queue head a) _ e in
      let (t', h, k) = bind-eq-ok (apply_runs key t runs) _ g in
      ap (λ x. x.queue) (sym (ap (λ x. x.0) (ok-injective k)))
      ∙ queue-store_snapshot key j head a t'

  -- Loading writes no entry and moves no pointer.
  pub load-queue :
      (j j' : Journal V) (s s' : Store V) → load key j s ≡ ok (j', s') → j'.queue ≡ j.queue
  unfolding load
  load-queue j j' s s' e =
      let (h, f, g) = bind-eq-ok (read_head j.queue) _ e in
      elim (Bool-cases (h == s.at)) [
        | inl x ↦ ap (λ y. y.queue) (sym (ap (λ y. y.0) (ok-injective (rw x at g))))
        | inr x ↦ load_from-queue j j' s' h (get_snapshot key j.snapshot) (rw x at g)
      ]

  load_current :
      (j : Journal V) (s : Store V) → read_head j.queue ≡ ok s.at → load key j s ≡ ok (j, s)
  unfolding load
  load_current j s e =
      ap
        (λ r. r >>= λ h.
          if h == s.at then ok (j, s) else load_from key j h (get_snapshot key j.snapshot))
        e
      ∙ rw (beq_refl s.at)

  module _ (others : Others V) (check : Store V → Result Error (Unit {0}))
      (es : List (Entry V)) where
    -- The rounds of the loop that starts with `n` tries over `j` and `s`: the tries that are left in a
    -- round, the journal and the store. Another round follows one whose table passed the check and whose
    -- write found the position taken.
    pub data Round (n : ℕ) (j : Journal V) (s : Store V) : ℕ → Journal V → Store V → Type 0 where
      start : Round n j s n j s
      again :
          {m : ℕ} {k : Journal V} {t : Store V} (k1 : Journal V) (t1 : Store V)
          → Round n j s (suc m) k t
          → load key k t ≡ ok (k1, t1)
          → check t1 ≡ ok tt
          → commit_at (others m k1).queue t1.at es ≡ err exists
          → Round n j s m (others m k1) t1

    -- The transaction `es` is in the journal with the queue `q`: in one of the rounds of the loop the
    -- store loaded a table that passes the check, others may have written after that, and the position
    -- behind the one that was loaded was still free.
    pub record Committed (n : ℕ) (j : Journal V) (s : Store V) (q : Queue (List (Entry V)))
        : Type 0 where
      pub try : ℕ
      pub before : Journal V
      pub old : Store V
      pub round : Round n j s (suc try) before old
      pub loaded : Journal V
      pub store : Store V
      pub loads : load key before old ≡ ok (loaded, store)
      pub passes : check store ≡ ok tt
      pub free : has (others try loaded).queue.entries (succ_id store.at) ≡ false
      pub written :
          record (others try loaded).queue {
            entries = put (others try loaded).queue.entries (succ_id store.at) es;
            head = some (succ_id store.at);
          }
          ≡ q

  -- One round of the loop, in each of its cases.
  round_load_err :
      (n : ℕ) (others : Others V) (check : Store V → Result Error (Unit {0})) (es : List (Entry V))
      (j : Journal V) (s : Store V) (x : Error)
      → load key j s ≡ err x
      → commit_loop key (suc n) others check es j s ≡ (err x, (j, s))
  unfolding commit_loop
  round_load_err n others check es j s x e = rw (e, commit_loop)

  module _ (n : ℕ) (others : Others V) (check : Store V → Result Error (Unit {0}))
      (es : List (Entry V)) (j : Journal V) (s : Store V) (j1 : Journal V) (s1 : Store V)
      (e : load key j s ≡ ok (j1, s1)) where
    round_refused :
        (x : Error)
        → check s1 ≡ err x
        → commit_loop key (suc n) others check es j s ≡ (err x, (j1, s1))
    unfolding commit_loop
    round_refused x f = rw (e, commit_loop) (rw (f, commit_loop))

    round_done :
        (q : Queue (List (Entry V)))
        → check s1 ≡ ok tt
        → commit_at (others n j1).queue s1.at es ≡ ok q
        → commit_loop key (suc n) others check es j s
          ≡ (ok tt, (record (others n j1) { queue = q }, record s1 { at = 0 }))
    unfolding commit_loop
    round_done q f g = rw (e, commit_loop) (rw (f, commit_loop) (rw (g, commit_loop)))

    round_again :
        check s1 ≡ ok tt
        → commit_at (others n j1).queue s1.at es ≡ err exists
        → commit_loop key (suc n) others check es j s
          ≡ commit_loop key n others check es (others n j1) s1
    unfolding commit_loop
    round_again f g = rw (e, commit_loop) (rw (f, commit_loop) (rw (g, commit_loop)))

  module _ (others : Others V) (check : Store V → Result Error (Unit {0})) (es : List (Entry V))
      (keeps : (n : ℕ) (j : Journal V)
        → j.queue.put_if_not_exists ≡ true
        → (others n j).queue.put_if_not_exists ≡ true) where
    -- However the loop ends, the storage is still one with PutIfNotExists.
    pub commit_loop_keeps :
        (n : ℕ) (j : Journal V) (s : Store V)
        → j.queue.put_if_not_exists ≡ true
        → (commit_loop key n others check es j s).1.0.queue.put_if_not_exists ≡ true
    unfolding commit_loop
    commit_loop_keeps zero j s p = p
    commit_loop_keeps (suc n) j s p = elim (Result-cases (load key j s)) [
      | inr (x, f) ↦
          ap (λ r. r.1.0.queue.put_if_not_exists) (round_load_err n others check es j s x f) ∙ p
      | inl ((j1, s1), f) ↦
          let p1 = ap (λ q. q.put_if_not_exists) (load-queue j j1 s s1 f) ∙ p in
          elim (Result-cases (check s1)) [
            | inr (x, g) ↦
                ap (λ r. r.1.0.queue.put_if_not_exists)
                  (round_refused n others check es j s j1 s1 f x g)
                ∙ p1
            | inl (u, g) ↦ elim (Result-cases (commit_at (others n j1).queue s1.at es)) [
              | inl (q, h) ↦
                  ap (λ r. r.1.0.queue.put_if_not_exists)
                    (round_done n others check es j s j1 s1 f q g h)
                  ∙ ap (λ y. y.put_if_not_exists)
                      (sym (commit_at-eq-ok (others n j1).queue q s1.at es (keeps n j1 p1) h).1)
                  ∙ keeps n j1 p1
              | inr (x, h) ↦
                  ap (λ r. r.1.0.queue.put_if_not_exists)
                    (round_again n others check es j s j1 s1 f g
                      (h ∙ ap err (commit_at-err (others n j1).queue s1.at es x h)))
                  ∙ commit_loop_keeps n (others n j1) s1 (keeps n j1 p1)
            ]
          ]
    ]

    rounds-Committed :
        (n0 : ℕ) (j0 : Journal V) (s0 : Store V) (n : ℕ) (j : Journal V) (s : Store V)
        → Round others check es n0 j0 s0 n j s
        → j.queue.put_if_not_exists ≡ true
        → (commit_loop key n others check es j s).0 ≡ ok tt
        → Committed others check es n0 j0 s0 (commit_loop key n others check es j s).1.0.queue
    unfolding commit_loop
    rounds-Committed n0 j0 s0 zero j s d p e = cc
    rounds-Committed n0 j0 s0 (suc n) j s d p e = elim (Result-cases (load key j s)) [
      | inr (x, f) ↦ cc (sym (ap (λ r. r.0) (round_load_err n others check es j s x f)) ∙ e)
      | inl ((j1, s1), f) ↦ elim (Result-cases (check s1)) [
        | inr (x, g) ↦
            cc (sym (ap (λ r. r.0) (round_refused n others check es j s j1 s1 f x g)) ∙ e)
        | inl (u, g) ↦
            let p2 : (others n j1).queue.put_if_not_exists ≡ true =
              keeps n j1 (ap (λ q. q.put_if_not_exists) (load-queue j j1 s s1 f) ∙ p) in
            elim (Result-cases (commit_at (others n j1).queue s1.at es)) [
              | inl (q, h) ↦
                  let (free, w) = commit_at-eq-ok (others n j1).queue q s1.at es p2 h in
                  subst (Committed others check es n0 j0 s0)
                    (sym (ap (λ r. r.1.0.queue) (round_done n others check es j s j1 s1 f q g h)))
                    (record {
                      try = n;
                      before = j;
                      old = s;
                      round = d;
                      loaded = j1;
                      store = s1;
                      loads = f;
                      passes = g;
                      free = free;
                      written = w;
                    })
              | inr (x, h) ↦
                  let taken : commit_at (others n j1).queue s1.at es ≡ err exists =
                    h ∙ ap err (commit_at-err (others n j1).queue s1.at es x h) in
                  let next = round_again n others check es j s j1 s1 f g taken in
                  subst (λ r. Committed others check es n0 j0 s0 r.1.0.queue) (sym next)
                    (rounds-Committed n0 j0 s0 n (others n j1) s1 (again j1 s1 d f g taken) p2
                      (sym (ap (λ r. r.0) next) ∙ e))
            ]
      ]
    ]

    -- Over storage with PutIfNotExists, which the other writers keep, a commit that reports success
    -- had, in one of the rounds of its loop from the journal and the store it was called with, loaded a
    -- table that passes its check, and wrote its entries and HEAD right behind the position of that
    -- table, where no other writer had put an entry since.
    pub commit_loop-Committed :
        (n : ℕ) (j : Journal V) (s : Store V)
        → j.queue.put_if_not_exists ≡ true
        → (commit_loop key n others check es j s).0 ≡ ok tt
        → Committed others check es n j s (commit_loop key n others check es j s).1.0.queue
    commit_loop-Committed n j s p e = rounds-Committed n j s n j s start p e

  -- Over storage with PutIfNotExists, when the entry behind HEAD is already written, as it is after a
  -- writer died before it moved HEAD, a store that is at HEAD and passes the check commits nothing,
  -- however often it tries, while no other process writes: it gives up and nothing has changed.
  pub commit_loop_lagging_head :
      (n : ℕ) (check : Store V → Result Error (Unit {0})) (es : List (Entry V)) (j : Journal V)
      (s : Store V)
      → j.queue.put_if_not_exists ≡ true
      → read_head j.queue ≡ ok s.at
      → has j.queue.entries (succ_id s.at) ≡ true
      → check s ≡ ok tt
      → commit_loop key n (λ m k. k) check es j s ≡ (err retries_exceeded, (j, s))
  unfolding commit_loop
  commit_loop_lagging_head zero check es j s p h t c = refl
  commit_loop_lagging_head (suc n) check es j s p h t c =
      round_again n (λ m k. k) check es j s j s (load_current j s h) c
        (commit_at_taken j.queue s.at es p t)
      ∙ commit_loop_lagging_head n check es j s p h t c
