-- ===== src/Branch/Commit/Published.antt =====
-- What a successful commit to a branch has done.
use super.Prelude.{
  ℕ, zero, suc, ◌≡◌, ◌≢◌, refl, sym, ◌∙◌, ap, subst, inl, inr, true, false, Option, none, some,
  List, [], ◌∷◌, String, arith,
}
use super.Prelude.{nat_eq, Bool-cases, string_eq, beq_refl}
use super.Prelude.Result.{Result, ok, err, Result-cases, bind-eq-ok, ok-injective}
use super.GoMap.{get, get-put}
use super.Commits.Types.{Ksuid, Object, Action}
use super.Commits.Object.{serialize}
use super.Commits.Snapshot.{Snapshot}
use super.Commits.Store.{ArcCache, Store, put_object}
use super.Journal.Store.{Journal, Others, update, constraint_check, load, commit_loop, max_retries}
use super.Journal.Store as Journals
use super.Journal.Store.Commit.{Committed, load-queue, commit_loop_keeps, commit_loop-Committed}
use super.Branches.{Config, key, lookup_by_name, replace, with_name}
use super.Branch.Run.{Error, from_branches, from_commits, from_journal}
use super.Branch.Commit.{
  Pool, World, Constructor, parent_check, look_up_branch, move_branch, drop_object, commit_from,
  is_constraint,
}

serialize-eq-ok : (o : Object) (b : List Action) → serialize o ≡ ok b → b ≡ o.actions
unfolding serialize
serialize-eq-ok o b e = ground arith

-- A put object is stored under its commit.
put_object-get :
    {oc : ArcCache Object} {pc : ArcCache (List Ksuid)} {sc : ArcCache Snapshot}
    (s s' : Store oc pc sc) (o : Object)
    → put_object s o ≡ ok s'
    → get s'.files o.commit ≡ some o.actions
unfolding put_object serialize
put_object-get s s' o e =
    let (b, f, g) = bind-eq-ok (serialize o) _ e in
    ap (λ t. get t.files o.commit) (sym (ok-injective g))
    ∙ get-put s.files o.commit o.commit b
    ∙ rw (beq_refl o.commit) (ap some (serialize-eq-ok o b f))

all-queue :
    (j j1 : Journal Config) (s s1 : Journals.Store Config) (cs : List Config)
    → Journals.all key j s ≡ ok (cs, (j1, s1))
    → j1.queue ≡ j.queue
unfolding Journals.all
all-queue j j1 s s1 cs e =
    let ((j2, s2), f, g) = bind-eq-ok (load key j s) _ e in
    ap (λ x. x.1.0.queue) (sym (ok-injective g)) ∙ load-queue key j j2 s s2 f

lookup_by_name-queue :
    (j : Journal Config) (s : Journals.Store Config) (name : String)
    → (lookup_by_name j s name).1.0.queue ≡ j.queue
unfolding lookup_by_name
lookup_by_name-queue j s name = elim (Result-cases (Journals.all key j s)) [
  | inl ((cs, (j1, s1)), e) ↦ rw (e, lookup_by_name) (all-queue j j1 s s1 cs e)
  | inr (x, e) ↦ rw (e, lookup_by_name)
]

module _ {oc : ArcCache Object} {pc : ArcCache (List Ksuid)} {sc : ArcCache Snapshot} where
  -- What a constructor can return.
  data Made (m : Option (Result Error Object × Store oc pc sc)) : Type 0 where
    no_fuel : m ≡ none → Made m
    refused : (x : Error) (c : Store oc pc sc) → m ≡ some (err x, c) → Made m
    built : (o : Object) (c : Store oc pc sc) → m ≡ some (ok o, c) → Made m

  Made-cases : (m : Option (Result Error Object × Store oc pc sc)) → Made m
  Made-cases none = no_fuel refl
  Made-cases (some (err x, c)) = refused x c refl
  Made-cases (some (ok o, c)) = built o c refl

  abbrev returned : Ksuid → Pool oc pc sc → Option (Result Error Ksuid × Pool oc pc sc)
  returned c p = some (ok c, p)

  some_pair : {c d : Ksuid} {p q : Pool oc pc sc} → returned c p ≡ returned d q → (c ≡ d) × (p ≡ q)
  some_pair {c = c} {p = p} e = (
    ap (λ x. elim x [ none ↦ c | some (err y, q) ↦ c | some (ok y, q) ↦ y ]) e,
    ap (λ x. elim x [ none ↦ p | some (y, q) ↦ q ]) e,
  )

  err_returned :
      (m : Option (Result Error Ksuid × Pool oc pc sc)) (x : Error) (q : Pool oc pc sc)
      → m ≡ some (err x, q)
      → (c : Ksuid) (p : Pool oc pc sc) → m ≢ returned c p
  err_returned m x q e c p f = cc

  none-returned :
      (m : Option (Result Error Ksuid × Pool oc pc sc))
      → m ≡ none
      → (c : Ksuid) (p : Pool oc pc sc) → m ≢ returned c p
  none-returned m e c p f = cc

  -- The pool in which the branch is moved, when it was looked up in `pool` and the object is put.
  abbrev pub ready : World oc pc sc → ℕ → String → Pool oc pc sc → Store oc pc sc → Pool oc pc sc
  ready w r name pool c =
      let p = (look_up_branch pool name).1 in
      record p { branches = w.branches r p.branches; commits = c }

  module _ (w : World oc pc sc) (create : Constructor oc pc sc) (name : String) where
    -- The attempts of the loop that starts with `n` attempts left and `r` made over `pool`. Another
    -- attempt follows one in which the update of the branch was refused by its check.
    pub data Attempts (n r : ℕ) (pool : Pool oc pc sc) : ℕ → ℕ → Pool oc pc sc → Type 0 where
      start : Attempts n r pool n r pool
      retried :
          {m q : ℕ} {p : Pool oc pc sc} (config : Config) (object : Object) (d d' : Store oc pc sc)
          (x : super.Journal.Queue.Error)
          → Attempts n r pool (suc m) q p
          → (look_up_branch p name).0 ≡ ok config
          → create config q (w.files q (look_up_branch p name).1.commits) ≡ some (ok object, d)
          → put_object d object ≡ ok d'
          → (move_branch (w.journal q) (ready w q name p d') config object).0 ≡ err x
          → is_constraint x ≡ true
          → Attempts n r pool m
              (suc q)
              (drop_object (move_branch (w.journal q) (ready w q name p d') config object).1 object)

    -- A commit that is on its branch: in one of the attempts of the loop its object was built on top of
    -- the configuration that was found of the branch, the object is stored, and the branch was moved to
    -- it by a transaction whose check found the branch still at the parent, in a table that was loaded
    -- from the branches as they were when the object had been put, or later.
    pub record Published (n r : ℕ) (pool : Pool oc pc sc) (c : Ksuid) (pool' : Pool oc pc sc)
        : Type 0 where
      pub left : ℕ
      pub try : ℕ
      pub seen : Pool oc pc sc
      pub attempts : Attempts n r pool (suc left) try seen
      pub config : Config
      pub object : Object
      pub after : Store oc pc sc
      pub found : (look_up_branch seen name).0 ≡ ok config
      pub created :
          create config try (w.files try (look_up_branch seen name).1.commits)
          ≡ some (ok object, after)
      pub id : object.commit ≡ c
      pub stored : get pool'.commits.files c ≡ some object.actions
      pub moved :
          Committed key
            (w.journal try)
            (constraint_check key config.name (some (parent_check config)))
            (update (record config { commit = object.commit }) ∷ [])
            max_retries
            (w.branches try (look_up_branch seen name).1.branches)
            (look_up_branch seen name).1.known
            pool'.branches.queue

  -- One attempt of the loop, in each of its cases.
  module _ (n r : ℕ) (w : World oc pc sc) (create : Constructor oc pc sc) (name : String)
      (pool : Pool oc pc sc) where
    attempt_lost :
        (x : super.Branches.Error)
        → (look_up_branch pool name).0 ≡ err x
        → commit_from (suc n) r w create name pool
          ≡ some (err (from_branches x), (look_up_branch pool name).1)
    unfolding commit_from
    attempt_lost x e = rw (e, commit_from)

    module _ (config : Config) (e : (look_up_branch pool name).0 ≡ ok config) where
      abbrev made : Option (Result Error Object × Store oc pc sc)
      made = create config r (w.files r (look_up_branch pool name).1.commits)

      attempt_fuel : made ≡ none → commit_from (suc n) r w create name pool ≡ none
      unfolding commit_from
      attempt_fuel f = rw (e, commit_from) (rw (f, commit_from))

      attempt_refused :
          (x : Error) (c : Store oc pc sc)
          → made ≡ some (err x, c)
          → commit_from (suc n) r w create name pool
            ≡ some (err x, record (look_up_branch pool name).1 { commits = c })
      unfolding commit_from
      attempt_refused x c f = rw (e, commit_from) (rw (f, commit_from))

      module _ (object : Object) (c : Store oc pc sc) (f : made ≡ some (ok object, c)) where
        attempt_empty :
            (x : super.Commits.Types.Error)
            → put_object c object ≡ err x
            → commit_from (suc n) r w create name pool
              ≡ some (err (from_commits x), record (look_up_branch pool name).1 { commits = c })
        unfolding commit_from
        attempt_empty x g = rw (e, commit_from) (rw (f, commit_from) (rw (g, commit_from)))

        module _ (c' : Store oc pc sc) (g : put_object c object ≡ ok c') where
          abbrev moving : Result super.Journal.Queue.Error (Unit {0}) × Pool oc pc sc
          moving = move_branch (w.journal r) (ready w r name pool c') config object

          attempt_done :
              moving.0 ≡ ok tt
              → commit_from (suc n) r w create name pool ≡ some (ok object.commit, moving.1)
          unfolding commit_from
          attempt_done h =
              rw (e, commit_from) (rw (f, commit_from) (rw (g, commit_from) (rw (h, commit_from))))

          attempt_failed :
              (x : super.Journal.Queue.Error)
              → moving.0 ≡ err x
              → is_constraint x ≡ false
              → commit_from (suc n) r w create name pool
                ≡ some (err (from_journal x), drop_object moving.1 object)
          unfolding commit_from
          attempt_failed x h i =
              rw (e, commit_from)
                (rw (f, commit_from)
                  (rw (g, commit_from) (rw (h, commit_from) (rw (i, commit_from)))))

          attempt_again :
              (x : super.Journal.Queue.Error)
              → moving.0 ≡ err x
              → is_constraint x ≡ true
              → commit_from (suc n) r w create name pool
                ≡ commit_from n (suc r) w create name (drop_object moving.1 object)
          unfolding commit_from
          attempt_again x h i =
              rw (e, commit_from)
                (rw (f, commit_from)
                  (rw (g, commit_from) (rw (h, commit_from) (rw (i, commit_from)))))

  look_up_branch-queue :
      (pool : Pool oc pc sc) (name : String)
      → (look_up_branch pool name).1.branches.queue ≡ pool.branches.queue
  unfolding look_up_branch
  look_up_branch-queue pool name = lookup_by_name-queue pool.branches pool.known name

  module _ (w : World oc pc sc)
      (keeps : (r n : ℕ) (j : Journal Config)
        → j.queue.put_if_not_exists ≡ true
        → (w.journal r n j).queue.put_if_not_exists ≡ true)
      (keeps_meanwhile : (r : ℕ) (j : Journal Config)
        → j.queue.put_if_not_exists ≡ true
        → (w.branches r j).queue.put_if_not_exists ≡ true) where
    move_branch_keeps :
        (r : ℕ) (p : Pool oc pc sc) (config : Config) (object : Object)
        → p.branches.queue.put_if_not_exists ≡ true
        → (move_branch (w.journal r) p config object).1.branches.queue.put_if_not_exists ≡ true
    unfolding move_branch replace Journals.replace Journals.commit
    move_branch_keeps r p config object h =
        commit_loop_keeps key (w.journal r) _ _ (keeps r) max_retries p.branches p.known h

    move_branch-Committed :
        (r : ℕ) (p : Pool oc pc sc) (config : Config) (object : Object)
        → p.branches.queue.put_if_not_exists ≡ true
        → (move_branch (w.journal r) p config object).0 ≡ ok tt
        → Committed key
            (w.journal r)
            (constraint_check key config.name (some (parent_check config)))
            (update (record config { commit = object.commit }) ∷ [])
            max_retries
            p.branches
            p.known
            (move_branch (w.journal r) p config object).1.branches.queue
    unfolding move_branch replace Journals.replace Journals.commit
    move_branch-Committed r p config object h e =
        commit_loop-Committed key (w.journal r) _ _ (keeps r) max_retries p.branches p.known h e

    move_branch-commits :
        (r : ℕ) (p : Pool oc pc sc) (config : Config) (object : Object)
        → (move_branch (w.journal r) p config object).1.commits ≡ p.commits
    unfolding move_branch
    move_branch-commits r p config object = refl

    drop_object-queue :
        (p : Pool oc pc sc) (object : Object)
        → (drop_object p object).branches.queue.put_if_not_exists
          ≡ p.branches.queue.put_if_not_exists
    unfolding drop_object
    drop_object-queue p object = refl

    module _ (create : Constructor oc pc sc) (name : String) (n0 r0 : ℕ)
        (pool0 : Pool oc pc sc) where
      -- What one attempt gives: no result, or a published commit, or another attempt.
      data Attempt (n r : ℕ) (m : Option (Result Error Ksuid × Pool oc pc sc)) : Type 0 where
        fails : ((c : Ksuid) (p : Pool oc pc sc) → m ≢ returned c p) → Attempt n r m
        publishes :
            (c : Ksuid) (p : Pool oc pc sc)
            → m ≡ returned c p
            → Published w create name n0 r0 pool0 c p
            → Attempt n r m
        tries_again :
            (p : Pool oc pc sc)
            → p.branches.queue.put_if_not_exists ≡ true
            → Attempts w create name n0 r0 pool0 n (suc r) p
            → m ≡ commit_from n (suc r) w create name p
            → Attempt n r m

      module _ (n r : ℕ) (pool : Pool oc pc sc) (h : pool.branches.queue.put_if_not_exists ≡ true)
          (a : Attempts w create name n0 r0 pool0 (suc n) r pool) (config : Config)
          (f : (look_up_branch pool name).0 ≡ ok config) (object : Object) (d d' : Store oc pc sc)
          (g : create config r (w.files r (look_up_branch pool name).1.commits)
            ≡ some (ok object, d))
          (k : put_object d object ≡ ok d') where
        ready_keeps : (ready w r name pool d').branches.queue.put_if_not_exists ≡ true
        ready_keeps =
            keeps_meanwhile r (look_up_branch pool name).1.branches
              (ap (λ q. q.put_if_not_exists) (look_up_branch-queue pool name) ∙ h)

        move_branch-Published :
            (move_branch (w.journal r) (ready w r name pool d') config object).0 ≡ ok tt
            → Published w create name n0 r0 pool0 object.commit
                (move_branch (w.journal r) (ready w r name pool d') config object).1
        move_branch-Published i = record {
          left = n;
          try = r;
          seen = pool;
          attempts = a;
          config = config;
          object = object;
          after = d;
          found = f;
          created = g;
          id = refl;
          stored =
              subst (λ s. get s.files object.commit ≡ some object.actions)
                (sym (move_branch-commits r (ready w r name pool d') config object))
                (put_object-get d d' object k);
          moved = move_branch-Committed r (ready w r name pool d') config object ready_keeps i;
        }

        Attempt-moved : Attempt n r (commit_from (suc n) r w create name pool)
        Attempt-moved =
            let p2 = ready w r name pool d' in
            elim (Result-cases (move_branch (w.journal r) p2 config object).0) [
              | inl (u, i) ↦
                  publishes object.commit _
                    (attempt_done n r w create name pool config f object d g d' k i)
                    (move_branch-Published i)
              | inr (x, i) ↦ elim (Bool-cases (is_constraint x)) [
                | inr b ↦ fails (
                    err_returned _ _ _
                      (attempt_failed n r w create name pool config f object d g d' k x i b))
                | inl b ↦
                    tries_again _
                      (drop_object-queue (move_branch (w.journal r) p2 config object).1 object
                        ∙ move_branch_keeps r p2 config object ready_keeps)
                      (retried config object d d' x a f g k i b)
                      (attempt_again n r w create name pool config f object d g d' k x i b)
              ]
            ]

      attempt_lem :
          (n r : ℕ) (pool : Pool oc pc sc)
          → pool.branches.queue.put_if_not_exists ≡ true
          → Attempts w create name n0 r0 pool0 (suc n) r pool
          → Attempt n r (commit_from (suc n) r w create name pool)
      attempt_lem n r pool h a = elim (Result-cases (look_up_branch pool name).0) [
        | inr (x, f) ↦ fails (err_returned _ _ _ (attempt_lost n r w create name pool x f))
        | inl (config, f) ↦
            elim (Made-cases (create config r (w.files r (look_up_branch pool name).1.commits))) [
              | no_fuel g ↦ fails (none-returned _ (attempt_fuel n r w create name pool config f g))
              | refused x d g ↦
                  fails (err_returned _ _ _ (attempt_refused n r w create name pool config f x d g))
              | built object d g ↦ elim (Result-cases (put_object d object)) [
                | inr (x, k) ↦ fails (
                    err_returned _ _ _
                      (attempt_empty n r w create name pool config f object d g x k))
                | inl (d', k) ↦ Attempt-moved n r pool h a config f object d d' g k
              ]
            ]
      ]

      no_attempt :
          (r : ℕ) (pool pool' : Pool oc pc sc) (c : Ksuid)
          → commit_from zero r w create name pool ≡ returned c pool'
          → Published w create name n0 r0 pool0 c pool'
      unfolding commit_from
      no_attempt r pool pool' c e = cc

      attempts-Published :
          (n r : ℕ) (pool pool' : Pool oc pc sc) (c : Ksuid)
          → pool.branches.queue.put_if_not_exists ≡ true
          → Attempts w create name n0 r0 pool0 n r pool
          → commit_from n r w create name pool ≡ returned c pool'
          → Published w create name n0 r0 pool0 c pool'
      attempts-Published zero r pool pool' c p a e = no_attempt r pool pool' c e
      attempts-Published (suc n) r pool pool' c p a e = elim (attempt_lem n r pool p a) [
        | fails f ↦ elim (f c pool' e) [ ]
        | publishes c' p' f g ↦
            let q = some_pair (sym f ∙ e) in
            subst (λ x. Published w create name n0 r0 pool0 x pool') q.0
              (subst (Published w create name n0 r0 pool0 c') q.1 g)
        | tries_again p' f b g ↦ attempts-Published n (suc r) p' pool' c f b (sym g ∙ e)
      ]

    -- Over storage with PutIfNotExists, which the other writers keep, a commit that returns an
    -- identifier has published it: in one of the attempts of its loop the object was built on top of the
    -- configuration found under the branch's name, it is stored under its identifier, and the branch was
    -- moved to it by a transaction at a free position, checked against a table in which the branch was
    -- still at the parent, and which was loaded after the object had been put.
    pub commit_from-Published :
        (n r : ℕ) (create : Constructor oc pc sc) (name : String) (pool pool' : Pool oc pc sc)
        (c : Ksuid)
        → pool.branches.queue.put_if_not_exists ≡ true
        → commit_from n r w create name pool ≡ returned c pool'
        → Published w create name n r pool c pool'
    commit_from-Published n r create name pool pool' c p e =
        attempts-Published create name n r pool n r pool pool' c p start e
