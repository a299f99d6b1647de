-- ===== src/Journal/Store/Settled.antt =====
-- A load that starts from a stored snapshot plays the entry at the snapshot's position once more.
use super.Prelude.{
  ◌≡◌, refl, sym, ◌∙◌, ap, subst, true, Option, some, List, [], ◌∷◌, ◌++◌, String, arith,
}
use super.Prelude.{nat_eq, string_eq, is_some, inl, inr, beq_refl}
use super.Prelude.Result.{ok, Result-cases}
use super.GoMap
use super.GoMap.{Map, get, has, put, get-put, get-delete}
use super.Journal.Store.{Entry, add, update, delete, Table, apply, apply_all, apply_runs}
use super.Journal.Store.Replay.{
  SameTable, apply_all-SameTable, apply_all-first, apply_all-cons, apply-update, ok_some,
}

module _ {V : Type 0} (key : V → String) where
  apply_all-table :
      (t : Table V) (es : List (Entry V)) (r : Option (Table V))
      → apply_all key (some t) es ≡ ok r
      → (t' : Table V) × (r ≡ some t')
  unfolding apply_all
  apply_all-table t [] r f = (t, cc)
  apply_all-table t (e ∷ es) r f =
      let (t1, g, q) = apply_all-first key t r e es f in apply_all-table t1 es r q

  pub apply_runs-first :
      (t : Table V) (r : Option (Table V)) (es : List (Entry V)) (rest : List (List (Entry V)))
      → apply_runs key (some t) (es ∷ rest) ≡ ok r
      → (t1 : Table V) × (apply_all key (some t) es ≡ ok (some t1))
        × (apply_runs key (some t1) rest ≡ ok r)
  unfolding apply_runs
  apply_runs-first t r es rest f = elim (Result-cases (apply_all key (some t) es)) [
    | inr (x, g) ↦ cc (rw (g, apply_runs) at f)
    | inl (r1, g) ↦
        let (t1, q) = apply_all-table t es r1 g in
        (t1, g ∙ ap ok q, ap (λ y. apply_runs key y rest) (sym q) ∙ (rw (g, apply_runs) at f))
  ]

  pub apply_runs-cons :
      (t t1 : Option (Table V)) (es : List (Entry V)) (rest : List (List (Entry V)))
      → apply_all key t es ≡ ok t1
      → apply_runs key t (es ∷ rest) ≡ apply_runs key t1 rest
  unfolding apply_runs
  apply_runs-cons t t1 es rest f = rw (f, apply_runs)

  pub apply_runs-SameTable :
      (t u t' : Table V) (runs : List (List (Entry V)))
      → SameTable key t u
      → apply_runs key (some t) runs ≡ ok (some t')
      → (u' : Table V) × (apply_runs key (some u) runs ≡ ok (some u')) × SameTable key t' u'
  unfolding apply_runs
  apply_runs-SameTable t u t' [] h f = (u, refl, subst (λ x. SameTable key x u) (ok_some key f) h)
  apply_runs-SameTable t u t' (es ∷ rest) h f =
      let (t1, g, r) = apply_runs-first t (some t') es rest f in
      let (u1, g', h1) = apply_all-SameTable key t u t1 es h g in
      let (u', r', h') = apply_runs-SameTable t1 u1 t' rest h1 r in
      (u', apply_runs-cons (some u) (some u1) es rest g' ∙ r', h')

  -- What a run of transactions leaves can be split behind any of them.
  pub apply_runs-split :
      (t t' : Table V) (xs ys : List (List (Entry V)))
      → apply_runs key (some t) (xs ++ ys) ≡ ok (some t')
      → (t1 : Table V) × (apply_runs key (some t) xs ≡ ok (some t1))
        × (apply_runs key (some t1) ys ≡ ok (some t'))
  unfolding apply_runs
  apply_runs-split t t' [] ys f = (t, refl, f)
  apply_runs-split t t' (es ∷ xs) ys f =
      let (t1, g, r) = apply_runs-first t (some t') es (xs ++ ys) f in
      let (t2, p, q) = apply_runs-split t1 t' xs ys r in
      (t2, apply_runs-cons (some t) (some t1) es xs g ∙ p, q)

  -- Applying the transaction to the table leaves the entries that are there.
  abbrev pub ChangesNothing : List (Entry V) → Table V → Type 0
  ChangesNothing es t =
      (u : Table V) × (apply_all key (some t) es ≡ ok (some u)) × SameTable key u t

  -- Applying the transaction again over what it left changes nothing.
  abbrev pub IsSettled : List (Entry V) → Type 0
  IsSettled es = (t t' : Table V) → apply_all key (some t) es ≡ ok (some t') → ChangesNothing es t'

  put_again : (t : Table V) (k : String) (v : V) → SameTable key (put (put t k v) k v) (put t k v)
  put_again t k v j = ground (arith, get-put (put t k v) k j v, get-put t k j v)

  delete_again :
      (t : Table V) (k : String)
      → SameTable key (GoMap.delete (GoMap.delete t k) k) (GoMap.delete t k)
  delete_again t k j = ground (arith, get-delete (GoMap.delete t k) k j, get-delete t k j)

  move_again :
      (t : Table V) (old k : String) (v : V)
      → SameTable key
          (put (GoMap.delete (put (GoMap.delete t old) k v) old) k v)
          (put (GoMap.delete t old) k v)
  move_again t old k v j = ground (
    arith,
    get-put (GoMap.delete (put (GoMap.delete t old) k v) old) k j v,
    get-delete (put (GoMap.delete t old) k v) old j,
    get-put (GoMap.delete t old) k j v,
    get-delete t old j,
  )

  -- The transactions that the methods of Store write.
  pub add-IsSettled : (e : V) → IsSettled (add e ∷ [])
  unfolding apply_all apply
  add-IsSettled e t t' f =
      subst (ChangesNothing (add e ∷ [])) (ok_some key f)
        (put (put t (key e) e) (key e) e, refl, put_again t (key e) e)

  pub delete-IsSettled : (k : String) → IsSettled (delete k ∷ [])
  unfolding apply_all apply
  delete-IsSettled k t t' f =
      subst (ChangesNothing (delete k ∷ [])) (ok_some key f)
        (GoMap.delete (GoMap.delete t k) k, refl, delete_again t k)

  pub move-IsSettled : (old : String) (e : V) → IsSettled (delete old ∷ add e ∷ [])
  unfolding apply_all apply
  move-IsSettled old e t t' f = subst (ChangesNothing (delete old ∷ add e ∷ [])) (ok_some key f) (
    put (GoMap.delete (put (GoMap.delete t old) (key e) e) old) (key e) e,
    refl,
    move_again t old (key e) e,
  )

  has-put_self : (t : Table V) (k : String) (v : V) → has (put t k v) k ≡ true
  has-put_self t k v = ap is_some (get-put t k k v) ∙ rw (beq_refl k)

  apply-update_has :
      (t : Table V) (e : V)
      → has t (key e) ≡ true
      → apply key (some t) (update e) ≡ ok (some (put t (key e) e))
  unfolding apply
  apply-update_has t e h = rw h

  pub update-IsSettled : (e : V) → IsSettled (update e ∷ [])
  unfolding apply_all
  update-IsSettled e t t' f =
      let (t1, g, r) = apply_all-first key t (some t') (update e) [] f in
      let q = (apply-update key t t1 e g).1 in
      subst (ChangesNothing (update e ∷ [])) (q ∙ ok_some key r) (
        put (put t (key e) e) (key e) e,
        apply_all-cons key (some (put t (key e) e)) _ (update e) []
            (apply-update_has (put t (key e) e) e (has-put_self t (key e) e)),
        put_again t (key e) e,
      )
