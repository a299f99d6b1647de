-- ===== src/Journal/Store/Replay.antt =====
-- load against the replay of the whole journal.
use super.Prelude.{
  ℕ, zero, suc, ◌+◌, ◌^◌, ◌≤◌, ◌<◌, ◌≡◌, refl, sym, ◌∙◌, ap, subst, true, Option, none, some, List,
  [], ◌∷◌, ◌++◌, String, arith,
}
use super.Prelude.{
  nat_eq, Bool-cases, string_eq, length, length-append, ◌==◌, if◌then◌else◌, is_some, ltb, ◌⊎◌, inl,
  inr,
}
use super.Prelude.Result.{Result, ok, Result-cases}
use super.GoMap
use super.GoMap.{Map, get, has, put, get-put, get-delete}
use super.Journal.Queue.{
  JournalId, Queue, Error, read_tail, open_range, read_range, read_from, load_entry, or_missing,
}
use super.Journal.Store.{Entry, add, update, delete, Table, apply, apply_all}

-- The entries that follow position `c` are those of the list.
abbrev pub Segment : {T : Type 0} → Queue T → ℕ → List T → Type 0
Segment q c [] = Unit {0}
Segment q c (t ∷ ts) = (get q.entries (c + 1) ≡ some t) × Segment q (c + 1) ts

-- The journal holds exactly these entries, from position 1 to HEAD.
pub record IsLog {T : Type 0} (q : Queue T) (ts : List T) : Type 0 where
  pub head : q.head ≡ some (length ts)
  pub base : JournalId
  pub tail : q.tail ≡ some (1, base)
  pub bounded : length ts < 2 ^ 64
  pub entries : Segment q 0 ts

lt_test : (c h : ℕ) → c < h → ltb c h ≡ true
lt_test c h e = ground arith

load_entry-some :
    {T : Type 0} (q : Queue T) (i : ℕ) (t : T) → get q.entries i ≡ some t → load_entry q i ≡ ok t
unfolding load_entry
load_entry-some q i t e = rw e

read_stop : {T : Type 0} (fuel : ℕ) (q : Queue T) (c h : ℕ) → c ≡ h → read_from fuel q c h ≡ ok []
unfolding read_from
read_stop zero q c h e = refl
read_stop (suc fuel) q c h e = ground arith

pub read_from-Segment :
    {T : Type 0} (fuel : ℕ) (q : Queue T) (c h : ℕ) (ts : List T)
    → Segment q c ts
    → c + length ts ≡ h
    → length ts ≤ fuel
    → read_from fuel q c h ≡ ok ts
unfolding read_from
read_from-Segment fuel q c h [] s e f = read_stop fuel q c h (omega arith)
read_from-Segment zero q c h (t ∷ ts) s e f = absurd (omega arith)
read_from-Segment (suc fuel) q c h (t ∷ ts) s e f =
    rw (lt_test c h (omega arith), read_from)
      (rw (load_entry-some q (c + 1) t s.0)
        (rw (read_from-Segment fuel q (c + 1) h ts s.1 (omega arith) (omega arith))))

Segment-drop :
    {T : Type 0} (q : Queue T) (c : ℕ) (xs ys : List T)
    → Segment q c (xs ++ ys)
    → Segment q (c + length xs) ys
Segment-drop q c [] ys s = subst (λ n. Segment q n ys) (omega arith) s
Segment-drop q c (x ∷ xs) ys s =
    subst (λ n. Segment q n ys) (omega arith) (Segment-drop q (c + 1) xs ys s.1)

read_range-Segment :
    {T : Type 0} (q : Queue T) (xs ys : List T) (tail : JournalId)
    → IsLog q (xs ++ ys)
    → tail ≡ length xs + 1
    → read_range q (length (xs ++ ys)) tail ≡ ok ys
unfolding read_range
read_range-Segment q xs ys tail h e =
    ap (λ c. read_from (length (xs ++ ys)) q c (length (xs ++ ys)))
      (omega (arith, length-append {0} xs ys, h.bounded))
    ∙ read_from-Segment (length (xs ++ ys)) q (length xs) (length (xs ++ ys)) ys
        (subst (λ n. Segment q n ys) (omega arith) (Segment-drop q 0 xs ys h.entries))
        (sym (length-append xs ys)) (omega (arith, length-append {0} xs ys))

-- Opening the journal behind the entries `xs` returns the entries `ys`.
pub open_range-Segment :
    {T : Type 0} (q : Queue T) (xs ys : List T) (tail : JournalId)
    → IsLog q (xs ++ ys)
    → 0 < length (xs ++ ys)
    → ((tail ≡ 0) × (length xs ≡ 0)) ⊎ (tail ≡ length xs + 1)
    → open_range q (length (xs ++ ys)) tail ≡ ok ys
unfolding open_range read_tail or_missing
open_range-Segment q xs ys tail h ne (inl (e, f)) =
    rw (e, h.tail) (ground (arith, read_range-Segment q xs ys 1 h (omega arith)))
open_range-Segment q xs ys tail h ne (inr e) = ground (arith, read_range-Segment q xs ys tail h e)

module _ {V : Type 0} (key : V → String) where
  -- Two tables with the same entries.
  abbrev pub SameTable : Table V → Table V → Type 0
  SameTable t u = (k : String) → get t k ≡ get u k

  put-SameTable :
      (t u : Table V) (x : String) (v : V) → SameTable t u → SameTable (put t x v) (put u x v)
  put-SameTable t u x v h k =
      get-put t x k v ∙ ap (λ o. if x == k then some v else o) (h k) ∙ sym (get-put u x k v)

  delete-SameTable :
      (t u : Table V) (x : String) → SameTable t u → SameTable (GoMap.delete t x) (GoMap.delete u x)
  delete-SameTable t u x h k =
      get-delete t x k ∙ ap (λ o. if x == k then none else o) (h k) ∙ sym (get-delete u x k)

  pub ok_some :
      {t u : Table V}
      → ◌≡◌ {A = Result Error (Option (Table V))} (ok (some t)) (ok (some u))
      → t ≡ u
  ok_some e = cc

  pub apply-update :
      (t t' : Table V) (e : V)
      → apply key (some t) (update e) ≡ ok (some t')
      → (has t (key e) ≡ true) × (put t (key e) e ≡ t')
  unfolding apply
  apply-update t t' e f = elim (Bool-cases (has t (key e))) [
    | inl h ↦ (h, ok_some (rw h at f))
    | inr h ↦ cc (rw h at f)
  ]

  -- A run that succeeds over a table succeeds over one with the same entries, and leaves the same.
  pub apply-SameTable :
      (t u t' : Table V) (e : Entry V)
      → SameTable t u
      → apply key (some t) e ≡ ok (some t')
      → (u' : Table V) × (apply key (some u) e ≡ ok (some u')) × SameTable t' u'
  unfolding apply
  apply-SameTable t u t' (add e) h f = (
    put u (key e) e,
    refl,
    subst (λ x. SameTable x (put u (key e) e)) (ok_some f) (put-SameTable t u (key e) e h),
  )
  apply-SameTable t u t' (update e) h f =
      let (g, q) = apply-update t t' e f in
      (
        put u (key e) e,
        rw (sym (ap is_some (h (key e))) ∙ g),
        subst (λ x. SameTable x (put u (key e) e)) q (put-SameTable t u (key e) e h),
      )
  apply-SameTable t u t' (delete x) h f = (
    GoMap.delete u x,
    refl,
    subst (λ y. SameTable y (GoMap.delete u x)) (ok_some f) (delete-SameTable t u x h),
  )

  -- Applying never turns a table into a nil map.
  pub apply-table :
      (t : Table V) (e : Entry V) (r : Option (Table V))
      → apply key (some t) e ≡ ok r
      → (t' : Table V) × (r ≡ some t')
  unfolding apply
  apply-table t (add e) r f = (put t (key e) e, cc)
  apply-table t (update e) r f = (put t (key e) e, ground arith)
  apply-table t (delete k) r f = (GoMap.delete t k, cc)

  pub apply_all-cons :
      (t t1 : Option (Table V)) (e : Entry V) (es : List (Entry V))
      → apply key t e ≡ ok t1
      → apply_all key t (e ∷ es) ≡ apply_all key t1 es
  unfolding apply_all
  apply_all-cons t t1 e es f = rw (f, apply_all)

  pub apply_all-first :
      (t : Table V) (r : Option (Table V)) (e : Entry V) (es : List (Entry V))
      → apply_all key (some t) (e ∷ es) ≡ ok r
      → (t1 : Table V) × (apply key (some t) e ≡ ok (some t1)) × (apply_all key (some t1) es ≡ ok r)
  unfolding apply_all
  apply_all-first t r e es f = elim (Result-cases (apply key (some t) e)) [
    | inr (x, g) ↦ cc (rw (g, apply_all) at f)
    | inl (r1, g) ↦
        let (t1, q) = apply-table t e r1 g in
        (t1, g ∙ ap ok q, ap (λ y. apply_all key y es) (sym q) ∙ (rw (g, apply_all) at f))
  ]

  pub apply_all-SameTable :
      (t u : Table V) (t' : Table V) (es : List (Entry V))
      → SameTable t u
      → apply_all key (some t) es ≡ ok (some t')
      → (u' : Table V) × (apply_all key (some u) es ≡ ok (some u')) × SameTable t' u'
  unfolding apply_all
  apply_all-SameTable t u t' [] h f = (u, refl, subst (λ x. SameTable x u) (ok_some f) h)
  apply_all-SameTable t u t' (e ∷ es) h f =
      let (t1, g, r) = apply_all-first t (some t') e es f in
      let (u1, g', h1) = apply-SameTable t u t1 e h g in
      let (u', r', h') = apply_all-SameTable t1 u1 t' es h1 r in
      (u', apply_all-cons (some u) (some u1) e es g' ∙ r', h')
