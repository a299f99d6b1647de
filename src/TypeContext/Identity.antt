-- ===== src/TypeContext/Identity.antt =====
-- In a type context each type has one identity.
use super.Prelude.{
  ℕ, zero, suc, ◌-◌, ◌≤◌, ◌≡◌, ◌⊎◌, refl, sym, ◌∙◌, ap, ap₂, subst, true, false, Option, none, some,
  inl, inr, List, [], ◌∷◌, ◌++◌, arith,
}
use super.Prelude.{◌==◌, if◌then◌else◌, ltb, length, Bool-cases, Option-cases}
use super.GoMap.{get, put, get-put}
use super.Types.{list_eq, list_beq, list_beq_iff}
use super.TypeContext.{
  Node, Kind, kind_eq, kind_beq, kind_beq_iff, Context, next_id, id_type_complex, nth, lookup_type,
  enter,
}
use super.TypeContext.Key.{kind_of, key_of, IsSmall, key_of-injective}

-- The maps and byID say the same.
pub record IsContext (c : Context) : Type 0 where
  pub found :
      (kind : Kind) (key : List ℕ) (id : ℕ)
      → get (c.tables kind) key ≡ some id
      → (n : Node) × (lookup_type c id ≡ some n) × (kind_of n ≡ kind) × (key_of n ≡ key)
  pub kept :
      (id : ℕ) (n : Node)
      → lookup_type c id ≡ some n
      → get (c.tables (kind_of n)) (key_of n) ≡ some id
  pub small : (id : ℕ) (n : Node) → lookup_type c id ≡ some n → IsSmall n

-- What a lookup of the type of the node `n` in the context `c` returns.
pub record Interned (c : Context) (n : Node) (id : ℕ) (c' : Context) : Type 0 where
  pub context : IsContext c'
  pub node : lookup_type c' id ≡ some n
  pub stays : (i : ℕ) (m : Node) → lookup_type c i ≡ some m → lookup_type c' i ≡ some m
  pub only : (i : ℕ) → lookup_type c' i ≡ some n → i ≡ id

some-injective : {A : Type 0} {a b : A} → ◌≡◌ {A = Option A} (some a) (some b) → a ≡ b
some-injective e = cc e

nth_old :
    {A : Type 0} (xs : List A) (x y : A) (i : ℕ)
    → nth xs i ≡ some y
    → nth (xs ++ (x ∷ [])) i ≡ some y
nth_old [] x y i e = cc e
nth_old (z ∷ xs) x y zero e = e
nth_old (z ∷ xs) x y (suc i) e = nth_old xs x y i e

nth_new : {A : Type 0} (xs : List A) (x : A) → nth (xs ++ (x ∷ [])) (length xs) ≡ some x
nth_new [] x = refl
nth_new (z ∷ xs) x = nth_new xs x

nth_either :
    {A : Type 0} (xs : List A) (x y : A) (i : ℕ)
    → nth (xs ++ (x ∷ [])) i ≡ some y
    → (nth xs i ≡ some y) ⊎ ((i ≡ length xs) × (x ≡ y))
nth_either [] x y zero e = inr (refl, cc e)
nth_either [] x y (suc i) e = cc e
nth_either (z ∷ xs) x y zero e = inl e
nth_either (z ∷ xs) x y (suc i) e = elim (nth_either xs x y i e) [
  | inl f ↦ inl f
  | inr (f, g) ↦ inr (ap suc f, g)
]

-- A found type.
pub Interned-before :
    (c : Context) (n : Node) (id : ℕ)
    → IsContext c
    → IsSmall n
    → get (c.tables (kind_of n)) (key_of n) ≡ some id
    → Interned c n id c
Interned-before c n id h s e =
    let (m, f, k, l) = h.found (kind_of n) (key_of n) id e in
    let q : m ≡ n = key_of-injective m n (h.small id m f) s k l in
    record {
      context = h;
      node = f ∙ ap some q;
      stays = λ i x y. y;
      only = λ i y. some-injective (sym (h.kept i n y) ∙ e);
    }

-- The context behind an entry.
abbrev entered : Context → Node → Context
entered c n = record c {
  by_id = c.by_id ++ (n ∷ []);
  tables =
      λ k. if k == kind_of n then put (c.tables (kind_of n)) (key_of n) (next_id c) else c.tables k;
}

lookup_type_below : (c : Context) (i : ℕ) → ltb i id_type_complex ≡ true → lookup_type c i ≡ none
unfolding lookup_type
lookup_type_below c i t = rw t refl

lookup_type_at :
    (c : Context) (i : ℕ)
    → ltb i id_type_complex ≡ false
    → lookup_type c i ≡ nth c.by_id (i - id_type_complex)
unfolding lookup_type
lookup_type_at c i t = rw t refl

module _ (c : Context) (n : Node) where
  lookup_type_old :
      (i : ℕ) (m : Node) → lookup_type c i ≡ some m → lookup_type (entered c n) i ≡ some m
  lookup_type_old i m e = elim (Bool-cases (ltb i id_type_complex)) [
    | inl t ↦ absurd (cc (lookup_type_below c i t, e))
    | inr t ↦
        lookup_type_at (entered c n) i t
        ∙ nth_old c.by_id n m (i - id_type_complex) (sym (lookup_type_at c i t) ∙ e)
  ]

  lookup_type_new : lookup_type (entered c n) (next_id c) ≡ some n
  lookup_type_new =
      let t : ltb (next_id c) id_type_complex ≡ false = ground arith in
      let i : next_id c - id_type_complex ≡ length c.by_id = omega arith in
      lookup_type_at (entered c n) (next_id c) t
      ∙ ap (nth (c.by_id ++ (n ∷ []))) i
      ∙ nth_new c.by_id n

  lookup_type_either :
      (i : ℕ) (m : Node)
      → lookup_type (entered c n) i ≡ some m
      → (lookup_type c i ≡ some m) ⊎ ((i ≡ next_id c) × (n ≡ m))
  lookup_type_either i m e = elim (Bool-cases (ltb i id_type_complex)) [
    | inl t ↦ absurd (cc (lookup_type_below (entered c n) i t, e))
    | inr t ↦
        let h : 30 ≤ i = ground arith in
        elim (nth_either c.by_id n m (i - id_type_complex)
          (sym (lookup_type_at (entered c n) i t) ∙ e)) [
            | inl f ↦ inl (lookup_type_at c i t ∙ f)
            | inr (f, g) ↦ inr (omega arith, g)
          ]
  ]

  -- The maps behind the entry.
  table_same :
      (kind : Kind) (key : List ℕ)
      → kind ≡ kind_of n
      → key_of n ≡ key
      → get ((entered c n).tables kind) key ≡ some (next_id c)
  table_same kind key p q =
      let k : kind_beq kind (kind_of n) ≡ true = (kind_beq_iff kind (kind_of n)).1 p in
      let l : list_beq (key_of n) key ≡ true = (list_beq_iff (key_of n) key).1 q in
      rw k (get-put (c.tables (kind_of n)) (key_of n) key (next_id c) ∙ rw l refl)

  table_other :
      (kind : Kind) (key : List ℕ)
      → ((kind ≡ kind_of n) → (key_of n ≡ key) → ⊥)
      → get ((entered c n).tables kind) key ≡ get (c.tables kind) key
  table_other kind key p = elim (Bool-cases (kind_beq kind (kind_of n))) [
    | inl k ↦
        let q : kind ≡ kind_of n = (kind_beq_iff kind (kind_of n)).0 k in
        let g = get-put (c.tables (kind_of n)) (key_of n) key (next_id c) in
        elim (Bool-cases (list_beq (key_of n) key)) [
          | inl l ↦ absurd (p q ((list_beq_iff (key_of n) key).0 l))
          | inr l ↦ rw k (g ∙ rw l (ap (λ z. get (c.tables z) key) (sym q)))
        ]
    | inr k ↦ rw k refl
  ]

  -- Where an entry is found behind the entry of a node that has none.
  table_either :
      (kind : Kind) (key : List ℕ)
      → ((kind ≡ kind_of n) × (key_of n ≡ key))
        ⊎ (get ((entered c n).tables kind) key ≡ get (c.tables kind) key)
  table_either kind key = elim (Bool-cases (kind_beq kind (kind_of n))) [
    | inl k ↦ elim (Bool-cases (list_beq (key_of n) key)) [
      | inl l ↦ inl ((kind_beq_iff kind (kind_of n)).0 k, (list_beq_iff (key_of n) key).0 l)
      | inr l ↦ inr (table_other kind key (λ p q. cc ((list_beq_iff (key_of n) key).1 q, l)))
    ]
    | inr k ↦ inr (table_other kind key (λ p q. cc ((kind_beq_iff kind (kind_of n)).1 p, k)))
  ]

  entered-IsContext :
      IsContext c
      → IsSmall n
      → get (c.tables (kind_of n)) (key_of n) ≡ none
      → IsContext (entered c n)
  entered-IsContext h s e = record {
    found = λ kind key id f. elim (table_either kind key) [
      | inl (p, q) ↦
          let r : next_id c ≡ id = some-injective (sym (table_same kind key p q) ∙ f) in
          (n, subst (λ i. lookup_type (entered c n) i ≡ some n) r lookup_type_new, sym p, q)
      | inr g ↦
          let (m, x, y, z) = h.found kind key id (sym g ∙ f) in (m, lookup_type_old id m x, y, z)
    ];
    kept = λ id m f. elim (lookup_type_either id m f) [
      | inl g ↦
          table_other (kind_of m) (key_of m) (λ p q.
            let z = h.kept id m g in
            let w : get (c.tables (kind_of n)) (key_of n) ≡ some id =
              ap₂ (λ k l. get (c.tables k) l) (sym p) q ∙ z in
            cc (w, e))
          ∙ h.kept id m g
      | inr (i, q) ↦
          table_same (kind_of m) (key_of m) (ap kind_of (sym q)) (ap key_of q) ∙ ap some (sym i)
    ];
    small = λ id m f. elim (lookup_type_either id m f) [
      | inl g ↦ h.small id m g
      | inr (i, q) ↦ subst IsSmall q s
    ];
  }

  Interned-new :
      IsContext c
      → IsSmall n
      → get (c.tables (kind_of n)) (key_of n) ≡ none
      → Interned c n (next_id c) (entered c n)
  Interned-new h s e = record {
    context = entered-IsContext h s e;
    node = lookup_type_new;
    stays = lookup_type_old;
    only = λ i f. elim (lookup_type_either i n f) [
      | inl g ↦ absurd (cc (h.kept i n g, e))
      | inr (q, r) ↦ q
    ];
  }

-- To enter a node gives it its one identity, and moves no other.
pub enter-Interned :
    (c : Context) (n : Node)
    → IsContext c
    → IsSmall n
    → let r = enter (kind_of n) (key_of n) n c in Interned c n r.0 r.1
unfolding enter
enter-Interned c n h s = elim (Option-cases (get (c.tables (kind_of n)) (key_of n))) [
  | inl e ↦ rw (e, enter) (Interned-new c n h s e)
  | inr (id, e) ↦ rw (e, enter) (Interned-before c n id h s e)
]
