-- ===== src/TypeContext/Key.antt =====
-- The keys of the type context tell nodes of one kind apart.
use super.Prelude.{ℕ, ◌/◌, ◌%◌, ◌^◌, ◌<◌, ◌≡◌, refl, ap, ap₂, List, [], ◌∷◌, ◌++◌, arith}
use super.Prelude.{length, All}
use super.Types.{le32}
use super.TypeContext.{
  Node, record_of, array, set, error_of, map_of, union, enum, named, Kind, recs, arrays, sets, maps,
  unions, enums, nameds, errors, record_key, types_key, symbols_key,
}

-- The map in which a node stands, and its key there.
abbrev pub kind_of : Node → Kind
kind_of (record_of fields) = recs
kind_of (array t) = arrays
kind_of (set t) = sets
kind_of (error_of t) = errors
kind_of (map_of k v) = maps
kind_of (union ts) = unions
kind_of (enum symbols) = enums
kind_of (named name t) = nameds

abbrev pub key_of : Node → List ℕ
key_of (record_of fields) = record_key fields
key_of (array t) = t ∷ []
key_of (set t) = t ∷ []
key_of (error_of t) = t ∷ []
key_of (map_of k v) = le32 k ++ le32 v
key_of (union ts) = types_key ts
key_of (enum symbols) = symbols_key symbols
key_of (named name t) = le32 (length name) ++ (name ++ le32 t)

-- IDs and lengths are below 2 ^ 32, so that the keys hold all of them.
abbrev pub Small : ℕ → Type 0
Small n = n < 2 ^ 32

abbrev pub IsSmall : Node → Type 0
IsSmall (record_of fields) = All (λ f. Small (length f.0) × Small f.1) fields
IsSmall (array t) = Small t
IsSmall (set t) = Small t
IsSmall (error_of t) = Small t
IsSmall (map_of k v) = Small k × Small v
IsSmall (union ts) = All Small ts
IsSmall (enum symbols) = All (λ s. Small (length s)) symbols
IsSmall (named name t) = Small (length name) × Small t

digits :
    (a b : ℕ)
    → Small a
    → Small b
    → a % 256 ≡ b % 256
    → (a / 2 ^ 8) % 256 ≡ (b / 2 ^ 8) % 256
    → (a / 2 ^ 16) % 256 ≡ (b / 2 ^ 16) % 256
    → (a / 2 ^ 24) % 256 ≡ (b / 2 ^ 24) % 256
    → a ≡ b
digits a b h k p q r s = omega arith

le32-append_injective :
    (a b : ℕ) (xs ys : List ℕ)
    → Small a
    → Small b
    → le32 a ++ xs ≡ le32 b ++ ys
    → (a ≡ b) × (xs ≡ ys)
le32-append_injective a b xs ys h k e = (digits a b h k (cc e) (cc e) (cc e) (cc e), cc e)

append_cancel :
    (xs ys us vs : List ℕ) → length xs ≡ length ys → xs ++ us ≡ ys ++ vs → (xs ≡ ys) × (us ≡ vs)
append_cancel [] [] us vs l e = (refl, e)
append_cancel [] (y ∷ ys) us vs l e = absurd (omega arith)
append_cancel (x ∷ xs) [] us vs l e = absurd (omega arith)
append_cancel (x ∷ xs) (y ∷ ys) us vs l e =
    let (p, q) = append_cancel xs ys us vs (omega arith) (cc e) in (ap₂ (λ h t. h ∷ t) (cc e) p, q)

-- A name with its length in front, and what follows.
name-append_injective :
    (m n xs ys : List ℕ)
    → Small (length m)
    → Small (length n)
    → le32 (length m) ++ (m ++ xs) ≡ le32 (length n) ++ (n ++ ys)
    → (m ≡ n) × (xs ≡ ys)
name-append_injective m n xs ys h k e =
    let (p, q) = le32-append_injective (length m) (length n) (m ++ xs) (n ++ ys) h k e in
    append_cancel m n xs ys p q

record_key-injective :
    (fs gs : List (List ℕ × ℕ))
    → IsSmall (record_of fs)
    → IsSmall (record_of gs)
    → record_key fs ≡ record_key gs
    → fs ≡ gs
unfolding record_key
record_key-injective [] [] h k e = refl
record_key-injective [] ((n, u) ∷ gs) h k e = cc e
record_key-injective ((m, t) ∷ fs) [] h k e = cc e
record_key-injective ((m, t) ∷ fs) ((n, u) ∷ gs) h k e =
    let (p, q) = name-append_injective m n _ _ h.0.0 k.0.0 e in
    let (r, s) = le32-append_injective t u (record_key fs) (record_key gs) h.0.1 k.0.1 q in
    let z = record_key-injective fs gs h.1 k.1 s in ap₂ (λ f l. f ∷ l) (ap₂ (λ a b. (a, b)) p r) z

types_key-injective :
    (ts us : List ℕ) → All Small ts → All Small us → types_key ts ≡ types_key us → ts ≡ us
unfolding types_key
types_key-injective [] [] h k e = refl
types_key-injective [] (u ∷ us) h k e = cc e
types_key-injective (t ∷ ts) [] h k e = cc e
types_key-injective (t ∷ ts) (u ∷ us) h k e =
    let (p, q) = le32-append_injective t u (types_key ts) (types_key us) h.0 k.0 e in
    ap₂ (λ f l. f ∷ l) p (types_key-injective ts us h.1 k.1 q)

symbols_key-injective :
    (ss rs : List (List ℕ))
    → IsSmall (enum ss)
    → IsSmall (enum rs)
    → symbols_key ss ≡ symbols_key rs
    → ss ≡ rs
unfolding symbols_key
symbols_key-injective [] [] h k e = refl
symbols_key-injective [] (r ∷ rs) h k e = cc e
symbols_key-injective (s ∷ ss) [] h k e = cc e
symbols_key-injective (s ∷ ss) (r ∷ rs) h k e =
    let (p, q) = name-append_injective s r _ _ h.0 k.0 e in
    ap₂ (λ f l. f ∷ l) p (symbols_key-injective ss rs h.1 k.1 q)

pub key_of-injective :
    (m n : Node) → IsSmall m → IsSmall n → kind_of m ≡ kind_of n → key_of m ≡ key_of n → m ≡ n
key_of-injective (record_of fs) (record_of gs) h k q e =
    ap record_of (record_key-injective fs gs h k e)
key_of-injective (array t) (array u) h k q e = cc e
key_of-injective (set t) (set u) h k q e = cc e
key_of-injective (error_of t) (error_of u) h k q e = cc e
key_of-injective (map_of t v) (map_of u w) h k q e =
    let (p, r) = le32-append_injective t u (le32 v) (le32 w) h.0 k.0 e in
    ap₂ map_of p (le32-append_injective v w [] [] h.1 k.1 (ap (λ l. l ++ []) r)).0
key_of-injective (union ts) (union us) h k q e = ap union (types_key-injective ts us h k e)
key_of-injective (enum ss) (enum rs) h k q e = ap enum (symbols_key-injective ss rs h k e)
key_of-injective (named m t) (named n u) h k q e =
    let (p, r) = name-append_injective m n (le32 t) (le32 u) h.0 k.0 e in
    ap₂ named p (le32-append_injective t u [] [] h.1 k.1 (ap (λ l. l ++ []) r)).0
key_of-injective m n h k q e = absurd (cc q)
