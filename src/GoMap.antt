-- ===== src/GoMap.antt =====
-- Go's built-in maps, as lists of pairs in which a key stands once. A Go program ranges over a map
-- in no fixed order; a map here is ranged over in the order of its list, and every theorem holds
-- for each list that represents the map, so for each order.
use super.Prelude.{◌≡◌, refl, Bool, Option, none, some, List, [], ◌∷◌, arith}
use super.Prelude.{Eq, ◌==◌, if◌then◌else◌, is_some, or_else, elem, beq_refl}

abbrev pub Map : Type 0 → Type 0 → Type 0
Map K V = List (K × V)

module _ {K V : Type 0} where
  unfoldable pub keys : Map K V → List K
  keys [] = []
  keys ((k, v) ∷ m) = k ∷ keys m

  unfoldable pub values : Map K V → List V
  values [] = []
  values ((k, v) ∷ m) = v ∷ values m

module _ {K V : Type 0} ⦃e : Eq K⦄ where
  -- m[k]
  unfoldable pub get : Map K V → K → Option V
  get [] k = none
  get ((j, v) ∷ m) k = if j == k then some v else get m k

  -- _, ok := m[k]
  abbrev pub has : Map K V → K → Bool
  has m k = is_some (get m k)

  -- delete(m, k)
  unfoldable pub delete : Map K V → K → Map K V
  delete [] k = []
  delete ((j, v) ∷ m) k = let rest = delete m k in if j == k then rest else (j, v) ∷ rest

  -- m[k] = v
  unfoldable pub put : Map K V → K → V → Map K V
  unfolding delete
  put m k v = (k, v) ∷ delete m k

  -- maps.Copy(dst, src)
  unfoldable pub copy_into : Map K V → Map K V → Map K V
  unfolding put
  copy_into dst [] = dst
  copy_into dst ((k, v) ∷ src) = copy_into (put dst k v) src

  -- `for _, k := range ks { delete(m, k) }`
  unfoldable pub delete_each : Map K V → List K → Map K V
  unfolding delete
  delete_each m [] = m
  delete_each m (k ∷ ks) = delete_each (delete m k) ks

  -- Each key stands once.
  abbrev pub IsMap : Map K V → Type 0
  IsMap [] = Unit {0}
  IsMap ((k, v) ∷ m) = (get m k ≡ none) × IsMap m

  pub get-delete : (m : Map K V) (k j : K) → get (delete m k) j ≡ (if k == j then none else get m j)
  unfolding get delete
  get-delete [] k j = ground arith
  get-delete ((i, v) ∷ m) k j =
      ground (arith, get-delete m k j, e.beq_iff i k, e.beq_iff i j, e.beq_iff k j)

  pub get-put :
      (m : Map K V) (k j : K) (v : V) → get (put m k v) j ≡ (if k == j then some v else get m j)
  unfolding get put
  get-put m k j v = ground (arith, get-delete m k j)

  pub delete-IsMap : (m : Map K V) (k : K) → IsMap m → IsMap (delete m k)
  unfolding delete
  delete-IsMap [] k h = tt
  delete-IsMap ((j, v) ∷ m) k h = ground (arith, delete-IsMap m k, get-delete m k j)

  pub put-IsMap : (m : Map K V) (k : K) (v : V) → IsMap m → IsMap (put m k v)
  unfolding put
  put-IsMap m k v h = ground (arith, delete-IsMap m k h, get-delete m k k, beq_refl k)

  pub copy_into-IsMap : (dst src : Map K V) → IsMap dst → IsMap (copy_into dst src)
  unfolding copy_into
  copy_into-IsMap dst [] h = h
  copy_into-IsMap dst ((k, v) ∷ src) h = copy_into-IsMap (put dst k v) src (put-IsMap dst k v h)

  pub get-copy_into :
      (dst src : Map K V) (j : K)
      → IsMap src
      → get (copy_into dst src) j ≡ or_else (get src j) (get dst j)
  unfolding copy_into get
  get-copy_into dst [] j h = refl
  get-copy_into dst ((k, v) ∷ src) j h =
      ground (arith, get-copy_into (put dst k v) src j h.1, get-put dst k j v, e.beq_iff k j, h.0)

  pub elem-keys : (m : Map K V) (k : K) → elem k (keys m) ≡ has m k
  unfolding keys get
  elem-keys [] k = refl
  elem-keys ((j, v) ∷ m) k = ground (arith, elem-keys m k)

  pub get-delete_each :
      (m : Map K V) (ks : List K) (j : K)
      → get (delete_each m ks) j ≡ (if elem j ks then none else get m j)
  unfolding delete_each
  get-delete_each m [] j = refl
  get-delete_each m (k ∷ ks) j = ground (arith, get-delete_each (delete m k) ks j, get-delete m k j)

  pub delete_each-IsMap : (m : Map K V) (ks : List K) → IsMap m → IsMap (delete_each m ks)
  unfolding delete_each
  delete_each-IsMap m [] h = h
  delete_each-IsMap m (k ∷ ks) h = delete_each-IsMap (delete m k) ks (delete-IsMap m k h)
