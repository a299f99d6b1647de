-- ===== src/TypeContext.antt =====
-- The type context, which gives each type one identity: context.go.
pub mod Key
pub mod Identity
pub mod Lookup
pub mod Examples
use super.Prelude.{
  ℕ, ◌+◌, zero, suc, ◌-◌, ◌≡◌, ◌↔◌, refl, sym, ◌∙◌, ap, Bool, true, false, ◌||◌, Option, none, some,
  inl, inr, List, [], ◌∷◌, ◌++◌, map, arith,
}
use super.Prelude.{Eq, nat_eq, ◌==◌, if◌then◌else◌, nat_beq_iff, length, elem, ltb}
use super.Prelude.Result.{Result, ok, err}
use super.GoMap.{Map, get, put}
use super.Types.{le32, list_eq}

-- A type is its TypeID: below 30 a primitive type, else 30 plus its position in byID. A node is what a
-- complex type consists of; a name is its bytes.
pub data Node : Type 0 where
  record_of : List (List ℕ × ℕ) → Node
  array set error_of : ℕ → Node
  map_of : ℕ → ℕ → Node
  union : List ℕ → Node
  enum : List (List ℕ) → Node
  named : List ℕ → ℕ → Node

-- The maps of a Context from keys to types.
pub data Kind : Type 0 where
  recs arrays sets maps unions enums nameds errors : Kind

abbrev number : Kind → ℕ
number recs = 0
number arrays = 1
number sets = 2
number maps = 3
number unions = 4
number enums = 5
number nameds = 6
number errors = 7

abbrev kind_at : ℕ → Kind
kind_at n =
    if n == 0
    then recs
    else (if n == 1
        then arrays
        else (if n == 2
            then sets
            else (if n == 3
                then maps
                else (if n == 4
                    then unions
                    else (if n == 5 then enums else (if n == 6 then nameds else errors))))))

kind_at-number : (k : Kind) → kind_at (number k) ≡ k
kind_at-number recs = refl
kind_at-number arrays = refl
kind_at-number sets = refl
kind_at-number maps = refl
kind_at-number unions = refl
kind_at-number enums = refl
kind_at-number nameds = refl
kind_at-number errors = refl

pub kind_beq : Kind → Kind → Bool
kind_beq a b = number a == number b

pub kind_beq_iff : (a b : Kind) → (kind_beq a b ≡ true) ↔ (a ≡ b)
unfolding kind_beq
kind_beq_iff a b = (
  λ h.
      sym (kind_at-number a)
      ∙ ap kind_at ((nat_beq_iff (number a) (number b)).0 h)
      ∙ kind_at-number b,
  λ h. (nat_beq_iff (number a) (number b)).1 (ap number h),
)

instance abbrev pub kind_eq : Eq Kind
kind_eq = record { beq = kind_beq; beq_iff = kind_beq_iff }

-- The struct Context, less the caches of encoded type values. A map whose key is a type has the key
-- of its ID alone.
pub record Context : Type 0 where
  pub by_id : List Node
  pub tables : Kind → Map (List ℕ) ℕ
  pub typedefs : Map (List ℕ) ℕ
  pub string_err : Option ℕ

-- IDTypeComplex and IDString
abbrev pub id_type_complex : ℕ
id_type_complex = 30

abbrev pub id_string : ℕ
id_string = 25

abbrev pub new_context : Context
new_context = record { by_id = []; tables = λ k. []; typedefs = []; string_err = none }

-- The method Reset leaves `string_err`.
unfoldable pub reset : Context → Context
reset c = record c { by_id = []; tables = λ k. []; typedefs = [] }

abbrev pub next_id : Context → ℕ
next_id c = id_type_complex + length c.by_id

abbrev pub nth : {A : Type 0} → List A → ℕ → Option A
nth [] n = none
nth (x ∷ xs) zero = some x
nth (x ∷ xs) (suc n) = nth xs n

-- The method LookupType for the ID of a complex type.
unfoldable pub lookup_type : Context → ℕ → Option Node
lookup_type c id = if ltb id id_type_complex then none else nth c.by_id (id - id_type_complex)

-- What the lookups do behind the computation of a key: the type is found, or entered.
unfoldable pub enter : Kind → List ℕ → Node → Context → ℕ × Context
unfolding get put
enter kind key node c = elim (get (c.tables kind) key) [
  | some id ↦ (id, c)
  | none ↦ (
    next_id c,
    record c {
      by_id = c.by_id ++ (node ∷ []);
      tables = λ k. if k == kind then put (c.tables kind) key (next_id c) else c.tables k;
    },
  )
]

-- The keys.
unfoldable pub record_key : List (List ℕ × ℕ) → List ℕ
record_key [] = []
record_key ((name, t) ∷ fields) = le32 (length name) ++ (name ++ (le32 t ++ record_key fields))

unfoldable pub types_key : List ℕ → List ℕ
types_key [] = []
types_key (t ∷ ts) = le32 t ++ types_key ts

unfoldable pub symbols_key : List (List ℕ) → List ℕ
symbols_key [] = []
symbols_key (symbol ∷ symbols) = le32 (length symbol) ++ (symbol ++ symbols_key symbols)

pub data Error : Type 0 where
  duplicate_field bad_type_name : Error

-- The function duplicateField, less the name that it finds.
unfoldable pub duplicate_field_in : List (List ℕ × ℕ) → Bool
duplicate_field_in [] = false
duplicate_field_in ((name, t) ∷ fields) =
    elem name (map (λ f. f.0) fields) || duplicate_field_in fields

unfoldable pub lookup_type_record : List (List ℕ × ℕ) → Context → Result Error (ℕ × Context)
unfolding get record_key enter duplicate_field_in
lookup_type_record fields c = elim (get (c.tables recs) (record_key fields)) [
  | some id ↦ ok (id, c)
  | none ↦
      if duplicate_field_in fields
      then err duplicate_field
      else ok (enter recs (record_key fields) (record_of fields) c)
]

unfoldable pub lookup_type_array : ℕ → Context → ℕ × Context
unfolding enter
lookup_type_array inner = enter arrays (inner ∷ []) (array inner)

unfoldable pub lookup_type_set : ℕ → Context → ℕ × Context
unfolding enter
lookup_type_set inner = enter sets (inner ∷ []) (set inner)

unfoldable pub lookup_type_map : ℕ → ℕ → Context → ℕ × Context
unfolding enter
lookup_type_map k v = enter maps (le32 k ++ le32 v) (map_of k v)

unfoldable pub lookup_type_enum : List (List ℕ) → Context → ℕ × Context
unfolding enter symbols_key
lookup_type_enum symbols = enter enums (symbols_key symbols) (enum symbols)

-- A new error(string) becomes the stringErr.
unfoldable pub lookup_type_error : ℕ → Context → ℕ × Context
unfolding enter get
lookup_type_error inner c =
    let r = enter errors (inner ∷ []) (error_of inner) c in
    elim (get (c.tables errors) (inner ∷ [])) [
      | some id ↦ r
      | none ↦ if inner == id_string then (r.0, record (r.1) { string_err = some r.0 }) else r
    ]

-- A stable sort, by insertion.
unfoldable pub insert : (ℕ → ℕ → Bool) → ℕ → List ℕ → List ℕ
insert less t [] = t ∷ []
insert less t (u ∷ us) = let rest = insert less t us in if less u t then u ∷ rest else t ∷ (u ∷ us)

unfoldable pub sort_types : (ℕ → ℕ → Bool) → List ℕ → List ℕ
unfolding insert
sort_types less [] = []
sort_types less (t ∷ ts) = insert less t (sort_types less ts)

-- `less` is the function CompareTypes, whether it is negative.
unfoldable pub lookup_type_union : (ℕ → ℕ → Bool) → List ℕ → Context → ℕ × Context
unfolding sort_types types_key enter
lookup_type_union less types =
    let sorted = sort_types less types in enter unions (types_key sorted) (union sorted)

-- `bad` tells a name that is not valid UTF-8 or that a primitive type has.
unfoldable pub lookup_type_named :
    (List ℕ → Bool) → List ℕ → ℕ → Context → Result Error (ℕ × Context)
unfolding enter put
lookup_type_named bad name inner c =
    let r = enter nameds (le32 (length name) ++ (name ++ le32 inner)) (named name inner) c in
    if bad name
    then err bad_type_name
    else ok (r.0, record (r.1) { typedefs = put c.typedefs name r.0 })

-- The method LookupTypeDef.
unfoldable pub lookup_type_def : List ℕ → Context → Option ℕ
unfolding get
lookup_type_def name c = get c.typedefs name

-- The method StringTypeError.
unfoldable pub string_type_error : Context → ℕ × Context
unfolding lookup_type_error
string_type_error c = elim c.string_err [ some id ↦ (id, c) | none ↦ lookup_type_error id_string c ]

-- The lookup of a type by what it consists of.
unfoldable pub lookup :
    (ℕ → ℕ → Bool) → (List ℕ → Bool) → Node → Context → Result Error (ℕ × Context)
unfolding lookup_type_record lookup_type_array lookup_type_set lookup_type_map lookup_type_enum
    lookup_type_error lookup_type_union lookup_type_named
lookup less bad (record_of fields) c = lookup_type_record fields c
lookup less bad (array t) c = ok (lookup_type_array t c)
lookup less bad (set t) c = ok (lookup_type_set t c)
lookup less bad (error_of t) c = ok (lookup_type_error t c)
lookup less bad (map_of k v) c = ok (lookup_type_map k v c)
lookup less bad (union ts) c = ok (lookup_type_union less ts c)
lookup less bad (enum symbols) c = ok (lookup_type_enum symbols c)
lookup less bad (named name t) c = lookup_type_named bad name t c
