-- ===== src/Types.antt =====
-- The types and values of the data model: complex.go, type.go, primitive.go and value.go.
use super.Prelude.{
  ℕ, ◌/◌, ◌%◌, ◌^◌, ◌≡◌, refl, Bool, true, false, ◌&&◌, Option, none, some, List, [], ◌∷◌, String,
  ◌↔◌, arith,
}
use super.Prelude.{Eq, nat_eq, nat_beq_iff, ◌==◌}

-- The types. A primitive one is named by its ID.
mutual
  pub data Typ : Type 0 where
    primitive : ℕ → Typ
    array set error_of : Typ → Typ
    map_of : Typ → Typ → Typ
    record_of : Fields → Typ
    union : Types → Typ
    enum : List String → Typ
    named : String → Typ → Typ

  -- The fields of a record, in order.
  pub data Fields : Type 0 where
    no_fields : Fields
    field : String → Typ → Fields → Fields

  -- The types of a union, in order.
  pub data Types : Type 0 where
    no_types : Types
    type_and : Typ → Types → Types

-- binary.LittleEndian.PutUint32
abbrev pub le32 : ℕ → List ℕ
le32 n = n % 256 ∷ (n / 2 ^ 8) % 256 ∷ (n / 2 ^ 16) % 256 ∷ (n / 2 ^ 24) % 256 ∷ []

-- TypeString
abbrev pub string_type : Typ
string_type = primitive 25

-- The function TypeUnder.
unfoldable pub type_under : Typ → Typ
type_under (named n t) = type_under t
type_under t = t

-- The function IsContainerType.
unfoldable pub is_container_type : Typ → Bool
is_container_type (named n t) = is_container_type t
is_container_type (set t) = true
is_container_type (array t) = true
is_container_type (record_of f) = true
is_container_type (union t) = true
is_container_type (map_of k v) = true
is_container_type t = false

-- The function InnerType; `none` is nil.
unfoldable pub inner_type : Typ → Option Typ
unfolding type_under
inner_type t = elim (type_under t) [ set u ↦ some u | array u ↦ some u | u ↦ none ]

-- A slice of bytes, which is `none` where it is nil.
abbrev pub Bytes : Type 0
Bytes = Option (List ℕ)

-- bytes.Equal takes a nil slice for an empty one.
abbrev pub content : Bytes → List ℕ
content none = []
content (some b) = b

pub list_beq : List ℕ → List ℕ → Bool
list_beq [] [] = true
list_beq [] (y ∷ ys) = false
list_beq (x ∷ xs) [] = false
list_beq (x ∷ xs) (y ∷ ys) = (x == y) && list_beq xs ys

pub list_beq_iff : (xs ys : List ℕ) → (list_beq xs ys ≡ true) ↔ (xs ≡ ys)
unfolding list_beq
list_beq_iff [] [] = (λ h. refl, λ h. refl)
list_beq_iff [] (y ∷ ys) = (λ h. cc, λ h. cc)
list_beq_iff (x ∷ xs) [] = (λ h. cc, λ h. cc)
list_beq_iff (x ∷ xs) (y ∷ ys) = (
  λ h. ground (arith, nat_beq_iff x y, list_beq_iff xs ys),
  λ h. ground (arith, nat_beq_iff x y, list_beq_iff xs ys),
)

instance abbrev pub list_eq : Eq (List ℕ)
list_eq = record { beq = list_beq; beq_iff = list_beq_iff }

-- A Value that has its bytes in the encoded form.
pub record Value : Type 0 where
  pub typ : Typ
  pub bytes : Bytes

-- "missing" and "quiet"
abbrev pub missing_text : List ℕ
missing_text = 109 ∷ 105 ∷ 115 ∷ 115 ∷ 105 ∷ 110 ∷ 103 ∷ []

abbrev pub quiet_text : List ℕ
quiet_text = 113 ∷ 117 ∷ 105 ∷ 101 ∷ 116 ∷ []

unfoldable pub is_null : Value → Bool
is_null v = elim v.bytes [ none ↦ true | some b ↦ false ]

-- The method IsError looks below a name.
unfoldable pub is_error : Value → Bool
unfolding type_under
is_error v = elim (type_under v.typ) [ error_of t ↦ true | t ↦ false ]

-- A value of the type error(string), itself not named, with the text.
unfoldable pub is_text_error : List ℕ → Value → Bool
unfolding list_beq
is_text_error text v = elim v.typ [
  | error_of u ↦ elim u [ primitive n ↦ (n == 25) && list_beq (content v.bytes) text | w ↦ false ]
  | t ↦ false
]

unfoldable pub is_missing : Value → Bool
unfolding is_text_error
is_missing = is_text_error missing_text

unfoldable pub is_quiet : Value → Bool
unfolding is_text_error
is_quiet = is_text_error quiet_text
