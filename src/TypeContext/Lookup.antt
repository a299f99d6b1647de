-- ===== src/TypeContext/Lookup.antt =====
-- What the lookups of types return.
use super.Prelude.{
  ℕ, ◌-◌, ◌≡◌, refl, ap, Bool, true, false, Option, none, some, inl, inr, List, [], ◌∷◌,
}
use super.Prelude.{nat_eq, ◌==◌, if◌then◌else◌, ltb, All, Bool-cases, Option-cases}
use super.Prelude.Result.{ok}
use super.GoMap.{Map, get, put}
use super.Types.{list_eq}
use super.TypeContext.{
  Node, record_of, array, set, error_of, map_of, union, enum, named, recs, nameds, errors, Context,
  id_string, enter, Error, new_context, reset, string_type_error, id_type_complex, nth,
  duplicate_field, bad_type_name, duplicate_field_in, insert, sort_types, lookup_type,
  lookup_type_record, lookup_type_array, lookup_type_set, lookup_type_map, lookup_type_enum,
  lookup_type_error, lookup_type_union, lookup_type_named, lookup,
}
use super.TypeContext.Key.{key_of, Small, IsSmall}
use super.TypeContext.Identity.{IsContext, Interned, enter-Interned, Interned-before}

-- The context with other typedefs and another stringErr.
abbrev beside : Map (List ℕ) ℕ → Option ℕ → Context → Context
beside defs e c = record c { typedefs = defs; string_err = e }

beside-IsContext :
    (defs : Map (List ℕ) ℕ) (e : Option ℕ) (c : Context) → IsContext c → IsContext (beside defs e c)
unfolding lookup_type
beside-IsContext defs e c h = record { found = h.found; kept = h.kept; small = h.small }

beside-Interned :
    (defs : Map (List ℕ) ℕ) (e : Option ℕ) (c c' : Context) (n : Node) (id : ℕ)
    → Interned c n id c'
    → Interned c n id (beside defs e c')
unfolding lookup_type
beside-Interned defs e c c' n id r = record {
  context = beside-IsContext defs e c' r.context;
  node = r.node;
  stays = r.stays;
  only = r.only;
}

lookup_type_empty : (c : Context) (id : ℕ) → c.by_id ≡ [] → lookup_type c id ≡ none
unfolding lookup_type
lookup_type_empty c id e = elim (Bool-cases (ltb id id_type_complex)) [
  | inl t ↦ rw t refl
  | inr t ↦ rw t (ap (λ l. nth l (id - id_type_complex)) e)
]

nothing : (id : ℕ) (n : Node) → ¬ (lookup_type new_context id ≡ some n)
nothing id n e = cc (lookup_type_empty new_context id refl, e)

refused : (b : Bool) (e : Error) → (if b then some e else none) ≡ none → ¬ (b ≡ true)
refused b e r d = cc (r, d)

module _ (less : ℕ → ℕ → Bool) (bad : List ℕ → Bool) where
  -- The node that a lookup asks for: the types of a union are sorted.
  abbrev pub normal : Node → Node
  normal (union ts) = union (sort_types less ts)
  normal (record_of fields) = record_of fields
  normal (array t) = array t
  normal (set t) = set t
  normal (error_of t) = error_of t
  normal (map_of k v) = map_of k v
  normal (enum symbols) = enum symbols
  normal (named name t) = named name t

  -- The lookup fails only for these.
  abbrev pub refusal : Context → Node → Option Error
  refusal c (record_of fields) = if duplicate_field_in fields then some duplicate_field else none
  refusal c (named name t) = if bad name then some bad_type_name else none
  refusal c n = none

  insert-Small : (t : ℕ) (ts : List ℕ) → Small t → All Small ts → All Small (insert less t ts)
  unfolding insert
  insert-Small t [] h k = (h, tt)
  insert-Small t (u ∷ us) h k = elim (Bool-cases (less u t)) [
    | inl b ↦ rw b (k.0, insert-Small t us h k.1)
    | inr b ↦ rw b (h, k)
  ]

  sort_types-Small : (ts : List ℕ) → All Small ts → All Small (sort_types less ts)
  unfolding sort_types
  sort_types-Small [] h = tt
  sort_types-Small (t ∷ ts) h = insert-Small t (sort_types less ts) h.0 (sort_types-Small ts h.1)

  record_lem :
      (fields : List (List ℕ × ℕ)) (c : Context)
      → IsContext c
      → IsSmall (record_of fields)
      → duplicate_field_in fields ≡ false
      → (id : ℕ) × (c' : Context) × (lookup_type_record fields c ≡ ok (id, c'))
        × Interned c (record_of fields) id c'
  unfolding lookup_type_record
  record_lem fields c h s d =
      elim (Option-cases (get (c.tables recs) (key_of (record_of fields)))) [
        | inl e ↦
            (_, _, rw (e, lookup_type_record) (rw d refl), enter-Interned c (record_of fields) h s)
        | inr (id, e) ↦
            (id, c, rw (e, lookup_type_record) refl, Interned-before c (record_of fields) id h s e)
      ]

  error_lem :
      (inner : ℕ) (c : Context)
      → IsContext c
      → Small inner
      → let r = lookup_type_error inner c in Interned c (error_of inner) r.0 r.1
  unfolding lookup_type_error
  error_lem inner c h s =
      let i = enter-Interned c (error_of inner) h s in
      elim (Option-cases (get (c.tables errors) (inner ∷ []))) [
        | inl e ↦ elim (Bool-cases (inner == id_string)) [
          | inl b ↦ rw (e, lookup_type_error) (rw b (beside-Interned _ _ c _ (error_of inner) _ i))
          | inr b ↦ rw (e, lookup_type_error) (rw b i)
        ]
        | inr (id, e) ↦ rw (e, lookup_type_error) i
      ]

  named_lem :
      (name : List ℕ) (t : ℕ) (c : Context)
      → IsContext c
      → IsSmall (named name t)
      → bad name ≡ false
      → (id : ℕ) × (c' : Context) × (lookup_type_named bad name t c ≡ ok (id, c'))
        × Interned c (named name t) id c'
  unfolding lookup_type_named
  named_lem name t c h s b =
      let r = enter nameds (key_of (named name t)) (named name t) c in
      let defs = put c.typedefs name r.0 in
      (
        r.0,
        record (r.1) { typedefs = defs },
        rw (b, lookup_type_named) refl,
        beside-Interned defs r.1.string_err c r.1 (named name t) r.0
            (enter-Interned c (named name t) h s),
      )

  -- A lookup of a type that is not refused, in a context that is in order and for IDs and lengths below
  -- 2 ^ 32, leaves the context in order with the identity of every type as it was, and returns an
  -- identity that stands for the type, a union's types sorted, and is the only one that does. Refused
  -- are a record with two fields of one name and a name that is bad.
  pub lookup-Interned :
      (n : Node) (c : Context)
      → IsContext c
      → IsSmall n
      → refusal c n ≡ none
      → (id : ℕ) × (c' : Context) × (lookup less bad n c ≡ ok (id, c'))
        × Interned c (normal n) id c'
  unfolding lookup lookup_type_array lookup_type_set lookup_type_map lookup_type_enum
      lookup_type_union
  lookup-Interned (record_of fields) c h s r = elim (Bool-cases (duplicate_field_in fields)) [
    | inl d ↦ absurd (refused (duplicate_field_in fields) duplicate_field r d)
    | inr d ↦ record_lem fields c h s d
  ]
  lookup-Interned (array t) c h s r = (_, _, refl, enter-Interned c (array t) h s)
  lookup-Interned (set t) c h s r = (_, _, refl, enter-Interned c (set t) h s)
  lookup-Interned (error_of t) c h s r = (_, _, refl, error_lem t c h s)
  lookup-Interned (map_of k v) c h s r = (_, _, refl, enter-Interned c (map_of k v) h s)
  lookup-Interned (union ts) c h s r =
      (_, _, refl, enter-Interned c (union (sort_types less ts)) h (sort_types-Small ts s))
  lookup-Interned (enum symbols) c h s r = (_, _, refl, enter-Interned c (enum symbols) h s)
  lookup-Interned (named name t) c h s r = elim (Bool-cases (bad name)) [
    | inl d ↦ absurd (refused (bad name) bad_type_name r d)
    | inr d ↦ named_lem name t c h s d
  ]

pub new_context-IsContext : IsContext new_context
unfolding lookup_type get
new_context-IsContext = record {
  found = λ kind key id e. absurd (cc e);
  kept = λ id n e. absurd (nothing id n e);
  small = λ id n e. absurd (nothing id n e);
}

-- The type error(string) that a context has noted is what StringTypeError returns after Reset too,
-- though the context has no type any more.
pub string_type_error-reset :
    (c : Context) (id : ℕ)
    → c.string_err ≡ some id
    → ((string_type_error (reset c)).0 ≡ id) × (lookup_type (reset c) id ≡ none)
unfolding string_type_error reset
string_type_error-reset c id e = (rw e refl, lookup_type_empty (reset c) id refl)
