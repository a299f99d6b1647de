-- ===== src/TypeContext/Examples.antt =====
-- Runs of the model of the type context.
use super.Prelude.{ℕ, ◌≡◌, refl, Bool, false, none, some, List, [], ◌∷◌, arith}
use super.Prelude.{ltb}
use super.Prelude.Result.{ok}
use super.TypeContext.{
  Node, union, Context, new_context, reset, string_type_error, lookup_type, lookup,
  lookup_type_error, id_string,
}
use super.TypeContext.Identity.{Interned}
use super.TypeContext.Lookup.{
  normal, lookup-Interned, new_context-IsContext, string_type_error-reset,
}

abbrev no_name_bad : List ℕ → Bool
no_name_bad name = false

abbrev some_union : Node
some_union = union (9 ∷ 3 ∷ [])

lookup-Interned_example :
    (id : ℕ) × (c' : Context) × (lookup ltb no_name_bad some_union new_context ≡ ok (id, c'))
    × Interned new_context (normal ltb no_name_bad some_union) id c'
lookup-Interned_example =
    lookup-Interned ltb no_name_bad some_union new_context new_context-IsContext
      (omega arith, (omega arith, tt)) refl

abbrev with_error : Context
with_error = record new_context { string_err = some 30 }

string_type_error-reset_example :
    ((string_type_error (reset with_error)).0 ≡ 30) × (lookup_type (reset with_error) 30 ≡ none)
string_type_error-reset_example = string_type_error-reset with_error 30 refl

-- A lookup of error(string) in a new context leaves such a context.
noted : (lookup_type_error id_string new_context).1.string_err ≡ some 30
unfolding lookup_type_error
noted = refl
