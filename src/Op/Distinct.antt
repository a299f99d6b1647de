-- ===== src/Op/Distinct.antt =====
-- The operator distinct: runtime/sam/op/distinct/distinct.go.
use super.Prelude.{ℕ, true, false, not, List, [], ◌∷◌, ◌++◌}
use super.Prelude.{elem, ◌==◌}
use super.Prelude.Keep.{keep}
use super.Op.Pull.{Pull}
use super.Op.Loop
use super.Types.{le32, Typ, type_under, Value, content, list_eq}

-- The keys that were seen, the latest first: the map `block`.
abbrev pub Block : Type 0
Block = List (List ℕ)

-- `number` is the context's numbering of the types; the ID of a named type is that of the type below.
module _ (number : Typ → ℕ) (eval : Value → Value) where
  unfoldable pub type_id : Typ → ℕ
  unfolding type_under
  type_id t = number (type_under t)

  -- The key of a value: the ID and the bytes of what the expression makes of it.
  unfoldable pub key : Value → List ℕ
  unfolding type_id
  key v = let u = eval v in le32 (type_id u.typ) ++ content u.bytes

  -- The loop over the values of a batch.
  unfoldable pub filter_batch : Block → List Value → Block × List Value
  unfolding key
  filter_batch block [] = (block, [])
  filter_batch block (v ∷ vs) = elim (elem (key v) block) [
    | true ↦ filter_batch block vs
    | false ↦ let rest = filter_batch (key v ∷ block) vs in (rest.0, v ∷ rest.1)
  ]

  -- The method Pull.
  unfoldable pub pull : {E S : Type 0} → Pull E S Value → ℕ → Pull E (Block × S) Value
  unfolding filter_batch Loop.pull
  pull parent = Loop.pull [] filter_batch parent

  -- The first value of each key: the values with the key of an earlier one are struck out.
  unfoldable pub firsts : List Value → List Value
  unfolding keep
  firsts [] = []
  firsts (v ∷ vs) = v ∷ keep (λ w. not (key v == key w)) (firsts vs)
