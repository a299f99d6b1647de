-- ===== src/Op/Tail.antt =====
-- The operator tail: runtime/sam/op/tail/tail.go.
pub mod Stream
use super.Prelude.{
  ℕ, zero, suc, ◌+◌, ◌-◌, Bool, true, false, Option, none, some, List, [], ◌∷◌, ◌++◌,
}
use super.Prelude.{leb, ltb, length}
use super.Prelude.Result.{Result, ok, err}
use super.Prelude.Slice.{drop}
use super.Op.Pull.{Fault, panicked, Pull, Pulled, eos, sends}

-- The struct Op, less the parent and the limit, which do not change.
pub record Tail (V : Type 0) : Type 0 where
  pub batches : List (List V)
  pub at_end : Bool

abbrev pub initial : {V : Type 0} → Tail V
initial = record { batches = []; at_end = false }

module _ {V : Type 0} (limit : ℕ) where
  -- The inner loop of tail: the oldest batches go while there are enough values without them.
  unfoldable pub drop_front : List (List V) → ℕ → List (List V) × ℕ
  drop_front [] n = ([], n)
  drop_front (b ∷ bs) n = elim (leb limit (n - length b)) [
    | true ↦ drop_front bs (n - length b)
    | false ↦ (b ∷ bs, n)
  ]

  -- The end of tail: too many values are cut from the oldest batch.
  unfoldable pub trim : {E : Type 0} → List (List V) → ℕ → Result (Fault E) (List (List V))
  trim bs n = elim (ltb limit n) [
    | false ↦ ok bs
    | true ↦ elim bs [ [] ↦ err panicked | b ∷ rest ↦ ok (drop (n - limit) b ∷ rest) ]
  ]

-- A batch is sent and the next ones are kept.
unfoldable pub emit :
    {E S V : Type 0} → List V → List (List V) → S → Option (Pulled E V × (Tail V × S))
emit b [] s = sends b (record { batches = []; at_end = true }, s)
emit b (c ∷ bs) s = sends b (record { batches = c ∷ bs; at_end = false }, s)

module _ {E S V : Type 0} (parent : Pull E S V) (limit : ℕ) where
  -- The loop of tail, with fuel.
  unfoldable pub gather : ℕ → S → List (List V) → ℕ → Option (Result (Fault E) (List (List V)) × S)
  unfolding drop_front trim
  gather zero s bs n = none
  gather (suc fuel) s bs n = elim (parent false s) [
    | none ↦ none
    | some (err e, s1) ↦ some (err e, s1)
    | some (ok none, s1) ↦ some (trim limit bs n, s1)
    | some (ok (some b), s1) ↦
        let kept = drop_front limit (bs ++ (b ∷ [])) (n + length b) in gather fuel s1 kept.0 kept.1
  ]

  unfoldable pub start : ℕ → Tail V → S → Option (Pulled E V × (Tail V × S))
  unfolding gather emit
  start fuel t s = elim (gather fuel s [] 0) [
    | none ↦ none
    | some (err e, s1) ↦ some (err e, (t, s1))
    | some (ok [], s1) ↦ eos (t, s1)
    | some (ok (b ∷ bs), s1) ↦ emit b bs s1
  ]

  -- The method Pull.
  unfoldable pub pull : ℕ → Pull E (Tail V × S) V
  unfolding start emit
  pull fuel d (t, s) = elim t.at_end [
    | true ↦ eos (initial, s)
    | false ↦ elim d [
      | true ↦ elim (parent true s) [ none ↦ none | some (r, s1) ↦ some (r, (initial, s1)) ]
      | false ↦ elim t.batches [ [] ↦ start fuel t s | b ∷ bs ↦ emit b bs s ]
    ]
  ]
