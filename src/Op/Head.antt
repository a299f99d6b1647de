-- ===== src/Op/Head.antt =====
-- The operator head: runtime/sam/op/head/head.go.
pub mod Stream
use super.Prelude.{ℕ, zero, suc, ◌+◌, ◌-◌, Bool, true, false, Option, none, some, List, [], ◌∷◌}
use super.Prelude.{leb, ltb, length}
use super.Prelude.Result.{ok, err}
use super.Prelude.Slice.{take}
use super.Op.Pull.{Fault, panicked, Pull, Pulled, eos, sends}

-- The struct Op, less the parent and the limit, which do not change.
pub record Head : Type 0 where
  pub count : ℕ

abbrev pub initial : Head
initial = record { count = 0 }

module _ {E S V : Type 0} (parent : Pull E S V) (limit : ℕ) where
  -- The path of a Pull with `done` below the limit.
  unfoldable pub finish : Head → S → Option (Pulled E V × (Head × S))
  finish h s = elim (parent true s) [
    | none ↦ none
    | some (err e, s1) ↦ some (err e, (h, s1))
    | some (ok (some b), s1) ↦ some (err panicked, (h, s1))
    | some (ok none, s1) ↦ eos (record { count = 0 }, s1)
  ]

  -- A batch of at least as many values as remain: the parent is told to stop.
  unfoldable pub cut : Head → S → List V → Option (Pulled E V × (Head × S))
  cut h s vals = elim (parent true s) [
    | none ↦ none
    | some (err e, s1) ↦ some (err e, (h, s1))
    | some (ok r, s1) ↦ sends (take (limit - h.count) vals) (record { count = limit }, s1)
  ]

  -- From the label `again`, with fuel for its jumps.
  unfoldable pub again : ℕ → Head → S → Option (Pulled E V × (Head × S))
  unfolding cut
  again zero h s = none
  again (suc fuel) h s = elim (parent false s) [
    | none ↦ none
    | some (err e, s1) ↦ some (err e, (record { count = 0 }, s1))
    | some (ok none, s1) ↦ eos (record { count = 0 }, s1)
    | some (ok (some vals), s1) ↦ elim (leb limit h.count) [
      | true ↦ again fuel h s1
      | false ↦ elim (ltb (length vals) (limit - h.count)) [
        | true ↦ sends vals (record { count = h.count + length vals }, s1)
        | false ↦ cut h s1 vals
      ]
    ]
  ]

  -- The method Pull.
  unfoldable pub pull : ℕ → Pull E (Head × S) V
  unfolding again finish
  pull fuel d (h, s) = elim (leb limit h.count) [
    | true ↦ eos (record { count = 0 }, s)
    | false ↦ elim d [ true ↦ finish h s | false ↦ again fuel h s ]
  ]
