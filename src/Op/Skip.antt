-- ===== src/Op/Skip.antt =====
-- The operator skip: runtime/sam/op/skip/skip.go.
pub mod Stream
use super.Prelude.{ℕ, zero, suc, ◌+◌, ◌-◌, Bool, true, false, Option, none, some, List, [], ◌∷◌}
use super.Prelude.{leb, ltb, length}
use super.Prelude.Result.{ok, err}
use super.Prelude.Slice.{drop}
use super.Op.Pull.{Pull, Pulled, eos, sends}

-- The struct Op, less the parent and the offset, which do not change.
pub record Skip : Type 0 where
  pub count : ℕ

abbrev pub initial : Skip
initial = record { count = 0 }

module _ {E S V : Type 0} (parent : Pull E S V) (offset : ℕ) where
  -- The method Pull, with fuel for its loop.
  unfoldable pub pull : ℕ → Pull E (Skip × S) V
  pull zero d (k, s) = none
  pull (suc fuel) d (k, s) = elim (parent d s) [
    | none ↦ none
    | some (err e, s1) ↦ some (err e, (record { count = 0 }, s1))
    | some (ok none, s1) ↦ eos (record { count = 0 }, s1)
    | some (ok (some vals), s1) ↦ elim (leb offset k.count) [
      | true ↦ sends vals (k, s1)
      | false ↦ elim (ltb (offset - k.count) (length vals)) [
        | true ↦ sends (drop (offset - k.count) vals) (record { count = offset }, s1)
        | false ↦ pull fuel d (record { count = k.count + length vals }, s1)
      ]
    ]
  ]
