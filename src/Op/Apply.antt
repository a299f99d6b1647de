-- ===== src/Op/Apply.antt =====
-- The applier, which evaluates one expression: runtime/sam/op/apply.go.
use super.Prelude.{
  ℕ, ◌<◌, ◌≡◌, refl, ◌∙◌, ap, Bool, true, false, not, ◌&&◌, ◌||◌, List, [], ◌∷◌, ◌++◌, inl, inr,
}
use super.Prelude.{length, Bool-cases}
use super.Prelude.Keep.{keep}
use super.Op.Pull.{Pull, Plays, concat}
use super.Op.Loop
use super.Types.{
  Typ, error_of, named, Bytes, Value, is_error, is_quiet, is_missing, is_text_error, type_under,
}

and_false : (a : Bool) → (a && false) ≡ false
and_false true = refl
and_false false = refl

abbrev value : Typ → Bytes → Value
value t b = record { typ = t; bytes = b }

-- A quiet or a missing value is an error.
is_error_at :
    (t : Typ) (b : Bytes)
    → (is_error (value t b) && (is_quiet (value t b) || is_missing (value t b)))
      ≡ (is_quiet (value t b) || is_missing (value t b))
unfolding is_error is_quiet is_missing is_text_error type_under
is_error_at (error_of u) b = refl
is_error_at (named n t) b = and_false (is_error (value (named n t) b))
is_error_at t b = refl

is_error_lem :
    (v : Value) → (is_error v && (is_quiet v || is_missing v)) ≡ (is_quiet v || is_missing v)
is_error_lem v = is_error_at v.typ v.bytes

-- The expression has the state `T`, which the resetter takes to `start`.
module _ {T : Type 0} (start : T) (eval : T → Value → T × Value) where
  -- The loop over the values of a batch.
  unfoldable pub apply_batch : T → List Value → T × List Value
  apply_batch t [] = (t, [])
  apply_batch t (v ∷ vs) =
      let r = eval t v in
      let rest = apply_batch r.0 vs in
      elim (is_error r.1 && (is_quiet r.1 || is_missing r.1)) [
        | true ↦ rest
        | false ↦ (rest.0, r.1 ∷ rest.1)
      ]

  -- The method Pull.
  unfoldable pub pull : {E S : Type 0} → Pull E S Value → ℕ → Pull E (T × S) Value
  unfolding apply_batch Loop.pull
  pull parent = Loop.pull start apply_batch parent

  -- All results for a stream, value by value.
  abbrev pub results : T → List Value → T × List Value
  results t [] = (t, [])
  results t (v ∷ vs) = let rest = results (eval t v).0 vs in (rest.0, (eval t v).1 ∷ rest.1)

  abbrev present : Value → Bool
  present v = not (is_quiet v || is_missing v)

  apply_batch_lem :
      (t : T) (vs : List Value)
      → apply_batch t vs ≡ ((results t vs).0, keep present (results t vs).1)
  unfolding apply_batch keep
  apply_batch_lem t [] = refl
  apply_batch_lem t (v ∷ vs) =
      let h = apply_batch_lem (eval t v).0 vs in
      let e = is_error_lem (eval t v).1 in
      elim (Bool-cases (is_quiet (eval t v).1 || is_missing (eval t v).1)) [
        | inl q ↦ rw (e, apply_batch) (rw (q, apply_batch) (rw (q, keep) h))
        | inr q ↦
            rw (e, apply_batch)
              (rw (q, apply_batch) (rw (q, keep) (ap (λ r. (r.0, (eval t v).1 ∷ r.1)) h)))
      ]

  apply_batch-append :
      (t : T) (xs ys : List Value)
      → let r = apply_batch t xs in
        let q = apply_batch r.0 ys in apply_batch t (xs ++ ys) ≡ (q.0, r.1 ++ q.1)
  unfolding apply_batch
  apply_batch-append t [] ys = refl
  apply_batch-append t (x ∷ xs) ys =
      let r = eval t x in
      let h = apply_batch-append r.0 xs ys in
      elim (Bool-cases (is_error r.1 && (is_quiet r.1 || is_missing r.1))) [
        | inl q ↦ rw (q, apply_batch) h
        | inr q ↦ rw (q, apply_batch) (ap (λ o. (o.0, r.1 ∷ o.1)) h)
      ]

  -- Over a parent that keeps the contract of Puller, an applier keeps it too and starts each stream
  -- with a reset expression; it sends the expression's result for each of the parent's values, in
  -- order, without the quiet and the missing ones. The fuel for its loop is more than the batches of
  -- the stream.
  pub apply_Plays :
      {E S : Type 0} {parent : Pull E S Value} (fuel : ℕ) {s s' : S} {bs : List (List Value)}
      → length bs < fuel
      → Plays parent s' s bs
      → (cs : List (List Value)) × Plays (pull parent fuel) (start, s') (start, s) cs
        × (concat cs ≡ keep (λ v. not (is_quiet v || is_missing v)) (results start (concat bs)).1)
  unfolding pull
  apply_Plays {parent = parent} fuel {bs = bs} l h =
      let r = Loop.loop_Plays start apply_batch parent fuel start l h in
      (
        r.0,
        r.1,
        r.2
            ∙ ap (λ o. o.1)
                (Loop.outcome-concat start apply_batch parent (λ t. refl) apply_batch-append start
                  bs)
            ∙ ap (λ o. o.1) (apply_batch_lem start (concat bs)),
      )
