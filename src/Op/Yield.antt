-- ===== src/Op/Yield.antt =====
-- The operator yield: runtime/sam/op/yield/yield.go.
use super.Prelude.{
  ℕ, ◌<◌, ◌≡◌, refl, sym, ◌∙◌, ap, Bool, true, false, not, List, [], ◌∷◌, ◌++◌, append_assoc, inl,
  inr,
}
use super.Prelude.{length, Bool-cases}
use super.Prelude.Keep.{keep, keep-append}
use super.Op.Pull.{Pull, Plays, concat}
use super.Op.Loop
use super.Types.{Value, is_quiet}

-- The expressions share the state `T`, which the resetter takes to `start`.
module _ {T : Type 0} (start : T) (exprs : List (T → Value → T × Value)) where
  -- The loop over the expressions, for one value.
  unfoldable pub eval_each : List (T → Value → T × Value) → T → Value → T × List Value
  eval_each [] t v = (t, [])
  eval_each (e ∷ es) t v =
      let r = e t v in
      let rest = eval_each es r.0 v in
      elim (is_quiet r.1) [ true ↦ rest | false ↦ (rest.0, r.1 ∷ rest.1) ]

  -- The loop over the values of a batch.
  unfoldable pub eval_batch : T → List Value → T × List Value
  unfolding eval_each
  eval_batch t [] = (t, [])
  eval_batch t (v ∷ vs) =
      let r = eval_each exprs t v in let rest = eval_batch r.0 vs in (rest.0, r.1 ++ rest.1)

  -- The method Pull.
  unfoldable pub pull : {E S : Type 0} → Pull E S Value → ℕ → Pull E (T × S) Value
  unfolding eval_batch Loop.pull
  pull parent = Loop.pull start eval_batch parent

  -- All results of the expressions for one value, with the state behind them.
  abbrev pub results_at : List (T → Value → T × Value) → T → Value → T × List Value
  results_at [] t v = (t, [])
  results_at (e ∷ es) t v = let rest = results_at es (e t v).0 v in (rest.0, (e t v).1 ∷ rest.1)

  -- All results for a stream, value by value.
  abbrev pub results : T → List Value → T × List Value
  results t [] = (t, [])
  results t (v ∷ vs) =
      let r = results_at exprs t v in let rest = results r.0 vs in (rest.0, r.1 ++ rest.1)

  abbrev loud : Value → Bool
  loud v = not (is_quiet v)

  eval_each_lem :
      (es : List (T → Value → T × Value)) (t : T) (v : Value)
      → eval_each es t v ≡ ((results_at es t v).0, keep loud (results_at es t v).1)
  unfolding eval_each keep
  eval_each_lem [] t v = refl
  eval_each_lem (e ∷ es) t v =
      let h = eval_each_lem es (e t v).0 v in
      elim (Bool-cases (is_quiet (e t v).1)) [
        | inl q ↦ rw (q, eval_each) (rw (q, keep) h)
        | inr q ↦ rw (q, eval_each) (rw (q, keep) (ap (λ r. (r.0, (e t v).1 ∷ r.1)) h))
      ]

  eval_batch_lem :
      (t : T) (vs : List Value) → eval_batch t vs ≡ ((results t vs).0, keep loud (results t vs).1)
  unfolding eval_batch keep
  eval_batch_lem t [] = refl
  eval_batch_lem t (v ∷ vs) =
      let h = eval_batch_lem (results_at exprs t v).0 vs in
      let e = eval_each_lem exprs t v in
      ap (λ r. ((eval_batch r.0 vs).0, r.1 ++ (eval_batch r.0 vs).1)) e
      ∙ ap (λ r. (r.0, keep loud (results_at exprs t v).1 ++ r.1)) h
      ∙ ap (λ l. ((results (results_at exprs t v).0 vs).0, l))
          (sym (keep-append loud (results_at exprs t v).1 (results (results_at exprs t v).0 vs).1))

  eval_batch-append :
      (t : T) (xs ys : List Value)
      → let r = eval_batch t xs in
        let q = eval_batch r.0 ys in eval_batch t (xs ++ ys) ≡ (q.0, r.1 ++ q.1)
  unfolding eval_batch
  eval_batch-append t [] ys = refl
  eval_batch-append t (x ∷ xs) ys =
      let r = eval_each exprs t x in
      let a = eval_batch r.0 xs in
      let q = eval_batch a.0 ys in
      ap (λ o. (o.0, r.1 ++ o.1)) (eval_batch-append r.0 xs ys)
      ∙ ap (λ l. (q.0, l)) (sym (append_assoc r.1 a.1 q.1))

  -- Over a parent that keeps the contract of Puller, yield keeps it too and starts each stream with
  -- reset expressions; it sends the results of all expressions for all of the parent's values, in
  -- order, without the quiet ones. The fuel for its loop is more than the batches of the stream.
  pub yield_Plays :
      {E S : Type 0} {parent : Pull E S Value} (fuel : ℕ) {s s' : S} {bs : List (List Value)}
      → length bs < fuel
      → Plays parent s' s bs
      → (cs : List (List Value)) × Plays (pull parent fuel) (start, s') (start, s) cs
        × (concat cs ≡ keep (λ v. not (is_quiet v)) (results start (concat bs)).1)
  unfolding pull
  yield_Plays {parent = parent} fuel {bs = bs} l h =
      let r = Loop.loop_Plays start eval_batch parent fuel start l h in
      (
        r.0,
        r.1,
        r.2
            ∙ ap (λ o. o.1)
                (Loop.outcome-concat start eval_batch parent (λ t. refl) eval_batch-append start bs)
            ∙ ap (λ o. o.1) (eval_batch_lem start (concat bs)),
      )
