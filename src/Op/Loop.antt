-- ===== src/Op/Loop.antt =====
-- The loop that the operators distinct, yield, explode and applier share: pull batches until one has
-- something to send, and reset at the end of the stream.
use super.Prelude.{
  ℕ, zero, suc, ◌<◌, ◌≡◌, refl, sym, ◌∙◌, ap, Bool, true, false, Option, none, some, List, [], ◌∷◌,
  ◌++◌, arith,
}
use super.Prelude.{length}
use super.Prelude.Result.{ok, err}
use super.Op.Pull.{Pull, Pulled, eos, sends, Plays, stops, plays, done_lem, concat}

module _ {E S T V W : Type 0} (start : T) (step : T → List V → T × List W)
    (parent : Pull E S V) where
  -- The method Pull of such an operator, with the state `t`, which a reset takes
  -- to `start`, and fuel for the loop.
  unfoldable pub pull : ℕ → Pull E (T × S) W
  pull zero d (t, s) = none
  pull (suc fuel) d (t, s) = elim (parent d s) [
    | none ↦ none
    | some (err e, s1) ↦ some (err e, (start, s1))
    | some (ok none, s1) ↦ eos (start, s1)
    | some (ok (some vals), s1) ↦
        let r = step t vals in
        elim r.1 [ [] ↦ pull fuel d (r.0, s1) | w ∷ ws ↦ sends (w ∷ ws) (r.0, s1) ]
  ]

  -- The values that come of a stream, and the state at its end.
  unfoldable pub outcome : T → List (List V) → T × List W
  outcome t [] = (t, [])
  outcome t (b ∷ bs) = let r = step t b in let rest = outcome r.0 bs in (rest.0, r.1 ++ rest.1)

  -- Where a step over two batches is the two steps, a stream's outcome is the step over all of it.
  pub outcome-concat :
      ((t : T) → step t [] ≡ (t, []))
      → ((t : T) (xs ys : List V)
          → step t (xs ++ ys)
            ≡ ((step (step t xs).0 ys).0, (step t xs).1 ++ (step (step t xs).0 ys).1))
      → (t : T) (bs : List (List V)) → outcome t bs ≡ step t (concat bs)
  unfolding outcome
  outcome-concat n a t [] = sym (n t)
  outcome-concat n a t (b ∷ bs) =
      let h = outcome-concat n a (step t b).0 bs in
      ap (λ r. (r.0, (step t b).1 ++ r.1)) h ∙ sym (a t b (concat bs))

  pull-eos :
      (fuel : ℕ) (d : Bool) (t : T) (s s' : S)
      → parent d s ≡ eos s'
      → pull (suc fuel) d (t, s) ≡ eos (start, s')
  unfolding pull
  pull-eos fuel d t s s' e = rw (e, pull)

  pull_quiet :
      (fuel : ℕ) (t : T) (b : List V) (s s1 : S)
      → parent false s ≡ sends b s1
      → (step t b).1 ≡ []
      → pull (suc fuel) false (t, s) ≡ pull fuel false ((step t b).0, s1)
  unfolding pull
  pull_quiet fuel t b s s1 e f = rw (e, pull) (rw (f, pull))

  pull-sends :
      (fuel : ℕ) (t : T) (b : List V) (w : W) (ws : List W) (s s1 : S)
      → parent false s ≡ sends b s1
      → (step t b).1 ≡ w ∷ ws
      → pull (suc fuel) false (t, s) ≡ sends (w ∷ ws) ((step t b).0, s1)
  unfolding pull
  pull-sends fuel t b w ws s s1 e f = rw (e, pull) (rw (f, pull))

  -- A Pull gave the first batch of the stream `cs`, or its end.
  data Starts (fuel : ℕ) (s' : S) (r : Option (Pulled E W × (T × S))) : List (List W) → Type 0 where
    at_once : r ≡ eos (start, s') → Starts fuel s' r []
    first :
        {t : T × S} {cs : List (List W)} (b : List W)
        → r ≡ sends b t
        → Plays (pull fuel) (start, s') t cs
        → Starts fuel s' r (b ∷ cs)

  Starts-eq :
      {fuel : ℕ} {s' : S} {r q : Option (Pulled E W × (T × S))} {cs : List (List W)}
      → q ≡ r
      → Starts fuel s' r cs
      → Starts fuel s' q cs
  Starts-eq e (at_once f) = at_once (e ∙ f)
  Starts-eq e (first b f y) = first b (e ∙ f) y

  Starts-Plays :
      {fuel : ℕ} {s' : S} {cs : List (List W)} (t : T × S)
      → pull fuel true t ≡ eos (start, s')
      → Starts fuel s' (pull fuel false t) cs
      → Plays (pull fuel) (start, s') t cs
  Starts-Plays t d (at_once f) = stops f d
  Starts-Plays t d (first b f y) = plays b f d y

  record Rest (fuel f : ℕ) (t : T) (s s' : S) (ws : List W) : Type 0 where
    batches : List (List W)
    starts : Starts fuel s' (pull f false (t, s)) batches
    values : concat batches ≡ ws

  Rest-behind :
      (fuel f : ℕ) (t : T) (b : List V) (ws : List W) (s s1 s' : S)
      → parent false s ≡ sends b s1
      → (os : List W) → (step t b).1 ≡ os
      → pull fuel true ((step t b).0, s1) ≡ eos (start, s')
      → Rest fuel f (step t b).0 s1 s' ws
      → Rest fuel fuel (step t b).0 s1 s' ws
      → Rest fuel (suc f) t s s' (os ++ ws)
  Rest-behind fuel f t b ws s s1 s' e [] q d g h = record {
    batches = g.batches;
    starts = Starts-eq (pull_quiet f t b s s1 e q) g.starts;
    values = g.values;
  }
  Rest-behind fuel f t b ws s s1 s' e (o ∷ os) q d g h = record {
    batches = (o ∷ os) ∷ h.batches;
    starts = first (o ∷ os) (pull-sends f t b o os s s1 e q) (Starts-Plays _ d h.starts);
    values = ap (λ x. (o ∷ os) ++ x) h.values;
  }

  rest_lem :
      (fuel : ℕ) (s' : S) (f : ℕ) (t : T) {s : S} {bs : List (List V)}
      → length bs < f
      → length bs < suc fuel
      → Plays parent s' s bs
      → Rest (suc fuel) f t s s' (outcome t bs).1
  unfolding outcome
  rest_lem fuel s' zero t m n y = absurd (omega arith)
  rest_lem fuel s' (suc f) t m n (stops {s} e d) = record {
    batches = [];
    starts = at_once (pull-eos f false t s s' e);
    values = refl;
  }
  rest_lem fuel s' (suc f) t m n (plays {s} {s1} {bs} b e d y) =
      Rest-behind (suc fuel) f t b _ s s1 s' e (step t b).1 refl
        (pull-eos fuel true (step t b).0 s1 s' (done_lem y))
        (rest_lem fuel s' f (step t b).0 (omega arith) (omega arith) y)
        (rest_lem fuel s' (suc fuel) (step t b).0 (omega arith) (omega arith) y)

  -- Over a parent that keeps the contract of Puller, such an operator keeps it too, and its stream is
  -- what its step makes of the parent's batches in order; the fuel is more than the batches.
  pub loop_Plays :
      (fuel : ℕ) (t : T) {s s' : S} {bs : List (List V)}
      → length bs < fuel
      → Plays parent s' s bs
      → (cs : List (List W)) × Plays (pull fuel) (start, s') (t, s) cs
        × (concat cs ≡ (outcome t bs).1)
  loop_Plays zero t m y = absurd (omega arith)
  loop_Plays (suc fuel) t {s} {s'} m y =
      let r = rest_lem fuel s' (suc fuel) t m m y in
      (r.batches, Starts-Plays _ (pull-eos fuel true t s s' (done_lem y)) r.starts, r.values)
