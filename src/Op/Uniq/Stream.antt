-- ===== src/Op/Uniq/Stream.antt =====
-- What uniq makes of a stream, and of the next one.
use super.Prelude.{
  ℕ, zero, suc, ◌+◌, ◌^◌, ◌<◌, ◌≡◌, refl, sym, ◌∙◌, ap, subst, Bool, true, false, Option, none,
  some, List, [], ◌∷◌, ◌++◌, map, arith,
}
use super.Prelude.{nat_eq, ◌==◌, length, length-append}
use super.Prelude.Result.{ok, err}
use super.Op.Pull.{panicked, Pull, Pulled, eos, sends, Yields, ends, gives, concat}
use super.Types.{Value}
use super.Op.Uniq.{Uniq, initial, append_all, flush, loop, pull}
use super.Op.Uniq.Runs.{
  Run, flatten, AreRuns, wrap_run, runs_from, flatten-runs_from, runs_from-AreRuns, step,
  append_all-Appended,
}

-- Mapping over lists put together.
map-append_lem :
    {A B : Type 0} (f : A → B) (xs ys : List A) → map f (xs ++ ys) ≡ map f xs ++ map f ys
map-append_lem f [] ys = refl
map-append_lem f (x ∷ xs) ys = ap (λ l. f x ∷ l) (map-append_lem f xs ys)

module _ {E S : Type 0} (cflag : Bool) (parent : Pull E S Value) where
  -- The state within a run.
  abbrev pub within : Value → List Value → Uniq
  within l seen = record { count = 1 + length seen; last = some l; at_end = false }

  -- The state in which the stream is over.
  abbrev pub over : ℕ → Uniq
  over c = record { count = c; last = none; at_end = false }

  loop_flush :
      (fuel : ℕ) (l : Value) (seen : List Value) (s s' : S)
      → parent false s ≡ eos s'
      → loop cflag parent (suc fuel) false (within l seen) s
        ≡ sends
            (wrap_run cflag (l, seen) ∷ [])
            (record { count = 1 + length seen; last = none; at_end = true }, s')
  unfolding loop flush
  loop_flush fuel l seen s s' e = rw (e, loop)

  loop_quiet :
      (fuel c k : ℕ) (m n : Option Value) (b : List Value) (s s1 : S)
      → parent false s ≡ sends b s1
      → append_all cflag {E = E} (record { count = c; last = m; out = [] }) b
        ≡ ok (record { count = k; last = n; out = [] })
      → loop cflag parent (suc fuel) false (record { count = c; last = m; at_end = false }) s
        ≡ loop cflag parent fuel false (record { count = k; last = n; at_end = false }) s1
  unfolding loop
  loop_quiet fuel c k m n b s s1 e f = rw (e, loop) (rw (f, loop))

  loop-sends :
      (fuel c k : ℕ) (m n : Option Value) (b : List Value) (v : Value) (vs : List Value) (s s1 : S)
      → parent false s ≡ sends b s1
      → append_all cflag {E = E} (record { count = c; last = m; out = [] }) b
        ≡ ok (record { count = k; last = n; out = v ∷ vs })
      → loop cflag parent (suc fuel) false (record { count = c; last = m; at_end = false }) s
        ≡ sends (v ∷ vs) (record { count = k; last = n; at_end = false }, s1)
  unfolding loop
  loop-sends fuel c k m n b v vs s s1 e f = rw (e, loop) (rw (f, loop))

  -- A Pull gave the first batch of the stream `cs`, or its end.
  data Starts (fuel : ℕ) (final : Uniq × S) (r : Option (Pulled E Value × (Uniq × S)))
      : List (List Value) → Type 0 where
    at_once : r ≡ eos final → Starts fuel final r []
    first :
        {t : Uniq × S} {cs : List (List Value)} (b : List Value)
        → r ≡ sends b t
        → Yields (pull cflag parent fuel) final t cs
        → Starts fuel final r (b ∷ cs)

  Starts-eq :
      {fuel : ℕ} {final : Uniq × S} {r q : Option (Pulled E Value × (Uniq × S))}
      {cs : List (List Value)}
      → q ≡ r
      → Starts fuel final r cs
      → Starts fuel final q cs
  Starts-eq e (at_once f) = at_once (e ∙ f)
  Starts-eq e (first b f y) = first b (e ∙ f) y

  Starts-Yields :
      {fuel : ℕ} {final : Uniq × S} {cs : List (List Value)} (u : Uniq) (s : S)
      → u.at_end ≡ false
      → Starts fuel final (loop cflag parent fuel false u s) cs
      → Yields (pull cflag parent fuel) final (u, s) cs
  unfolding pull
  Starts-Yields u s e (at_once f) = ends (rw e f)
  Starts-Yields u s e (first b f y) = gives b (rw e f) y

  -- The rest of a stream, from a state with the count `k` and the last value `m`: the runs `rs`.
  record Rest (fuel f k : ℕ) (m : Option Value) (s s' : S) (rs : List (Run Value)) : Type 0 where
    count : ℕ
    started : 0 < count
    batches : List (List Value)
    starts :
        Starts fuel
          (over count, s')
          (loop cflag parent f false (record { count = k; last = m; at_end = false }) s)
          batches
    values : concat batches ≡ map (wrap_run cflag) rs

  -- Behind a batch, by what it sent.
  Rest-behind :
      (fuel f k : ℕ) (m : Option Value) (now : Value) (known b : List Value) (s s1 s' : S)
      (gone rs : List (Run Value))
      → parent false s ≡ sends b s1
      → (os : List Value) → map (wrap_run cflag) gone ≡ os
      → append_all cflag {E = E} (record { count = k; last = m; out = [] }) b
        ≡ ok (step cflag now known os)
      → Rest fuel f (1 + length known) (some now) s1 s' rs
      → Rest fuel fuel (1 + length known) (some now) s1 s' rs
      → Rest fuel (suc f) k m s s' (gone ++ rs)
  Rest-behind fuel f k m now known b s s1 s' gone rs e [] q a g h = record {
    count = g.count;
    started = g.started;
    batches = g.batches;
    starts = Starts-eq (loop_quiet f _ _ _ _ b s s1 e a) g.starts;
    values =
        g.values
        ∙ ap (λ o. o ++ map (wrap_run cflag) rs) (sym q)
        ∙ sym (map-append_lem (wrap_run cflag) gone rs);
  }
  Rest-behind fuel f k m now known b s s1 s' gone rs e (o ∷ os) q a g h = record {
    count = h.count;
    started = h.started;
    batches = (o ∷ os) ∷ h.batches;
    starts =
        first (o ∷ os) (loop-sends f _ _ _ _ b o os s s1 e a) (Starts-Yields _ s1 refl h.starts);
    values =
        ap (λ x. (o ∷ os) ++ x) h.values
        ∙ ap (λ x. x ++ map (wrap_run cflag) rs) (sym q)
        ∙ sym (map-append_lem (wrap_run cflag) gone rs);
  }

  rest_lem :
      (fuel : ℕ) (s' : S) (f : ℕ) (l : Value) (seen : List Value) {s : S} {bs : List (List Value)}
      → length bs < f
      → length bs < fuel
      → 1 + length seen + length (concat bs) < 2 ^ 64
      → Yields parent s' s bs
      → Rest fuel f (1 + length seen) (some l) s s' (runs_from cflag l seen (concat bs))
  unfolding runs_from pull
  rest_lem fuel s' zero l seen m n b y = absurd (omega arith)
  rest_lem fuel s' (suc f) l seen m n b (ends {s} e) = record {
    count = 1 + length seen;
    started = omega arith;
    batches = (wrap_run cflag (l, seen) ∷ []) ∷ [];
    starts = first _ (loop_flush f l seen s s' e) (ends refl);
    values = refl;
  }
  rest_lem fuel s' (suc f) l seen m n b (gives {s} {s1} {bs} c e y) =
      let a =
        append_all-Appended cflag E l seen c [] (omega (arith, length-append c (concat bs))) in
      let k : 1 + length a.known + length (concat bs) < 2 ^ 64 =
        omega (arith, a.bounded, length-append c (concat bs)) in
      subst (Rest fuel (suc f) (1 + length seen) (some l) s s') (sym (a.runs (concat bs))) (
        Rest-behind fuel f (1 + length seen) (some l) a.now a.known c s s1 s' a.over _ e
          (map (wrap_run cflag) a.over) refl a.result
          (rest_lem fuel s' f a.now a.known (omega arith) (omega arith) k y)
          (rest_lem fuel s' fuel a.now a.known (omega arith) (omega arith) k y))

  -- The same from the start, for a stream with a first value.
  fresh_lem :
      (fuel : ℕ) (s' : S) (f : ℕ) {s : S} {bs : List (List Value)} (v : Value) (vs : List Value)
      → length bs < f
      → length bs < fuel
      → length (concat bs) < 2 ^ 64
      → concat bs ≡ v ∷ vs
      → Yields parent s' s bs
      → Rest fuel f 0 none s s' (runs_from cflag v [] vs)
  unfolding append_all
  fresh_lem fuel s' zero v vs m n b q y = absurd (omega arith)
  fresh_lem fuel s' (suc f) v vs m n b q (ends e) = cc
  fresh_lem fuel s' (suc f) v vs m n b q (gives {s} {s1} {bs} [] e y) =
      let r = fresh_lem fuel s' f v vs (omega arith) (omega arith) b q y in
      record {
        count = r.count;
        started = r.started;
        batches = r.batches;
        starts = Starts-eq (loop_quiet f 0 0 none none [] s s1 e refl) r.starts;
        values = r.values;
      }
  fresh_lem fuel s' (suc f) v vs m n b q (gives {s} {s1} {bs} (w ∷ c) e y) =
      let a = append_all-Appended cflag E w [] c [] (omega (arith, length-append c (concat bs))) in
      let k : 1 + length a.known + length (concat bs) < 2 ^ 64 =
        omega (arith, a.bounded, length-append c (concat bs)) in
      let first_value : w ≡ v = cc q in
      let others : c ++ concat bs ≡ vs = cc q in
      subst (Rest fuel (suc f) 0 none s s')
        (sym (a.runs (concat bs))
          ∙ ap (runs_from cflag w []) others
          ∙ ap (λ x. runs_from cflag x [] vs) first_value)
        (Rest-behind fuel f 0 none a.now a.known (w ∷ c) s s1 s' a.over _ e
          (map (wrap_run cflag) a.over) refl a.result
          (rest_lem fuel s' f a.now a.known (omega arith) (omega arith) k y)
          (rest_lem fuel s' fuel a.now a.known (omega arith) (omega arith) k y))

  -- A stream of fewer than 2 ^ 64 values with a first value `v`, pulled to its natural end, makes uniq
  -- send one value for each longest run of values with equal bytes, whatever their types: the run's
  -- first value, or with the flag the record of that value and the run's length. It then ends with a
  -- count that is not 0 and no last value; the fuel for the loop is more than the batches.
  pub uniq_Yields :
      (fuel : ℕ) {s s' : S} {bs : List (List Value)} (v : Value) (vs : List Value)
      → length bs < fuel
      → length (concat bs) < 2 ^ 64
      → concat bs ≡ v ∷ vs
      → Yields parent s' s bs
      → (rs : List (Run Value)) × (flatten rs ≡ concat bs)
        × AreRuns cflag rs
        × (c : ℕ) × (0 < c)
        × (cs : List (List Value)) × Yields (pull cflag parent fuel) (over c, s') (initial, s) cs
        × (concat cs ≡ map (wrap_run cflag) rs)
  uniq_Yields fuel {s} {s'} v vs l b q y =
      let r = fresh_lem fuel s' fuel v vs l l b q y in
      (
        runs_from cflag v [] vs,
        flatten-runs_from cflag v [] vs ∙ sym q,
        runs_from-AreRuns cflag v [] vs tt,
        r.count,
        r.started,
        r.batches,
        Starts-Yields initial s refl r.starts,
        r.values,
      )

  -- In a state with a count and no last value, a batch with a value makes uniq panic.
  over-panics :
      (fuel c : ℕ) (v : Value) (vs : List Value) (s s1 : S)
      → 0 < c
      → parent false s ≡ sends (v ∷ vs) s1
      → pull cflag parent (suc fuel) false (over c, s) ≡ some (err panicked, (over c, s1))
  unfolding pull loop append_all
  over-panics fuel c v vs s s1 h e =
      let n : (c == 0) ≡ false = ground arith in rw (e, loop) (rw (n, append_all))

  -- Where the parent has a stream of fewer than 2 ^ 64 values, one at least, and its next stream starts
  -- with a value, uniq, from its initial state, comes to the end of the first stream, and its next Pull
  -- panics; the fuel for the loop is more than the batches.
  pub uniq_panics_on_next_stream :
      (fuel : ℕ) {s s' s1 : S} {bs : List (List Value)} (v : Value) (vs : List Value) (w : Value)
      (ws : List Value)
      → length bs < fuel
      → length (concat bs) < 2 ^ 64
      → concat bs ≡ v ∷ vs
      → Yields parent s' s bs
      → parent false s' ≡ sends (w ∷ ws) s1
      → (t : Uniq) × (cs : List (List Value)) × Yields
          (pull cflag parent fuel)
          (t, s')
          (initial, s)
          cs
        × (pull cflag parent fuel false (t, s') ≡ some (err panicked, (t, s1)))
  uniq_panics_on_next_stream zero v vs w ws l b q y e = absurd (omega arith)
  uniq_panics_on_next_stream (suc fuel) {s} {s'} {s1} v vs w ws l b q y e =
      let r = fresh_lem (suc fuel) s' (suc fuel) v vs l l b q y in
      (
        over r.count,
        r.batches,
        Starts-Yields initial s refl r.starts,
        over-panics fuel r.count w ws s' s1 r.started e,
      )
