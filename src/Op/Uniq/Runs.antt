-- ===== src/Op/Uniq/Runs.antt =====
-- The runs of values with equal bytes that uniq counts, and what its method appendUniq makes of them.
use super.Prelude.{
  ◌+◌, ◌%◌, ◌^◌, ◌≤◌, ◌<◌, ◌≡◌, refl, sym, ◌∙◌, ap, Bool, true, false, some, inl, inr, List, [],
  ◌∷◌, ◌++◌, map, append-nil, append_assoc, arith,
}
use super.Prelude.{nat_eq, ◌==◌, All, length, length-append, Bool-cases}
use super.Prelude.Result.{ok}
use super.Types.{Value, content, list_beq_iff}
use super.Op.Uniq.{wrap, same_bytes, Step, append_all}

-- A run: its first value, and the others.
abbrev pub Run : Type 0 → Type 0
Run V = V × List V

abbrev pub flatten : {V : Type 0} → List (Run V) → List V
flatten [] = []
flatten ((v, vs) ∷ rs) = v ∷ (vs ++ flatten rs)

same_bytes-true : (t l : Value) → same_bytes t l ≡ true → content t.bytes ≡ content l.bytes
unfolding same_bytes
same_bytes-true t l e = (list_beq_iff _ _).0 e

same_bytes-false : (t l : Value) → same_bytes t l ≡ false → ¬ (content t.bytes ≡ content l.bytes)
unfolding same_bytes
same_bytes-false t l e = λ q. cc ((list_beq_iff _ _).1 q, e)

module _ (cflag : Bool) where
  -- The first value of the next run has other bytes than `v`.
  abbrev pub Differs : Value → List (Run Value) → Type 0
  Differs v [] = Unit {0}
  Differs v ((w, ws) ∷ rs) = ¬ (content w.bytes ≡ content v.bytes)

  -- In each run the values have the bytes of its first, and the next run starts with other bytes.
  abbrev pub AreRuns : List (Run Value) → Type 0
  AreRuns [] = Unit {0}
  AreRuns ((v, vs) ∷ rs) =
      All (λ w. content w.bytes ≡ content v.bytes) vs × Differs v rs × AreRuns rs

  -- The value that stands for a run.
  abbrev pub wrap_run : Run Value → Value
  wrap_run (v, vs) = wrap cflag v (1 + length vs)

  -- The runs of a list, of whose first run `seen` values are already known.
  unfoldable pub runs_from : Value → List Value → List Value → List (Run Value)
  runs_from l seen [] = (l, seen) ∷ []
  runs_from l seen (v ∷ vs) = elim (same_bytes v l) [
    | true ↦ runs_from l (seen ++ (v ∷ [])) vs
    | false ↦ (l, seen) ∷ runs_from v [] vs
  ]

  pub flatten-runs_from :
      (l : Value) (seen vs : List Value) → flatten (runs_from l seen vs) ≡ l ∷ (seen ++ vs)
  unfolding runs_from
  flatten-runs_from l seen [] = refl
  flatten-runs_from l seen (v ∷ vs) = elim (Bool-cases (same_bytes v l)) [
    | inl e ↦
        rw (e, runs_from)
          (flatten-runs_from l (seen ++ (v ∷ [])) vs
            ∙ ap (λ x. l ∷ x) (append_assoc seen (v ∷ []) vs))
    | inr e ↦ rw (e, runs_from) (ap (λ x. l ∷ (seen ++ x)) (flatten-runs_from v [] vs))
  ]

  All-snoc :
      (P : Value → Type 0) (xs : List Value) (y : Value) → All P xs → P y → All P (xs ++ (y ∷ []))
  All-snoc P [] y h p = (p, tt)
  All-snoc P (x ∷ xs) y h p = (h.0, All-snoc P xs y h.1 p)

  -- A run stands at the head, and it is the one of `v`.
  head_run :
      (u v : Value) (seen vs : List Value)
      → ¬ (content v.bytes ≡ content u.bytes)
      → Differs u (runs_from v seen vs)
  unfolding runs_from
  head_run u v seen [] d = d
  head_run u v seen (w ∷ vs) d = elim (Bool-cases (same_bytes w v)) [
    | inl e ↦ rw (e, runs_from) (head_run u v (seen ++ (w ∷ [])) vs d)
    | inr e ↦ rw (e, runs_from) d
  ]

  pub runs_from-AreRuns :
      (l : Value) (seen vs : List Value)
      → All (λ w. content w.bytes ≡ content l.bytes) seen
      → AreRuns (runs_from l seen vs)
  unfolding runs_from
  runs_from-AreRuns l seen [] h = (h, tt, tt)
  runs_from-AreRuns l seen (v ∷ vs) h = elim (Bool-cases (same_bytes v l)) [
    | inl e ↦
        rw (e, runs_from)
          (runs_from-AreRuns l (seen ++ (v ∷ [])) vs (All-snoc _ seen v h (same_bytes-true v l e)))
    | inr e ↦
        rw (e, runs_from)
          (h, head_run l v [] vs (same_bytes-false v l e), runs_from-AreRuns v [] vs tt)
  ]

  abbrev pub step : Value → List Value → List Value → Step cflag
  step l seen out = record { count = 1 + length seen; last = some l; out = out }

  -- What appendUniq does to the values of a batch: the runs that end in it are sent.
  pub record Appended (E : Type 0) (l : Value) (seen vs out : List Value) : Type 0 where
    pub over : List (Run Value)
    pub now : Value
    pub known : List Value
    pub result :
        append_all cflag {E = E} (step l seen out) vs
        ≡ ok (step now known (out ++ map wrap_run over))
    pub runs :
        (rest : List Value) → runs_from l seen (vs ++ rest) ≡ over ++ runs_from now known rest
    pub bounded : length known ≤ length seen + length vs

  append_same :
      {E : Type 0} (l : Value) (seen out vs : List Value) (v : Value)
      → 1 + length seen + 1 < 2 ^ 64
      → same_bytes v l ≡ true
      → append_all cflag {E = E} (step l seen out) (v ∷ vs)
        ≡ append_all cflag (step l (seen ++ (v ∷ [])) out) vs
  unfolding append_all
  append_same l seen out vs v b e =
      let n : ((1 + length seen) == 0) ≡ false = ground arith in
      let c : (1 + length seen + 1) % 2 ^ 64 ≡ 1 + length (seen ++ (v ∷ [])) =
        omega (arith, length-append seen (v ∷ [])) in
      rw (n, append_all)
        (rw (e, append_all)
          (ap (λ k. append_all cflag (record { count = k; last = some l; out = out }) vs) c))

  append_other :
      {E : Type 0} (l : Value) (seen out vs : List Value) (v : Value)
      → same_bytes v l ≡ false
      → append_all cflag {E = E} (step l seen out) (v ∷ vs)
        ≡ append_all cflag (step v [] (out ++ (wrap_run (l, seen) ∷ []))) vs
  unfolding append_all
  append_other l seen out vs v e =
      let n : ((1 + length seen) == 0) ≡ false = ground arith in
      rw (n, append_all) (rw (e, append_all))

  pub append_all-Appended :
      (E : Type 0) (l : Value) (seen vs out : List Value)
      → 1 + length seen + length vs < 2 ^ 64
      → Appended E l seen vs out
  unfolding append_all runs_from
  append_all-Appended E l seen [] out b = record {
    over = [];
    now = l;
    known = seen;
    result = ap (λ o. ok (step l seen o)) (sym (append-nil out));
    runs = λ rest. refl;
    bounded = omega arith;
  }
  append_all-Appended E l seen (v ∷ vs) out b = elim (Bool-cases (same_bytes v l)) [
    | inl e ↦
        let a =
          append_all-Appended E l (seen ++ (v ∷ [])) vs out
            (omega (arith, length-append seen (v ∷ []))) in
        record {
          over = a.over;
          now = a.now;
          known = a.known;
          result = append_same l seen out vs v (omega arith) e ∙ a.result;
          runs = λ rest. rw (e, runs_from) (a.runs rest);
          bounded = omega (arith, a.bounded, length-append seen (v ∷ []));
        }
    | inr e ↦
        let a = append_all-Appended E v [] vs (out ++ (wrap_run (l, seen) ∷ [])) (omega arith) in
        record {
          over = (l, seen) ∷ a.over;
          now = a.now;
          known = a.known;
          result =
              append_other l seen out vs v e
              ∙ a.result
              ∙ ap (λ o. ok (step a.now a.known o))
                  (append_assoc out (wrap_run (l, seen) ∷ []) (map wrap_run a.over));
          runs = λ rest. rw (e, runs_from) (ap (λ rs. (l, seen) ∷ rs) (a.runs rest));
          bounded = omega (arith, a.bounded);
        }
  ]
