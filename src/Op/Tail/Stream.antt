-- ===== src/Op/Tail/Stream.antt =====
-- What tail makes of a stream.
use super.Prelude.{
  ℕ, zero, suc, ◌+◌, ◌-◌, ◌≤◌, ◌<◌, ◌≡◌, refl, sym, ◌∙◌, ap, subst, true, false, Option, some, ◌⊎◌,
  inl, inr, List, [], ◌∷◌, ◌++◌, append-nil, append_assoc, arith,
}
use super.Prelude.{leb, ltb, length, length-append, Bool-cases}
use super.Prelude.Result.{ok}
use super.Prelude.Slice.{drop, drop-append_short, drop-append_long}
use super.Op.Pull.{Pull, Pulled, eos, sends, Yields, ends, gives, Plays, done_lem, concat}
use super.Op.Tail.{Tail, initial, drop_front, trim, emit, gather, start, pull}

concat-append : {V : Type 0} (xs ys : List (List V)) → concat (xs ++ ys) ≡ concat xs ++ concat ys
concat-append [] ys = refl
concat-append (b ∷ xs) ys =
    ap (λ l. b ++ l) (concat-append xs ys) ∙ sym (append_assoc b (concat xs) (concat ys))

-- The batches that are kept of the values `xs`: a suffix, and all of `xs` or at least `limit` values.
record Kept {V : Type 0} (limit : ℕ) (xs : List V) (batches : List (List V)) (n : ℕ) : Type 0 where
  gone : List V
  split : xs ≡ gone ++ concat batches
  count : n ≡ length (concat batches)
  enough : (length gone ≡ 0) ⊎ (limit ≤ n)

-- Without its oldest batch there would be too few values.
abbrev IsTight : {V : Type 0} → ℕ → List (List V) → ℕ → Type 0
IsTight limit [] n = n ≡ 0
IsTight limit (b ∷ bs) n = n < limit + length b

module _ {V : Type 0} (limit : ℕ) where
  -- What drop_front leaves.
  drop_front-Kept :
      (xs : List V) (bs : List (List V)) (n : ℕ)
      → Kept limit xs bs n
      → Kept limit xs (drop_front limit bs n).0 (drop_front limit bs n).1
        × IsTight limit (drop_front limit bs n).0 (drop_front limit bs n).1
  unfolding drop_front
  drop_front-Kept xs [] n k = (k, k.count)
  drop_front-Kept xs (b ∷ bs) n k = elim (Bool-cases (leb limit (n - length b))) [
    | inl e ↦
        rw (e, drop_front)
          (drop_front-Kept xs bs (n - length b) (record {
            gone = k.gone ++ b;
            split = k.split ∙ sym (append_assoc k.gone b (concat bs));
            count = omega (arith, k.count, length-append b (concat bs));
            enough = inr (ground arith);
          }))
    | inr e ↦ rw (e, drop_front) (k, ground arith)
  ]

  Kept-suffix :
      (xs : List V) (bs : List (List V)) (n : ℕ)
      → Kept limit xs bs n
      → drop (length xs - limit) xs ≡ drop (n - limit) (concat bs)
  Kept-suffix xs bs n k =
      let l : length xs ≡ length k.gone + n =
        ap length k.split ∙ length-append k.gone (concat bs) ∙ omega (arith, k.count) in
      ap (drop (length xs - limit)) k.split ∙ elim k.enough [
        | inl e ↦ drop-append_short (length xs - limit) (n - limit) k.gone (concat bs) (omega arith)
        | inr e ↦ drop-append_short (length xs - limit) (n - limit) k.gone (concat bs) (omega arith)
      ]

  trim_some :
      {E : Type 0} (xs : List V) (bs : List (List V)) (n : ℕ)
      → Kept limit xs bs n
      → IsTight limit bs n
      → ltb limit n ≡ true
      → (out : List (List V)) × (trim limit {E = E} bs n ≡ ok out)
        × (concat out ≡ drop (length xs - limit) xs)
  unfolding trim
  trim_some xs [] n k t e = absurd (ground arith)
  trim_some xs (b ∷ bs) n k t e = (
    drop (n - limit) b ∷ bs,
    rw (e, trim),
    sym (Kept-suffix xs (b ∷ bs) n k ∙ drop-append_long (n - limit) b (concat bs) (omega arith)),
  )

  trim_lem :
      {E : Type 0} (xs : List V) (bs : List (List V)) (n : ℕ)
      → Kept limit xs bs n
      → IsTight limit bs n
      → (out : List (List V)) × (trim limit {E = E} bs n ≡ ok out)
        × (concat out ≡ drop (length xs - limit) xs)
  unfolding trim
  trim_lem xs bs n k t = elim (Bool-cases (ltb limit n)) [
    | inr e ↦ (
      bs,
      rw (e, trim),
      let z : 0 ≡ n - limit = ground arith in
          ap (λ m. drop m (concat bs)) z ∙ sym (Kept-suffix xs bs n k),
    )
    | inl e ↦ trim_some xs bs n k t e
  ]

module _ {E S V : Type 0} (parent : Pull E S V) (limit : ℕ) where
  gather-eos :
      (fuel n : ℕ) (s s' : S) (bs : List (List V))
      → parent false s ≡ eos s'
      → gather parent limit (suc fuel) s bs n ≡ some (trim limit bs n, s')
  unfolding gather
  gather-eos fuel n s s' bs e = rw (e, gather)

  gather_batch :
      (fuel n : ℕ) (s s1 : S) (b : List V) (bs : List (List V))
      → parent false s ≡ sends b s1
      → gather parent limit (suc fuel) s bs n
        ≡ gather parent limit fuel s1
            (drop_front limit (bs ++ (b ∷ [])) (n + length b)).0
            (drop_front limit (bs ++ (b ∷ [])) (n + length b)).1
  unfolding gather
  gather_batch fuel n s s1 b bs e = rw (e, gather)

  nothing-Kept : Kept {V = V} limit [] [] 0
  nothing-Kept = record { gone = []; split = refl; count = refl; enough = inl refl }

  Kept-snoc :
      (xs : List V) (bs : List (List V)) (n : ℕ) (b : List V)
      → Kept limit xs bs n
      → Kept limit (xs ++ b) (bs ++ (b ∷ [])) (n + length b)
  Kept-snoc xs bs n b k =
      let c : concat (bs ++ (b ∷ [])) ≡ concat bs ++ b =
        concat-append bs (b ∷ []) ∙ ap (λ l. concat bs ++ l) (append-nil b) in
      record {
        gone = k.gone;
        split =
            ap (λ l. l ++ b) k.split
            ∙ append_assoc k.gone (concat bs) b
            ∙ ap (λ l. k.gone ++ l) (sym c);
        count = omega (arith, k.count, ap length c, length-append (concat bs) b);
        enough = elim k.enough [ inl e ↦ inl e | inr e ↦ inr (omega arith) ];
      }

  gather_lem :
      (fuel : ℕ) (s' : S) (xs : List V) (kept : List (List V)) (n : ℕ) {s : S} {bs : List (List V)}
      → length bs < fuel
      → Kept limit xs kept n
      → IsTight limit kept n
      → Yields parent s' s bs
      → (out : List (List V)) × (gather parent limit fuel s kept n ≡ some (ok out, s'))
        × (concat out ≡ drop (length (xs ++ concat bs) - limit) (xs ++ concat bs))
  gather_lem zero s' xs kept n l k t y = absurd (omega arith)
  gather_lem (suc fuel) s' xs kept n l k t (ends {s} e) =
      let (out, f, g) = trim_lem limit {E = E} xs kept n k t in
      (
        out,
        gather-eos fuel n s s' kept e ∙ ap (λ r. some (r, s')) f,
        subst (λ ys. concat out ≡ drop (length ys - limit) ys) (sym (append-nil xs)) g,
      )
  gather_lem (suc fuel) s' xs kept n l k t (gives {s} {s1} {bs} b e y) =
      let (k', t') =
        drop_front-Kept limit (xs ++ b) (kept ++ (b ∷ [])) (n + length b)
          (Kept-snoc xs kept n b k) in
      let (out, f, g) = gather_lem fuel s' (xs ++ b) _ _ (omega arith) k' t' y in
      (
        out,
        gather_batch fuel n s s1 b kept e ∙ f,
        subst (λ ys. concat out ≡ drop (length ys - limit) ys) (append_assoc xs b (concat bs)) g,
      )

  -- The result of a first Pull, by the batches that are left of the stream.
  unfoldable first_of : List (List V) → S → Option (Pulled E V × (Tail V × S))
  unfolding emit
  first_of [] s' = eos (initial, s')
  first_of (b ∷ bs) s' = emit b bs s'

  pull-first_of :
      (fuel : ℕ) (s s' : S) (out : List (List V))
      → gather parent limit fuel s [] 0 ≡ some (ok out, s')
      → pull parent limit fuel false (initial, s) ≡ first_of out s'
  unfolding pull start first_of
  pull-first_of fuel s s' [] e = rw (e, start)
  pull-first_of fuel s s' (b ∷ bs) e = rw (e, start)

  -- Kept batches are sent one by one.
  emit-Yields :
      (fuel : ℕ) (s' : S) (b : List V) (bs : List (List V)) (from : Tail V × S)
      → pull parent limit fuel false from ≡ emit b bs s'
      → Yields (pull parent limit fuel) (initial, s') from (b ∷ bs)
  unfolding emit pull
  emit-Yields fuel s' b [] from e = gives b e (ends refl)
  emit-Yields fuel s' b (c ∷ bs) from e = gives b e (emit-Yields fuel s' c bs _ refl)

  out-Yields :
      (fuel : ℕ) (s s' : S) (out : List (List V))
      → pull parent limit fuel false (initial, s) ≡ first_of out s'
      → Yields (pull parent limit fuel) (initial, s') (initial, s) out
  unfolding first_of
  out-Yields fuel s s' [] e = ends e
  out-Yields fuel s s' (b ∷ bs) e = emit-Yields fuel s' b bs _ e

  -- A stream that is pulled to its natural end makes tail send its last `limit` values, or all of them
  -- if there are fewer, and then end in the initial state; the fuel for the loop is more than the
  -- batches of the stream.
  pub tail_Yields :
      (fuel : ℕ) {s s' : S} {bs : List (List V)}
      → length bs < fuel
      → Yields parent s' s bs
      → (cs : List (List V)) × Yields (pull parent limit fuel) (initial, s') (initial, s) cs
        × (concat cs ≡ drop (length (concat bs) - limit) (concat bs))
  tail_Yields fuel {s} {s'} l y =
      let (out, f, g) = gather_lem fuel s' [] [] 0 l nothing-Kept refl y in
      (out, out-Yields fuel s s' out (pull-first_of fuel s s' out f), g)

  -- Behind a batch of tail behind which another one comes, the parent stands behind its stream.
  middle_lem :
      (fuel : ℕ) (s' : S) (out : List (List V)) {b c : List V} {t : Tail V} {x : S} {y : Tail V × S}
      → first_of out s' ≡ sends b (t, x)
      → pull parent limit fuel false (t, x) ≡ sends c y
      → (t.at_end ≡ false) × (x ≡ s')
  unfolding first_of emit pull
  middle_lem fuel s' [] e f = absurd (cc e)
  middle_lem fuel s' (d ∷ []) {c = c} {t = t} {x = x} {y = y} e f =
      let a : t ≡ record { batches = []; at_end = true } = cc e in
      let g : eos {E = E} {S = Tail V × S} {V = V} (initial, x) ≡ sends c y =
        subst (λ u. pull parent limit fuel false (u, x) ≡ sends c y) a f in
      absurd (cc g)
  middle_lem fuel s' (d ∷ k ∷ ds) {t = t} {x = x} e f =
      let a : t ≡ record { batches = k ∷ ds; at_end = false } = cc e in
      (ap (λ (u : Tail V). u.at_end) a, cc e)

  pull_done :
      (fuel : ℕ) (t : Tail V) (s s'' : S)
      → t.at_end ≡ false
      → parent true s ≡ eos s''
      → pull parent limit fuel true (t, s) ≡ eos (initial, s'')
  unfolding pull
  pull_done fuel t s s'' a e = rw (a, pull) (rw (e, pull) refl)

  -- The first Pull of tail in a stream of its parent sends a batch, and a second one would send
  -- another: then the parent's stream is already over. If the second Pull comes with `done` instead,
  -- the parent is told so all the same, and its next stream is over, of which nothing was pulled; the
  -- fuel for the loop is more than the batches of the stream.
  pub tail_done_loses_stream :
      (fuel : ℕ) {s s' s'' x : S} {bs next : List (List V)} {b c : List V} {t : Tail V}
      {y : Tail V × S}
      → length bs < fuel
      → Yields parent s' s bs
      → Plays parent s'' s' next
      → pull parent limit fuel false (initial, s) ≡ sends b (t, x)
      → pull parent limit fuel false (t, x) ≡ sends c y
      → (x ≡ s') × (pull parent limit fuel true (t, x) ≡ eos (initial, s''))
  tail_done_loses_stream fuel {s} {s'} {s''} {x} {t = t} l h z e f =
      let (out, g, q) = gather_lem fuel s' [] [] 0 l nothing-Kept refl h in
      let (a, m) = middle_lem fuel s' out (sym (pull-first_of fuel s s' out g) ∙ e) f in
      (m, pull_done fuel t x s'' a (ap (parent true) m ∙ done_lem z))
