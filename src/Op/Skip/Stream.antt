-- ===== src/Op/Skip/Stream.antt =====
-- What skip makes of a stream.
use super.Prelude.{
  ℕ, zero, suc, ◌+◌, ◌-◌, ◌≤◌, ◌<◌, ◌≡◌, refl, sym, ◌∙◌, ap, Bool, true, false, inl, inr, List, [],
  ◌∷◌, ◌++◌, arith,
}
use super.Prelude.{leb, ltb, length, Bool-cases}
use super.Prelude.Slice.{drop, drop-append_short, drop-append_long}
use super.Op.Pull.{Pull, eos, sends, Plays, stops, plays, concat, done_lem}
use super.Op.Skip.{initial, pull}

module _ {E S V : Type 0} (parent : Pull E S V) (offset : ℕ) where
  leb_reached : (c : ℕ) → offset ≤ c → leb offset c ≡ true
  leb_reached c h = ground arith

  leb_below : (c : ℕ) → c < offset → leb offset c ≡ false
  leb_below c h = ground arith

  pull-eos :
      (fuel c : ℕ) (d : Bool) (s s' : S)
      → parent d s ≡ eos s'
      → pull parent offset (suc fuel) d (record { count = c }, s) ≡ eos (initial, s')
  unfolding pull
  pull-eos fuel c d s s' e = rw (e, pull)

  pull_past :
      (fuel c : ℕ) (b : List V) (s s1 : S)
      → offset ≤ c
      → parent false s ≡ sends b s1
      → pull parent offset (suc fuel) false (record { count = c }, s)
        ≡ sends b (record { count = c }, s1)
  unfolding pull
  pull_past fuel c b s s1 h e = rw (e, pull) (rw (leb_reached c h, pull))

  pull_cut :
      (fuel c : ℕ) (b : List V) (s s1 : S)
      → c < offset
      → parent false s ≡ sends b s1
      → ltb (offset - c) (length b) ≡ true
      → pull parent offset (suc fuel) false (record { count = c }, s)
        ≡ sends (drop (offset - c) b) (record { count = offset }, s1)
  unfolding pull
  pull_cut fuel c b s s1 h e l = rw (e, pull) (rw (leb_below c h, pull) (rw (l, pull)))

  pull_over :
      (fuel c : ℕ) (b : List V) (s s1 : S)
      → c < offset
      → parent false s ≡ sends b s1
      → ltb (offset - c) (length b) ≡ false
      → pull parent offset (suc fuel) false (record { count = c }, s)
        ≡ pull parent offset fuel false (record { count = c + length b }, s1)
  unfolding pull
  pull_over fuel c b s s1 h e l = rw (e, pull) (rw (leb_below c h, pull) (rw (l, pull)))

  -- Behind the offset the stream is the parent's.
  skip_past :
      (fuel : ℕ) {s' : S} (c : ℕ) {s : S} {bs : List (List V)}
      → offset ≤ c
      → Plays parent s' s bs
      → Plays (pull parent offset (suc fuel)) (initial, s') (record { count = c }, s) bs
  skip_past fuel c l (stops {s} f d) =
      stops (pull-eos fuel c false s _ f) (pull-eos fuel c true s _ d)
  skip_past fuel c l (plays {s} {s1} b f d h) =
      plays b (pull_past fuel c b s s1 l f) (pull-eos fuel c true s _ d) (skip_past fuel c l h)

  -- What the first Pull gives, with `m` values still to skip.
  data First (s' : S) (fuel c m : ℕ) (s : S) (bs : List (List V)) : Type 0 where
    nothing :
        pull parent offset fuel false (record { count = c }, s) ≡ eos (initial, s')
        → drop m (concat bs) ≡ []
        → First s' fuel c m s bs
    some_values :
        (v : List V) {s1 : S} {ds : List (List V)}
        → pull parent offset fuel false (record { count = c }, s)
          ≡ sends v (record { count = offset }, s1)
        → Plays parent s' s1 ds
        → drop m (concat bs) ≡ v ++ concat ds
        → First s' fuel c m s bs

  First-over :
      (s' : S) (fuel c m n : ℕ) (b : List V) {s s1 : S} {bs : List (List V)}
      → pull parent offset (suc fuel) false (record { count = c }, s)
        ≡ pull parent offset fuel false (record { count = c + length b }, s1)
      → m ≡ length b + n
      → First s' fuel (c + length b) n s1 bs
      → First s' (suc fuel) c m s (b ∷ bs)
  First-over s' fuel c m n b {bs = bs} e q (nothing f g) =
      nothing (e ∙ f) (drop-append_short m n b (concat bs) q ∙ g)
  First-over s' fuel c m n b {bs = bs} e q (some_values v f h g) =
      some_values v (e ∙ f) h (drop-append_short m n b (concat bs) q ∙ g)

  first_lem :
      (s' : S) (fuel c m : ℕ) {s : S} {bs : List (List V)}
      → offset ≡ c + m
      → length bs < fuel
      → Plays parent s' s bs
      → First s' fuel c m s bs
  first_lem s' zero c m o l h = absurd (omega arith)
  first_lem s' (suc fuel) c zero o l (stops {s} f d) = nothing (pull-eos fuel c false s _ f) refl
  first_lem s' (suc fuel) c zero {bs} o l (plays {s} {s1} b f d h) =
      some_values b
        (pull_past fuel c b s s1 (omega arith) f
          ∙ ap (λ k. sends b (record { count = k }, s1)) (omega arith))
        h refl
  first_lem s' (suc fuel) c (suc m) o l (stops {s} f d) = nothing (pull-eos fuel c false s _ f) refl
  first_lem s' (suc fuel) c (suc m) o l (plays {s} {s1} {bs} b f d h) =
      elim (Bool-cases (ltb (offset - c) (length b))) [
        | inl t ↦
            let t' : suc m < length b = ground arith in
            let q : suc m ≡ offset - c = omega arith in
            some_values (drop (offset - c) b) (pull_cut fuel c b s s1 (omega arith) f t) h (
              drop-append_long (suc m) b (concat bs) (omega arith)
              ∙ ap (λ k. drop k b ++ concat bs) q)
        | inr t ↦
            let t' : length b ≤ suc m = ground arith in
            First-over s' fuel c (suc m) (suc m - length b) b
              (pull_over fuel c b s s1 (omega arith) f t) (omega arith)
              (first_lem s' fuel (c + length b) (suc m - length b) (omega arith) (omega arith) h)
      ]

  -- Over a parent that keeps the contract of Puller, skip keeps it too, and its stream is the parent's
  -- without the first `offset` values; the fuel for its loop is more than the batches of the stream.
  pub skip_Plays :
      (fuel : ℕ) {s s' : S} {bs : List (List V)}
      → length bs < fuel
      → Plays parent s' s bs
      → (cs : List (List V)) × Plays (pull parent offset fuel) (initial, s') (initial, s) cs
        × (concat cs ≡ drop offset (concat bs))
  skip_Plays zero l h = absurd (omega arith)
  skip_Plays (suc fuel) {s} {s'} l h = elim (first_lem s' (suc fuel) 0 offset (omega arith) l h) [
    | nothing f g ↦ ([], stops f (pull-eos fuel 0 true s _ (done_lem h)), sym g)
    | some_values v {ds} f k g ↦ (
      v ∷ ds,
      plays v f (pull-eos fuel 0 true s _ (done_lem h)) (skip_past fuel offset (omega arith) k),
      sym g,
    )
  ]
