-- ===== src/Op/Head/Stream.antt =====
-- What head makes of a stream.
use super.Prelude.{
  ℕ, suc, ◌+◌, ◌-◌, ◌≤◌, ◌<◌, ◌≡◌, sym, ◌∙◌, ap, Bool, true, false, inl, inr, List, [], ◌∷◌, ◌++◌,
  append-nil, arith,
}
use super.Prelude.{leb, ltb, length, Bool-cases}
use super.Prelude.Slice.{take, take_nil, take-append_short, take-append_long}
use super.Op.Pull.{Pull, eos, sends, Plays, stops, plays, concat, done_lem}
use super.Op.Head.{initial, pull, again, finish, cut}

module _ {E S V : Type 0} (parent : Pull E S V) (limit : ℕ) where
  leb_reached : (c : ℕ) → limit ≤ c → leb limit c ≡ true
  leb_reached c h = ground arith

  leb_below : (c : ℕ) → c < limit → leb limit c ≡ false
  leb_below c h = ground arith

  pull_reached :
      (fuel : ℕ) (d : Bool) (s : S)
      → pull parent limit fuel d (record { count = limit }, s) ≡ eos (initial, s)
  unfolding pull
  pull_reached fuel d s = rw (leb_reached limit (omega arith), pull)

  pull_done :
      (fuel c : ℕ) (s s' : S)
      → c < limit
      → parent true s ≡ eos s'
      → pull parent limit fuel true (record { count = c }, s) ≡ eos (initial, s')
  unfolding pull finish
  pull_done fuel c s s' h d = rw (leb_below c h, pull) (rw (d, finish, cut))

  pull-eos :
      (fuel c : ℕ) (s s' : S)
      → c < limit
      → parent false s ≡ eos s'
      → pull parent limit (suc fuel) false (record { count = c }, s) ≡ eos (initial, s')
  unfolding pull again
  pull-eos fuel c s s' h e = rw (leb_below c h, pull) (rw (e, again))

  pull_whole :
      (fuel c : ℕ) (b : List V) (s s1 : S)
      → c < limit
      → parent false s ≡ sends b s1
      → ltb (length b) (limit - c) ≡ true
      → pull parent limit (suc fuel) false (record { count = c }, s)
        ≡ sends b (record { count = c + length b }, s1)
  unfolding pull again
  pull_whole fuel c b s s1 h e l =
      rw (leb_below c h, pull) (rw (e, again) (rw (leb_below c h, again) (rw (l, again))))

  pull_cut :
      (fuel c : ℕ) (b : List V) (s s1 s' : S)
      → c < limit
      → parent false s ≡ sends b s1
      → parent true s1 ≡ eos s'
      → ltb (length b) (limit - c) ≡ false
      → pull parent limit (suc fuel) false (record { count = c }, s)
        ≡ sends (take (limit - c) b) (record { count = limit }, s')
  unfolding pull again cut
  pull_cut fuel c b s s1 s' h e d l =
      rw (leb_below c h, pull)
        (rw (e, again) (rw (leb_below c h, again) (rw (l, again) (rw (d, finish, cut)))))

  -- A parent that keeps the contract makes head keep it: from `c` values sent, the stream has at most
  -- `m` more of the parent's values, and then ends in the initial state.
  head_from :
      (fuel : ℕ) {s' : S} (c m : ℕ) {s : S} {bs : List (List V)}
      → limit ≡ c + m
      → 0 < m
      → Plays parent s' s bs
      → (cs : List (List V)) × Plays
          (pull parent limit (suc fuel))
          (initial, s')
          (record { count = c }, s)
          cs
        × (concat cs ≡ take m (concat bs))
  head_from fuel c m e p (stops {s} f d) = (
    [],
    stops (pull-eos fuel c s _ (omega arith) f) (pull_done (suc fuel) c s _ (omega arith) d),
    sym (take_nil m),
  )
  head_from fuel c m e p (plays {s} {s1} {bs} b f d h) =
      elim (Bool-cases (ltb (length b) (limit - c))) [
        | inl l ↦
            let l' : length b < m = ground arith in
            let (cs, k, q) =
              head_from fuel (c + length b) (m - length b) (omega arith) (omega arith) h in
            (
              b ∷ cs,
              plays b (pull_whole fuel c b s s1 (omega arith) f l)
                  (pull_done (suc fuel) c s _ (omega arith) d) k,
              ap (λ l. b ++ l) q
                  ∙ sym (take-append_short m (m - length b) b (concat bs) (omega arith)),
            )
        | inr l ↦
            let l' : m ≤ length b = ground arith in
            (
              take (limit - c) b ∷ [],
              plays (take (limit - c) b) (pull_cut fuel c b s s1 _ (omega arith) f (done_lem h) l)
                  (pull_done (suc fuel) c s _ (omega arith) d)
                  (stops (pull_reached (suc fuel) false _) (pull_reached (suc fuel) true _)),
              append-nil _
                  ∙ ap (λ k. take k b) (omega arith)
                  ∙ sym (take-append_long m b (concat bs) l'),
            )
      ]

  -- Over a parent that keeps the contract of Puller, head with a limit above 0 keeps it too, and its
  -- stream is the first `limit` values of the parent's stream.
  pub head_Plays :
      (fuel : ℕ) {s s' : S} {bs : List (List V)}
      → 0 < limit
      → Plays parent s' s bs
      → (cs : List (List V)) × Plays (pull parent limit (suc fuel)) (initial, s') (initial, s) cs
        × (concat cs ≡ take limit (concat bs))
  head_Plays fuel p h = head_from fuel 0 limit (omega arith) p h
