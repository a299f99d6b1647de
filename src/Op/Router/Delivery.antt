-- ===== src/Op/Router/Delivery.antt =====
-- What each route of a fork gets of a stream.
use super.Prelude.{
  ℕ, suc, ◌≡◌, refl, sym, ◌∙◌, ap, Bool, true, false, Option, none, some, ◌⊎◌, inl, inr, List, [],
  ◌∷◌, ◌++◌,
}
use super.Prelude.{Bool-cases, Option-cases, if◌then◌else◌}
use super.Prelude.Result.{err}
use super.Op.Pull.{Fault, Pull, eos, sends, Plays, stops, plays, done_lem}
use super.Op.Router.{
  Meeting, received, came_done, cancelled, Event, batch, end_of_stream, Route, offer, both,
  offer_all, forward, unblock, send_eos, all_blocked, Outcome, going, returned, go_on, next_batch,
  round,
}
use mathlib.Core.Option
use super.Op.Router.Routes.{
  both_true, not_both, Each, Follows, Finished, forward-Each, send_eos-Each, listens, left,
  was_left,
}

both-none :
    {A : Type 0} (x : Option A) (ys : Option (List A)) → both x ys ≡ none → (x ≡ none) ⊎ (ys ≡ none)
both-none none ys e = inl refl
both-none (some x) none e = inr refl
both-none (some x) (some ys) e = absurd (cc e)

-- A send on an open route met a context that is done.
abbrev pub Cancelled : {V : Type 0} → (ℕ → Meeting) → List (Route V) → Type 0
Cancelled meet [] = ⊥
Cancelled meet (r ∷ rs) =
    ((r.blocked ≡ false) × (meet 0 ≡ cancelled)) ⊎ Cancelled (λ i. meet (suc i)) rs

module _ {V : Type 0} where
  refuses :
      (blocks : Bool) (e : Event V) (m : Meeting) (r : Route V)
      → offer blocks e m r ≡ none
      → m ≡ cancelled
  unfolding offer
  refuses blocks e received r f = absurd (cc f)
  refuses blocks e came_done r f = absurd (cc f)
  refuses blocks e cancelled r f = refl

  offer-Cancelled :
      (blocks : Bool) (e : Event V) (m : Meeting) (r : Route V)
      → (if r.blocked then some r else offer blocks e m r) ≡ none
      → (r.blocked ≡ false) × (m ≡ cancelled)
  offer-Cancelled blocks e m r f = elim (Bool-cases r.blocked) [
    | inl b ↦ absurd (cc (sym (ap (λ c. if c then some r else offer blocks e m r) b) ∙ f))
    | inr b ↦
        (b, refuses blocks e m r (sym (ap (λ c. if c then some r else offer blocks e m r) b) ∙ f))
  ]

  offer_all-Cancelled :
      (blocks : Bool) (e : Event V) (meet : ℕ → Meeting) (rs : List (Route V))
      → offer_all blocks e meet rs ≡ none
      → Cancelled meet rs
  unfolding offer_all
  offer_all-Cancelled blocks e meet [] f = cc f
  offer_all-Cancelled blocks e meet (r ∷ rs) f = elim (both-none _ _ f) [
    | inl g ↦ inl (offer-Cancelled blocks e (meet 0) r g)
    | inr g ↦ inr (offer_all-Cancelled blocks e (λ i. meet (suc i)) rs g)
  ]

  send_eos-Cancelled :
      {E : Type 0} (x : Option E) (meet : ℕ → Meeting) (rs : List (Route V))
      → send_eos x meet rs ≡ none
      → Cancelled meet rs
  unfolding send_eos
  send_eos-Cancelled x meet rs f = elim (Option-cases (offer_all true end_of_stream meet rs)) [
    | inl g ↦ offer_all-Cancelled true end_of_stream meet rs g
    | inr (qs, g) ↦ absurd (cc (ap (Option.map unblock) g, f))
  ]

  -- When every route is blocked, every reader has left.
  left-Finished :
      (bs : List (List V)) (r q : Route V)
      → Follows bs r q
      → q.blocked ≡ true
      → Finished bs r (record q { blocked = false })
  left-Finished bs r q (left ps qs c d l) e = was_left ps qs refl d l
  left-Finished bs r q (listens c l) e = absurd (cc (c, e))

  all_left-Each :
      (bs : List (List V)) (rs qs : List (Route V))
      → Each (Follows bs) rs qs
      → all_blocked qs ≡ true
      → Each (Finished bs) rs (unblock qs)
  unfolding unblock all_blocked
  all_left-Each bs [] [] h e = tt
  all_left-Each bs [] (q ∷ qs) h e = h
  all_left-Each bs (r ∷ rs) [] h e = h
  all_left-Each bs (r ∷ rs) (q ∷ qs) h e = elim (Bool-cases q.blocked) [
    | inl b ↦
        let t : all_blocked qs ≡ true = sym (both_true q.blocked (all_blocked qs) b) ∙ e in
        (left-Finished bs r q h.0 b, all_left-Each bs rs qs h.1 t)
    | inr b ↦ absurd (not_both q.blocked (all_blocked qs) b e)
  ]

  forward-Cancelled :
      (b : List V) (meet : ℕ → Meeting) (rs : List (Route V))
      → forward b meet rs ≡ none
      → Cancelled meet rs
  unfolding forward
  forward-Cancelled b meet rs f = offer_all-Cancelled false (batch b) meet rs f

  module _ {E S : Type 0} (parent : Pull E S V) where
    -- What a round made of routes that followed a stream up to here, when `bs` is still to come.
    pub data Progress (rs : List (Route V)) (s' : S) (past bs : List (List V)) (meet : ℕ → Meeting)
        (qs : List (Route V)) (o : Outcome S V) : Type 0 where
      cut_off : o ≡ returned → Cancelled meet qs → Progress rs s' past bs meet qs o
      all_left :
          all_blocked qs ≡ true
          → o ≡ next_batch parent meet s' (unblock qs)
          → Each (Finished past) rs (unblock qs)
          → Progress rs s' past bs meet qs o
      took :
          (b : List V) (cs : List (List V)) (s1 : S) (ps : List (Route V))
          → bs ≡ b ∷ cs
          → o ≡ going s1 ps
          → Plays parent s' s1 cs
          → Each (Follows (past ++ (b ∷ []))) rs ps
          → Progress rs s' past bs meet qs o
      ran_out :
          (ps : List (Route V))
          → bs ≡ []
          → o ≡ going s' ps
          → Each (Finished past) rs ps
          → Progress rs s' past bs meet qs o

    round_awake :
        (meet : ℕ → Meeting) (s : S) (qs : List (Route V))
        → all_blocked qs ≡ false
        → round parent meet s qs ≡ next_batch parent meet s qs
    unfolding round
    round_awake meet s qs h = rw (h, round) refl

    round_left :
        (meet : ℕ → Meeting) (s s' : S) (qs : List (Route V))
        → all_blocked qs ≡ true
        → parent true s ≡ eos s'
        → round parent meet s qs ≡ next_batch parent meet s' (unblock qs)
    unfolding round
    round_left meet s s' qs h e = rw (h, round) (rw (e, round) refl)

    next_batch-sends :
        (meet : ℕ → Meeting) (s s1 : S) (qs : List (Route V)) (b : List V)
        → parent false s ≡ sends b s1
        → next_batch parent meet s qs ≡ go_on s1 (forward b meet qs)
    unfolding next_batch
    next_batch-sends meet s s1 qs b e = rw (e, next_batch) refl

    next_batch_ends :
        (meet : ℕ → Meeting) (s s1 : S) (qs : List (Route V))
        → parent false s ≡ eos s1
        → next_batch parent meet s qs ≡ go_on s1 (send_eos {E = E} none meet qs)
    unfolding next_batch
    next_batch_ends meet s s1 qs e = rw (e, next_batch) refl

    next_batch-Progress :
        (rs : List (Route V)) (s' : S) (past : List (List V)) (meet : ℕ → Meeting)
        (qs : List (Route V)) {s : S} {bs : List (List V)} {o : Outcome S V}
        → Plays parent s' s bs
        → Each (Follows past) rs qs
        → o ≡ next_batch parent meet s qs
        → Progress rs s' past bs meet qs o
    next_batch-Progress rs s' past meet qs (stops {s} e d) h q =
        elim (Option-cases (send_eos {E = E} none meet qs)) [
          | inl f ↦
              cut_off (q ∙ next_batch_ends meet s s' qs e ∙ ap (go_on s') f)
                (send_eos-Cancelled {E = E} none meet qs f)
          | inr (ps, f) ↦
              ran_out ps refl (q ∙ next_batch_ends meet s s' qs e ∙ ap (go_on s') f)
                (send_eos-Each {E = E} none past meet rs qs ps h f)
        ]
    next_batch-Progress rs s' past meet qs (plays {s} {s1} {bs} b e d z) h q =
        elim (Option-cases (forward b meet qs)) [
          | inl f ↦
              cut_off (q ∙ next_batch-sends meet s s1 qs b e ∙ ap (go_on s1) f)
                (forward-Cancelled b meet qs f)
          | inr (ps, f) ↦
              took b bs s1 ps refl (q ∙ next_batch-sends meet s s1 qs b e ∙ ap (go_on s1) f) z
                (forward-Each past b meet rs qs ps h f)
        ]

    -- One round of the router of a fork, over a parent that keeps the contract of Puller, when its
    -- routes followed the parent's stream so far: it stops, and the send on some open route met a context
    -- that is done; or every route was left, is finished with the stream, and the round goes on in the
    -- parent's next stream; or the next batch came, and every route was sent it or has left the stream;
    -- or the stream was at its end and every route is finished with it.
    pub round-Progress :
        (rs : List (Route V)) (s' : S) (past : List (List V)) (meet : ℕ → Meeting) (s : S)
        (bs : List (List V)) (qs : List (Route V))
        → Plays parent s' s bs
        → Each (Follows past) rs qs
        → Progress rs s' past bs meet qs (round parent meet s qs)
    round-Progress rs s' past meet s bs qs y h = elim (Bool-cases (all_blocked qs)) [
      | inl t ↦ all_left t (round_left meet s s' qs t (done_lem y)) (all_left-Each past rs qs h t)
      | inr t ↦ next_batch-Progress rs s' past meet qs y h (round_awake meet s qs t)
    ]

-- An error of the parent does the same as the end of its stream: while a route is open, a round over a
-- parent that fails and one over a parent that ends there have the same outcome.
pub round_drops_error :
    {E S V : Type 0} (parent quiet : Pull E S V) (meet : ℕ → Meeting) (s s1 : S) (f : Fault E)
    (rs : List (Route V))
    → all_blocked rs ≡ false
    → parent false s ≡ some (err f, s1)
    → quiet false s ≡ eos s1
    → round parent meet s rs ≡ round quiet meet s rs
unfolding next_batch send_eos
round_drops_error parent quiet meet s s1 f rs h e g =
    round_awake parent meet s rs h
    ∙ rw (e, next_batch) refl
    ∙ sym (next_batch_ends quiet meet s s1 rs g)
    ∙ sym (round_awake quiet meet s rs h)
