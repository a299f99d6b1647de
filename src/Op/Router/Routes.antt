-- ===== src/Op/Router/Routes.antt =====
-- What a route gets of the batches and the end of a stream, one send at a time.
use super.Prelude.{
  ℕ, suc, ◌≡◌, refl, sym, ◌∙◌, ap, subst, Bool, true, false, ◌&&◌, Option, none, some, List, [],
  ◌∷◌, ◌++◌, map, append_assoc, append-nil,
}
use super.Prelude.{if◌then◌else◌}
use mathlib.Core.Option
use super.Op.Router.{
  Meeting, received, came_done, cancelled, Event, batch, end_of_stream, own_done, Route, offer,
  both, offer_all, forward, unblock, send_eos,
}

skipped : {A : Type 0} (b : Bool) (x y : A) → b ≡ true → (if b then x else y) ≡ x
skipped b x y h = rw h refl

offered : {A : Type 0} (b : Bool) (x y : A) → b ≡ false → (if b then x else y) ≡ y
offered b x y h = rw h refl

pub same : {A : Type 0} {a b : A} → ◌≡◌ {A = Option A} (some a) (some b) → a ≡ b
same e = cc e

both-some :
    {A : Type 0} (x : Option A) (y : Option (List A)) (ps : List A)
    → both x y ≡ some ps
    → (a : A) × (zs : List A) × (x ≡ some a) × (y ≡ some zs) × (a ∷ zs ≡ ps)
both-some none y ps h = absurd (cc h)
both-some (some a) none ps h = absurd (cc h)
both-some (some a) (some zs) ps h = (a, zs, refl, refl, same h)

map-some :
    {A B : Type 0} (f : A → B) (x : Option A) (b : B)
    → Option.map f x ≡ some b
    → (a : A) × (x ≡ some a) × (f a ≡ b)
map-some f none b h = absurd (cc h)
map-some f (some a) b h = (a, refl, same h)

pub both_true : (a b : Bool) → a ≡ true → (a && b) ≡ b
both_true a b h = rw h refl

pub not_both : (a b : Bool) → a ≡ false → ¬ ((a && b) ≡ true)
not_both true b h e = cc h
not_both false b h e = cc e

module _ {V : Type 0} where
  -- A relation between routes, route by route.
  abbrev pub Each : (Route V → Route V → Type 0) → List (Route V) → List (Route V) → Type 0
  Each P [] [] = Unit {0}
  Each P [] (q ∷ qs) = ⊥
  Each P (r ∷ rs) [] = ⊥
  Each P (r ∷ rs) (q ∷ qs) = P r q × Each P rs qs

  -- Behind the batches `bs` of a stream an open route has got them all, and a blocked one some first
  -- of them and then its reader's done.
  pub data Follows (bs : List (List V)) (r q : Route V) : Type 0 where
    listens : q.blocked ≡ false → q.log ≡ r.log ++ map batch bs → Follows bs r q
    left :
        (ps qs : List (List V))
        → q.blocked ≡ true
        → ps ++ qs ≡ bs
        → q.log ≡ r.log ++ (map batch ps ++ (own_done ∷ []))
        → Follows bs r q

  -- At the end of the stream every route is open again, and has got all of the batches and the end of
  -- the stream, or some first of them and then its reader's done.
  pub data Finished (bs : List (List V)) (r q : Route V) : Type 0 where
    ran_out :
        q.blocked ≡ false
        → q.log ≡ r.log ++ (map batch bs ++ (end_of_stream ∷ []))
        → Finished bs r q
    was_left :
        (ps qs : List (List V))
        → q.blocked ≡ false
        → ps ++ qs ≡ bs
        → q.log ≡ r.log ++ (map batch ps ++ (own_done ∷ []))
        → Finished bs r q

  map-append : (bs cs : List (List V)) → map batch (bs ++ cs) ≡ map batch bs ++ map batch cs
  map-append [] cs = refl
  map-append (b ∷ bs) cs = ap (λ l. batch b ∷ l) (map-append bs cs)

  longer :
      (l : List (Event V)) (bs : List (List V)) (e : Event V) (q : List (Event V))
      → q ≡ l ++ map batch bs
      → q ++ (e ∷ []) ≡ l ++ (map batch bs ++ (e ∷ []))
  longer l bs e q h = ap (λ x. x ++ (e ∷ [])) h ∙ append_assoc l (map batch bs) (e ∷ [])

  -- One open route and one batch.
  offer-Follows :
      (bs : List (List V)) (b : List V) (m : Meeting) (r q q' : Route V)
      → q.log ≡ r.log ++ map batch bs
      → offer false (batch b) m q ≡ some q'
      → Follows (bs ++ (b ∷ [])) r q'
  unfolding offer
  offer-Follows bs b received r q q' l e = subst (Follows (bs ++ (b ∷ [])) r) (same e) (
      listens refl
        (longer r.log bs (batch b) q.log l ∙ ap (λ x. r.log ++ x) (sym (map-append bs (b ∷ [])))))
  offer-Follows bs b came_done r q q' l e =
      subst (Follows (bs ++ (b ∷ [])) r) (same e)
        (left bs (b ∷ []) refl refl (longer r.log bs own_done q.log l))
  offer-Follows bs b cancelled r q q' l e = absurd (cc e)

  forward-Follows :
      (bs : List (List V)) (b : List V) (m : Meeting) (r q q' : Route V)
      → Follows bs r q
      → (if q.blocked then some q else offer false (batch b) m q) ≡ some q'
      → Follows (bs ++ (b ∷ [])) r q'
  forward-Follows bs b m r q q' (left ps qs c d l) e =
      subst (Follows (bs ++ (b ∷ [])) r) (same (sym (skipped q.blocked (some q) _ c) ∙ e)) (
        left ps (qs ++ (b ∷ [])) c (sym (append_assoc ps qs (b ∷ [])) ∙ ap (λ x. x ++ (b ∷ [])) d)
          l)
  forward-Follows bs b m r q q' (listens c l) e =
      offer-Follows bs b m r q q' l (sym (offered q.blocked (some q) _ c) ∙ e)

  -- One open route and the end of the stream.
  ends-Finished :
      (bs : List (List V)) (m : Meeting) (r q q' : Route V)
      → q.log ≡ r.log ++ map batch bs
      → offer true end_of_stream m q ≡ some q'
      → Finished bs r (record q' { blocked = false })
  unfolding offer
  ends-Finished bs received r q q' l e =
      subst (λ x. Finished bs r (record x { blocked = false })) (same e)
        (ran_out refl (longer r.log bs end_of_stream q.log l))
  ends-Finished bs came_done r q q' l e =
      subst (λ x. Finished bs r (record x { blocked = false })) (same e)
        (was_left bs [] refl (append-nil bs) (longer r.log bs own_done q.log l))
  ends-Finished bs cancelled r q q' l e = absurd (cc e)

  end-Finished :
      (bs : List (List V)) (m : Meeting) (r q q' : Route V)
      → Follows bs r q
      → (if q.blocked then some q else offer true end_of_stream m q) ≡ some q'
      → Finished bs r (record q' { blocked = false })
  end-Finished bs m r q q' (left ps qs c d l) e =
      subst (λ x. Finished bs r (record x { blocked = false }))
        (same (sym (skipped q.blocked (some q) _ c) ∙ e)) (was_left ps qs refl d l)
  end-Finished bs m r q q' (listens c l) e =
      ends-Finished bs m r q q' l (sym (offered q.blocked (some q) _ c) ∙ e)

  pub forward-Each :
      (bs : List (List V)) (b : List V) (meet : ℕ → Meeting) (rs qs ps : List (Route V))
      → Each (Follows bs) rs qs
      → forward b meet qs ≡ some ps
      → Each (Follows (bs ++ (b ∷ []))) rs ps
  unfolding forward offer_all
  forward-Each bs b meet [] [] ps h e = subst (Each (Follows (bs ++ (b ∷ []))) []) (same e) tt
  forward-Each bs b meet [] (q ∷ qs) ps h e = absurd h
  forward-Each bs b meet (r ∷ rs) [] ps h e = absurd h
  forward-Each bs b meet (r ∷ rs) (q ∷ qs) ps h e =
      let (a, zs, f, g, k) = both-some _ _ ps e in
      subst (Each (Follows (bs ++ (b ∷ []))) (r ∷ rs)) k (
        forward-Follows bs b (meet 0) r q a h.0 f,
        forward-Each bs b (λ i. meet (suc i)) rs qs zs h.1 g,
      )

  end-Each :
      (bs : List (List V)) (meet : ℕ → Meeting) (rs qs ps : List (Route V))
      → Each (Follows bs) rs qs
      → offer_all true end_of_stream meet qs ≡ some ps
      → Each (Finished bs) rs (unblock ps)
  unfolding offer_all unblock
  end-Each bs meet [] [] ps h e = subst (λ x. Each (Finished bs) [] (unblock x)) (same e) tt
  end-Each bs meet [] (q ∷ qs) ps h e = absurd h
  end-Each bs meet (r ∷ rs) [] ps h e = absurd h
  end-Each bs meet (r ∷ rs) (q ∷ qs) ps h e =
      let (a, zs, f, g, k) = both-some _ _ ps e in
      subst (λ x. Each (Finished bs) (r ∷ rs) (unblock x)) k
        (end-Finished bs (meet 0) r q a h.0 f, end-Each bs (λ i. meet (suc i)) rs qs zs h.1 g)

  pub send_eos-Each :
      {E : Type 0} (error : Option E) (bs : List (List V)) (meet : ℕ → Meeting)
      (rs qs ps : List (Route V))
      → Each (Follows bs) rs qs
      → send_eos error meet qs ≡ some ps
      → Each (Finished bs) rs ps
  unfolding send_eos
  send_eos-Each error bs meet rs qs ps h e =
      let (zs, f, g) = map-some unblock (offer_all true end_of_stream meet qs) ps e in
      subst (Each (Finished bs) rs) g (end-Each bs meet rs qs zs h f)
