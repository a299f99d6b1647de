-- ===== src/Commits/Store/History.antt =====
-- The actions on the path from the root to a commit, as the stored commit objects give them.
use super.Prelude.{
  ℕ, suc, ◌≡◌, refl, sym, ◌∙◌, ap, ap₂, subst, false, List, [], ◌∷◌, ◌++◌, append_assoc, append-nil,
  ◌==◌,
}
use super.Prelude.{nat_eq, nat_beq_iff, arith}
use super.Prelude.Result.{Result, ok, err, ◌>>=◌, ok-injective}
use super.GoMap.{Map}
use super.Commits.Types.{Ksuid, nil, Action, Object, Error}
use super.Commits.Writeable.{play, play_actions}
use super.Commits.Snapshot.{Snapshot, snapshot_writeable}
use super.Commits.Snapshot.Play.{play_actions-append}
use super.Commits.Store.{file_object, play_objects}

pub data History (files : Map Ksuid (List Action)) : Ksuid → List Action → Type 0 where
  root : {c : Ksuid} → c ≡ nil → History files c []
  next :
      {c : Ksuid} {acts : List Action} (o : Object)
      → (c == nil) ≡ false
      → file_object files c ≡ ok o
      → History files o.parent acts
      → History files c (acts ++ o.actions)

-- How many commits there are on the path.
unfoldable pub depth :
    {files : Map Ksuid (List Action)} {c : Ksuid} {acts : List Action} → History files c acts → ℕ
depth (root e) = 0
depth (next o n f h) = suc (depth h)

pub History-unique :
    {files : Map Ksuid (List Action)} {c : Ksuid} {a b : List Action}
    → History files c a
    → History files c b
    → a ≡ b
History-unique (root e) (root e') = refl
History-unique (root e) (next o n f h) = absurd (ground (arith, nat_beq_iff _ nil, e, n))
History-unique (next o n f h) (root e) = absurd (ground (arith, nat_beq_iff _ nil, e, n))
History-unique {files} (next o n f h) (next {acts = b} o' n' f' h') =
    let eq : o' ≡ o = ok-injective (sym f' ∙ f) in
    ap₂ (λ x y. x ++ y)
      (History-unique h (subst (λ x. History files x b) (ap (λ x. x.parent) eq) h'))
      (ap (λ x. x.actions) (sym eq))

-- The actions of a run of commit objects.
unfoldable pub actions_of : List Object → List Action
actions_of [] = []
actions_of (o ∷ os) = o.actions ++ actions_of os

pub actions_of-append :
    (xs ys : List Object) → actions_of (xs ++ ys) ≡ actions_of xs ++ actions_of ys
unfolding actions_of
actions_of-append [] ys = refl
actions_of-append (o ∷ xs) ys =
    ap (λ l. o.actions ++ l) (actions_of-append xs ys)
    ∙ sym (append_assoc o.actions (actions_of xs) (actions_of ys))

pub actions_of-snoc :
    (xs : List Object) (o : Object) → actions_of (xs ++ (o ∷ [])) ≡ actions_of xs ++ o.actions
unfolding actions_of
actions_of-snoc xs o =
    actions_of-append xs (o ∷ []) ∙ ap (λ l. actions_of xs ++ l) (append-nil o.actions)

play_objects_from :
    (r : Result Error Snapshot) (os : List Object)
    → ((t : Snapshot) → play_objects t os ≡ play_actions t (actions_of os))
    → (elim r [ err e ↦ err e | ok t ↦ play_objects t os ])
      ≡ (r >>= λ t. play_actions t (actions_of os))
play_objects_from (ok t) os ih = ih t
play_objects_from (err e) os ih = refl

-- Playing commit objects one after the other is playing their actions.
pub play_objects-eq-play_actions :
    (s : Snapshot) (os : List Object) → play_objects s os ≡ play_actions s (actions_of os)
unfolding play_objects actions_of play play_actions
play_objects-eq-play_actions s [] = refl
play_objects-eq-play_actions s (o ∷ os) =
    play_objects_from (play_actions s o.actions) os (λ t. play_objects-eq-play_actions t os)
    ∙ sym (play_actions-append s o.actions (actions_of os))
