-- ===== src/Op/Router.antt =====
-- The router that sends one stream to several routes, and fork: runtime/sam/op/router.go and
-- runtime/sam/op/fork/fork.go.
pub mod Routes
pub mod Delivery
use super.Prelude.{
  ℕ, zero, suc, ◌+◌, Bool, true, false, ◌&&◌, Option, none, some, List, [], ◌∷◌, ◌++◌,
}
use super.Prelude.{if◌then◌else◌}
use super.Prelude.Result.{ok, err}
use super.Op.Pull.{Pull}
use mathlib.Core.Option

-- How a send on a route's channel ends: the reader takes the result, the reader comes with a done, or
-- the context is done.
pub data Meeting : Type 0 where
  received came_done cancelled : Meeting

-- What happened on a route: a batch, the end of the stream, or the reader's own done.
pub data Event (V : Type 0) : Type 0 where
  batch : List V → Event V
  end_of_stream own_done : Event V

-- The struct route, with what happened on it.
pub record Route (V : Type 0) : Type 0 where
  pub blocked : Bool
  pub log : List (Event V)

-- One select of Send or of sendEOS, and whether a result that is received blocks the route.
unfoldable pub offer : {V : Type 0} → Bool → Event V → Meeting → Route V → Option (Route V)
offer blocks e received r = some (record { blocked = blocks; log = r.log ++ (e ∷ []) })
offer blocks e came_done r = some (record { blocked = true; log = r.log ++ (own_done ∷ []) })
offer blocks e cancelled r = none

abbrev pub both : {A : Type 0} → Option A → Option (List A) → Option (List A)
both none ys = none
both (some x) none = none
both (some x) (some ys) = some (x ∷ ys)

-- A loop over the routes that leaves out the blocked ones; `meet` says how each route meets the send.
-- `none` is a context that is done.
unfoldable pub offer_all :
    {V : Type 0} → Bool → Event V → (ℕ → Meeting) → List (Route V) → Option (List (Route V))
unfolding offer
offer_all blocks e meet [] = some []
offer_all blocks e meet (r ∷ rs) =
    both (if r.blocked then some r else offer blocks e (meet 0) r)
      (offer_all blocks e (λ i. meet (suc i)) rs)

-- The method Forward of the splitter of fork: each batch goes to each route.
unfoldable pub forward :
    {V : Type 0} → List V → (ℕ → Meeting) → List (Route V) → Option (List (Route V))
unfolding offer_all
forward b = offer_all false (batch b)

unfoldable pub unblock : {V : Type 0} → List (Route V) → List (Route V)
unblock [] = []
unblock (r ∷ rs) = record r { blocked = false } ∷ unblock rs

-- The method sendEOS; the error that it is given is not read.
unfoldable pub send_eos :
    {E V : Type 0} → Option E → (ℕ → Meeting) → List (Route V) → Option (List (Route V))
unfolding offer_all unblock
send_eos error meet rs = Option.map unblock (offer_all true end_of_stream meet rs)

-- The method blocked.
unfoldable pub all_blocked : {V : Type 0} → List (Route V) → Bool
all_blocked [] = true
all_blocked (r ∷ rs) = r.blocked && all_blocked rs

-- The state of the router behind some rounds of its loop: going on, returned, or out of a panic.
pub data Outcome (S V : Type 0) : Type 0 where
  going : S → List (Route V) → Outcome S V
  returned panicked : Outcome S V

-- The rest of a round, behind the sending.
abbrev pub go_on : {S V : Type 0} → S → Option (List (Route V)) → Outcome S V
go_on s none = returned
go_on s (some rs) = going s rs

module _ {E S V : Type 0} (parent : Pull E S V) where
  -- A round that pulls the parent's next batch.
  unfoldable pub next_batch : (ℕ → Meeting) → S → List (Route V) → Outcome S V
  unfolding forward send_eos unblock
  next_batch meet s rs = elim (parent false s) [
    | none ↦ returned
    | some (err e, s1) ↦ go_on s1 (send_eos (some e) meet rs)
    | some (ok none, s1) ↦ go_on s1 (send_eos {E = E} none meet rs)
    | some (ok (some b), s1) ↦ go_on s1 (forward b meet rs)
  ]

  -- One round of the loop of run.
  unfoldable pub round : (ℕ → Meeting) → S → List (Route V) → Outcome S V
  unfolding next_batch all_blocked send_eos unblock
  round meet s rs =
      if all_blocked rs
      then (elim (parent true s) [
        | none ↦ returned
        | some (ok (some b), s1) ↦ panicked
        | some (err e, s1) ↦ go_on s1 (send_eos (some e) meet rs)
        | some (ok none, s1) ↦ next_batch meet s1 (unblock rs)
      ])
      else next_batch meet s rs

  -- Rounds of the loop, with the meetings of each.
  unfoldable pub rounds : List (ℕ → Meeting) → S → List (Route V) → Outcome S V
  unfolding round
  rounds [] s rs = going s rs
  rounds (meet ∷ meets) s rs = elim (round meet s rs) [
    | going s1 qs ↦ rounds meets s1 qs
    | returned ↦ returned
    | panicked ↦ panicked
  ]
