-- ===== src/Op/Uniq/Done.antt =====
-- What uniq does with a Pull that ends its stream, and head over uniq.
use super.Prelude.{ℕ, suc, ◌<◌, ◌≡◌, refl, Bool, true, false, none, some, [], ◌∷◌, arith}
use super.Prelude.{leb}
use super.Prelude.Result.{err}
use super.Op.Pull.{panicked, Pull, eos, sends}
use super.Types.{Value}
use super.Op.Uniq.{wrap, same_bytes, Uniq, loop, flush}
use super.Op.Uniq as Uniq
use super.Op.Head as Head

module _ {E S : Type 0} (cflag : Bool) (parent : Pull E S Value) where
  abbrev pub within : Value → ℕ → Uniq
  within l n = record { count = n; last = some l; at_end = false }

  abbrev pub flushed : ℕ → Uniq
  flushed n = record { count = n; last = none; at_end = true }

  -- A Pull with `done` after some values sends a batch, where the contract wants the end of the stream.
  done_sends :
      (fuel n : ℕ) (l : Value) (s s' : S)
      → parent true s ≡ eos s'
      → Uniq.pull cflag parent (suc fuel) true (within l n, s)
        ≡ sends (wrap cflag l n ∷ []) (flushed n, s')
  unfolding Uniq.pull loop flush
  done_sends fuel n l s s' e = rw (e, loop) refl

  -- A head that has sent fewer values than its limit, and that is told to stop while the uniq below it
  -- is in the middle of a run, panics, where the parent of uniq ends its stream as it is told.
  pub head_panics_over_uniq :
      (fuel more limit c n : ℕ) (l : Value) (s s' : S)
      → c < limit
      → parent true s ≡ eos s'
      → Head.pull
          (Uniq.pull cflag parent (suc fuel))
          limit
          more
          true
          (record { count = c }, (within l n, s))
        ≡ some (err panicked, (record { count = c }, (flushed n, s')))
  unfolding Head.pull Head.finish
  head_panics_over_uniq fuel more limit c n l s s' h e =
      let b : leb limit c ≡ false = ground arith in
      rw (b, Head.pull) (rw (done_sends fuel n l s s' e, Head.finish) refl)
