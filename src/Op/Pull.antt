-- ===== src/Op/Pull.antt =====
-- The interface Puller of zbuf/batch.go, and its contract.
use super.Prelude.{◌≡◌, refl, Bool, true, false, Option, none, some, List, [], ◌∷◌, ◌++◌}
use super.Prelude.Result.{Result, ok}

-- An error that a Pull returns, or a panic.
pub data Fault (E : Type 0) : Type 0 where
  failed : E → Fault E
  panicked : Fault E

-- What a Pull returns: a batch, or nil for the end of the stream.
abbrev pub Pulled : Type 0 → Type 0 → Type 0
Pulled E V = Result (Fault E) (Option (List V))

-- The method Pull over all that its pipeline remembers. `none` is a loop whose fuel ran out.
abbrev pub Pull : Type 0 → Type 0 → Type 0 → Type 0
Pull E S V = Bool → S → Option (Pulled E V × S)

abbrev pub eos : {E S V : Type 0} → S → Option (Pulled E V × S)
eos s = some (ok none, s)

abbrev pub sends : {E S V : Type 0} → List V → S → Option (Pulled E V × S)
sends b s = some (ok (some b), s)

-- A state from which the stream sends the batches and then ends, in the state from which the next
-- stream starts.
pub data Yields {E S V : Type 0} (pull : Pull E S V) (s' : S) : S → List (List V) → Type 0 where
  ends : {s : S} → pull false s ≡ eos s' → Yields pull s' s []
  gives :
      {s s1 : S} {bs : List (List V)} (b : List V)
      → pull false s ≡ sends b s1
      → Yields pull s' s1 bs
      → Yields pull s' s (b ∷ bs)

-- The whole contract: besides, a Pull with `done` ends the stream wherever it stands, and leaves the
-- state from which the next stream starts.
pub data Plays {E S V : Type 0} (pull : Pull E S V) (s' : S) : S → List (List V) → Type 0 where
  stops : {s : S} → pull false s ≡ eos s' → pull true s ≡ eos s' → Plays pull s' s []
  plays :
      {s s1 : S} {bs : List (List V)} (b : List V)
      → pull false s ≡ sends b s1
      → pull true s ≡ eos s'
      → Plays pull s' s1 bs
      → Plays pull s' s (b ∷ bs)

pub done_lem :
    {E S V : Type 0} {pull : Pull E S V} {s' s : S} {bs : List (List V)}
    → Plays pull s' s bs
    → pull true s ≡ eos s'
done_lem (stops e d) = d
done_lem (plays b e d h) = d

pub Plays-Yields :
    {E S V : Type 0} {pull : Pull E S V} {s' s : S} {bs : List (List V)}
    → Plays pull s' s bs
    → Yields pull s' s bs
Plays-Yields (stops e d) = ends e
Plays-Yields (plays b e d h) = gives b e (Plays-Yields h)

-- All values of a stream, in order.
abbrev pub concat : {V : Type 0} → List (List V) → List V
concat [] = []
concat (b ∷ bs) = b ++ concat bs

-- A source that is given as the batches of its streams.
unfoldable pub from_streams : {E V : Type 0} → Pull E (List (List (List V))) V
from_streams d [] = eos []
from_streams true (g ∷ gs) = eos gs
from_streams false ([] ∷ gs) = eos gs
from_streams false ((b ∷ bs) ∷ gs) = sends b (bs ∷ gs)

pub from_streams-Plays :
    {E V : Type 0} (g : List (List V)) (gs : List (List (List V)))
    → Plays (from_streams {E = E}) gs (g ∷ gs) g
unfolding from_streams
from_streams-Plays [] gs = stops refl refl
from_streams-Plays (b ∷ bs) gs = plays b refl refl (from_streams-Plays bs gs)
