-- ===== src/Op/Examples.antt =====
-- Runs of the operators over given streams.
use super.Prelude.{
  ℕ, zero, suc, ◌+◌, ◌<◌, ◌≡◌, refl, true, false, not, ◌||◌, some, List, [], ◌∷◌, map, arith,
}
use super.Prelude.Result.{err}
use super.Prelude.Slice.{take, drop}
use super.Prelude.Keep.{keep}
use super.Types.{Typ, primitive, error_of, string_type, quiet_text, Value, is_quiet, is_missing}
use super.Op.Pull.{
  failed, panicked, Pull, eos, Plays, Yields, Plays-Yields, from_streams, from_streams-Plays,
  concat,
}
use super.Op.Head as Head
use super.Op.Head.Stream.{head_Plays}
use super.Op.Skip as Skip
use super.Op.Skip.Stream.{skip_Plays}
use super.Op.Tail as Tail
use super.Op.Tail.Stream.{tail_Yields, tail_done_loses_stream}
use super.Op.Uniq as Uniq
use super.Op.Uniq.Runs.{Run, flatten, AreRuns, wrap_run}
use super.Op.Uniq.Stream.{uniq_Yields, uniq_panics_on_next_stream, over}
use super.Op.Uniq.Done.{within, flushed, head_panics_over_uniq}
use super.Op.Distinct as Distinct
use super.Op.Yield as Yield
use super.Op.Apply as Apply
use super.Op.Router.{Meeting, received, came_done, Route, unblock, round}
use super.Op.Router.Routes.{listens}
use super.Op.Router.Delivery.{Progress, round-Progress, round_drops_error}

-- The source of two streams of numbers, and of one that fails.
abbrev Streams : Type 0
Streams = List (List (List ℕ))

abbrev source : Pull ℕ Streams ℕ
source = from_streams

abbrev one : List (List ℕ)
one = (1 ∷ 2 ∷ []) ∷ (2 ∷ 3 ∷ []) ∷ []

abbrev rest : Streams
rest = ((3 ∷ []) ∷ []) ∷ []

abbrev one_Plays : Plays source rest (one ∷ rest) one
one_Plays = from_streams-Plays one rest

head_Plays_example :
    (cs : List (List ℕ)) × Plays
      (Head.pull source 3 2)
      (Head.initial, rest)
      (Head.initial, one ∷ rest)
      cs
    × (concat cs ≡ take 3 (concat one))
head_Plays_example = head_Plays source 3 1 (omega arith) one_Plays

skip_Plays_example :
    (cs : List (List ℕ)) × Plays
      (Skip.pull source 3 4)
      (Skip.initial, rest)
      (Skip.initial, one ∷ rest)
      cs
    × (concat cs ≡ drop 3 (concat one))
skip_Plays_example = skip_Plays source 3 4 (omega arith) one_Plays

tail_Yields_example :
    (cs : List (List ℕ)) × Yields
      (Tail.pull source 3 4)
      (Tail.initial, rest)
      (Tail.initial, one ∷ rest)
      cs
    × (concat cs ≡ drop 1 (concat one))
tail_Yields_example = tail_Yields source 3 4 (omega arith) (Plays-Yields one_Plays)

tail_done_loses_stream_example :
    (rest ≡ rest)
    × (Tail.pull source 3 4 true (record { batches = (2 ∷ 3 ∷ []) ∷ []; at_end = false }, rest)
        ≡ eos (Tail.initial, []))
unfolding Tail.pull Tail.start Tail.gather Tail.drop_front Tail.trim Tail.emit from_streams
tail_done_loses_stream_example =
    tail_done_loses_stream source 3 4 (omega arith) (Plays-Yields one_Plays)
      (from_streams-Plays ((3 ∷ []) ∷ []) []) refl refl

-- Values of the type int64, and one that is error("quiet").
abbrev int : ℕ → Value
int n = record { typ = primitive 9; bytes = some (n ∷ []) }

abbrev silence : Value
silence = record { typ = error_of string_type; bytes = some quiet_text }

abbrev values : List (List Value)
values = (int 1 ∷ int 2 ∷ []) ∷ (int 1 ∷ silence ∷ []) ∷ []

abbrev value_source : Pull ℕ (List (List (List Value))) Value
value_source = from_streams

abbrev values_Plays : Plays value_source [] (values ∷ []) values
values_Plays = from_streams-Plays values []

-- Values of two types with equal bytes.
abbrev text : ℕ → Value
text n = record { typ = string_type; bytes = some (n ∷ []) }

abbrev mixed : List (List Value)
mixed = (int 1 ∷ int 2 ∷ []) ∷ (text 2 ∷ int 3 ∷ []) ∷ []

abbrev mixed_streams : List (List (List Value))
mixed_streams = mixed ∷ ((int 3 ∷ []) ∷ []) ∷ []

abbrev mixed_Plays : Plays value_source (((int 3 ∷ []) ∷ []) ∷ []) mixed_streams mixed
mixed_Plays = from_streams-Plays mixed (((int 3 ∷ []) ∷ []) ∷ [])

uniq_Yields_example :
    (rs : List (Run Value)) × (flatten rs ≡ concat mixed)
    × AreRuns true rs
    × (c : ℕ) × (0 < c)
    × (cs : List (List Value)) × Yields
        (Uniq.pull true value_source 4)
        (over true value_source c, ((int 3 ∷ []) ∷ []) ∷ [])
        (Uniq.initial, mixed_streams)
        cs
    × (concat cs ≡ map (wrap_run true) rs)
uniq_Yields_example =
    uniq_Yields true value_source 4 (int 1) (int 2 ∷ text 2 ∷ int 3 ∷ []) (omega arith)
      (omega arith) refl (Plays-Yields mixed_Plays)

uniq_panics_on_next_stream_example :
    (t : Uniq.Uniq) × (cs : List (List Value)) × Yields
      (Uniq.pull true value_source 4)
      (t, ((int 3 ∷ []) ∷ []) ∷ [])
      (Uniq.initial, mixed_streams)
      cs
    × (Uniq.pull true value_source 4 false (t, ((int 3 ∷ []) ∷ []) ∷ [])
        ≡ some (err panicked, (t, [] ∷ [])))
unfolding from_streams
uniq_panics_on_next_stream_example =
    uniq_panics_on_next_stream true value_source 4 (int 1) (int 2 ∷ text 2 ∷ int 3 ∷ []) (int 3) []
      (omega arith) (omega arith) refl (Plays-Yields mixed_Plays) refl

head_panics_over_uniq_example :
    Head.pull
      (Uniq.pull true value_source 4)
      3
      2
      true
      (record { count = 1 }, (within true value_source (int 2) 1, mixed_streams))
    ≡ some (
      err panicked,
      (record { count = 1 }, (flushed true value_source 1, ((int 3 ∷ []) ∷ []) ∷ [])),
    )
unfolding from_streams
head_panics_over_uniq_example =
    head_panics_over_uniq true value_source 3 2 3 1 1 (int 2) mixed_streams
      (((int 3 ∷ []) ∷ []) ∷ []) (omega arith) refl

-- The numbers of the primitive types; no other stands below.
abbrev type_number : Typ → ℕ
type_number (primitive n) = n
type_number t = 30

-- An expression that counts the values that it saw.
abbrev counting : ℕ → Value → ℕ × Value
counting n v = (n + 1, int (n + 1))

abbrev same_value : ℕ → Value → ℕ × Value
same_value n v = (n, v)

yield_Plays_example :
    (cs : List (List Value)) × Plays
      (Yield.pull 0 (counting ∷ same_value ∷ []) value_source 3)
      (0, [])
      (0, values ∷ [])
      cs
    × (concat cs
        ≡ keep
            (λ v. not (is_quiet v))
            (Yield.results 0 (counting ∷ same_value ∷ []) 0 (concat values)).1)
yield_Plays_example = Yield.yield_Plays 0 (counting ∷ same_value ∷ []) 3 (omega arith) values_Plays

apply_Plays_example :
    (cs : List (List Value)) × Plays
      (Apply.pull 0 same_value value_source 3)
      (0, [])
      (0, values ∷ [])
      cs
    × (concat cs
        ≡ keep
            (λ v. not (is_quiet v || is_missing v))
            (Apply.results 0 same_value 0 (concat values)).1)
apply_Plays_example = Apply.apply_Plays 0 same_value 3 (omega arith) values_Plays

-- Two routes, one of which is left at the first batch.
abbrev routes : List (Route ℕ)
routes = record { blocked = false; log = [] } ∷ record { blocked = false; log = [] } ∷ []

abbrev meets : ℕ → Meeting
meets zero = received
meets (suc n) = came_done

round-Progress_example :
    Progress source routes rest [] one meets routes (round source meets (one ∷ rest) routes)
round-Progress_example =
    round-Progress source routes rest [] meets (one ∷ rest) one routes one_Plays
      (listens refl refl, (listens refl refl, tt))

abbrev broken : Pull ℕ Streams ℕ
broken d s = some (err (failed 5), rest)

round_drops_error_example :
    round broken meets ([] ∷ rest) routes ≡ round source meets ([] ∷ rest) routes
unfolding super.Op.Router.all_blocked from_streams
round_drops_error_example =
    round_drops_error broken source meets ([] ∷ rest) rest (failed 5) routes refl refl refl
