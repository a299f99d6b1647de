-- ===== src/Branches.antt =====
-- The branches of a pool: lake/branches/config.go and store.go, over a journal of configurations.
use super.Prelude.{ℕ, Bool, Option, some, List, [], ◌∷◌, String}
use super.Prelude.{nat_eq, string_eq, ◌==◌, if◌then◌else◌}
use super.Prelude.Result.{Result, ok, err}
use super.Journal.Queue as Queue
use super.Journal.Store.{Journal, Store, Others}
use super.Journal.Store as Journals

pub record Config : Type 0 where
  pub ts : ℕ
  pub name : String
  pub commit : ℕ

-- The method Key.
abbrev pub key : Config → String
key c = c.name

-- ErrNotFound, the error of Remove when its check fails, and the errors of the journal.
pub data Error : Type 0 where
  not_found raced : Error
  from_journal : Queue.Error → Error

unfoldable pub with_name : String → List Config → Result Error Config
with_name name [] = err not_found
with_name name (c ∷ cs) = let rest = with_name name cs in if c.name == name then ok c else rest

-- An error of All is dropped, and then no branch is found.
unfoldable pub lookup_by_name :
    Journal Config → Store Config → String → Result Error Config × (Journal Config × Store Config)
unfolding with_name Journals.all
lookup_by_name j s name = elim (Journals.all key j s) [
  | err e ↦ (err not_found, (j, s))
  | ok (cs, js) ↦ (with_name name cs, js)
]

unfoldable pub add :
    Others Config
    → Config
    → Journal Config
    → Store Config
    → Result Queue.Error (Unit {0}) × (Journal Config × Store Config)
unfolding Journals.insert
add = Journals.insert key

-- The method Update.
unfoldable pub replace :
    Others Config
    → Config
    → Option (Config → Bool)
    → Journal Config
    → Store Config
    → Result Queue.Error (Unit {0}) × (Journal Config × Store Config)
unfolding Journals.replace
replace = Journals.replace key

unfoldable pub remove_error : Result Queue.Error (Unit {0}) → Result Error (Unit {0})
remove_error (ok u) = ok u
remove_error (err Queue.no_such_key) = err not_found
remove_error (err Queue.constraint_failed) = err raced
remove_error (err e) = err (from_journal e)

-- The branch must still be at the commit that the caller knows.
unfoldable pub remove :
    Others Config
    → Config
    → Journal Config
    → Store Config
    → Result Error (Unit {0}) × (Journal Config × Store Config)
unfolding Journals.remove remove_error
remove others c j s =
    let (r, js) = Journals.remove key others c.name (some (λ p. p.commit == c.commit)) j s in
    (remove_error r, js)
