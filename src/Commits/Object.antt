-- ===== src/Commits/Object.antt =====
-- Commit objects (lake/commits/object.go). What `ksuid.New` and `nano.Now` return is an argument.
pub mod Actions
use super.Prelude.{ℕ, ◌%◌, ◌≡◌, refl, List, [], ◌∷◌, ◌++◌, Option, none, some, arith}
use super.Prelude.{append_assoc}
use super.Prelude.Result.{Result, ok, err, ◌>>=◌}
use super.Commits.Types.{
  Ksuid, nil, Value, DataObject, Commit, Action, add, add_vector, delete, delete_vector, commit,
  Object, Error, bad_commit_object, empty_transaction,
}

-- What a call of NewObject takes from its environment: a new identifier and the time.
pub record Stamp : Type 0 where
  pub id : Ksuid
  pub now : ℕ

-- Who commits, and why.
pub record Note : Type 0 where
  pub author : List ℕ
  pub message : List ℕ

unfoldable pub append : Object → Action → Object
append o a = record o { actions = o.actions ++ (a ∷ []) }

-- `uint8(retries)`
unfoldable pub new_object : Stamp → Ksuid → Note → Value → ℕ → Object
unfolding append
new_object st parent note meta retries =
    append (record { commit = st.id; parent = parent; actions = [] })
      (commit (record {
        id = st.id;
        parent = parent;
        retries = retries % 256;
        author = note.author;
        date = st.now;
        message = note.message;
        meta = meta;
      }))

unfoldable pub append_add : Object → DataObject → Object
unfolding append
append_add o d = append o (add o.commit d)

unfoldable pub append_delete : Object → Ksuid → Object
unfolding append
append_delete o i = append o (delete o.commit i)

unfoldable pub append_add_vector : Object → Ksuid → Object
unfolding append
append_add_vector o i = append o (add_vector o.commit i)

unfoldable pub append_delete_vector : Object → Ksuid → Object
unfolding append
append_delete_vector o i = append o (delete_vector o.commit i)

-- `for _, x := range xs { o.append…(x) }`
unfoldable pub append_each : {X : Type 0} → (Object → X → Object) → Object → List X → Object
append_each f o [] = o
append_each f o (x ∷ xs) = append_each f (f o x) xs

-- super.Null
abbrev pub null_value : Value
null_value = record { typ = 29; bytes = none }

unfoldable pub new_adds_object : Stamp → Ksuid → ℕ → Note → Value → List DataObject → Object
unfolding append_each append_add new_object
new_adds_object st parent retries note meta objects =
    append_each append_add (new_object st parent note meta retries) objects

unfoldable pub new_deletes_object : Stamp → Ksuid → ℕ → Note → List Ksuid → Object
unfolding append_each append_delete new_object
new_deletes_object st parent retries note ids =
    append_each append_delete (new_object st parent note null_value retries) ids

unfoldable pub new_add_vectors_object : Stamp → Ksuid → Note → List Ksuid → ℕ → Object
unfolding append_each append_add_vector new_object
new_add_vectors_object st parent note ids retries =
    append_each append_add_vector (new_object st parent note null_value retries) ids

unfoldable pub new_delete_vectors_object : Stamp → Ksuid → Note → List Ksuid → ℕ → Object
unfolding append_each append_delete_vector new_object
new_delete_vectors_object st parent note ids retries =
    append_each append_delete_vector (new_object st parent note null_value retries) ids

-- What `Serialize` writes is a sequence of actions; it refuses to write none.
unfoldable pub serialize : Object → Result Error (List Action)
serialize o = elim o.actions [ [] ↦ err empty_transaction | a ∷ rest ↦ ok (a ∷ rest) ]

-- The actions that were read. The first must be a Commit, which gives the identifiers.
unfoldable pub decode_object : List Action → Result Error Object
decode_object [] = ok (record { commit = nil; parent = nil; actions = [] })
decode_object (commit c ∷ rest) =
    ok (record { commit = c.id; parent = c.parent; actions = commit c ∷ rest })
decode_object (a ∷ rest) = err bad_commit_object
