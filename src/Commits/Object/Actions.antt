-- ===== src/Commits/Object/Actions.antt =====
-- Which actions the functions that build a commit object put into it.
use super.Prelude.{
  ℕ, ◌%◌, ◌≡◌, refl, sym, ◌∙◌, ap, List, [], ◌∷◌, ◌++◌, map, append_assoc, append-nil,
}
use super.Commits.Types.{
  Ksuid, Value, Action, add, add_vector, delete, delete_vector, commit, Object,
}
use super.Commits.Object.{
  Stamp, Note, append_add, append_delete, append_add_vector, append_delete_vector, append_each,
}

-- A commit object that starts with its own Commit action and gives its identifier to the rest.
abbrev pub first_commit : Stamp → Ksuid → Note → Value → ℕ → Action
first_commit st parent note meta retries = commit (record {
  id = st.id;
  parent = parent;
  retries = retries % 256;
  author = note.author;
  date = st.now;
  message = note.message;
  meta = meta;
})

-- `f` appends the action `act c x` for the commit `c` of the object.
abbrev pub Appends : {X : Type 0} → (Object → X → Object) → (Ksuid → X → Action) → Type 0
Appends {X} f act =
    (o : Object) (x : X) → f o x ≡ record o { actions = o.actions ++ (act o.commit x ∷ []) }

pub append_each_lem :
    {X : Type 0} (f : Object → X → Object) (act : Ksuid → X → Action) (o : Object) (xs : List X)
    → Appends f act
    → append_each f o xs ≡ record o { actions = o.actions ++ map (act o.commit) xs }
unfolding append_each
append_each_lem f act o [] h = ap (λ l. record o { actions = l }) (sym (append-nil o.actions))
append_each_lem f act o (x ∷ xs) h =
    ap (λ p. append_each f p xs) (h o x)
    ∙ append_each_lem f act (record o { actions = o.actions ++ (act o.commit x ∷ []) }) xs h
    ∙ ap (λ l. record o { actions = l })
        (append_assoc o.actions (act o.commit x ∷ []) (map (act o.commit) xs))

pub append_add-Appends : Appends append_add add
unfolding append_add
append_add-Appends o x = refl

pub append_delete-Appends : Appends append_delete delete
unfolding append_delete
append_delete-Appends o x = refl

pub append_add_vector-Appends : Appends append_add_vector add_vector
unfolding append_add_vector
append_add_vector-Appends o x = refl

pub append_delete_vector-Appends : Appends append_delete_vector delete_vector
unfolding append_delete_vector
append_delete_vector-Appends o x = refl
