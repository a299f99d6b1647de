-- ===== src/Commits/Writeable.antt =====
-- The interfaces View and Writeable of lake/commits/snapshot.go, and the functions that play a
-- recorded transaction into a Writeable.
use super.Prelude.{Bool, List, [], ◌∷◌}
use super.Prelude.Result.{Result, ok, err, is_ok}
use super.Commits.Types.{
  Ksuid, DataObject, Action, add, add_vector, delete, delete_vector, commit, Object, Error,
}

-- The interface View, less the method Select.
pub record View : Type 0 where
  pub lookup : Ksuid → Result Error DataObject
  pub has_vector : Ksuid → Bool
  pub select_all : List DataObject

-- The function Exists.
unfoldable pub exists : View → Ksuid → Bool
exists v i = is_ok (v.lookup i)

-- The methods that change a Writeable. Each of them changes nothing when it returns an error.
pub record Writeable (W : Type 0) : Type 0 where
  pub add_data_object : W → DataObject → Result Error W
  pub delete_object : W → Ksuid → Result Error W
  pub add_vector : W → Ksuid → Result Error W
  pub delete_vector : W → Ksuid → Result Error W

module _ {W : Type 0} ⦃w : Writeable W⦄ where
  unfoldable pub play_action : W → Action → Result Error W
  play_action s (add c o) = w.add_data_object s o
  play_action s (add_vector c i) = w.add_vector s i
  play_action s (delete c i) = w.delete_object s i
  play_action s (delete_vector c i) = w.delete_vector s i
  play_action s (commit c) = ok s

  unfoldable pub play_actions : W → List Action → Result Error W
  unfolding play_action
  play_actions s [] = ok s
  play_actions s (a ∷ rest) = elim (play_action s a) [ ok t ↦ play_actions t rest | err e ↦ err e ]

  -- The function Play.
  unfoldable pub play : W → Object → Result Error W
  unfolding play_actions
  play s o = play_actions s o.actions
