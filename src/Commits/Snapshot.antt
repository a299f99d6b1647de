-- ===== src/Commits/Snapshot.antt =====
-- The type Snapshot of lake/commits/snapshot.go.
pub mod Contents
pub mod Play
pub mod RoundTrip
pub mod Inversion
use super.Prelude.{ℕ, ◌≡◌, Bool, Option, none, some, List, [], ◌∷◌, ◌++◌, map}
use super.Prelude.{if◌then◌else◌, nat_eq}
use super.Prelude.Result.{Result, ok, err, ok_or}
use super.GoMap
use super.GoMap.{Map, get, has, put, copy_into, keys, values, IsMap}
use super.Commits.Types.{
  Ksuid, nil, DataObject, Action, Error, duplicate_object, missing_object, duplicate_vector,
  missing_vector, not_found,
}
use super.Commits.Writeable.{View, Writeable, play_actions}

pub record Snapshot : Type 0 where
  pub objects : Map Ksuid DataObject
  pub vectors : Map Ksuid (Unit {0})

abbrev pub new_snapshot : Snapshot
new_snapshot = record { objects = []; vectors = [] }

unfoldable pub add_data_object : Snapshot → DataObject → Result Error Snapshot
add_data_object s o =
    if has s.objects o.id
    then err (duplicate_object o.id)
    else ok (record s { objects = put s.objects o.id o })

unfoldable pub delete_object : Snapshot → Ksuid → Result Error Snapshot
delete_object s i =
    if has s.objects i
    then ok (record s { objects = GoMap.delete s.objects i })
    else err (missing_object i)

unfoldable pub add_vector : Snapshot → Ksuid → Result Error Snapshot
add_vector s i =
    if has s.vectors i
    then err (duplicate_vector i)
    else ok (record s { vectors = put s.vectors i tt })

unfoldable pub delete_vector : Snapshot → Ksuid → Result Error Snapshot
delete_vector s i =
    if has s.vectors i
    then ok (record s { vectors = GoMap.delete s.vectors i })
    else err (missing_vector i)

unfoldable pub lookup : Snapshot → Ksuid → Result Error DataObject
lookup s i = elim (get s.objects i) [ none ↦ err not_found | some o ↦ ok o ]

unfoldable pub has_vector : Snapshot → Ksuid → Bool
has_vector s i = has s.vectors i

unfoldable pub select_all : Snapshot → List DataObject
select_all s = values s.objects

abbrev pub view : Snapshot → View
view s = record { lookup = lookup s; has_vector = has_vector s; select_all = select_all s }

instance abbrev pub snapshot_writeable : Writeable Snapshot
snapshot_writeable = record {
  add_data_object = add_data_object;
  delete_object = delete_object;
  add_vector = add_vector;
  delete_vector = delete_vector;
}

unfoldable pub copy : Snapshot → Snapshot
unfolding copy_into
copy s = record { objects = copy_into [] s.objects; vectors = copy_into [] s.vectors }

-- What `serialize` writes, in order. The actions carry no commit identifier.
unfoldable pub serialize : Snapshot → List Action
serialize s =
    map (λ o. Action.add nil o) (values s.objects)
    ++ map (λ i. Action.add_vector nil i) (keys s.vectors)

-- `decodeSnapshot` plays the actions that it reads into an empty snapshot.
unfoldable pub decode_snapshot : List Action → Result Error Snapshot
unfolding play_actions
decode_snapshot acts = play_actions new_snapshot acts

-- The function Vectors: the data objects of a view that have a vector.
unfoldable pub vectors_of : View → List DataObject → Snapshot → Snapshot
vectors_of v [] snap = snap
vectors_of v (o ∷ os) snap =
    vectors_of v os (if v.has_vector o.id then ok_or (add_data_object snap o) snap else snap)

unfoldable pub vectors : View → Snapshot
unfolding vectors_of
vectors v = vectors_of v v.select_all new_snapshot

-- The maps hold each key once, and each object stands under its own identifier.
pub record IsValid (s : Snapshot) : Type 0 where
  pub objects_map : IsMap s.objects
  pub vectors_map : IsMap s.vectors
  pub named : (i : Ksuid) (o : DataObject) → get s.objects i ≡ some o → o.id ≡ i
