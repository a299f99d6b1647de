-- ===== src/Commits/Snapshot/Inversion.antt =====
-- What a method of Snapshot that returned no error found, and what it left.
use super.Prelude.{◌≡◌, true, false, arith, nat_eq}
use super.Prelude.Result.{ok}
use super.GoMap
use super.GoMap.{has, put}
use super.Commits.Types.{Ksuid, DataObject}
use super.Commits.Snapshot.{Snapshot, add_data_object, delete_object}
use super.Commits.Snapshot as Snap

pub add_data_object-eq-ok :
    (s t : Snapshot) (o : DataObject)
    → add_data_object s o ≡ ok t
    → (has s.objects o.id ≡ false) × (record s { objects = put s.objects o.id o } ≡ t)
unfolding add_data_object
add_data_object-eq-ok s t o e = ground arith

pub delete_object-eq-ok :
    (s t : Snapshot) (i : Ksuid)
    → delete_object s i ≡ ok t
    → (has s.objects i ≡ true) × (record s { objects = GoMap.delete s.objects i } ≡ t)
unfolding delete_object
delete_object-eq-ok s t i e = ground arith

pub add_vector-eq-ok :
    (s t : Snapshot) (i : Ksuid)
    → Snap.add_vector s i ≡ ok t
    → (has s.vectors i ≡ false) × (record s { vectors = put s.vectors i tt } ≡ t)
unfolding Snap.add_vector
add_vector-eq-ok s t i e = ground arith

pub delete_vector-eq-ok :
    (s t : Snapshot) (i : Ksuid)
    → Snap.delete_vector s i ≡ ok t
    → (has s.vectors i ≡ true) × (record s { vectors = GoMap.delete s.vectors i } ≡ t)
unfolding Snap.delete_vector
delete_vector-eq-ok s t i e = ground arith
