-- ===== src/Commits/Snapshot/Play.antt =====
-- Playing runs of actions of one kind, and what playing keeps.
use super.Prelude.{◌≡◌, refl, sym, ◌∙◌, subst, true, false, some, List, [], ◌∷◌, ◌++◌, map, arith}
use super.Prelude.{nat_eq, elem, Distinct, beq_refl, nat_beq_iff, Bool-cases, inl, inr}
use super.Prelude.Result.{ok, err, ◌>>=◌, Result-cases, ok-injective, err-injective}
use super.GoMap.{
  Map, get, has, put, copy_into, delete_each, keys, values, IsMap, get-put, get-delete, put-IsMap,
  delete-IsMap,
}
use super.GoMap
use super.Commits.Types.{
  Ksuid, DataObject, Action, add, add_vector, delete, delete_vector, commit, Error,
  is_write_conflict,
}
use super.Commits.Writeable.{play_action, play_actions}
use super.Commits.Snapshot.{Snapshot, IsValid, add_data_object, delete_object, snapshot_writeable}
use super.Commits.Snapshot as Snap

-- Each object of the map stands under its own identifier.
abbrev pub IsNamed : Map Ksuid DataObject → Type 0
IsNamed m = (i : Ksuid) (o : DataObject) → get m i ≡ some o → o.id ≡ i

-- No key of the first map is a key of the second.
abbrev pub Disjoint : {V U : Type 0} → Map Ksuid V → Map Ksuid U → Type 0
Disjoint m n = (i : Ksuid) → has m i ≡ true → has n i ≡ false

pub play_actions-append :
    (s : Snapshot) (xs ys : List Action)
    → play_actions s (xs ++ ys) ≡ (play_actions s xs >>= λ t. play_actions t ys)
unfolding play_actions
play_actions-append s [] ys = refl
play_actions-append s (a ∷ xs) ys = elim (Result-cases (play_action s a)) [
  | inl (t, e) ↦ rw (e, play_actions) (play_actions-append t xs ys)
  | inr (x, e) ↦ rw (e, play_actions)
]

-- One action that can be played, or that cannot.
pub play_actions-cons_ok :
    (s t : Snapshot) (a : Action) (rest : List Action)
    → play_action s a ≡ ok t
    → play_actions s (a ∷ rest) ≡ play_actions t rest
unfolding play_actions
play_actions-cons_ok s t a rest e = rw (e, play_actions)

pub play_actions-cons_err :
    (s : Snapshot) (x : Error) (a : Action) (rest : List Action)
    → play_action s a ≡ err x
    → play_actions s (a ∷ rest) ≡ err x
unfolding play_actions
play_actions-cons_err s x a rest e = rw (e, play_actions)

pub play_add :
    (c i : Ksuid) (s : Snapshot) (o : DataObject)
    → o.id ≡ i
    → has s.objects i ≡ false
    → play_action s (add c o) ≡ ok (record s { objects = put s.objects i o })
unfolding play_action add_data_object
play_add c i s o n h =
    subst
      (λ k.
        has s.objects k ≡ false
        → play_action s (add c o) ≡ ok (record s { objects = put s.objects k o }))
      n (λ f. simp f) h

pub play_add_vector :
    (c i : Ksuid) (s : Snapshot)
    → has s.vectors i ≡ false
    → play_action s (add_vector c i) ≡ ok (record s { vectors = put s.vectors i tt })
unfolding play_action Snap.add_vector
play_add_vector c i s h = rw h

pub play_delete :
    (c i : Ksuid) (s : Snapshot)
    → has s.objects i ≡ true
    → play_action s (delete c i) ≡ ok (record s { objects = GoMap.delete s.objects i })
unfolding play_action delete_object
play_delete c i s h = rw h

pub play_delete_vector :
    (c i : Ksuid) (s : Snapshot)
    → has s.vectors i ≡ true
    → play_action s (delete_vector c i) ≡ ok (record s { vectors = GoMap.delete s.vectors i })
unfolding play_action Snap.delete_vector
play_delete_vector c i s h = rw h

pub IsNamed-head :
    (i : Ksuid) (o : DataObject) (m : Map Ksuid DataObject) → IsNamed ((i, o) ∷ m) → o.id ≡ i
unfolding get
IsNamed-head i o m h = h i o (rw (beq_refl i))

pub IsNamed-tail :
    (i : Ksuid) (o : DataObject) (m : Map Ksuid DataObject)
    → IsMap ((i, o) ∷ m)
    → IsNamed ((i, o) ∷ m)
    → IsNamed m
unfolding get
IsNamed-tail i o m u h j p e = h j p (ground (arith, nat_beq_iff i j))

pub Disjoint-head :
    {V U : Type 0} (i : Ksuid) (v : V) (m : Map Ksuid V) (n : Map Ksuid U)
    → Disjoint ((i, v) ∷ m) n
    → has n i ≡ false
unfolding get
Disjoint-head i v m n d = d i (rw (beq_refl i))

pub Disjoint-tail :
    {V : Type 0} (i : Ksuid) (v : V) (m n : Map Ksuid V)
    → IsMap ((i, v) ∷ m)
    → Disjoint ((i, v) ∷ m) n
    → Disjoint m (put n i v)
unfolding get
Disjoint-tail i v m n u d j e = ground (arith, d j, get-put n i j v, nat_beq_iff i j, u.0, e)

-- Adding the objects of a map that the snapshot has none of.
pub play_adds :
    (c : Ksuid) (s : Snapshot) (m : Map Ksuid DataObject)
    → IsMap m
    → IsNamed m
    → Disjoint m s.objects
    → play_actions s (map (λ o. add c o) (values m))
      ≡ ok (record s { objects = copy_into s.objects m })
unfolding play_actions values copy_into
play_adds c s [] u n d = refl
play_adds c s ((i, o) ∷ m) u n d =
    play_actions-cons_ok s _ (add c o) (map (λ x. add c x) (values m))
      (play_add c i s o (IsNamed-head i o m n) (Disjoint-head i o m s.objects d))
    ∙ play_adds c (record s { objects = put s.objects i o }) m u.1 (IsNamed-tail i o m u n)
        (Disjoint-tail i o m s.objects u d)

-- Adding the vectors of a set that the snapshot has none of.
pub play_add_vectors :
    (c : Ksuid) (s : Snapshot) (m : Map Ksuid (Unit {0}))
    → IsMap m
    → Disjoint m s.vectors
    → play_actions s (map (λ i. add_vector c i) (keys m))
      ≡ ok (record s { vectors = copy_into s.vectors m })
unfolding play_actions keys copy_into
play_add_vectors c s [] u d = refl
play_add_vectors c s ((i, v) ∷ m) u d =
    play_actions-cons_ok s _ (add_vector c i) (map (λ j. add_vector c j) (keys m))
      (play_add_vector c i s (Disjoint-head i v m s.vectors d))
    ∙ play_add_vectors c (record s { vectors = put s.vectors i v }) m u.1
        (Disjoint-tail i v m s.vectors u d)

-- Each of the keys is in the map.
abbrev pub AllIn : {V : Type 0} → List Ksuid → Map Ksuid V → Type 0
AllIn ids m = (i : Ksuid) → elem i ids ≡ true → has m i ≡ true

AllIn-head :
    {V : Type 0} (i : Ksuid) (ids : List Ksuid) (m : Map Ksuid V)
    → AllIn (i ∷ ids) m
    → has m i ≡ true
AllIn-head i ids m h = h i (rw (beq_refl i))

AllIn-tail :
    {V : Type 0} (i : Ksuid) (ids : List Ksuid) (m : Map Ksuid V)
    → elem i ids ≡ false
    → AllIn (i ∷ ids) m
    → AllIn ids (GoMap.delete m i)
AllIn-tail i ids m f h j e = ground (arith, h j, get-delete m i j, nat_beq_iff i j, f, e)

-- Deleting data objects that the snapshot has, each once.
pub play_deletes :
    (c : Ksuid) (s : Snapshot) (ids : List Ksuid)
    → Distinct ids
    → AllIn ids s.objects
    → play_actions s (map (λ i. delete c i) ids)
      ≡ ok (record s { objects = delete_each s.objects ids })
unfolding play_actions delete_each
play_deletes c s [] d h = refl
play_deletes c s (i ∷ ids) d h =
    play_actions-cons_ok s _ (delete c i) (map (λ j. delete c j) ids)
      (play_delete c i s (AllIn-head i ids s.objects h))
    ∙ play_deletes c (record s { objects = GoMap.delete s.objects i }) ids d.1
        (AllIn-tail i ids s.objects d.0 h)

-- Deleting vectors that the snapshot has, each once.
pub play_delete_vectors :
    (c : Ksuid) (s : Snapshot) (ids : List Ksuid)
    → Distinct ids
    → AllIn ids s.vectors
    → play_actions s (map (λ i. delete_vector c i) ids)
      ≡ ok (record s { vectors = delete_each s.vectors ids })
unfolding play_actions delete_each
play_delete_vectors c s [] d h = refl
play_delete_vectors c s (i ∷ ids) d h =
    play_actions-cons_ok s _ (delete_vector c i) (map (λ j. delete_vector c j) ids)
      (play_delete_vector c i s (AllIn-head i ids s.vectors h))
    ∙ play_delete_vectors c (record s { vectors = GoMap.delete s.vectors i }) ids d.1
        (AllIn-tail i ids s.vectors d.0 h)

put-IsNamed : (m : Map Ksuid DataObject) (o : DataObject) → IsNamed m → IsNamed (put m o.id o)
put-IsNamed m o h i x e = ground (arith, h i x, get-put m o.id i o, nat_beq_iff o.id i, e)

delete-IsNamed : (m : Map Ksuid DataObject) (k : Ksuid) → IsNamed m → IsNamed (GoMap.delete m k)
delete-IsNamed m k h i x e = ground (arith, h i x, get-delete m k i, e)

-- Every action that can be played leaves a valid snapshot.
pub play_action-IsValid :
    (s t : Snapshot) (a : Action) → IsValid s → play_action s a ≡ ok t → IsValid t
unfolding play_action add_data_object delete_object Snap.add_vector Snap.delete_vector
play_action-IsValid s t (add c o) v e = elim (Bool-cases (has s.objects o.id)) [
  | inl h ↦ cc (rw h at e)
  | inr h ↦ subst IsValid (ok-injective (rw h at e)) (record {
    objects_map = put-IsMap s.objects o.id o v.objects_map;
    vectors_map = v.vectors_map;
    named = put-IsNamed s.objects o v.named;
  })
]
play_action-IsValid s t (add_vector c i) v e = elim (Bool-cases (has s.vectors i)) [
  | inl h ↦ cc (rw h at e)
  | inr h ↦ subst IsValid (ok-injective (rw h at e)) (record {
    objects_map = v.objects_map;
    vectors_map = put-IsMap s.vectors i tt v.vectors_map;
    named = v.named;
  })
]
play_action-IsValid s t (delete c i) v e = elim (Bool-cases (has s.objects i)) [
  | inl h ↦ subst IsValid (ok-injective (rw h at e)) (record {
    objects_map = delete-IsMap s.objects i v.objects_map;
    vectors_map = v.vectors_map;
    named = delete-IsNamed s.objects i v.named;
  })
  | inr h ↦ cc (rw h at e)
]
play_action-IsValid s t (delete_vector c i) v e = elim (Bool-cases (has s.vectors i)) [
  | inl h ↦ subst IsValid (ok-injective (rw h at e)) (record {
    objects_map = v.objects_map;
    vectors_map = delete-IsMap s.vectors i v.vectors_map;
    named = v.named;
  })
  | inr h ↦ cc (rw h at e)
]
play_action-IsValid s t (commit c) v e = subst IsValid (ok-injective e) v

-- From a valid snapshot, a run of actions that can be played ends in a valid snapshot.
pub play_actions-IsValid :
    (s t : Snapshot) (acts : List Action) → IsValid s → play_actions s acts ≡ ok t → IsValid t
unfolding play_actions
play_actions-IsValid s t [] v e = subst IsValid (ok-injective e) v
play_actions-IsValid s t (a ∷ acts) v e = elim (Result-cases (play_action s a)) [
  | inl (u, h) ↦
      play_actions-IsValid u t acts (play_action-IsValid s u a v h)
        (sym (play_actions-cons_ok s u a acts h) ∙ e)
  | inr (x, h) ↦ cc (sym (play_actions-cons_err s x a acts h) ∙ e)
]

play_action-err :
    (s : Snapshot) (a : Action) (x : Error) → play_action s a ≡ err x → is_write_conflict x ≡ true
unfolding play_action add_data_object delete_object Snap.add_vector Snap.delete_vector
    is_write_conflict
play_action-err s a x e = ground arith

-- Playing actions into a snapshot fails with a write conflict, and with no other error.
pub play_actions-err :
    (s : Snapshot) (acts : List Action) (x : Error)
    → play_actions s acts ≡ err x
    → is_write_conflict x ≡ true
unfolding play_actions
play_actions-err s [] x e = cc
play_actions-err s (a ∷ acts) x e = elim (Result-cases (play_action s a)) [
  | inl (u, h) ↦ play_actions-err u acts x (sym (play_actions-cons_ok s u a acts h) ∙ e)
  | inr (y, h) ↦
      subst (λ z. is_write_conflict z ≡ true)
        (err-injective (sym (play_actions-cons_err s y a acts h) ∙ e)) (play_action-err s a y h)
]
