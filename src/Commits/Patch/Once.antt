-- ===== src/Commits/Patch/Once.antt =====
-- A commit object of a patch plays only if nothing of the base is deleted twice.
use super.Prelude.{ℕ, ◌≡◌, sym, ◌∙◌, ap, true, List, [], ◌∷◌, ◌++◌, map, arith}
use super.Prelude.{nat_eq, nat_beq_iff, beq_refl, elem, Distinct, Bool-cases, inl, inr, ◌↔◌}
use super.Prelude.Result.{ok, bind-eq-ok, is_ok, Result-cases}
use super.GoMap.{get-delete, values}
use super.Commits.Types.{Ksuid, Value, Action, add, delete, delete_vector}
use super.Commits.Object.{Stamp, Note}
use super.Commits.Object.Actions.{first_commit}
use super.Commits.Writeable.{play, play_action, play_actions}
use super.Commits.Snapshot.{Snapshot, snapshot_writeable, delete_object}
use super.Commits.Snapshot as Snap
use super.Commits.Snapshot.Inversion.{delete_object-eq-ok, delete_vector-eq-ok}
use super.Commits.Snapshot.Play.{play_actions-append, AllIn}
use super.Commits.Patch.{Patch, new_commit_object}
use super.Commits.Patch.Valid.{IsValid}
use super.Commits.Patch.Commit.{
  commit_actions, actions-new_commit_object, play-new_commit_object_valid,
}

play_cons :
    (s t : Snapshot) (a : Action) (rest : List Action)
    → play_actions s (a ∷ rest) ≡ ok t
    → (u : Snapshot) × (play_action s a ≡ ok u) × (play_actions u rest ≡ ok t)
unfolding play_actions
play_cons s t a rest e = elim (Result-cases (play_action s a)) [
  | inl (u, h) ↦ (u, h, rw (h, play_actions) at e)
  | inr (x, h) ↦ cc (rw (h, play_actions) at e)
]

-- A part of a run that plays to its end plays to its end.
play_parts :
    (s t : Snapshot) (xs ys : List Action)
    → play_actions s (xs ++ ys) ≡ ok t
    → (u : Snapshot) × (play_actions s xs ≡ ok u) × (play_actions u ys ≡ ok t)
play_parts s t xs ys e =
    bind-eq-ok (play_actions s xs) (λ u. play_actions u ys) (sym (play_actions-append s xs ys) ∙ e)

deletes_present :
    (c : Ksuid) (s t : Snapshot) (ids : List Ksuid)
    → play_actions s (map (delete c) ids) ≡ ok t
    → AllIn ids s.objects
unfolding play_action
deletes_present c s t [] e i h = cc
deletes_present c s t (k ∷ ids) e i h =
    let (u, a, r) = play_cons s t (delete c k) (map (delete c) ids) e in
    let (f, d) = delete_object-eq-ok s u k a in
    elim (Bool-cases (elem i ids)) [
      | inl m ↦
          ground (
            arith,
            deletes_present c u t ids r i m,
            get-delete s.objects k i,
            ap (λ x. x.objects) d,
          )
      | inr m ↦ ground (arith, nat_beq_iff k i, f, m, h)
    ]

deletes_once :
    (c : Ksuid) (s t : Snapshot) (ids : List Ksuid)
    → play_actions s (map (delete c) ids) ≡ ok t
    → Distinct ids
unfolding play_action
deletes_once c s t [] e = tt
deletes_once c s t (k ∷ ids) e =
    let (u, a, r) = play_cons s t (delete c k) (map (delete c) ids) e in
    let d = (delete_object-eq-ok s u k a).1 in
    elim (Bool-cases (elem k ids)) [
      | inl m ↦ absurd (
          ground (
            arith,
            deletes_present c u t ids r k m,
            get-delete s.objects k k,
            beq_refl k,
            ap (λ x. x.objects) d,
          ))
      | inr m ↦ (m, deletes_once c u t ids r)
    ]

vector_deletes_present :
    (c : Ksuid) (s t : Snapshot) (ids : List Ksuid)
    → play_actions s (map (delete_vector c) ids) ≡ ok t
    → AllIn ids s.vectors
unfolding play_action
vector_deletes_present c s t [] e i h = cc
vector_deletes_present c s t (k ∷ ids) e i h =
    let (u, a, r) = play_cons s t (delete_vector c k) (map (delete_vector c) ids) e in
    let (f, d) = delete_vector-eq-ok s u k a in
    elim (Bool-cases (elem i ids)) [
      | inl m ↦ ground (
        arith,
        vector_deletes_present c u t ids r i m,
        get-delete s.vectors k i,
        ap (λ x. x.vectors) d,
      )
      | inr m ↦ ground (arith, nat_beq_iff k i, f, m, h)
    ]

vector_deletes_once :
    (c : Ksuid) (s t : Snapshot) (ids : List Ksuid)
    → play_actions s (map (delete_vector c) ids) ≡ ok t
    → Distinct ids
unfolding play_action
vector_deletes_once c s t [] e = tt
vector_deletes_once c s t (k ∷ ids) e =
    let (u, a, r) = play_cons s t (delete_vector c k) (map (delete_vector c) ids) e in
    let d = (delete_vector-eq-ok s u k a).1 in
    elim (Bool-cases (elem k ids)) [
      | inl m ↦ absurd (
          ground (
            arith,
            vector_deletes_present c u t ids r k m,
            get-delete s.vectors k k,
            beq_refl k,
            ap (λ x. x.vectors) d,
          ))
      | inr m ↦ (m, vector_deletes_once c u t ids r)
    ]

-- Whatever snapshot the commit object plays over, it deletes nothing twice, and all that it
-- deletes is there.
pub play-new_commit_object-eq-ok :
    (s t : Snapshot) (p : Patch) (st : Stamp) (parent : Ksuid) (retries : ℕ) (note : Note)
    (meta : Value)
    → play s (new_commit_object p st parent retries note meta) ≡ ok t
    → Distinct p.deleted_objects × AllIn p.deleted_objects s.objects × Distinct p.deleted_vectors
unfolding play play_actions play_action
play-new_commit_object-eq-ok s t p st parent retries note meta e =
    let e' : play_actions s (commit_actions p st parent retries note meta) ≡ ok t =
      rw (actions-new_commit_object p st parent retries note meta) at e in
    let d_acts : List Action =
      (first_commit st parent note meta retries ∷ []) ++ map (delete st.id) p.deleted_objects in
    let a_acts : List Action = map (add st.id) (values p.diff.objects) in
    let dv_acts : List Action = map (delete_vector st.id) p.deleted_vectors in
    let (s3, e3, r3) = play_parts s t ((d_acts ++ a_acts) ++ dv_acts) _ e' in
    let (s2, e2, r2) = play_parts s s3 (d_acts ++ a_acts) dv_acts e3 in
    let (s1, e1, r1) = play_parts s s2 d_acts a_acts e2 in
    (
      deletes_once st.id s s1 p.deleted_objects e1,
      deletes_present st.id s s1 p.deleted_objects e1,
      vector_deletes_once st.id s2 s3 p.deleted_vectors r2,
    )

-- The commit object of a valid patch plays over the snapshot that the patch was made on exactly
-- when the patch deletes no data object and no vector of the base twice.
pub play-new_commit_object_iff :
    (s : Snapshot) (p : Patch) (st : Stamp) (parent : Ksuid) (retries : ℕ) (note : Note)
    (meta : Value)
    → p.base ≡ Snap.view s
    → IsValid p
    → (is_ok (play s (new_commit_object p st parent retries note meta)) ≡ true)
      ↔ (Distinct p.deleted_objects × Distinct p.deleted_vectors)
play-new_commit_object_iff s p st parent retries note meta b v = (
  λ h. elim (Result-cases (play s (new_commit_object p st parent retries note meta))) [
    | inl (t, e) ↦
        let f = play-new_commit_object-eq-ok s t p st parent retries note meta e in (f.0, f.2)
    | inr (x, e) ↦ cc (rw e at h)
  ],
  λ d. rw (play-new_commit_object_valid s p b v st parent retries note meta d.0 d.1),
)
