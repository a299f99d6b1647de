-- ===== src/Commits/Snapshot/Contents.antt =====
-- What a snapshot holds, whatever the order in which its maps are ranged over.
use super.Prelude.{◌≡◌, refl, sym, ◌∙◌, Bool, true, false, List, [], ◌∷◌}
use super.Prelude.{if◌then◌else◌, nat_eq, or_else-none}
use super.Prelude.Result.{Result, ok, err}
use super.GoMap.{get, has, get-put, get-delete, get-copy_into, copy_into-IsMap}
use super.Commits.Types.{Ksuid, Action, add, add_vector, delete, delete_vector, commit, Error}
use super.Commits.Writeable.{play_action, play_actions}
use super.Commits.Snapshot.{
  Snapshot, IsValid, add_data_object, delete_object, copy, snapshot_writeable,
}
use super.Commits.Snapshot as Snap

-- Two snapshots hold the same data objects and vectors.
pub record SameContents (s t : Snapshot) : Type 0 where
  pub objects : (i : Ksuid) → get s.objects i ≡ get t.objects i
  pub vectors : (i : Ksuid) → get s.vectors i ≡ get t.vectors i

pub SameContents-refl : (s : Snapshot) → SameContents s s
SameContents-refl s = record { objects = λ i. refl; vectors = λ i. refl }

pub SameContents-symm : {s t : Snapshot} → SameContents s t → SameContents t s
SameContents-symm h = record { objects = λ i. sym (h.objects i); vectors = λ i. sym (h.vectors i) }

pub SameContents-trans : {s t u : Snapshot} → SameContents s t → SameContents t u → SameContents s u
SameContents-trans h k = record {
  objects = λ i. h.objects i ∙ k.objects i;
  vectors = λ i. h.vectors i ∙ k.vectors i;
}

-- The same error, or two snapshots with the same contents.
pub data SameResult : Result Error Snapshot → Result Error Snapshot → Type 0 where
  same_ok : {s t : Snapshot} → SameContents s t → SameResult (ok s) (ok t)
  same_err : (e : Error) → SameResult (err e) (err e)

same_unless :
    (b : Bool) (e : Error) {s t : Snapshot}
    → SameContents s t
    → SameResult (if b then err e else ok s) (if b then err e else ok t)
same_unless true e h = same_err e
same_unless false e h = same_ok h

same_when :
    (b : Bool) (e : Error) {s t : Snapshot}
    → SameContents s t
    → SameResult (if b then ok s else err e) (if b then ok t else err e)
same_when true e h = same_ok h
same_when false e h = same_err e

-- Playing one action looks at the contents alone.
pub play_action-SameContents :
    (s t : Snapshot) (a : Action)
    → SameContents s t
    → SameResult (play_action s a) (play_action t a)
unfolding play_action add_data_object delete_object Snap.add_vector Snap.delete_vector
play_action-SameContents s t (add c o) h = rw (h.objects o.id) (
    same_unless (has t.objects o.id) _
      (record { objects = λ i. simp get-put (rw (h.objects i)); vectors = h.vectors }))
play_action-SameContents s t (add_vector c i) h = rw (h.vectors i) (
    same_unless (has t.vectors i) _
      (record { objects = h.objects; vectors = λ j. simp get-put (rw (h.vectors j)) }))
play_action-SameContents s t (delete c i) h = rw (h.objects i) (
    same_when (has t.objects i) _
      (record { objects = λ j. simp get-delete (rw (h.objects j)); vectors = h.vectors }))
play_action-SameContents s t (delete_vector c i) h = rw (h.vectors i) (
    same_when (has t.vectors i) _
      (record { objects = h.objects; vectors = λ j. simp get-delete (rw (h.vectors j)) }))
play_action-SameContents s t (commit c) h = same_ok h

play_actions_from :
    (acts : List Action)
    → ((s t : Snapshot) → SameContents s t → SameResult (play_actions s acts) (play_actions t acts))
    → {r q : Result Error Snapshot} → SameResult r q
    → SameResult
        (elim r [ ok s ↦ play_actions s acts | err e ↦ err e ])
        (elim q [ ok s ↦ play_actions s acts | err e ↦ err e ])
play_actions_from acts ih (same_ok {s} {t} h) = ih s t h
play_actions_from acts ih (same_err e) = same_err e

pub play_actions-SameContents :
    (s t : Snapshot) (acts : List Action)
    → SameContents s t
    → SameResult (play_actions s acts) (play_actions t acts)
unfolding play_actions
play_actions-SameContents s t [] h = same_ok h
play_actions-SameContents s t (a ∷ acts) h =
    play_actions_from acts (λ s' t' h'. play_actions-SameContents s' t' acts h')
      (play_action-SameContents s t a h)

-- Copying a snapshot keeps its contents.
pub copy-SameContents : (s : Snapshot) → IsValid s → SameContents (copy s) s
unfolding copy get
copy-SameContents s v = record {
  objects = λ i. get-copy_into [] s.objects i v.objects_map ∙ or_else-none _;
  vectors = λ i. get-copy_into [] s.vectors i v.vectors_map ∙ or_else-none _;
}

pub copy-IsValid : (s : Snapshot) → IsValid s → IsValid (copy s)
unfolding copy get
copy-IsValid s v = record {
  objects_map = copy_into-IsMap [] s.objects tt;
  vectors_map = copy_into-IsMap [] s.vectors tt;
  named = λ i o e. v.named i o (sym ((copy-SameContents s v).objects i) ∙ e);
}

abbrev OkPart : Result Error Snapshot → Result Error Snapshot → Type 0
OkPart (ok s) r = (t : Snapshot) × (r ≡ ok t) × SameContents s t
OkPart (err e) r = Unit {0}

SameResult-part : {r q : Result Error Snapshot} → SameResult r q → OkPart r q
SameResult-part (same_ok {t = t} h) = (t, refl, h)
SameResult-part (same_err e) = tt

pub SameResult-ok :
    {s : Snapshot} {r : Result Error Snapshot}
    → SameResult (ok s) r
    → (t : Snapshot) × (r ≡ ok t) × SameContents s t
SameResult-ok h = SameResult-part h
