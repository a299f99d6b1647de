-- ===== src/Commits/Snapshot/RoundTrip.antt =====
-- Writing a snapshot as actions and reading it back.
use super.Prelude.{◌≡◌, refl, ◌∙◌, [], map, nat_eq, ap}
use super.Prelude.Result.{ok, ◌>>=◌}
use super.GoMap.{get, copy_into, keys, values}
use super.Commits.Types.{nil, Action}
use super.Commits.Writeable.{play_actions}
use super.Commits.Snapshot.{
  Snapshot, IsValid, new_snapshot, snapshot_writeable, copy, serialize, decode_snapshot,
}
use super.Commits.Snapshot.Play.{play_actions-append, play_adds, play_add_vectors}
use super.Commits.Snapshot.Contents.{SameContents, copy-SameContents}

pub decode_snapshot-serialize-eq-copy :
    (s : Snapshot) → IsValid s → decode_snapshot (serialize s) ≡ ok (copy s)
unfolding decode_snapshot serialize copy get
decode_snapshot-serialize-eq-copy s v =
    play_actions-append new_snapshot (map (λ o. Action.add nil o) (values s.objects)) _
    ∙ ap (λ r. r >>= λ t. play_actions t (map (λ i. Action.add_vector nil i) (keys s.vectors)))
        (play_adds nil new_snapshot s.objects v.objects_map v.named (λ i h. refl))
    ∙ play_add_vectors nil (record { objects = copy_into [] s.objects; vectors = [] }) s.vectors
        v.vectors_map (λ i h. refl)

-- A valid snapshot that is written and read back has the data objects and vectors that it had.
pub decode_snapshot-serialize :
    (s : Snapshot)
    → IsValid s
    → (t : Snapshot) × (decode_snapshot (serialize s) ≡ ok t) × SameContents t s
decode_snapshot-serialize s v =
    (copy s, decode_snapshot-serialize-eq-copy s v, copy-SameContents s v)
