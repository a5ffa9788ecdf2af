-- ===== src/Repository/Retention/Tombstones.antt =====
-- `PruneIncidentDeletionTombstones` of internal/incidents/retention_pruning.go.
use safety_recorder.DbTime.{db_time_le}
use safety_recorder.Repository.Retention.{passed}
use safety_recorder.Repository.Deletion.Request.{find_decision_of}
use safety_recorder.Repository.Deletion.Process.{batch_limit}
use safety_recorder.Repository.Incidents.{find_incident}
use safety_recorder.Model.{
  Db, IncidentDeletionStatus, Tx, Incident, is_deleted, ok, MediaStream, Chunk, Checkin,
  IncidentToken, UploadOperation, SharingGrant, WrappedKeyRecord, IncidentDeletionItem,
}
use safety_recorder.Base.{
  none, some, if◌then◌else◌, ℕ, [], ◌∷◌, ◌+◌, ◌&&◌, ◌==◌, ◌≡◌, ◌++◌, Bool, List, String, Option,
  delete_where, length, map, false, select, take, true, order_by, some, arith,
  find_row-delete_where_keep, any_row, not, eqb, text_le,
}

abbrev pub completed_by : ℕ → IncidentDeletionStatus → Bool
completed_by cutoff r = is_deleted r.state && passed cutoff r.completed_at

-- The columns of the join that the selection and the order read.
pub record Tombstone : Type 0 where
  pub incident_id : String
  pub completed_at : Option ℕ

-- The incident's decision, when the incident is a tombstone that may be pruned.
unfoldable pub tombstone_of : ℕ → Db → Incident → List Tombstone
tombstone_of cutoff d r = elim (find_decision_of r.id d) [
  | none ↦ []
  | some s ↦
      if is_deleted r.deletion_state
        && completed_by cutoff s
        && not (any_row (λ (x : IncidentDeletionItem). x.incident_id == r.id) d.deletion_items)
        && not (any_row (λ (x : UploadOperation). x.incident_id == r.id) d.upload_operations)
        && not (any_row (λ (x : IncidentToken). x.incident_id == r.id) d.incident_tokens)
        && not (any_row (λ (x : Checkin). x.incident_id == r.id) d.checkins)
        && not (any_row (λ (x : Chunk). x.incident_id == r.id) d.chunks)
        && not (any_row (λ (x : MediaStream). x.incident_id == r.id) d.media_streams)
      then record { incident_id = r.id; completed_at = s.completed_at } ∷ []
      else []
]

unfoldable pub tombstones : ℕ → Db → List Incident → List Tombstone
unfolding tombstone_of
tombstones cutoff d [] = []
tombstones cutoff d (r ∷ rs) = tombstone_of cutoff d r ++ tombstones cutoff d rs

-- `ORDER BY completed_at ASC, id ASC`; a NULL is not selected.
abbrev pub oldest_tombstone_first : Tombstone → Tombstone → Bool
oldest_tombstone_first a b = dispatch a.completed_at b.completed_at
  where
    dispatch : Option ℕ → Option ℕ → Bool
    dispatch none u = true
    dispatch (some t) none = false
    dispatch (some t) (some u) =
        if not (eqb t u) then db_time_le t u else text_le a.incident_id b.incident_id

unfoldable pub prune_tombstone_incident_ids : ℕ → ℕ → Db → List String
unfolding tombstones
prune_tombstone_incident_ids cutoff limit d =
    map (λ (t : Tombstone). t.incident_id)
      (take limit (order_by oldest_tombstone_first (tombstones cutoff d d.incidents)))

abbrev pub deleted_row : String → Incident → Bool
deleted_row id r = r.id == id && is_deleted r.deletion_state

-- The `DELETE` of an incident, with the rows that the foreign keys' `ON DELETE CASCADE` takes along.
abbrev pub delete_incident : String → Db → Db
delete_incident id d = record d {
  incidents = delete_where (deleted_row id) d.incidents;
  media_streams = delete_where (λ (r : MediaStream). r.incident_id == id) d.media_streams;
  chunks = delete_where (λ (r : Chunk). r.incident_id == id) d.chunks;
  checkins = delete_where (λ (r : Checkin). r.incident_id == id) d.checkins;
  incident_tokens = delete_where (λ (r : IncidentToken). r.incident_id == id) d.incident_tokens;
  upload_operations =
      delete_where (λ (r : UploadOperation). r.incident_id == id) d.upload_operations;
  wrapped_key_records =
      delete_where (λ (r : WrappedKeyRecord). r.incident_id == id) d.wrapped_key_records;
  sharing_grants = delete_where (λ (r : SharingGrant). r.incident_id == id) d.sharing_grants;
  deletion_decisions =
      delete_where (λ (r : IncidentDeletionStatus). r.incident_id == id) d.deletion_decisions;
  deletion_items =
      delete_where (λ (r : IncidentDeletionItem). r.incident_id == id) d.deletion_items;
}

unfoldable pub delete_tombstones : List String → ℕ → Db → ℕ × Db
delete_tombstones [] pruned d = (pruned, d)
delete_tombstones (id ∷ ids) pruned d =
    let rest = delete_tombstones ids in
    let affected = length (select (deleted_row id) d.incidents) in
    if any_row (deleted_row id) d.incidents
    then rest (pruned + affected) (delete_incident id d)
    else rest pruned d

unfoldable pub prune_incident_deletion_tombstones : ℕ → ℕ → Tx ℕ
unfolding prune_tombstone_incident_ids delete_tombstones
prune_incident_deletion_tombstones cutoff limit d =
    ok (delete_tombstones (prune_tombstone_incident_ids cutoff (batch_limit limit) d) 0 d)

delete_tombstones_keeps :
    (i : String) (r : Incident) (ids : List String) (pruned : ℕ) (d : Db)
    → is_deleted r.deletion_state ≡ false
    → find_incident i d ≡ some r
    → find_incident i (delete_tombstones ids pruned d).1 ≡ some r
unfolding delete_tombstones
delete_tombstones_keeps i r [] pruned d n f = f
delete_tombstones_keeps i r (id ∷ ids) pruned d n f = ground (
  arith,
  find_row-delete_where_keep (λ (x : Incident). x.id == i) (deleted_row id) d.incidents r,
  delete_tombstones_keeps i r ids pruned d n,
  delete_tombstones_keeps i r ids (pruned + length (select (deleted_row id) d.incidents))
      (delete_incident id d) n,
)

-- The pruning of tombstones leaves every incident that is not deleted as it is.
pub tombstone_pruning_keeps_incidents :
    (cutoff limit pruned : ℕ) (d d' : Db) (i : String) (r : Incident)
    → prune_incident_deletion_tombstones cutoff limit d ≡ ok (pruned, d')
    → find_incident i d ≡ some r
    → is_deleted r.deletion_state ≡ false
    → find_incident i d' ≡ some r
unfolding prune_incident_deletion_tombstones
tombstone_pruning_keeps_incidents cutoff limit pruned d d' i r h f n = ground (
  arith,
  delete_tombstones_keeps i r (prune_tombstone_incident_ids cutoff (batch_limit limit) d) 0 d n f,
)
