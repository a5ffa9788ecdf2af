-- ===== src/Repository/Deletion/Process.antt =====
-- internal/incidents/deletion.go: the background worker's steps on a deletion decision.
use safety_recorder.Base.{
  ℕ, ◌+◌, String, Bool, true, false, not, ◌&&◌, Option, none, some, List, ◌==◌, if◌then◌else◌,
  find_row, any_row, select, update_where, delete_where, order_by, take, eqb, text_le,
}
use safety_recorder.DbTime.{db_time_le}
use safety_recorder.Model.{
  Incident, MediaStream, Chunk, Checkin, IncidentToken, UploadOperation, SharingGrant,
  WrappedKeyRecord, status_closed, DeletionState, ItemState, is_item_deleted, AuditAction,
  AuditOutcome, IncidentDeletionStatus, IncidentDeletionItem, Db, Error, Tx, pure, reads, or_fail,
  fail_if, writes, ◌>>=◌, ◌>>◌,
}
use safety_recorder.Repository.Incidents.{find_incident}
use safety_recorder.Repository.Audit.{create_sharing_audit_event, sharing_audit_actor_account_id}
use safety_recorder.Repository.Deletion.Request.{set_deletion_state}

abbrev pub decision_key : String → IncidentDeletionStatus → Bool
decision_key id r = r.decision_id == id

abbrev pub find_decision : String → Db → Option IncidentDeletionStatus
find_decision id d = find_row (decision_key id) d.deletion_decisions

unfoldable pub get_incident_deletion_status_by_id : String → Tx IncidentDeletionStatus
get_incident_deletion_status_by_id id = do or_fail (← reads (find_decision id)) Error.not_found

-- Pending or failed, or claimed so long ago that the claim is stale.
abbrev pub is_runnable : ℕ → DeletionState → ℕ → Bool
is_runnable stale DeletionState.pending updated_at = true
is_runnable stale DeletionState.failed updated_at = true
is_runnable stale DeletionState.deleting updated_at = db_time_le updated_at stale
is_runnable stale _ updated_at = false

abbrev pub oldest_decision_first : IncidentDeletionStatus → IncidentDeletionStatus → Bool
oldest_decision_first a b =
    if not (eqb a.updated_at b.updated_at)
    then db_time_le a.updated_at b.updated_at
    else text_le a.decision_id b.decision_id

-- `if limit <= 0 { limit = 25 }`.
abbrev pub batch_limit : ℕ → ℕ
batch_limit limit = if eqb limit 0 then 25 else limit

unfoldable pub list_runnable_incident_deletions : ℕ → ℕ → Tx (List IncidentDeletionStatus)
list_runnable_incident_deletions limit stale = reads (λ d. take (batch_limit limit) (
    order_by oldest_decision_first
      (select (λ r. is_runnable stale r.state r.updated_at) d.deletion_decisions)))

abbrev pub claimable : String → ℕ → IncidentDeletionStatus → Bool
claimable id stale r = decision_key id r && is_runnable stale r.state r.updated_at

abbrev pub or_else : Option ℕ → ℕ → ℕ
or_else none t = t
or_else (some u) t = u

abbrev pub claim_row : ℕ → IncidentDeletionStatus → IncidentDeletionStatus
claim_row now r = record r {
  state = DeletionState.deleting;
  error_code = "";
  updated_at = now;
  started_at = some (or_else r.started_at now);
}

unfoldable pub mark_incident_deletion_deleting : ℕ → String → ℕ → Tx IncidentDeletionStatus
unfolding get_incident_deletion_status_by_id
mark_incident_deletion_deleting now id stale = do
  affected ← reads (λ d. any_row (claimable id stale) d.deletion_decisions)
  fail_if (not affected) Error.not_found
  writes (λ d. record d {
    deletion_decisions = update_where (claimable id stale) (claim_row now) d.deletion_decisions;
  })
  decision ← or_fail (← reads (find_decision id)) Error.database
  writes (λ d. record d {
    incidents =
        update_where (λ r. r.id == decision.incident_id)
          (set_deletion_state now DeletionState.deleting) d.incidents;
  })
  get_incident_deletion_status_by_id id

abbrev pub oldest_item_first : IncidentDeletionItem → IncidentDeletionItem → Bool
oldest_item_first a b =
    if not (eqb a.created_at b.created_at)
    then db_time_le a.created_at b.created_at
    else text_le a.id b.id

unfoldable pub list_incident_deletion_items : String → Tx (List IncidentDeletionItem)
list_incident_deletion_items id = reads (λ d.
    order_by oldest_item_first
      (select (λ r. r.decision_id == id && not (is_item_deleted r.state)) d.deletion_items))

abbrev pub item_key : String → IncidentDeletionItem → Bool
item_key id r = r.id == id

abbrev pub item_deleted_row : ℕ → IncidentDeletionItem → IncidentDeletionItem
item_deleted_row now r = record r {
  state = ItemState.deleted;
  attempts = r.attempts + 1;
  error_code = "";
  updated_at = now;
  last_attempt_at = some now;
  completed_at = some now;
}

unfoldable pub mark_incident_deletion_item_deleted : ℕ → String → Tx (Unit {0})
mark_incident_deletion_item_deleted now id = do
  affected ← reads (λ d. any_row (item_key id) d.deletion_items)
  fail_if (not affected) Error.not_found
  writes (λ d. record d {
    deletion_items = update_where (item_key id) (item_deleted_row now) d.deletion_items;
  })

abbrev pub item_failed_row : ℕ → String → IncidentDeletionItem → IncidentDeletionItem
item_failed_row now error_code r = record r {
  state = ItemState.failed;
  attempts = r.attempts + 1;
  error_code = error_code;
  updated_at = now;
  last_attempt_at = some now;
}

unfoldable pub mark_incident_deletion_item_failed : ℕ → String → String → Tx (Unit {0})
mark_incident_deletion_item_failed now id error_code = do
  affected ← reads (λ d. any_row (item_key id) d.deletion_items)
  fail_if (not affected) Error.not_found
  writes (λ d. record d {
    deletion_items = update_where (item_key id) (item_failed_row now error_code) d.deletion_items;
  })

-- An item of the decision that is not deleted yet.
abbrev pub remaining : String → IncidentDeletionItem → Bool
remaining id r = r.decision_id == id && not (is_item_deleted r.state)

-- The seven `DELETE` statements for the incident's child rows, and that for the decision's items.
abbrev pub prune_children : String → String → Db → Db
prune_children incident decision d = record d {
  wrapped_key_records =
      delete_where (λ (r : WrappedKeyRecord). r.incident_id == incident) d.wrapped_key_records;
  sharing_grants = delete_where (λ (r : SharingGrant). r.incident_id == incident) d.sharing_grants;
  upload_operations =
      delete_where (λ (r : UploadOperation). r.incident_id == incident) d.upload_operations;
  incident_tokens =
      delete_where (λ (r : IncidentToken). r.incident_id == incident) d.incident_tokens;
  checkins = delete_where (λ (r : Checkin). r.incident_id == incident) d.checkins;
  chunks = delete_where (λ (r : Chunk). r.incident_id == incident) d.chunks;
  media_streams = delete_where (λ (r : MediaStream). r.incident_id == incident) d.media_streams;
  deletion_items =
      delete_where (λ (r : IncidentDeletionItem). r.decision_id == decision) d.deletion_items;
}

abbrev pub finish_row : ℕ → IncidentDeletionStatus → IncidentDeletionStatus
finish_row now r = record r {
  state = DeletionState.deleted;
  error_code = "";
  updated_at = now;
  completed_at = some now;
}

abbrev pub tombstone_row : ℕ → Incident → Incident
tombstone_row now r = record r {
  status = status_closed;
  updated_at = now;
  client_label = "";
  notes = "";
  incident_mode = "";
  capture_profile = "";
  escalation_policy = "";
  sharing_state = "";
  deletion_state = DeletionState.deleted;
}

-- The audit event that pruning leaves for an incident that has an owner.
unfoldable pub audit_pruning : ℕ → String → String → IncidentDeletionStatus → Tx (Unit {0})
audit_pruning now audit_id owner status =
    if not (owner == "")
    then (do
      create_sharing_audit_event now audit_id (record {
        owner_account_id = owner;
        actor_account_id = sharing_audit_actor_account_id status.actor_account_id owner;
        action = AuditAction.incident_sharing_metadata_pruned;
        outcome_category = AuditOutcome.deleted;
        incident_id = status.incident_id;
        stream_id = "";
        grant_id = "";
        contact_id = "";
        contact_public_key_id = "";
        wrapped_key_id = "";
        deletion_decision_id = status.decision_id;
      })
      pure tt)
    else pure tt

abbrev pub finish_deletion : ℕ → String → String → Db → Db
finish_deletion now incident decision d = record d {
  deletion_decisions = update_where (decision_key decision) (finish_row now) d.deletion_decisions;
  incidents = update_where (λ r. r.id == incident) (tombstone_row now) d.incidents;
}

unfoldable pub complete_incident_deletion : ℕ → String → String → Tx IncidentDeletionStatus
unfolding get_incident_deletion_status_by_id audit_pruning create_sharing_audit_event
complete_incident_deletion now audit_id id = do
  status ← get_incident_deletion_status_by_id id
  left ← reads (λ d. any_row (remaining id) d.deletion_items)
  fail_if left Error.invalid_state
  incident ← or_fail (← reads (find_incident status.incident_id)) Error.not_found
  audit_pruning now audit_id incident.owner_account_id status
  writes (prune_children status.incident_id id)
  writes (finish_deletion now status.incident_id id)
  get_incident_deletion_status_by_id id

abbrev pub failed_decision_row : ℕ → String → IncidentDeletionStatus → IncidentDeletionStatus
failed_decision_row now error_code r = record r {
  state = DeletionState.failed;
  error_code = error_code;
  updated_at = now;
}

unfoldable pub fail_incident_deletion : ℕ → String → String → Tx IncidentDeletionStatus
unfolding get_incident_deletion_status_by_id
fail_incident_deletion now id error_code = do
  status ← get_incident_deletion_status_by_id id
  writes (λ d. record d {
    deletion_decisions =
        update_where (decision_key id) (failed_decision_row now error_code) d.deletion_decisions;
    incidents =
        update_where (λ r. r.id == status.incident_id) (set_deletion_state now DeletionState.failed)
          d.incidents;
  })
  get_incident_deletion_status_by_id id
