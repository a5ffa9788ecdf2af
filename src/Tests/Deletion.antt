-- ===== src/Tests/Deletion.antt =====
-- Incident deletion and the worker at concrete inputs.
use safety_recorder.Repository.Audit.{sharing_audit_actor_account_id}
use safety_recorder.DbTime.{db_time_le}
use safety_recorder.System.Inactive.Run.{run-inactive}
use safety_recorder.Repository.Deletion.Decide.{
  operator_cli_refused, request_incident_deletion-again,
}
use safety_recorder.Repository.Deletion.Claim.{mark_incident_deletion_deleting-once}
use safety_recorder.Tests.Fixtures.{
  deletion_request, open_db, flat_hash, first_incident, chunk_params,
}
use safety_recorder.System.Pruned.Run.{completed_deletion_prunes, deleted_incident_stays-IsPruned}
use safety_recorder.System.{run, Command}
use safety_recorder.Model.{
  Db, IncidentDeletionItem, IncidentDeletionRequest, IncidentDeletionStatus, after, err, ok,
  DeletionSource, DeletionState, Error,
}
use safety_recorder.Repository.Deletion.Request.{
  request_incident_deletion, new_item, set_deletion_state, set_item_count, new_decision,
  check_request, record_decision, decision_row_ok, insert_items, deletion_stored_paths, item_row_ok,
  valid_deletion_source,
}
use safety_recorder.Repository.Deletion.Cover.{has_item, request_incident_deletion-covers}
use safety_recorder.Repository.Deletion.Process.{
  complete_incident_deletion, mark_incident_deletion_deleting, claim_row, finish_row,
  mark_incident_deletion_item_deleted,
}
use safety_recorder.Worker.Blobs.{
  RemovesBlobs, completed_pass_removes_blobs, deletion_removes_all_blobs,
}
use safety_recorder.Worker.{
  Outcome, World, process_deletion, finished, Removal, stopped, removed, not_removed, RemoveError,
}
use safety_recorder.System.Inactive.Defs.{inactive_in}
use safety_recorder.System.Pruned.Defs.{IsPruned}
use safety_recorder.Base.{
  [], ◌∷◌, ◌≡◌, refl, arith, ◌≢◌, true, false, String, List, any_row-delete_where_self, Bool, ◌==◌,
  any_row, any_row-delete_where, if◌then◌else◌, not, delete_where, find_row, select, update_where,
  order_by, insert_row,
}

abbrev pub path : String
path = "incidents/inc/streams/str/audio_000001.enc"

abbrev pub request : IncidentDeletionRequest
request = deletion_request DeletionSource.account_request

abbrev decision : IncidentDeletionStatus
decision = set_item_count 8 1 (new_decision 8 "del" request)

abbrev item : IncidentDeletionItem
item = new_item 8 "dli" "del" "inc" path

abbrev pending_db : Db
pending_db = record open_db {
  deletion_decisions = decision ∷ [];
  deletion_items = item ∷ [];
  incidents = set_deletion_state 8 DeletionState.pending first_incident ∷ [];
}

request_run :
    request_incident_deletion 8 "del" (λ n. "dli") request open_db ≡ ok (decision, pending_db)
unfolding request_incident_deletion find_row check_request ◌==◌ record_decision decision_row_ok
    any_row insert_items deletion_stored_paths order_by select insert_row item_row_ok update_where
request_run = refl

request_incident_deletion-covers_example : has_item "del" path pending_db.deletion_items ≡ true
unfolding find_row any_row ◌==◌
request_incident_deletion-covers_example =
    request_incident_deletion-covers 8 "del" (λ n. "dli") request open_db pending_db decision path
      request_run refl refl

request_incident_deletion-again_example :
    request_incident_deletion 9 "del2"
      (λ n. "dli2")
      (deletion_request DeletionSource.admin_request)
      pending_db
    ≡ ok (decision, pending_db)
request_incident_deletion-again_example =
    request_incident_deletion-again open_db pending_db 8 9 "del" "del2" (λ n. "dli") (λ n. "dli2")
      request (deletion_request DeletionSource.admin_request) decision request_run refl refl refl

operator_cli_refused_example :
    (valid_deletion_source DeletionSource.operator_cli ≡ true)
    × (request_incident_deletion 8 "del"
          (λ n. "dli")
          (deletion_request DeletionSource.operator_cli)
          open_db
        ≢ ok (decision, pending_db))
unfolding find_row
operator_cli_refused_example =
    operator_cli_refused open_db pending_db 8 "del" (λ n. "dli")
      (deletion_request DeletionSource.operator_cli) decision refl refl

abbrev claimed_status : IncidentDeletionStatus
claimed_status = claim_row 9000000000 decision

abbrev claimed_db : Db
claimed_db = record pending_db {
  deletion_decisions = claimed_status ∷ [];
  incidents = set_deletion_state 9000000000 DeletionState.deleting first_incident ∷ [];
}

claim_run :
    mark_incident_deletion_deleting 9000000000 "del" 0 pending_db ≡ ok (claimed_status, claimed_db)
unfolding mark_incident_deletion_deleting any_row ◌==◌ find_row update_where
claim_run = refl

mark_incident_deletion_deleting-once_example :
    mark_incident_deletion_deleting 10000000000 "del" 1000000000 claimed_db ≡ err Error.not_found
unfolding select ◌==◌ db_time_le
mark_incident_deletion_deleting-once_example =
    mark_incident_deletion_deleting-once pending_db claimed_db 9000000000 0 10000000000 1000000000
      "del" claimed_status (omega arith) claim_run refl

-- A store that is the list of its paths.
abbrev pub stored : String → List String → Bool
stored p = any_row (λ q. q == p)

abbrev pub remove_path : String → List String → Removal × List String
remove_path p s =
    if stored p s
    then (removed, delete_where (λ q. q == p) s)
    else (not_removed RemoveError.not_exist, s)

abbrev absent : String → List String → Bool
absent p s = not (stored p s)

remove_path-RemovesBlobs : RemovesBlobs remove_path absent
remove_path-RemovesBlobs = record {
  on_removed = λ p s h. ground (arith, any_row-delete_where_self (λ q. q == p) s);
  on_absent = λ p s h. ground arith;
  keeps = λ p q s h. ground (arith, any_row-delete_where (λ r. r == q) (λ r. r == p) s);
}

abbrev world : World (List String)
world = record { db = pending_db; blobs = path ∷ "incidents/other" ∷ [] }

abbrev outcome : Outcome (List String)
outcome =
    process_deletion remove_path 9000000000 (λ n. 9000000001) 9000000002 (λ n. false) "sae" "del" 0
      world

abbrev world_of : Outcome (List String) → World (List String)
world_of (finished b w) = w
world_of (stopped e w) = w

pass_completes : outcome ≡ finished true (world_of outcome)
unfolding process_deletion mark_incident_deletion_deleting any_row ◌==◌ find_row update_where
    order_by select insert_row mark_incident_deletion_item_deleted complete_incident_deletion
    sharing_audit_actor_account_id
pass_completes = refl

completed_pass_removes_blobs_example : absent path (world_of outcome).blobs ≡ true
unfolding any_row ◌==◌
completed_pass_removes_blobs_example =
    completed_pass_removes_blobs remove_path absent remove_path-RemovesBlobs 9000000000 9000000002 0
      (λ n. 9000000001) (λ n. false) "sae" "del" path world (world_of outcome) pass_completes refl

deletion_removes_all_blobs_example : absent path (world_of outcome).blobs ≡ true
unfolding find_row any_row ◌==◌
deletion_removes_all_blobs_example =
    deletion_removes_all_blobs remove_path absent remove_path-RemovesBlobs 8 9000000000 9000000002 0
      (λ n. 9000000001) (λ n. false) "sae" "del" path (λ n. "dli") request open_db decision world
      (world_of outcome) request_run refl pass_completes refl

abbrev finished_items : Db
finished_items = after claimed_db (mark_incident_deletion_item_deleted 9000000001 "dli" claimed_db)

abbrev completed : Db
completed = after finished_items (complete_incident_deletion 9000000002 "sae" "del" finished_items)

complete_run :
    complete_incident_deletion 9000000002 "sae" "del" finished_items
    ≡ ok (finish_row 9000000002 claimed_status, completed)
unfolding complete_incident_deletion find_row mark_incident_deletion_item_deleted any_row ◌==◌
    update_where sharing_audit_actor_account_id
complete_run = refl

completed_deletion_prunes_example :
    (inactive_in "inc" completed.incidents ≡ true) × IsPruned "inc" completed
completed_deletion_prunes_example =
    completed_deletion_prunes finished_items completed 9000000002 "sae" "del"
      (finish_row 9000000002 claimed_status) complete_run

deleted_incident_stays-IsPruned_example :
    IsPruned "inc" (run flat_hash (Command.add_chunk 9 "chk4" (chunk_params 4) ∷ []) completed)
deleted_incident_stays-IsPruned_example =
    deleted_incident_stays-IsPruned flat_hash finished_items completed 9000000002 "sae" "del"
      (finish_row 9000000002 claimed_status) (Command.add_chunk 9 "chk4" (chunk_params 4) ∷ [])
      complete_run

run-inactive_example :
    inactive_in "inc"
      (run flat_hash
        (Command.close 9 "inc" ∷ Command.fail_deletion 10 "del" "x" ∷ [])
        pending_db).incidents
    ≡ true
unfolding any_row ◌==◌
run-inactive_example =
    run-inactive flat_hash "inc" (Command.close 9 "inc" ∷ Command.fail_deletion 10 "del" "x" ∷ [])
      pending_db refl
