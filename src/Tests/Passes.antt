-- ===== src/Tests/Passes.antt =====
-- A maintenance pass at a concrete input.
use safety_recorder.Worker.Pass.Completed.{run_due_jobs-counts}
use safety_recorder.Worker.Claimed.{HasUniqueDecisions, deleted_count}
use safety_recorder.Worker.{process_deletion, remove_items, finish_items, conclude, mark_then}
use safety_recorder.Repository.Audit.{create_sharing_audit_event, sharing_audit_actor_account_id}
use safety_recorder.Repository.Retention.{
  queue_retention_incident_deletions, retention_candidates, queue_candidates,
  prune_incident_token_metadata, prune_token_ids, delete_tokens,
}
use safety_recorder.Repository.Deletion.Request.{
  new_decision, request_incident_deletion, check_request, record_decision, decision_row_ok,
  insert_items, deletion_stored_paths, item_row_ok, distinct,
}
use safety_recorder.Tests.Deletion.{remove_path, path, request}
use safety_recorder.DbTime.{second, db_time_le, bytes_le, digits, format_fraction, strip_zeros}
use safety_recorder.Repository.Deletion.Process.{
  batch_limit, tombstone_row, finish_row, audit_pruning, mark_incident_deletion_deleting,
  list_runnable_incident_deletions, list_incident_deletion_items,
  mark_incident_deletion_item_deleted, complete_incident_deletion,
}
use safety_recorder.Tests.Fixtures.{first_incident, open_db, incident_params}
use safety_recorder.Worker.Pass.{
  Draws, Options, PassResult, run_once, new_worker, run_jobs, run_due_jobs, run_tombstones,
  run_pruning, prune_when, no_counts,
}
use safety_recorder.Worker.{World, process_deletion}
use safety_recorder.Worker.Pass.Counts.{IsTally, due_outcomes}
use safety_recorder.Model.{Db, ok}
use safety_recorder.Repository.Retention.Tombstones.{
  prune_incident_deletion_tombstones, tombstone_pruning_keeps_incidents, tombstones, tombstone_of,
  prune_tombstone_incident_ids, delete_tombstones,
}
use safety_recorder.Repository.Incidents.{find_incident, close_row, new_incident}
use safety_recorder.Base.{
  [], ◌∷◌, some, ◌≡◌, refl, String, false, ◌*◌, List, find_row, order_by, ◌==◌, any_row, insert_row,
  select, delete_where, update_where, text_le, length, ◌≤◌, true, arith, ◌+◌,
}

abbrev options : Options
options = record {
  closed_incident_retention = 1000 * second;
  token_metadata_retention = 1000 * second;
  tombstone_retention = 1000 * second;
  deleting_retry_after = 0;
  batch_size = 0;
}

abbrev draws : Draws
draws = record {
  queued_at = λ n. 5000 * second;
  queue_ids = λ n. "del";
  queue_item_ids = λ n m. "dli";
  retention_time = 5000 * second;
  token_time = 5000 * second;
  tombstone_time = 5000 * second;
  jobs_time = 5000 * second;
  job_canceled = λ n. false;
  job_start = λ n. 5001 * second;
  job_end = λ n. 5003 * second;
  item_times = λ n m. 5002 * second;
  item_canceled = λ n m. false;
  audit_ids = λ n. "sae";
}

-- A closed incident with a blob.
abbrev closed_world : World (List String)
closed_world = record {
  db = record open_db { incidents = close_row 6 first_incident ∷ [] };
  blobs = path ∷ [];
}

abbrev pass_result : PassResult (List String)
pass_result = run_once remove_path draws (new_worker options) closed_world

-- The pass queues the incident, removes its blob and completes its deletion.
pass_counts : (pass_result.summary.completed ≡ 1) × (pass_result.world.blobs ≡ [])
unfolding run_once new_worker queue_retention_incident_deletions retention_candidates
    queue_candidates order_by select db_time_le insert_row request_incident_deletion find_row
    check_request ◌==◌ record_decision decision_row_ok any_row insert_items deletion_stored_paths
    item_row_ok prune_incident_token_metadata prune_incident_deletion_tombstones delete_where
    update_where text_le bytes_le digits format_fraction strip_zeros create_sharing_audit_event
    audit_pruning process_deletion mark_incident_deletion_deleting list_runnable_incident_deletions
    list_incident_deletion_items mark_incident_deletion_item_deleted complete_incident_deletion
    remove_items finish_items conclude run_jobs run_due_jobs run_tombstones run_pruning prune_when
    mark_then tombstones tombstone_of prune_tombstone_incident_ids delete_tombstones prune_token_ids
    delete_tokens distinct sharing_audit_actor_account_id
pass_counts = (refl, refl)

abbrev due_world : World (List String)
due_world = record {
  db = record open_db { deletion_decisions = new_decision 7 "del" request ∷ [] };
  blobs = path ∷ [];
}

due_world_unique : HasUniqueDecisions due_world.db
unfolding select
due_world_unique id = ground arith

run_due_jobs-counts_example :
    IsTally no_counts
      (due_outcomes remove_path draws (new_worker options) due_world)
      (run_due_jobs remove_path draws (new_worker options) no_counts due_world).summary
    × (length (due_outcomes remove_path draws (new_worker options) due_world)
        ≤ batch_limit (new_worker options).batch_size)
    × (deleted_count
            (run_due_jobs remove_path draws (new_worker options) no_counts due_world).world.db
          + no_counts.completed
        ≡ deleted_count due_world.db
          + (run_due_jobs remove_path draws
              (new_worker options)
              no_counts
              due_world).summary.completed)
run_due_jobs-counts_example =
    run_due_jobs-counts remove_path draws (new_worker options) no_counts due_world due_world_unique

-- The deletion that is due is completed.
due_completed : due_outcomes remove_path draws (new_worker options) due_world ≡ true ∷ []
unfolding new_worker order_by select db_time_le insert_row find_row ◌==◌ any_row delete_where
    update_where bytes_le digits format_fraction strip_zeros create_sharing_audit_event
    audit_pruning process_deletion mark_incident_deletion_deleting list_incident_deletion_items
    mark_incident_deletion_item_deleted complete_incident_deletion remove_items finish_items
    conclude mark_then sharing_audit_actor_account_id
due_completed = refl

abbrev tombstone_db : Db
tombstone_db = record open_db {
  incidents = first_incident ∷ tombstone_row 8 (new_incident 5 "old" "acc" incident_params) ∷ [];
  deletion_decisions =
      finish_row 8 (record (new_decision 7 "del" request) { incident_id = "old" }) ∷ [];
}

abbrev pruned_db : Db
pruned_db = record tombstone_db { incidents = first_incident ∷ []; deletion_decisions = [] }

prune_run : prune_incident_deletion_tombstones (2 * second) 25 tombstone_db ≡ ok (1, pruned_db)
unfolding prune_incident_deletion_tombstones order_by find_row ◌==◌ db_time_le any_row insert_row
    select delete_where
prune_run = refl

tombstone_pruning_keeps_incidents_example : find_incident "inc" pruned_db ≡ some first_incident
unfolding find_row ◌==◌
tombstone_pruning_keeps_incidents_example =
    tombstone_pruning_keeps_incidents (2 * second) 25 1 tombstone_db pruned_db "inc" first_incident
      prune_run refl refl
