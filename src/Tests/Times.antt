-- ===== src/Tests/Times.antt =====
-- The stored order of times, and the retention policy, at concrete inputs.
use safety_recorder.Repository.Deletion.Request.{
  request_incident_deletion, check_request, record_decision, decision_row_ok, insert_items,
  deletion_stored_paths,
}
use safety_recorder.DbTime.Order.{db_time_le_whole_second}
use safety_recorder.Repository.Retention.Queue.{retention_keeps_open_incidents}
use safety_recorder.Tests.Fixtures.{first_incident, open_db, incident_params}
use safety_recorder.DbTime.{db_time_le, second}
use safety_recorder.Model.{Db, Incident}
use safety_recorder.Repository.Retention.{Counted, queue_retention_incident_deletions}
use safety_recorder.Repository.Incidents.{find_incident, close_row, new_incident}
use safety_recorder.Base.{
  [], ◌∷◌, some, ◌≡◌, refl, arith, ◌+◌, ◌*◌, true, false, find_row, order_by, select, ◌==◌,
  insert_row, any_row,
}

db_time_le_whole_second_example :
    (db_time_le (7 * second + 500000000) (7 * second) ≡ true)
    × (db_time_le (7 * second) (7 * second + 500000000) ≡ false)
db_time_le_whole_second_example = db_time_le_whole_second 7 500000000 (omega arith) (omega arith)

abbrev closed_incident : Incident
closed_incident = close_row 6 (new_incident 5 "old" "acc" incident_params)

abbrev retained_db : Db
retained_db = record open_db { incidents = first_incident ∷ closed_incident ∷ [] }

abbrev pass : Counted
pass =
    queue_retention_incident_deletions (λ n. 2000000000) (λ n. "del") (λ n m. "dli") 1000000000 25
      retained_db

-- The pass queues the closed incident.
pass_queues : pass.count ≡ 1
unfolding queue_retention_incident_deletions order_by select db_time_le insert_row
    request_incident_deletion find_row check_request ◌==◌ record_decision decision_row_ok any_row
    insert_items deletion_stored_paths
pass_queues = refl

retention_keeps_open_incidents_example : find_incident "inc" pass.db ≡ some first_incident
unfolding find_row ◌==◌
retention_keeps_open_incidents_example =
    retention_keeps_open_incidents (λ n. 2000000000) (λ n. "del") (λ n m. "dli") 1000000000 25
      retained_db "inc" first_incident refl refl
