-- ===== src/Worker/Pass.antt =====
-- `RunOnce` of internal/retention/deletion_worker.go: one maintenance pass.
pub mod Completed
pub mod Counts
use safety_recorder.Repository.Retention.Tombstones.{prune_incident_deletion_tombstones}
use safety_recorder.Repository.Retention.{
  prune_incident_token_metadata, queue_retention_incident_deletions,
}
use safety_recorder.Repository.Deletion.Process.{list_runnable_incident_deletions}
use safety_recorder.Model.{Tx, IncidentDeletionStatus, ok, err}
use safety_recorder.DbTime.{second}
use safety_recorder.Worker.{
  Removal, WorkerError, World, repository, stopped_by_context, process_deletion, finished, stopped,
}
use safety_recorder.Base.{
  true, false, ℕ, [], ◌∷◌, ◌+◌, ◌-◌, ◌&&◌, ◌==◌, ◌≡◌, ◌++◌, none, some, if◌then◌else◌, ◌*◌, ◌≤◌,
  Bool, Option, String, eqb, List, suc,
}

-- `type Options`; the interval and the logger are left out, and 0 stands for every value that is not
-- positive.
pub record Options : Type 0 where
  pub closed_incident_retention : ℕ
  pub token_metadata_retention : ℕ
  pub tombstone_retention : ℕ
  pub deleting_retry_after : ℕ
  pub batch_size : ℕ

-- The defaults of `NewWorker`: 25 decisions and 15 minutes.
unfoldable pub new_worker : Options → Options
new_worker o = record o {
  batch_size = if eqb o.batch_size 0 then 25 else o.batch_size;
  deleting_retry_after =
      if eqb o.deleting_retry_after 0 then 900 * second else o.deleting_retry_after;
}

pub record Summary : Type 0 where
  pub retention_queued : ℕ
  pub token_metadata_pruned : ℕ
  pub tombstones_pruned : ℕ
  pub processed : ℕ
  pub completed : ℕ
  pub failed : ℕ

-- What a pass reads from the clock, from `newID` and from its context, by the number of the call.
pub record Draws : Type 0 where
  pub queued_at : ℕ → ℕ
  pub queue_ids : ℕ → String
  pub queue_item_ids : ℕ → ℕ → String
  pub retention_time : ℕ
  pub token_time : ℕ
  pub tombstone_time : ℕ
  pub jobs_time : ℕ
  pub job_canceled : ℕ → Bool
  pub job_start : ℕ → ℕ
  pub job_end : ℕ → ℕ
  pub item_times : ℕ → ℕ → ℕ
  pub item_canceled : ℕ → ℕ → Bool
  pub audit_ids : ℕ → String

-- The summary, the error that stopped the pass, and the state that it leaves.
pub record PassResult (S : Type 0) : Type 0 where
  pub summary : Summary
  pub failure : Option WorkerError
  pub world : World S

abbrev pub no_counts : Summary
no_counts = record {
  retention_queued = 0;
  token_metadata_pruned = 0;
  tombstones_pruned = 0;
  processed = 0;
  completed = 0;
  failed = 0;
}

abbrev pub count_job : Bool → Summary → Summary
count_job true s = record s { processed = s.processed + 1; completed = s.completed + 1 }
count_job false s = record s { processed = s.processed + 1; failed = s.failed + 1 }

module _ {S : Type 0} (remove : String → S → Removal × S) (draws : Draws) where
  -- The loop over the jobs.
  unfoldable pub run_jobs : ℕ → ℕ → List IncidentDeletionStatus → Summary → World S → PassResult S
  run_jobs stale n [] s w = record { summary = s; failure = none; world = w }
  run_jobs stale n (job ∷ jobs) s w =
      let rest = run_jobs stale (suc n) jobs in
      if draws.job_canceled n
      then record { summary = s; failure = some stopped_by_context; world = w }
      else elim (process_deletion remove (draws.job_start n) (draws.item_times n) (draws.job_end n)
          (draws.item_canceled n) (draws.audit_ids n) job.decision_id stale w) [
            | finished completed w' ↦ rest (count_job completed s) w'
            | stopped e w' ↦ record { summary = s; failure = some e; world = w' }
          ]

  unfoldable pub run_due_jobs : Options → Summary → World S → PassResult S
  unfolding run_jobs list_runnable_incident_deletions
  run_due_jobs o s w =
      let stale = draws.jobs_time - o.deleting_retry_after in
      elim (list_runnable_incident_deletions o.batch_size stale w.db) [
        | ok jobs ↦ run_jobs stale 0 jobs.0 s (record w { db = jobs.1 })
        | err e ↦ record { summary = s; failure = some (repository e); world = w }
      ]

  -- A call that prunes, when its retention is set, and what follows it.
  unfoldable pub prune_when :
      ℕ
      → (ℕ → Tx ℕ)
      → ℕ
      → (ℕ → Summary)
      → Summary
      → (Summary → World S → PassResult S)
      → World S
      → PassResult S
  prune_when retention call time add s rest w =
      if eqb retention 0 then rest s w else elim (call (time - retention) w.db) [
        | ok r ↦ rest (add r.0) (record w { db = r.1 })
        | err e ↦ record { summary = s; failure = some (repository e); world = w }
      ]

  unfoldable pub run_tombstones : Options → Summary → World S → PassResult S
  unfolding prune_when run_due_jobs
  run_tombstones o s =
      prune_when o.tombstone_retention
        (λ cutoff. prune_incident_deletion_tombstones cutoff o.batch_size) draws.tombstone_time
        (λ n. record s { tombstones_pruned = n }) s (run_due_jobs o)

  unfoldable pub run_pruning : Options → Summary → World S → PassResult S
  unfolding prune_when run_tombstones
  run_pruning o s =
      prune_when o.token_metadata_retention
        (λ cutoff. prune_incident_token_metadata cutoff o.batch_size) draws.token_time
        (λ n. record s { token_metadata_pruned = n }) s (run_tombstones o)

  unfoldable pub run_once : Options → World S → PassResult S
  unfolding run_pruning
  run_once o w =
      if eqb o.closed_incident_retention 0
      then run_pruning o no_counts w
      else let q =
          queue_retention_incident_deletions draws.queued_at draws.queue_ids draws.queue_item_ids
            (draws.retention_time - o.closed_incident_retention) o.batch_size w.db in
        elim q.failure [
          | none ↦
              run_pruning o (record no_counts { retention_queued = q.count })
                (record w { db = q.db })
          | some e ↦ record {
            summary = no_counts;
            failure = some (repository e);
            world = record w { db = q.db };
          }
        ]
