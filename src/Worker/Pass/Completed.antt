-- ===== src/Worker/Pass/Completed.antt =====
-- The deletions that a pass of internal/retention/deletion_worker.go reports as completed are those that
-- it has set to deleted in the database.
use safety_recorder.Worker.Pass.{Draws, run_due_jobs, run_jobs, Summary, Options, count_job}
use safety_recorder.Model.{IncidentDeletionStatus}
use safety_recorder.Repository.Deletion.Process.{list_runnable_incident_deletions, batch_limit}
use safety_recorder.Worker.Pass.Counts.{
  IsTally, due_outcomes, run_due_jobs-IsTally, due_jobs, Outcome-cases,
}
use safety_recorder.Worker.{Removal, World, Outcome, finished, stopped, process_deletion}
use safety_recorder.Base.{
  ℕ, String, true, false, List, [], ◌∷◌, ◌+◌, ◌-◌, ◌≤◌, ◌≡◌, arith, refl, inl, inr, suc, length,
  Bool-cases, subst,
}
use safety_recorder.Worker.Claimed.{deleted_count, HasUniqueDecisions}
use safety_recorder.Worker.Counted.{IsCounted, process-IsCounted}

module _ {S : Type 0} (remove : String → S → Removal × S) (draws : Draws) where
  run_jobs_counted :
      (stale n : ℕ) (jobs : List IncidentDeletionStatus) (s : Summary) (w : World S)
      → HasUniqueDecisions w.db
      → deleted_count (run_jobs remove draws stale n jobs s w).world.db + s.completed
        ≡ deleted_count w.db + (run_jobs remove draws stale n jobs s w).summary.completed
  unfolding run_jobs
  run_jobs_counted stale n [] s w u = refl
  run_jobs_counted stale n (job ∷ jobs) s w u =
      let p =
        process_deletion remove (draws.job_start n) (draws.item_times n) (draws.job_end n)
          (draws.item_canceled n) (draws.audit_ids n) job.decision_id stale w in
      let c =
        process-IsCounted remove (draws.job_start n) (draws.job_end n) stale (draws.item_times n)
          (draws.item_canceled n) (draws.audit_ids n) job.decision_id w u in
      elim (Bool-cases (draws.job_canceled n)) [
        | inl e ↦ rw e refl
        | inr e ↦
            let counted =
              λ (o : Outcome S) (f : p ≡ o). subst (IsCounted (deleted_count w.db)) f c in
            elim (Outcome-cases p) [
              | inl (true, w', f) ↦
                  let k = counted (finished true w') f in
                  ground (arith, run_jobs_counted stale (suc n) jobs (count_job true s) w' k.0, k.1)
              | inl (false, w', f) ↦
                  let k = counted (finished false w') f in
                  ground
                    (arith, run_jobs_counted stale (suc n) jobs (count_job false s) w' k.0, k.1)
              | inr (x, w', f) ↦ ground (arith, (counted (stopped x w') f).1)
            ]
      ]

  -- In a world whose deletion decisions have unique identifiers, the due deletions are worked on,
  -- and what they report is added to the counts, whether or not an error or the context ends the
  -- work early: to `processed` the number of deletions that ran to their end, to `completed`
  -- those that report completion, to `failed` the others; they are at most a batch. `completed`
  -- grows by exactly the number of decisions that the work has set to deleted in the database.
  pub run_due_jobs-counts :
      (o : Options) (s : Summary) (w : World S)
      → HasUniqueDecisions w.db
      → IsTally s (due_outcomes remove draws o w) (run_due_jobs remove draws o s w).summary
        × (length (due_outcomes remove draws o w) ≤ batch_limit o.batch_size)
        × (deleted_count (run_due_jobs remove draws o s w).world.db + s.completed
            ≡ deleted_count w.db + (run_due_jobs remove draws o s w).summary.completed)
  unfolding run_due_jobs list_runnable_incident_deletions
  run_due_jobs-counts o s w u =
      let t = run_due_jobs-IsTally remove draws o s w in
      (
        t.0,
        t.1,
        run_jobs_counted (draws.jobs_time - o.deleting_retry_after) 0 (due_jobs remove draws o w) s
            w u,
      )
