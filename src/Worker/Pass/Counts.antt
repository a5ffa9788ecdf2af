-- ===== src/Worker/Pass/Counts.antt =====
-- The counts that `RunOnce` of internal/retention/deletion_worker.go reports.
use safety_recorder.Repository.Deletion.Process.{
  batch_limit, oldest_decision_first, is_runnable, list_runnable_incident_deletions,
}
use safety_recorder.Model.{IncidentDeletionStatus}
use safety_recorder.Worker.{
  Removal, World, Outcome, process_deletion, finished, WorkerError, stopped,
}
use safety_recorder.Worker.Pass.{Summary, Draws, run_jobs, count_job, run_due_jobs, Options}
use safety_recorder.Base.{
  ℕ, [], ◌∷◌, ◌+◌, ◌-◌, ◌≡◌, ◌≤◌, arith, String, Bool, List, suc, length, inl, inr, ◌⊎◌, order_by,
  refl, select, take, length-take-le, count_where, not, true, false, Bool-cases, if◌then◌else◌,
}

-- A summary that adds to another what the outcomes of deletions are: `true` for a deletion that was
-- completed, `false` for one that was left for a later pass.
pub record IsTally (s : Summary) (outcomes : List Bool) (t : Summary) : Type 0 where
  pub processed : t.processed ≡ s.processed + length outcomes
  pub completed : t.completed ≡ s.completed + count_where (λ b. b) outcomes
  pub failed : t.failed ≡ s.failed + count_where not outcomes

pub Outcome-cases :
    {S : Type 0} (o : Outcome S)
    → ((b : Bool) × (w : World S) × (o ≡ finished b w))
      ⊎ ((e : WorkerError) × (w : World S) × (o ≡ stopped e w))
Outcome-cases (finished b w) = inl (b, w, refl)
Outcome-cases (stopped e w) = inr (e, w, refl)

IsTally-none : (s : Summary) → IsTally s [] s
unfolding select
IsTally-none s = record { processed = omega arith; completed = omega arith; failed = omega arith }

IsTally-next :
    (b : Bool) (bs : List Bool) (s t : Summary)
    → IsTally (count_job b s) bs t
    → IsTally s (b ∷ bs) t
unfolding select
IsTally-next true bs s t h = record {
  processed = ground (arith, h.processed);
  completed = ground (arith, h.completed);
  failed = ground (arith, h.failed);
}
IsTally-next false bs s t h = record {
  processed = ground (arith, h.processed);
  completed = ground (arith, h.completed);
  failed = ground (arith, h.failed);
}

module _ {S : Type 0} (remove : String → S → Removal × S) (draws : Draws) where
  -- What the deletions of the jobs report, one after the other in the worlds that they leave, up to
  -- the first that is cut off by the context or by an error.
  abbrev pub outcomes : ℕ → ℕ → List IncidentDeletionStatus → World S → List Bool
  outcomes stale n [] w = []
  outcomes stale n (job ∷ jobs) w =
      let rest = outcomes stale (suc n) jobs in
      if draws.job_canceled n
      then []
      else elim (process_deletion remove (draws.job_start n) (draws.item_times n) (draws.job_end n)
          (draws.item_canceled n) (draws.audit_ids n) job.decision_id stale w) [
            | finished completed w' ↦ completed ∷ rest w'
            | stopped e w' ↦ []
          ]

  run_jobs-IsTally :
      (stale n : ℕ) (jobs : List IncidentDeletionStatus) (s : Summary) (w : World S)
      → IsTally s (outcomes stale n jobs w) (run_jobs remove draws stale n jobs s w).summary
  unfolding run_jobs
  run_jobs-IsTally stale n [] s w = IsTally-none s
  run_jobs-IsTally stale n (job ∷ jobs) s w = elim (Bool-cases (draws.job_canceled n)) [
    | inl e ↦ rw e (IsTally-none s)
    | inr e ↦
        elim (Outcome-cases (
          process_deletion remove (draws.job_start n) (draws.item_times n) (draws.job_end n)
            (draws.item_canceled n) (draws.audit_ids n) job.decision_id stale w)) [
              | inl (b, w', f) ↦
                  rw (e, f)
                    (IsTally-next b (outcomes stale (suc n) jobs w') s
                      (run_jobs remove draws stale (suc n) jobs (count_job b s) w').summary
                      (run_jobs-IsTally stale (suc n) jobs (count_job b s) w'))
              | inr (x, w', f) ↦ rw (e, f) (IsTally-none s)
            ]
  ]

  outcomes-length_le :
      (stale n : ℕ) (jobs : List IncidentDeletionStatus) (w : World S)
      → length (outcomes stale n jobs w) ≤ length jobs
  outcomes-length_le stale n [] w = omega arith
  outcomes-length_le stale n (job ∷ jobs) w =
      elim (Outcome-cases (
        process_deletion remove (draws.job_start n) (draws.item_times n) (draws.job_end n)
          (draws.item_canceled n) (draws.audit_ids n) job.decision_id stale w)) [
            | inl (b, w', f) ↦ ground (arith, outcomes-length_le stale (suc n) jobs w')
            | inr (x, w', f) ↦ ground arith
          ]

  -- The deletions that are due in a world, in the order of their decisions.
  abbrev pub due_jobs : Options → World S → List IncidentDeletionStatus
  due_jobs o w = take (batch_limit o.batch_size) (
      order_by oldest_decision_first (
        select
          (λ (r : IncidentDeletionStatus).
            is_runnable (draws.jobs_time - o.deleting_retry_after) r.state r.updated_at)
          w.db.deletion_decisions))

  abbrev pub due_outcomes : Options → World S → List Bool
  due_outcomes o w = outcomes (draws.jobs_time - o.deleting_retry_after) 0 (due_jobs o w) w

  pub run_due_jobs-IsTally :
      (o : Options) (s : Summary) (w : World S)
      → IsTally s (due_outcomes o w) (run_due_jobs remove draws o s w).summary
        × (length (due_outcomes o w) ≤ batch_limit o.batch_size)
  unfolding run_due_jobs list_runnable_incident_deletions
  run_due_jobs-IsTally o s w = (
    run_jobs-IsTally (draws.jobs_time - o.deleting_retry_after) 0 (due_jobs o w) s w,
    omega (
      arith,
      outcomes-length_le (draws.jobs_time - o.deleting_retry_after) 0 (due_jobs o w) w,
      length-take-le (batch_limit o.batch_size) (
          order_by oldest_decision_first (
            select
              (λ (r : IncidentDeletionStatus).
                is_runnable (draws.jobs_time - o.deleting_retry_after) r.state r.updated_at)
              w.db.deletion_decisions)),
    ),
  )
