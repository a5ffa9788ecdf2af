-- ===== src/System/Latch/Calls.antt =====
-- The calls that write the table of incidents leave a latched incident latched.
use safety_recorder.System.Frame.{request-frame}
use safety_recorder.System.Latch.Defs.{
  IsLatch, latched_in, latched_in-append, latched_in-update_where,
}
use safety_recorder.Repository.Deletion.Request.{set_deletion_state, request_incident_deletion}
use safety_recorder.Repository.Deletion.Process.{
  claimable, complete_incident_deletion, fail_incident_deletion, mark_incident_deletion_deleting,
  claim_row, find_decision, tombstone_row,
}
use safety_recorder.Repository.Incidents.{
  close_incident, create_incident_for_account, closable, close_row, new_incident, incident_row_ok,
}
use safety_recorder.Base.{
  ℕ, String, true, false, ◌≡◌, refl, ◌==◌, update_where, arith, Option-cases, inl, inr, subst, sym,
  Bool,
}
use safety_recorder.Model.{
  Incident, is_active, Db, after, CreateIncidentParams, DeletionState, IncidentDeletionRequest,
}

-- The database between the two updates of a claim.
abbrev claimed : ℕ → String → ℕ → Db → Db
claimed now id stale d = record d {
  deletion_decisions = update_where (claimable id stale) (claim_row now) d.deletion_decisions;
}

module _ (live : Incident → Bool) (k : IsLatch live) (d : Db) (i : String)
    (h : latched_in live i d.incidents ≡ true) where
  pub create_incident-latched :
      (now : ℕ) (id account : String) (p : CreateIncidentParams)
      → latched_in live i (after d (create_incident_for_account now id account p d)).incidents
        ≡ true
  unfolding create_incident_for_account incident_row_ok
  create_incident-latched now id account p =
      ground (arith, latched_in-append live i d.incidents (new_incident now id account p))

  pub close-latched :
      (now : ℕ) (id : String)
      → latched_in live i (after d (close_incident now id d)).incidents ≡ true
  unfolding close_incident
  close-latched now id = ground (
    arith,
    latched_in-update_where live i (closable id) (close_row now) d.incidents (λ x. refl)
        (k.closing now),
  )

  pub state-latched :
      (now : ℕ) (s : DeletionState) (id : String)
      → is_active s ≡ false
      → latched_in live i
          (update_where (λ (r : Incident). r.id == id) (set_deletion_state now s) d.incidents)
        ≡ true
  state-latched now s id e =
      latched_in-update_where live i (λ (r : Incident). r.id == id) (set_deletion_state now s)
        d.incidents (λ x. refl) (λ x. k.marking now s x e) h

  pub claim-latched :
      (now : ℕ) (id : String) (stale : ℕ)
      → latched_in live i (after d (mark_incident_deletion_deleting now id stale d)).incidents
        ≡ true
  unfolding mark_incident_deletion_deleting
  claim-latched now id stale = elim (Option-cases (find_decision id (claimed now id stale d))) [
    | inl e ↦ ground arith
    | inr (x, e) ↦ ground (arith, state-latched now DeletionState.deleting x.incident_id refl)
  ]

  pub fail_deletion-latched :
      (now : ℕ) (id code : String)
      → latched_in live i (after d (fail_incident_deletion now id code d)).incidents ≡ true
  unfolding fail_incident_deletion
  fail_deletion-latched now id code = elim (Option-cases (find_decision id d)) [
    | inl e ↦ ground arith
    | inr (x, e) ↦ ground (arith, state-latched now DeletionState.failed x.incident_id refl)
  ]

  pub complete_deletion-latched :
      (now : ℕ) (audit id : String)
      → latched_in live i (after d (complete_incident_deletion now audit id d)).incidents ≡ true
  unfolding complete_incident_deletion
  complete_deletion-latched now audit id = elim (Option-cases (find_decision id d)) [
    | inl e ↦ ground arith
    | inr (x, e) ↦ ground (
      arith,
      latched_in-update_where live i (λ (r : Incident). r.id == x.incident_id) (tombstone_row now)
          d.incidents (λ y. refl) (k.ending now),
    )
  ]

  pub request-latched :
      (now : ℕ) (id : String) (ids : ℕ → String) (p : IncidentDeletionRequest)
      → latched_in live i (after d (request_incident_deletion now id ids p d)).incidents ≡ true
  request-latched now id ids p = elim (request-frame now id ids p d).1 [
    | inl e ↦ subst (λ l. latched_in live i l ≡ true) (sym e) h
    | inr e ↦
        subst (λ l. latched_in live i l ≡ true) (sym e)
          (state-latched now DeletionState.pending p.incident_id refl)
  ]
