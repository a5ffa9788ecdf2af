-- ===== src/Repository/Retention/Queue.antt =====
-- What the retention policy queues (internal/incidents/deletion.go).
use safety_recorder.System.Frame.{request-frame}
use safety_recorder.Repository.Incidents.{find_incident}
use safety_recorder.Repository.Deletion.Request.{
  request_incident_deletion, check_request, set_deletion_state,
}
use safety_recorder.Model.{
  Incident, Db, is_closed, IncidentDeletionStatus, ok, Result-cases, DeletionState,
}
use safety_recorder.Repository.Retention.{
  queue_retention_incident_deletions, queue_candidates, retention_request, retention_candidates,
}
use safety_recorder.Base.{
  ◌+◌, ℕ, arith, ◌≡◌, ◌∷◌, [], ◌==◌, String, false, some, List, ==_refl, Bool-cases, inl,
  find_row_sound, suc, sym, eq_of_==, ◌∙◌, ap, inr, find_row-update_where, refl,
}

-- A retention request for an open incident fails, or finds a decision and changes nothing.
open_incident_refused :
    (now : ℕ) (id : String) (ids : ℕ → String) (cutoff : ℕ) (j : String) (d d' : Db)
    (s : IncidentDeletionStatus) (r : Incident)
    → request_incident_deletion now id ids (retention_request cutoff j) d ≡ ok (s, d')
    → find_incident j d ≡ some r
    → is_closed r.status ≡ false
    → d' ≡ d
unfolding request_incident_deletion check_request
open_incident_refused now id ids cutoff j d d' s r h f o = ground (arith, ==_refl "")

module _ (i : String) (r : Incident) (o : is_closed r.status ≡ false) where
  request_keeps_open :
      (now : ℕ) (id : String) (ids : ℕ → String) (cutoff : ℕ) (j : String) (d d' : Db)
      (s : IncidentDeletionStatus)
      → request_incident_deletion now id ids (retention_request cutoff j) d ≡ ok (s, d')
      → find_incident i d ≡ some r
      → find_incident i d' ≡ some r
  request_keeps_open now id ids cutoff j d d' s h f = elim (Bool-cases (r.id == j)) [
    | inl e ↦
        let k = find_row_sound (λ (x : Incident). x.id == i) d.incidents r f in
        let q : j ≡ i = sym (eq_of_== r.id j e) ∙ eq_of_== r.id i k in
        let g : find_incident j d ≡ some r = rw q f in
        ap (find_incident i) (open_incident_refused now id ids cutoff j d d' s r h g o) ∙ f
    | inr n ↦ ground (
      arith,
      (request-frame now id ids (retention_request cutoff j) d).1,
      find_row-update_where (λ (x : Incident). x.id == i) (λ (x : Incident). x.id == j)
          (set_deletion_state now DeletionState.pending) (λ x. refl) d.incidents,
    )
  ]

  queue_candidates_keeps_open :
      (now : ℕ → ℕ) (ids : ℕ → String) (item_ids : ℕ → ℕ → String) (cutoff n : ℕ)
      (rs : List Incident) (queued : ℕ) (d : Db)
      → find_incident i d ≡ some r
      → find_incident i (queue_candidates now ids item_ids cutoff n rs queued d).db ≡ some r
  unfolding queue_candidates
  queue_candidates_keeps_open now ids item_ids cutoff n [] queued d f = f
  queue_candidates_keeps_open now ids item_ids cutoff n (x ∷ xs) queued d f =
      elim (Result-cases (
        request_incident_deletion (now n) (ids n) (item_ids n) (retention_request cutoff x.id) d)) [
          | inl (a, e) ↦ ground (
            arith,
            queue_candidates_keeps_open now ids item_ids cutoff (suc n) xs (queued + 1) a.1
                (request_keeps_open (now n) (ids n) (item_ids n) cutoff x.id d a.1 a.0 e f),
          )
          | inr (b, e) ↦
              ground
                (arith, queue_candidates_keeps_open now ids item_ids cutoff (suc n) xs queued d f)
        ]

-- A pass of the retention policy leaves every open incident as it is, whatever the cutoff.
pub retention_keeps_open_incidents :
    (now : ℕ → ℕ) (ids : ℕ → String) (item_ids : ℕ → ℕ → String) (cutoff limit : ℕ) (d : Db)
    (i : String) (r : Incident)
    → find_incident i d ≡ some r
    → is_closed r.status ≡ false
    → find_incident i (queue_retention_incident_deletions now ids item_ids cutoff limit d).db
      ≡ some r
unfolding queue_retention_incident_deletions
retention_keeps_open_incidents now ids item_ids cutoff limit d i r f o =
    queue_candidates_keeps_open i r o now ids item_ids cutoff 0
      (retention_candidates cutoff limit d) 0 d f
