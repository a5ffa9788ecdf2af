-- ===== src/Repository/Deletion/Decide.antt =====
-- What a deletion request decides, and that it does so once (internal/incidents/deletion.go).
use safety_recorder.Model.{
  Db, ok, IncidentDeletionRequest, IncidentDeletionStatus, DeletionSource, Result-cases,
}
use safety_recorder.Repository.Deletion.Request.{
  insert_items, new_item, record_decision, request_incident_deletion, decision_row_ok,
  require_incident_owner, check_request, find_decision_of, valid_deletion_source, new_decision,
  deletion_stored_paths, set_item_count,
}
use safety_recorder.Base.{
  ℕ, arith, ◌≡◌, ◌++◌, ◌∷◌, [], ◌==◌, String, List, suc, none, some, true, ==_refl, ◌≢◌, ap, inl,
  any_row-eq-is_some, find_row-append, find_row-update_where, length, inr, refl,
}

insert_items-decisions :
    (now : ℕ) (ids : ℕ → String) (decision incident : String) (n : ℕ) (paths : List String)
    (d e : Db) (u : Unit {0})
    → insert_items now ids decision incident n paths d ≡ ok (u, e)
    → e.deletion_decisions ≡ d.deletion_decisions
unfolding insert_items
insert_items-decisions now ids decision incident n [] d e u h = ground arith
insert_items-decisions now ids decision incident n (path ∷ paths) d e u h =
    let item = new_item now (ids n) decision incident path in
    ground (
      arith,
      insert_items-decisions now ids decision incident (suc n) paths
          (record d { deletion_items = d.deletion_items ++ item ∷ [] }) e u,
    )

-- The decision that a request has recorded is found under the incident.
record_decision-stored :
    (now : ℕ) (id : String) (ids : ℕ → String) (p : IncidentDeletionRequest) (d d' : Db)
    (s : IncidentDeletionStatus)
    → record_decision now id ids p d ≡ ok (s, d')
    → find_decision_of p.incident_id d' ≡ some s
unfolding record_decision decision_row_ok
record_decision-stored now id ids p d d' s h =
    let e = record d { deletion_decisions = d.deletion_decisions ++ new_decision now id p ∷ [] } in
    let paths = deletion_stored_paths p.incident_id e in
    elim (Result-cases (insert_items now ids id p.incident_id 0 paths e)) [
      | inl (r, f) ↦ ground (
        arith,
        insert_items-decisions now ids id p.incident_id 0 paths e r.1 r.0 f,
        ==_refl id,
        ==_refl p.incident_id,
        any_row-eq-is_some (λ (x : IncidentDeletionStatus). x.incident_id == p.incident_id)
            d.deletion_decisions,
        find_row-append (λ (x : IncidentDeletionStatus). x.incident_id == p.incident_id)
            d.deletion_decisions (new_decision now id p),
        find_row-update_where (λ (x : IncidentDeletionStatus). x.incident_id == p.incident_id)
            (λ (x : IncidentDeletionStatus). x.decision_id == id)
            (set_item_count now (length paths)) (λ x. refl) r.1.deletion_decisions,
      )
      | inr (x, f) ↦ ground arith
    ]

request-stored :
    (now : ℕ) (id : String) (ids : ℕ → String) (p : IncidentDeletionRequest) (d d' : Db)
    (s : IncidentDeletionStatus)
    → request_incident_deletion now id ids p d ≡ ok (s, d')
    → find_decision_of p.incident_id d' ≡ some s
unfolding request_incident_deletion require_incident_owner check_request
request-stored now id ids p d d' s h = ground (arith, record_decision-stored now id ids p d d' s)

-- A request that has been accepted is answered with the same decision when it is made again for the
-- incident, whatever its other fields but a valid source and no required owner, and changes nothing.
pub request_incident_deletion-again :
    (d d' : Db) (now later : ℕ) (id other : String) (ids others : ℕ → String)
    (p q : IncidentDeletionRequest) (s : IncidentDeletionStatus)
    → request_incident_deletion now id ids p d ≡ ok (s, d')
    → q.incident_id ≡ p.incident_id
    → valid_deletion_source q.source ≡ true
    → q.require_owner_id ≡ ""
    → request_incident_deletion later other others q d' ≡ ok (s, d')
unfolding request_incident_deletion
request_incident_deletion-again d d' now later id other ids others p q s e i v o =
    let g : find_decision_of p.incident_id d' ≡ some s = request-stored now id ids p d d' s e in
    let h : find_decision_of q.incident_id d' ≡ some s = rw i g in
    ground (arith, ==_refl "", ap (λ t. t == "") o)

-- The source `operator_cli` passes the test of the request, but a request with it for an incident that
-- has no decision yet never succeeds.
pub operator_cli_refused :
    (d d' : Db) (now : ℕ) (id : String) (ids : ℕ → String) (p : IncidentDeletionRequest)
    (s : IncidentDeletionStatus)
    → p.source ≡ DeletionSource.operator_cli
    → find_decision_of p.incident_id d ≡ none
    → (valid_deletion_source p.source ≡ true)
      × (request_incident_deletion now id ids p d ≢ ok (s, d'))
unfolding request_incident_deletion record_decision decision_row_ok
operator_cli_refused d d' now id ids p s o n = (ground arith, ground arith)
