-- ===== src/Repository/Deletion/Request.antt =====
-- internal/incidents/deletion.go: a deletion is requested, by a caller or by the retention policy.
use safety_recorder.Base.{
  ℕ, suc, String, Bool, true, false, not, ◌&&◌, ◌||◌, Option, none, some, List, [], ◌∷◌, ◌++◌, map,
  ◌==◌, if◌then◌else◌, find_row, any_row, select, update_where, order_by, ltb, text_le, length,
}
use safety_recorder.Model.{
  Incident, is_closed, is_active, DeletionState, DeletionSource, ItemState, Chunk,
  IncidentDeletionRequest, IncidentDeletionStatus, IncidentDeletionItem, Db, Error, Tx, pure, reads,
  or_fail, fail_if, writes, ◌>>=◌, ◌>>◌,
}
use safety_recorder.Repository.Incidents.{find_incident}
use safety_recorder.Repository.Constraints.{has_incident}

abbrev pub valid_deletion_source : DeletionSource → Bool
valid_deletion_source (DeletionSource.unknown _) = false
valid_deletion_source _ = true

-- The column's own check (migrations/008_incident_deletion_retention.sql) names three sources.
abbrev pub source_column_ok : DeletionSource → Bool
source_column_ok DeletionSource.account_request = true
source_column_ok DeletionSource.admin_request = true
source_column_ok DeletionSource.retention_policy = true
source_column_ok _ = false

abbrev pub find_decision_of : String → Db → Option IncidentDeletionStatus
find_decision_of incident d = find_row (λ r. r.incident_id == incident) d.deletion_decisions

unfoldable pub get_incident_deletion_status : String → Tx IncidentDeletionStatus
get_incident_deletion_status incident = do
  or_fail (← reads (find_decision_of incident)) Error.not_found

-- `requireIncidentOwnerTx`; the owner is NULL where it is "".
unfoldable pub require_incident_owner : String → String → Tx (Unit {0})
require_incident_owner id account = do
  incident ← or_fail (← reads (find_incident id)) Error.not_found
  fail_if (incident.owner_account_id == "" || not (incident.owner_account_id == account))
      Error.not_found

abbrev pub insert_distinct : String → List String → List String
insert_distinct p [] = p ∷ []
insert_distinct p (q ∷ qs) = if p == q then q ∷ qs else q ∷ insert_distinct p qs

unfoldable pub distinct : List String → List String
distinct [] = []
distinct (p ∷ ps) = insert_distinct p (distinct ps)

-- `SELECT DISTINCT stored_path ... ORDER BY stored_path ASC`.
unfoldable pub deletion_stored_paths : String → Db → List String
unfolding distinct
deletion_stored_paths incident d = order_by text_le (
    distinct (
      map (λ (c : Chunk). c.stored_path)
        (select (λ (c : Chunk). c.incident_id == incident) d.chunks)))

abbrev pub new_decision : ℕ → String → IncidentDeletionRequest → IncidentDeletionStatus
new_decision now id p = record {
  decision_id = id;
  incident_id = p.incident_id;
  source = p.source;
  reason_code = p.reason_code;
  actor_account_id = p.actor_account_id;
  allow_open = p.allow_open;
  state = DeletionState.pending;
  item_count = 0;
  error_code = "";
  requested_at = now;
  updated_at = now;
  started_at = none;
  completed_at = none;
}

unfoldable pub decision_row_ok : IncidentDeletionStatus → Db → Bool
decision_row_ok r d =
    not (
      any_row (λ (x : IncidentDeletionStatus). x.decision_id == r.decision_id) d.deletion_decisions)
    && not (
        any_row (λ (x : IncidentDeletionStatus). x.incident_id == r.incident_id)
          d.deletion_decisions)
    && has_incident r.incident_id d.incidents
    && source_column_ok r.source

abbrev pub new_item : ℕ → String → String → String → String → IncidentDeletionItem
new_item now id decision incident path = record {
  id = id;
  decision_id = decision;
  incident_id = incident;
  stored_path = path;
  state = ItemState.pending;
  attempts = 0;
  error_code = "";
  created_at = now;
  updated_at = now;
  last_attempt_at = none;
  completed_at = none;
}

unfoldable pub item_row_ok : IncidentDeletionItem → Db → Bool
item_row_ok r d =
    not (any_row (λ (x : IncidentDeletionItem). x.id == r.id) d.deletion_items)
    && not (
        any_row
          (λ (x : IncidentDeletionItem).
            x.decision_id == r.decision_id && x.stored_path == r.stored_path)
          d.deletion_items)

-- The loop over the stored paths; `item_ids` are the identifiers drawn for the items.
unfoldable pub insert_items : ℕ → (ℕ → String) → String → String → ℕ → List String → Tx (Unit {0})
insert_items now item_ids decision incident n [] = pure tt
insert_items now item_ids decision incident n (path ∷ paths) =
    let rest = insert_items now item_ids decision incident (suc n) paths in
    (do
      let item = new_item now (item_ids n) decision incident path
      row_ok ← reads (item_row_ok item)
      fail_if (not row_ok) Error.database
      writes (λ d. record d { deletion_items = d.deletion_items ++ item ∷ [] })
      rest)

-- A cutoff admits only closed incidents that were not updated after it.
abbrev pub misses_cutoff : Option ℕ → Incident → Bool
misses_cutoff none r = false
misses_cutoff (some cutoff) r = not (is_closed r.status) || ltb cutoff r.updated_at

abbrev pub is_not_owner : String → Incident → Bool
is_not_owner required r =
    not (required == "") && (r.owner_account_id == "" || not (r.owner_account_id == required))

-- The checks of a request that finds no decision.
unfoldable pub check_request : IncidentDeletionRequest → Tx (Unit {0})
check_request p = do
  incident ← or_fail (← reads (find_incident p.incident_id)) Error.not_found
  fail_if (is_not_owner p.require_owner_id incident) Error.not_found
  fail_if (not (is_active incident.deletion_state)) Error.invalid_state
  fail_if (not (is_closed incident.status) && not p.allow_open) Error.invalid_state
  fail_if (misses_cutoff p.retention_cutoff incident) Error.invalid_state

abbrev pub set_item_count : ℕ → ℕ → IncidentDeletionStatus → IncidentDeletionStatus
set_item_count now n r = record r { item_count = n; updated_at = now }

abbrev pub set_deletion_state : ℕ → DeletionState → Incident → Incident
set_deletion_state now s r = record r { deletion_state = s; updated_at = now }

-- The writes of a request that is accepted.
unfoldable pub record_decision :
    ℕ → String → (ℕ → String) → IncidentDeletionRequest → Tx IncidentDeletionStatus
record_decision now id item_ids p = do
  row_ok ← reads (decision_row_ok (new_decision now id p))
  fail_if (not row_ok) Error.invalid_state
  writes (λ d. record d { deletion_decisions = d.deletion_decisions ++ new_decision now id p ∷ [] })
  paths ← reads (deletion_stored_paths p.incident_id)
  insert_items now item_ids id p.incident_id 0 paths
  writes (λ d. record d {
    deletion_decisions =
        update_where (λ r. r.decision_id == id) (set_item_count now (length paths))
          d.deletion_decisions;
    incidents =
        update_where (λ r. r.id == p.incident_id) (set_deletion_state now DeletionState.pending)
          d.incidents;
  })
  pure (set_item_count now (length paths) (new_decision now id p))

unfoldable pub request_incident_deletion :
    ℕ → String → (ℕ → String) → IncidentDeletionRequest → Tx IncidentDeletionStatus
unfolding require_incident_owner
request_incident_deletion now id item_ids p = do
  fail_if (not (valid_deletion_source p.source)) Error.invalid_state
  found ← reads (find_decision_of p.incident_id)
  elim found [
    | some existing ↦ (do
      (if not (p.require_owner_id == "")
          then require_incident_owner p.incident_id p.require_owner_id
          else pure tt)
      pure existing)
    | none ↦ (do check_request p; record_decision now id item_ids p)
  ]
