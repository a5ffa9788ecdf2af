-- ===== src/Repository/Incidents.antt =====
-- internal/incidents/repository.go: incidents.
use safety_recorder.Base.{
  ℕ, String, Bool, not, ◌&&◌, ◌||◌, Option, List, [], ◌∷◌, ◌++◌, ◌==◌, if◌then◌else◌, find_row,
  any_row, select, update_where, order_by, eqb, text_le,
}
use safety_recorder.DbTime.{db_time_le}
use safety_recorder.Model.{
  Incident, CreateIncidentParams, status_open, status_closed, DeletionState, is_active, is_deleted,
  Db, Error, Tx, pure, fail, reads, or_fail, fail_if, writes, ◌>>=◌, ◌>>◌,
}
use safety_recorder.Repository.Constraints.{
  valid_incident_mode, valid_capture_profile, valid_escalation_policy, valid_sharing_state,
  has_account,
}

abbrev pub find_incident : String → Db → Option Incident
find_incident id d = find_row (λ r. r.id == id) d.incidents

-- `requireActiveIncidentTx`.
unfoldable pub require_active_incident : String → Tx (Unit {0})
require_active_incident id = do
  incident ← or_fail (← reads (find_incident id)) Error.not_found
  fail_if (not (is_active incident.deletion_state)) Error.incident_deleting

abbrev pub new_incident : ℕ → String → String → CreateIncidentParams → Incident
new_incident now id account p = record {
  id = id;
  owner_account_id = account;
  created_at = now;
  updated_at = now;
  status = status_open;
  client_label = p.client_label;
  notes = p.notes;
  incident_mode = p.incident_mode;
  capture_profile = p.capture_profile;
  escalation_policy = p.escalation_policy;
  sharing_state = p.sharing_state;
  deletion_state = DeletionState.active;
}

-- Does the insert keep the constraints of the table?
unfoldable pub incident_row_ok : Incident → Db → Bool
incident_row_ok r d =
    not (any_row (λ (x : Incident). x.id == r.id) d.incidents)
    && (r.owner_account_id == "" || has_account r.owner_account_id d)
    && (r.incident_mode == "" || valid_incident_mode r.incident_mode)
    && (r.capture_profile == "" || valid_capture_profile r.capture_profile)
    && (r.escalation_policy == "" || valid_escalation_policy r.escalation_policy)
    && (r.sharing_state == "" || valid_sharing_state r.sharing_state)

unfoldable pub create_incident_for_account :
    ℕ → String → String → CreateIncidentParams → Tx Incident
create_incident_for_account now id account p = do
  let incident = new_incident now id account p
  row_ok ← reads (incident_row_ok incident)
  fail_if (not row_ok) Error.not_found
  writes (λ d. record d { incidents = d.incidents ++ incident ∷ [] })
  pure incident

unfoldable pub create_incident : ℕ → String → String → String → Tx Incident
create_incident now id client_label notes = create_incident_for_account now id "" (record {
  client_label = client_label;
  notes = notes;
  incident_mode = "";
  capture_profile = "";
  escalation_policy = "";
  sharing_state = "";
})

unfoldable pub get_incident : String → Tx Incident
get_incident id = do or_fail (← reads (find_incident id)) Error.not_found

-- `ORDER BY updated_at DESC, created_at DESC, id ASC`.
abbrev pub newest_first : Incident → Incident → Bool
newest_first a b =
    if not (eqb a.updated_at b.updated_at)
    then db_time_le b.updated_at a.updated_at
    else if not (eqb a.created_at b.created_at)
    then db_time_le b.created_at a.created_at
    else text_le a.id b.id

unfoldable pub list_incidents_for_account : String → Tx (List Incident)
list_incidents_for_account account = reads (λ d. order_by newest_first (
    select
      (λ r.
        not (account == "") && r.owner_account_id == account && not (is_deleted r.deletion_state))
      d.incidents))

abbrev pub closable : String → Incident → Bool
closable id r = r.id == id && is_active r.deletion_state

abbrev pub close_row : ℕ → Incident → Incident
close_row now r = record r { status = status_closed; updated_at = now }

unfoldable pub close_incident : ℕ → String → Tx Incident
unfolding get_incident
close_incident now id = do
  affected ← reads (λ d. any_row (closable id) d.incidents)
  if affected
      then (do
        writes
            (λ d. record d { incidents = update_where (closable id) (close_row now) d.incidents })
        get_incident id)
      else (do
        incident ← get_incident id
        fail_if (not (is_active incident.deletion_state)) Error.incident_deleting
        fail Error.not_found)
