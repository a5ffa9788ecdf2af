-- ===== src/Repository/Sharing/Grants.antt =====
-- internal/incidents/sharing.go: grants of an incident, or of one stream of it, to a contact.
use safety_recorder.Base.{
  ℕ, String, Bool, true, false, not, ◌&&◌, ◌||◌, none, some, List, [], ◌∷◌, ◌++◌, ◌==◌,
  if◌then◌else◌, find_row, any_row, select, update_where, order_by, eqb, text_le, is_some,
}
use safety_recorder.DbTime.{db_time_le}
use safety_recorder.Model.{
  Incident, is_active, ContactPublicKey, KeyState, SharingGrant, CreateSharingGrantParams,
  GrantState, valid_sharing_grant_data_class, valid_sharing_grant_recipient_type, AuditAction,
  AuditOutcome, SharingAuditEventParams, Db, Error, Tx, pure, reads, or_fail, fail_if, writes,
  ◌>>=◌, ◌>>◌,
}
use safety_recorder.Repository.Audit.{create_sharing_audit_event}
use safety_recorder.Repository.Constraints.{has_account}
use safety_recorder.Repository.Streams.{find_stream}
use safety_recorder.Repository.Sharing.ContactKeys.{of_contact, newest_key}

abbrev pub owned_active : String → String → Incident → Bool
owned_active owner incident r =
    r.id == incident && (r.owner_account_id == owner && is_active r.deletion_state)

unfoldable pub require_owned_active_incident : String → String → Tx (Unit {0})
require_owned_active_incident owner incident = do
  found ← reads (λ d. any_row (owned_active owner incident) d.incidents)
  fail_if (not found) Error.not_found

-- `if params.StreamID != ""`, the stream is one of the incident.
unfoldable pub require_incident_stream : String → String → Tx (Unit {0})
require_incident_stream incident stream = do
  found ← reads (λ d. is_some (find_stream incident stream d))
  fail_if (not (stream == "") && not found) Error.not_found

abbrev pub is_key_active : KeyState → Bool
is_key_active KeyState.active = true
is_key_active _ = false

-- An active key of the contact: the one that the call names, or any.
abbrev pub grantable : CreateSharingGrantParams → ContactPublicKey → Bool
grantable p r =
    of_contact p.owner_account_id p.contact_id r
    && (is_key_active r.key_state
        && (p.contact_public_key_id == "" || r.id == p.contact_public_key_id))

unfoldable pub active_key_for_grant : CreateSharingGrantParams → Tx ContactPublicKey
active_key_for_grant p = do or_fail (← reads (newest_key (grantable p))) Error.not_found

abbrev pub new_grant : ℕ → String → CreateSharingGrantParams → ContactPublicKey → SharingGrant
new_grant now id p key = record {
  id = id;
  owner_account_id = p.owner_account_id;
  incident_id = p.incident_id;
  stream_id = p.stream_id;
  recipient_type = p.recipient_type;
  contact_id = key.contact_id;
  contact_public_key_id = key.id;
  contact_public_key_version = key.version;
  data_class = p.data_class;
  grant_state = GrantState.active;
  created_at = now;
  updated_at = now;
  expires_at = p.expires_at;
  revoked_at = none;
  revoked_by_account_id = "";
}

unfoldable pub grant_row_ok : SharingGrant → Db → Bool
grant_row_ok r d =
    not (any_row (λ (x : SharingGrant). x.id == r.id) d.sharing_grants)
    && has_account r.owner_account_id d
    && valid_sharing_grant_recipient_type r.recipient_type
    && not (eqb r.contact_public_key_version 0)
    && valid_sharing_grant_data_class r.data_class

abbrev pub grant_event :
    AuditAction → AuditOutcome → String → SharingGrant → SharingAuditEventParams
grant_event action outcome actor g = record {
  owner_account_id = g.owner_account_id;
  actor_account_id = actor;
  action = action;
  outcome_category = outcome;
  incident_id = g.incident_id;
  stream_id = g.stream_id;
  grant_id = g.id;
  contact_id = g.contact_id;
  contact_public_key_id = g.contact_public_key_id;
  wrapped_key_id = "";
  deletion_decision_id = "";
}

unfoldable pub create_sharing_grant :
    ℕ → String → String → CreateSharingGrantParams → Tx SharingGrant
unfolding require_owned_active_incident require_incident_stream active_key_for_grant
    create_sharing_audit_event
create_sharing_grant now id audit_id p = do
  require_owned_active_incident p.owner_account_id p.incident_id
  require_incident_stream p.incident_id p.stream_id
  key ← active_key_for_grant p
  let grant = new_grant now id p key
  row_ok ← reads (grant_row_ok grant)
  fail_if (not row_ok) Error.not_found
  writes (λ d. record d { sharing_grants = d.sharing_grants ++ grant ∷ [] })
  create_sharing_audit_event now audit_id
      (grant_event AuditAction.sharing_grant_created AuditOutcome.created p.owner_account_id grant)
  pure grant

abbrev pub owned_grant : String → String → SharingGrant → Bool
owned_grant owner id r = r.owner_account_id == owner && r.id == id

abbrev pub oldest_grant_first : SharingGrant → SharingGrant → Bool
oldest_grant_first a b =
    if not (eqb a.created_at b.created_at)
    then db_time_le a.created_at b.created_at
    else text_le a.id b.id

unfoldable pub list_sharing_grants : String → String → Tx (List SharingGrant)
list_sharing_grants owner incident = reads (λ d.
    order_by oldest_grant_first
      (select (λ r. r.owner_account_id == owner && r.incident_id == incident) d.sharing_grants))

unfoldable pub get_sharing_grant : String → String → Tx SharingGrant
get_sharing_grant owner id = do
  or_fail (← reads (λ d. find_row (owned_grant owner id) d.sharing_grants)) Error.not_found

abbrev pub revocable_grant : String → String → SharingGrant → Bool
revocable_grant owner id r = owned_grant owner id r && not (is_some r.revoked_at)

abbrev pub revoked_grant_row : ℕ → String → SharingGrant → SharingGrant
revoked_grant_row now by r = record r {
  grant_state = GrantState.revoked;
  updated_at = now;
  revoked_at = some now;
  revoked_by_account_id = by;
}

unfoldable pub revoke_sharing_grant : ℕ → String → String → String → String → Tx SharingGrant
unfolding get_sharing_grant create_sharing_audit_event
revoke_sharing_grant now audit_id owner id by = do
  affected ← reads (λ d. any_row (revocable_grant owner id) d.sharing_grants)
  fail_if (not affected) Error.not_found
  by_ok ← reads (λ d. by == "" || has_account by d)
  fail_if (not by_ok) Error.database
  writes (λ d. record d {
    sharing_grants =
        update_where (revocable_grant owner id) (revoked_grant_row now by) d.sharing_grants;
  })
  grant ← get_sharing_grant owner id
  create_sharing_audit_event now audit_id (
      grant_event AuditAction.sharing_grant_revoked AuditOutcome.revoked by
        (record grant { owner_account_id = owner }))
  pure grant
