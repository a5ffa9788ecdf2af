-- ===== src/Repository/Sharing/WrappedKeys.antt =====
-- internal/incidents/wrapped_keys.go: media keys wrapped for the contact key of a grant.
use safety_recorder.Base.{
  ℕ, String, Bool, true, not, ◌&&◌, ◌||◌, Option, none, some, [], ◌∷◌, ◌++◌, ◌==◌, find_row,
  any_row, update_where, eqb,
}
use safety_recorder.Model.{
  ContactPublicKey, SharingGrant, is_grant_active, gives_ciphertext, WrappedKeyRecord,
  CreateWrappedKeyRecordParams, WrappedKeyState, is_wrapped_active,
  valid_sharing_grant_recipient_type, AuditAction, AuditOutcome, SharingAuditEventParams, Db, Error,
  Tx, pure, reads, or_fail, fail_if, writes, ◌>>=◌, ◌>>◌,
}
use safety_recorder.DbTime.{db_time_le}
use safety_recorder.Repository.Audit.{create_sharing_audit_event}
use safety_recorder.Repository.Constraints.{has_account, length_within}
use safety_recorder.Repository.Sharing.ContactKeys.{owned_key}
use safety_recorder.Repository.Sharing.Grants.{
  require_owned_active_incident, require_incident_stream, is_key_active,
}

-- `expires_at IS NULL OR expires_at > ?`, of stored times.
abbrev pub unexpired : ℕ → Option ℕ → Bool
unexpired now none = true
unexpired now (some t) = not (db_time_le t now)

abbrev pub wrapping_grant : ℕ → CreateWrappedKeyRecordParams → SharingGrant → Bool
wrapping_grant now p r =
    r.owner_account_id == p.owner_account_id
    && (r.incident_id == p.incident_id
        && (r.id == p.grant_id && (is_grant_active r.grant_state && unexpired now r.expires_at)))

abbrev pub active_owned_key : String → String → ContactPublicKey → Bool
active_owned_key owner id r = owned_key owner id r && is_key_active r.key_state

-- `checked_at` is the instant that it compares expiries with.
unfoldable pub active_grant_for_wrapped_key : ℕ → CreateWrappedKeyRecordParams → Tx SharingGrant
active_grant_for_wrapped_key checked_at p = do
  grant ←
      or_fail (← reads (λ d. find_row (wrapping_grant checked_at p) d.sharing_grants))
        Error.not_found
  active ← reads (λ d.
      any_row (active_owned_key p.owner_account_id grant.contact_public_key_id)
        d.contact_public_keys)
  fail_if (not active) Error.not_found
  pure grant

abbrev pub new_wrapped_key :
    ℕ → String → CreateWrappedKeyRecordParams → SharingGrant → WrappedKeyRecord
new_wrapped_key now id p grant = record {
  id = id;
  owner_account_id = p.owner_account_id;
  incident_id = p.incident_id;
  stream_id = p.stream_id;
  grant_id = grant.id;
  recipient_type = grant.recipient_type;
  contact_id = grant.contact_id;
  contact_public_key_id = grant.contact_public_key_id;
  contact_public_key_version = grant.contact_public_key_version;
  media_key_id = p.media_key_id;
  wrapping_algorithm = p.wrapping_algorithm;
  wrapping_algorithm_version = p.wrapping_algorithm_version;
  wrapped_key_ciphertext = p.wrapped_key_ciphertext;
  public_wrapping_metadata = p.public_wrapping_metadata;
  wrapped_key_state = WrappedKeyState.active;
  created_at = now;
  updated_at = now;
  revoked_at = none;
  revoked_by_account_id = "";
  rotated_at = none;
}

-- The unique index of migrations/010_wrapped_key_records.sql.
abbrev pub same_scope : WrappedKeyRecord → WrappedKeyRecord → Bool
same_scope r x =
    x.owner_account_id == r.owner_account_id
    && x.incident_id == r.incident_id
    && x.stream_id == r.stream_id
    && x.grant_id == r.grant_id
    && x.media_key_id == r.media_key_id
    && x.contact_public_key_id == r.contact_public_key_id

unfoldable pub wrapped_key_row_ok : WrappedKeyRecord → Db → Bool
wrapped_key_row_ok r d =
    not (any_row (λ (x : WrappedKeyRecord). x.id == r.id) d.wrapped_key_records)
    && not (any_row (same_scope r) d.wrapped_key_records)
    && has_account r.owner_account_id d
    && valid_sharing_grant_recipient_type r.recipient_type
    && not (eqb r.contact_public_key_version 0)
    && length_within 255 r.media_key_id
    && length_within 80 r.wrapping_algorithm
    && length_within 80 r.wrapping_algorithm_version
    && length_within 16384 r.wrapped_key_ciphertext
    && length_within 4096 r.public_wrapping_metadata

abbrev pub wrapped_event :
    AuditAction → AuditOutcome → String → WrappedKeyRecord → SharingAuditEventParams
wrapped_event action outcome actor w = record {
  owner_account_id = w.owner_account_id;
  actor_account_id = actor;
  action = action;
  outcome_category = outcome;
  incident_id = w.incident_id;
  stream_id = w.stream_id;
  grant_id = w.grant_id;
  contact_id = w.contact_id;
  contact_public_key_id = w.contact_public_key_id;
  wrapped_key_id = w.id;
  deletion_decision_id = "";
}

unfoldable pub create_wrapped_key_record :
    ℕ → ℕ → String → String → CreateWrappedKeyRecordParams → Tx WrappedKeyRecord
unfolding require_owned_active_incident require_incident_stream active_grant_for_wrapped_key
    create_sharing_audit_event
create_wrapped_key_record checked_at now id audit_id p = do
  require_owned_active_incident p.owner_account_id p.incident_id
  require_incident_stream p.incident_id p.stream_id
  grant ← active_grant_for_wrapped_key checked_at p
  fail_if (not (gives_ciphertext grant.data_class)) Error.invalid_state
  fail_if (not (grant.stream_id == "") && not (grant.stream_id == p.stream_id)) Error.not_found
  let wrapped = new_wrapped_key now id p grant
  row_ok ← reads (wrapped_key_row_ok wrapped)
  fail_if (not row_ok) Error.duplicate
  writes (λ d. record d { wrapped_key_records = d.wrapped_key_records ++ wrapped ∷ [] })
  create_sharing_audit_event now audit_id (
      wrapped_event AuditAction.wrapped_key_created AuditOutcome.created p.owner_account_id wrapped)
  pure wrapped

abbrev pub owned_wrapped : String → String → WrappedKeyRecord → Bool
owned_wrapped owner id r = r.owner_account_id == owner && r.id == id

unfoldable pub get_wrapped_key_for_owner : String → String → Tx WrappedKeyRecord
get_wrapped_key_for_owner owner id = do
  or_fail (← reads (λ d. find_row (owned_wrapped owner id) d.wrapped_key_records)) Error.not_found

abbrev pub revocable_wrapped : String → String → WrappedKeyRecord → Bool
revocable_wrapped owner id r = owned_wrapped owner id r && is_wrapped_active r.wrapped_key_state

abbrev pub revoked_wrapped_row : ℕ → String → WrappedKeyRecord → WrappedKeyRecord
revoked_wrapped_row now by r = record r {
  wrapped_key_state = WrappedKeyState.revoked;
  updated_at = now;
  revoked_at = some now;
  revoked_by_account_id = by;
}

unfoldable pub revoke_wrapped_key_record :
    ℕ → String → String → String → String → Tx WrappedKeyRecord
unfolding get_wrapped_key_for_owner create_sharing_audit_event
revoke_wrapped_key_record now audit_id owner id by = do
  affected ← reads (λ d. any_row (revocable_wrapped owner id) d.wrapped_key_records)
  fail_if (not affected) Error.not_found
  by_ok ← reads (λ d. by == "" || has_account by d)
  fail_if (not by_ok) Error.database
  writes (λ d. record d {
    wrapped_key_records =
        update_where (revocable_wrapped owner id) (revoked_wrapped_row now by)
          d.wrapped_key_records;
  })
  wrapped ← get_wrapped_key_for_owner owner id
  create_sharing_audit_event now audit_id (
      wrapped_event AuditAction.wrapped_key_revoked AuditOutcome.revoked by
        (record wrapped { owner_account_id = owner }))
  pure wrapped
