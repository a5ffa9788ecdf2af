-- ===== src/Repository/Audit.antt =====
-- internal/incidents/sharing_audit.go: lifecycle events of an account's shared metadata.
use safety_recorder.Base.{ℕ, String, not, ◌||◌, [], ◌∷◌, ◌++◌, ◌==◌, if◌then◌else◌, any_row}
use safety_recorder.Model.{
  SharingAuditEvent, SharingAuditEventParams, Error, Tx, pure, reads, fail_if, writes, ◌>>=◌, ◌>>◌,
}

abbrev pub new_event : ℕ → String → SharingAuditEventParams → SharingAuditEvent
new_event now id p = record {
  id = id;
  owner_account_id = p.owner_account_id;
  actor_account_id = p.actor_account_id;
  action = p.action;
  outcome_category = p.outcome_category;
  incident_id = p.incident_id;
  stream_id = p.stream_id;
  grant_id = p.grant_id;
  contact_id = p.contact_id;
  contact_public_key_id = p.contact_public_key_id;
  wrapped_key_id = p.wrapped_key_id;
  deletion_decision_id = p.deletion_decision_id;
  created_at = now;
}

unfoldable pub create_sharing_audit_event :
    ℕ → String → SharingAuditEventParams → Tx SharingAuditEvent
create_sharing_audit_event now id p = do
  fail_if (p.owner_account_id == "" || p.actor_account_id == "") Error.invalid_state
  taken ← reads (λ d. any_row (λ (x : SharingAuditEvent). x.id == id) d.sharing_audit_events)
  fail_if taken Error.database
  writes
      (λ d. record d { sharing_audit_events = d.sharing_audit_events ++ new_event now id p ∷ [] })
  pure (new_event now id p)

unfoldable pub sharing_audit_actor_account_id : String → String → String
sharing_audit_actor_account_id actor owner = if not (actor == "") then actor else owner
