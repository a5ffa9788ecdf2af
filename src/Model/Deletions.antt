-- ===== src/Model/Deletions.antt =====
-- Deletion decisions with their items (internal/incidents/models.go), and the audit event that a
-- completed deletion leaves (internal/incidents/sharing_audit_models.go).
use safety_recorder.Base.{ℕ, String, Bool, true, false, Option}
use safety_recorder.Model.Records.{DeletionState}

-- `unknown` is any other text.
pub data DeletionSource : Type 0 where
  account_request admin_request operator_cli retention_policy : DeletionSource
  unknown : String → DeletionSource

pub data ItemState : Type 0 where
  pending deleted failed : ItemState

abbrev pub is_item_deleted : ItemState → Bool
is_item_deleted ItemState.deleted = true
is_item_deleted _ = false

pub record IncidentDeletionRequest : Type 0 where
  pub incident_id : String
  pub source : DeletionSource
  pub reason_code : String
  pub actor_account_id : String
  pub allow_open : Bool
  pub require_owner_id : String
  pub retention_cutoff : Option ℕ

pub record IncidentDeletionStatus : Type 0 where
  pub decision_id : String
  pub incident_id : String
  pub source : DeletionSource
  pub reason_code : String
  pub actor_account_id : String
  pub allow_open : Bool
  pub state : DeletionState
  pub item_count : ℕ
  pub error_code : String
  pub requested_at : ℕ
  pub updated_at : ℕ
  pub started_at : Option ℕ
  pub completed_at : Option ℕ

pub record IncidentDeletionItem : Type 0 where
  pub id : String
  pub decision_id : String
  pub incident_id : String
  pub stored_path : String
  pub state : ItemState
  pub attempts : ℕ
  pub error_code : String
  pub created_at : ℕ
  pub updated_at : ℕ
  pub last_attempt_at : Option ℕ
  pub completed_at : Option ℕ

pub data AuditAction : Type 0 where
  contact_key_registered contact_key_replaced contact_key_revoked contact_key_lost : AuditAction
  sharing_grant_created sharing_grant_revoked wrapped_key_created wrapped_key_revoked : AuditAction
  incident_sharing_metadata_pruned : AuditAction

pub data AuditOutcome : Type 0 where
  created replaced revoked lost deleted : AuditOutcome

pub record SharingAuditEvent : Type 0 where
  pub id : String
  pub owner_account_id : String
  pub actor_account_id : String
  pub action : AuditAction
  pub outcome_category : AuditOutcome
  pub incident_id : String
  pub stream_id : String
  pub grant_id : String
  pub contact_id : String
  pub contact_public_key_id : String
  pub wrapped_key_id : String
  pub deletion_decision_id : String
  pub created_at : ℕ

pub record SharingAuditEventParams : Type 0 where
  pub owner_account_id : String
  pub actor_account_id : String
  pub action : AuditAction
  pub outcome_category : AuditOutcome
  pub incident_id : String
  pub stream_id : String
  pub grant_id : String
  pub contact_id : String
  pub contact_public_key_id : String
  pub wrapped_key_id : String
  pub deletion_decision_id : String
