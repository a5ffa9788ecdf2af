-- ===== src/Model/Contacts.antt =====
-- The data of internal/incidents/trusted_contact_relationships_models.go and
-- account_recipient_keys_models.go.
use safety_recorder.Base.{ℕ, String, Bool, true, false, Option, ◌==◌, ◌||◌}
use safety_recorder.Model.Sharing.{KeyState}

pub data RelationshipState : Type 0 where
  pending_invite active declined revoked replaced : RelationshipState

abbrev pub is_pending_invite : RelationshipState → Bool
is_pending_invite RelationshipState.pending_invite = true
is_pending_invite _ = false

abbrev pub is_relationship_active : RelationshipState → Bool
is_relationship_active RelationshipState.active = true
is_relationship_active _ = false

abbrev pub is_relationship_revoked : RelationshipState → Bool
is_relationship_revoked RelationshipState.revoked = true
is_relationship_revoked _ = false

abbrev pub terminal_trusted_contact_relationship_state : RelationshipState → Bool
terminal_trusted_contact_relationship_state RelationshipState.pending_invite = false
terminal_trusted_contact_relationship_state RelationshipState.active = false
terminal_trusted_contact_relationship_state _ = true

abbrev pub role_trusted_contact : String
role_trusted_contact = "trusted_contact"

abbrev pub valid_trusted_contact_relationship_role : String → Bool
valid_trusted_contact_relationship_role role = role == role_trusted_contact

pub record TrustedContactRelationship : Type 0 where
  pub id : String
  pub owner_account_id : String
  pub recipient_account_id : String
  pub relationship_role : String
  pub relationship_state : RelationshipState
  pub display_label : String
  pub created_at : ℕ
  pub updated_at : ℕ
  pub invited_at : ℕ
  pub accepted_at : Option ℕ
  pub declined_at : Option ℕ
  pub revoked_at : Option ℕ
  pub revoked_by_account_id : String
  pub replaced_at : Option ℕ
  pub replaced_by_relationship_id : String

pub record CreateTrustedContactRelationshipParams : Type 0 where
  pub owner_account_id : String
  pub recipient_account_id : String
  pub relationship_role : String
  pub display_label : String

pub record ReplaceTrustedContactRelationshipParams : Type 0 where
  pub owner_account_id : String
  pub relationship_id : String
  pub recipient_account_id : String
  pub relationship_role : String
  pub display_label : String

abbrev pub valid_account_recipient_type : String → Bool
valid_account_recipient_type s = s == "account" || s == "device"

abbrev pub valid_account_recipient_key_state : KeyState → Bool
valid_account_recipient_key_state (KeyState.unknown s) = false
valid_account_recipient_key_state _ = true

abbrev pub terminal_account_recipient_key_state : KeyState → Bool
terminal_account_recipient_key_state KeyState.replaced = true
terminal_account_recipient_key_state KeyState.revoked = true
terminal_account_recipient_key_state KeyState.lost = true
terminal_account_recipient_key_state _ = false

pub record AccountRecipientKey : Type 0 where
  pub id : String
  pub owner_account_id : String
  pub recipient_id : String
  pub recipient_type : String
  pub key_id : String
  pub version : ℕ
  pub display_label : String
  pub scheme : String
  pub suite_id : String
  pub public_key : String
  pub public_key_fingerprint : String
  pub key_state : KeyState
  pub created_at : ℕ
  pub updated_at : ℕ
  pub revoked_at : Option ℕ
  pub replaced_at : Option ℕ
  pub lost_at : Option ℕ
  pub replaced_by_recipient_key_id : String

pub record CreateAccountRecipientKeyParams : Type 0 where
  pub owner_account_id : String
  pub recipient_id : String
  pub recipient_type : String
  pub key_id : String
  pub display_label : String
  pub scheme : String
  pub suite_id : String
  pub public_key : String
  pub public_key_fingerprint : String
  pub key_state : KeyState

pub record UpdateAccountRecipientKeyParams : Type 0 where
  pub owner_account_id : String
  pub recipient_key_id : String
  pub display_label : Option String
  pub key_state : Option KeyState

pub record ReplaceAccountRecipientKeyParams : Type 0 where
  pub owner_account_id : String
  pub recipient_key_id : String
  pub key_id : String
  pub display_label : String
  pub scheme : String
  pub suite_id : String
  pub public_key : String
  pub public_key_fingerprint : String
  pub key_state : KeyState
