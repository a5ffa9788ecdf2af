-- ===== src/Model/Sharing.antt =====
-- The data of internal/incidents/sharing_models.go and wrapped_keys_models.go.
use safety_recorder.Base.{ℕ, String, Bool, true, false, Option, ◌==◌}

-- The states of contact keys, and those of account recipient keys, which are the same texts.
-- `unknown` is any other text.
pub data KeyState : Type 0 where
  pending_verification active replaced revoked lost : KeyState
  unknown : String → KeyState

abbrev pub valid_contact_key_state : KeyState → Bool
valid_contact_key_state (KeyState.unknown s) = false
valid_contact_key_state _ = true

abbrev pub terminal_contact_key_state : KeyState → Bool
terminal_contact_key_state KeyState.replaced = true
terminal_contact_key_state KeyState.revoked = true
terminal_contact_key_state KeyState.lost = true
terminal_contact_key_state _ = false

-- Go's `==` on states.
abbrev pub same_key_state : KeyState → KeyState → Bool
same_key_state KeyState.pending_verification KeyState.pending_verification = true
same_key_state KeyState.active KeyState.active = true
same_key_state KeyState.replaced KeyState.replaced = true
same_key_state KeyState.revoked KeyState.revoked = true
same_key_state KeyState.lost KeyState.lost = true
same_key_state (KeyState.unknown s) (KeyState.unknown t) = s == t
same_key_state _ _ = false

pub record ContactPublicKey : Type 0 where
  pub id : String
  pub owner_account_id : String
  pub contact_id : String
  pub recipient_account_id : String
  pub version : ℕ
  pub display_label : String
  pub wrapping_algorithm : String
  pub public_key : String
  pub public_key_fingerprint : String
  pub key_state : KeyState
  pub created_at : ℕ
  pub updated_at : ℕ
  pub revoked_at : Option ℕ
  pub replaced_at : Option ℕ
  pub lost_at : Option ℕ
  pub replaced_by_public_key_id : String

pub record CreateContactPublicKeyParams : Type 0 where
  pub owner_account_id : String
  pub contact_id : String
  pub recipient_account_id : String
  pub display_label : String
  pub wrapping_algorithm : String
  pub public_key : String
  pub public_key_fingerprint : String
  pub key_state : KeyState

pub record UpdateContactPublicKeyParams : Type 0 where
  pub owner_account_id : String
  pub public_key_id : String
  pub display_label : Option String
  pub key_state : Option KeyState

pub record ReplaceContactPublicKeyParams : Type 0 where
  pub owner_account_id : String
  pub public_key_id : String
  pub display_label : String
  pub wrapping_algorithm : String
  pub public_key : String
  pub public_key_fingerprint : String
  pub key_state : KeyState

pub data DataClass : Type 0 where
  metadata ciphertext metadata_ciphertext : DataClass
  unknown : String → DataClass

abbrev pub valid_sharing_grant_data_class : DataClass → Bool
valid_sharing_grant_data_class (DataClass.unknown s) = false
valid_sharing_grant_data_class _ = true

-- Does a grant of the class give the encrypted evidence?
abbrev pub gives_ciphertext : DataClass → Bool
gives_ciphertext DataClass.ciphertext = true
gives_ciphertext DataClass.metadata_ciphertext = true
gives_ciphertext _ = false

abbrev pub valid_sharing_grant_recipient_type : String → Bool
valid_sharing_grant_recipient_type s = s == "trusted_contact"

pub data GrantState : Type 0 where
  active revoked : GrantState

abbrev pub is_grant_active : GrantState → Bool
is_grant_active GrantState.active = true
is_grant_active GrantState.revoked = false

pub record SharingGrant : Type 0 where
  pub id : String
  pub owner_account_id : String
  pub incident_id : String
  pub stream_id : String
  pub recipient_type : String
  pub contact_id : String
  pub contact_public_key_id : String
  pub contact_public_key_version : ℕ
  pub data_class : DataClass
  pub grant_state : GrantState
  pub created_at : ℕ
  pub updated_at : ℕ
  pub expires_at : Option ℕ
  pub revoked_at : Option ℕ
  pub revoked_by_account_id : String

pub record CreateSharingGrantParams : Type 0 where
  pub owner_account_id : String
  pub incident_id : String
  pub stream_id : String
  pub recipient_type : String
  pub contact_id : String
  pub contact_public_key_id : String
  pub data_class : DataClass
  pub expires_at : Option ℕ

pub data WrappedKeyState : Type 0 where
  active revoked rotated : WrappedKeyState

abbrev pub is_wrapped_active : WrappedKeyState → Bool
is_wrapped_active WrappedKeyState.active = true
is_wrapped_active _ = false

pub record WrappedKeyRecord : Type 0 where
  pub id : String
  pub owner_account_id : String
  pub incident_id : String
  pub stream_id : String
  pub grant_id : String
  pub recipient_type : String
  pub contact_id : String
  pub contact_public_key_id : String
  pub contact_public_key_version : ℕ
  pub media_key_id : String
  pub wrapping_algorithm : String
  pub wrapping_algorithm_version : String
  pub wrapped_key_ciphertext : String
  pub public_wrapping_metadata : String
  pub wrapped_key_state : WrappedKeyState
  pub created_at : ℕ
  pub updated_at : ℕ
  pub revoked_at : Option ℕ
  pub revoked_by_account_id : String
  pub rotated_at : Option ℕ

pub record CreateWrappedKeyRecordParams : Type 0 where
  pub owner_account_id : String
  pub incident_id : String
  pub stream_id : String
  pub grant_id : String
  pub media_key_id : String
  pub wrapping_algorithm : String
  pub wrapping_algorithm_version : String
  pub wrapped_key_ciphertext : String
  pub public_wrapping_metadata : String
