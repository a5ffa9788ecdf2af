-- ===== src/Repository/Sharing/Calls.antt =====
-- The writing calls of sharing and of recipient keys, with their arguments: first the instants and
-- the identifiers that are drawn.
use safety_recorder.Repository.RecipientKeys.{
  create_account_recipient_key, update_account_recipient_key,
  set_account_recipient_key_terminal_state, replace_account_recipient_key,
}
use safety_recorder.Repository.Sharing.WrappedKeys.{
  create_wrapped_key_record, revoke_wrapped_key_record,
}
use safety_recorder.Repository.Sharing.Grants.{create_sharing_grant, revoke_sharing_grant}
use safety_recorder.Repository.Sharing.Relationships.{
  Answer, create_trusted_contact_relationship, set_recipient_relationship_state,
  revoke_trusted_contact_relationship, replace_trusted_contact_relationship,
}
use safety_recorder.Repository.Sharing.KeyStates.{
  KeyEnd, update_contact_public_key, replace_contact_public_key, set_contact_key_terminal_state,
}
use safety_recorder.Repository.Sharing.ContactKeys.{create_contact_public_key}
use safety_recorder.Base.{ℕ, String}
use safety_recorder.Model.{
  CreateContactPublicKeyParams, UpdateContactPublicKeyParams, ReplaceContactPublicKeyParams,
  CreateSharingGrantParams, CreateWrappedKeyRecordParams, CreateTrustedContactRelationshipParams,
  ReplaceTrustedContactRelationshipParams, CreateAccountRecipientKeyParams,
  UpdateAccountRecipientKeyParams, ReplaceAccountRecipientKeyParams, Db, after,
}

pub data SharingCall : Type 0 where
  create_key : ℕ → String → String → String → CreateContactPublicKeyParams → SharingCall
  update_key : ℕ → UpdateContactPublicKeyParams → SharingCall
  replace_key : ℕ → ℕ → String → String → ReplaceContactPublicKeyParams → SharingCall
  end_key : ℕ → String → KeyEnd → String → String → SharingCall
  create_grant : ℕ → String → String → CreateSharingGrantParams → SharingCall
  revoke_grant : ℕ → String → String → String → String → SharingCall
  create_wrapped : ℕ → ℕ → String → String → CreateWrappedKeyRecordParams → SharingCall
  revoke_wrapped : ℕ → String → String → String → String → SharingCall
  invite : ℕ → String → CreateTrustedContactRelationshipParams → SharingCall
  answer : ℕ → Answer → String → String → SharingCall
  revoke_relationship : ℕ → String → String → String → SharingCall
  replace_relationship : ℕ → ℕ → String → ReplaceTrustedContactRelationshipParams → SharingCall
  create_recipient_key : ℕ → String → String → CreateAccountRecipientKeyParams → SharingCall
  update_recipient_key : ℕ → UpdateAccountRecipientKeyParams → SharingCall
  end_recipient : ℕ → KeyEnd → String → String → SharingCall
  replace_recipient_key : ℕ → ℕ → String → ReplaceAccountRecipientKeyParams → SharingCall

-- The database after a call.
unfoldable pub share : SharingCall → Db → Db
share (create_key now contact id audit p) d =
    after d (create_contact_public_key now contact id audit p d)
share (update_key now p) d = after d (update_contact_public_key now p d)
share (replace_key now at id audit p) d = after d (replace_contact_public_key now at id audit p d)
share (end_key now audit e owner id) d =
    after d (set_contact_key_terminal_state now audit e owner id d)
share (create_grant now id audit p) d = after d (create_sharing_grant now id audit p d)
share (revoke_grant now audit owner id by) d =
    after d (revoke_sharing_grant now audit owner id by d)
share (create_wrapped checked now id audit p) d =
    after d (create_wrapped_key_record checked now id audit p d)
share (revoke_wrapped now audit owner id by) d =
    after d (revoke_wrapped_key_record now audit owner id by d)
share (invite now id p) d = after d (create_trusted_contact_relationship now id p d)
share (answer now a recipient id) d =
    after d (set_recipient_relationship_state now a recipient id d)
share (revoke_relationship now owner id by) d =
    after d (revoke_trusted_contact_relationship now owner id by d)
share (replace_relationship now at id p) d =
    after d (replace_trusted_contact_relationship now at id p d)
share (create_recipient_key now recipient id p) d =
    after d (create_account_recipient_key now recipient id p d)
share (update_recipient_key now p) d = after d (update_account_recipient_key now p d)
share (end_recipient now e owner id) d =
    after d (set_account_recipient_key_terminal_state now e owner id d)
share (replace_recipient_key now at id p) d = after d (replace_account_recipient_key now at id p d)
