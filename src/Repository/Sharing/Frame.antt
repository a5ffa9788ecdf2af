-- ===== src/Repository/Sharing/Frame.antt =====
-- What the calls of sharing leave alone: the incidents with what is recorded of them, and the tables
-- of sharing that are not theirs.
use safety_recorder.Repository.Sharing.ContactKeys.{
  create_contact_public_key, create_first_key, create_next_key, create_key_version,
}
use safety_recorder.Repository.Sharing.KeyStates.{
  replace_contact_public_key, set_contact_key_terminal_state, update_contact_public_key, KeyEnd,
}
use safety_recorder.Repository.Sharing.Grants.{create_sharing_grant, revoke_sharing_grant}
use safety_recorder.Repository.Sharing.WrappedKeys.{
  create_wrapped_key_record, revoke_wrapped_key_record,
}
use safety_recorder.Repository.Sharing.Relationships.{
  create_trusted_contact_relationship, replace_trusted_contact_relationship,
  revoke_trusted_contact_relationship, set_recipient_relationship_state, Answer,
}
use safety_recorder.Repository.RecipientKeys.{
  create_account_recipient_key, replace_account_recipient_key,
  set_account_recipient_key_terminal_state, update_account_recipient_key,
}
use safety_recorder.Repository.Sharing.Calls.{share, SharingCall}
use safety_recorder.Base.{ℕ, String, ◌≡◌, arith}
use safety_recorder.Model.{
  Db, after, CreateAccountRecipientKeyParams, CreateContactPublicKeyParams,
  CreateSharingGrantParams, CreateTrustedContactRelationshipParams, CreateWrappedKeyRecordParams,
  ReplaceAccountRecipientKeyParams, ReplaceContactPublicKeyParams,
  ReplaceTrustedContactRelationshipParams, UpdateAccountRecipientKeyParams,
  UpdateContactPublicKeyParams,
}

-- The tables of incidents, their child rows and their deletions are the same in both.
pub record SameEvidence (d e : Db) : Type 0 where
  pub incidents : e.incidents ≡ d.incidents
  pub media_streams : e.media_streams ≡ d.media_streams
  pub chunks : e.chunks ≡ d.chunks
  pub checkins : e.checkins ≡ d.checkins
  pub incident_tokens : e.incident_tokens ≡ d.incident_tokens
  pub upload_operations : e.upload_operations ≡ d.upload_operations
  pub deletion_decisions : e.deletion_decisions ≡ d.deletion_decisions
  pub deletion_items : e.deletion_items ≡ d.deletion_items

pub record SameButKeys (d e : Db) : Type 0 where
  pub evidence : SameEvidence d e
  pub sharing_grants : e.sharing_grants ≡ d.sharing_grants
  pub wrapped_key_records : e.wrapped_key_records ≡ d.wrapped_key_records

pub record SameButGrants (d e : Db) : Type 0 where
  pub evidence : SameEvidence d e
  pub contact_public_keys : e.contact_public_keys ≡ d.contact_public_keys
  pub wrapped_key_records : e.wrapped_key_records ≡ d.wrapped_key_records

pub record SameButWrapped (d e : Db) : Type 0 where
  pub evidence : SameEvidence d e
  pub contact_public_keys : e.contact_public_keys ≡ d.contact_public_keys
  pub sharing_grants : e.sharing_grants ≡ d.sharing_grants

-- The calls on relationships and on recipient keys.
pub record SameButContacts (d e : Db) : Type 0 where
  pub evidence : SameEvidence d e
  pub contact_public_keys : e.contact_public_keys ≡ d.contact_public_keys
  pub sharing_grants : e.sharing_grants ≡ d.sharing_grants
  pub wrapped_key_records : e.wrapped_key_records ≡ d.wrapped_key_records

module _ (d : Db) where
  create_first-SameButKeys :
      (now : ℕ) (contact id audit : String) (p : CreateContactPublicKeyParams)
      → SameButKeys d (after d (create_first_key now contact id audit p d))
  unfolding create_first_key
  create_first-SameButKeys now contact id audit p = ground arith

  create_next-SameButKeys :
      (now : ℕ) (id audit : String) (p : CreateContactPublicKeyParams)
      → SameButKeys d (after d (create_next_key now id audit p d))
  unfolding create_next_key
  create_next-SameButKeys now id audit p = ground arith

  pub create_key-SameButKeys :
      (now : ℕ) (contact id audit : String) (p : CreateContactPublicKeyParams)
      → SameButKeys d (after d (create_contact_public_key now contact id audit p d))
  unfolding create_contact_public_key create_key_version
  create_key-SameButKeys now contact id audit p = ground (
    arith,
    create_first-SameButKeys now contact id audit p,
    create_next-SameButKeys now id audit p,
  )

  pub update_key-SameButKeys :
      (now : ℕ) (p : UpdateContactPublicKeyParams)
      → SameButKeys d (after d (update_contact_public_key now p d))
  unfolding update_contact_public_key
  update_key-SameButKeys now p = ground arith

  pub replace_key-SameButKeys :
      (now at : ℕ) (id audit : String) (p : ReplaceContactPublicKeyParams)
      → SameButKeys d (after d (replace_contact_public_key now at id audit p d))
  unfolding replace_contact_public_key
  replace_key-SameButKeys now at id audit p = ground arith

  pub end_key-SameButKeys :
      (now : ℕ) (audit : String) (e : KeyEnd) (owner id : String)
      → SameButKeys d (after d (set_contact_key_terminal_state now audit e owner id d))
  unfolding set_contact_key_terminal_state
  end_key-SameButKeys now audit e owner id = ground arith

  pub create_grant-SameButGrants :
      (now : ℕ) (id audit : String) (p : CreateSharingGrantParams)
      → SameButGrants d (after d (create_sharing_grant now id audit p d))
  unfolding create_sharing_grant
  create_grant-SameButGrants now id audit p = ground arith

  pub revoke_grant-SameButGrants :
      (now : ℕ) (audit owner id by : String)
      → SameButGrants d (after d (revoke_sharing_grant now audit owner id by d))
  unfolding revoke_sharing_grant
  revoke_grant-SameButGrants now audit owner id by = ground arith

  pub create_wrapped-SameButWrapped :
      (checked now : ℕ) (id audit : String) (p : CreateWrappedKeyRecordParams)
      → SameButWrapped d (after d (create_wrapped_key_record checked now id audit p d))
  unfolding create_wrapped_key_record
  create_wrapped-SameButWrapped checked now id audit p = ground arith

  pub revoke_wrapped-SameButWrapped :
      (now : ℕ) (audit owner id by : String)
      → SameButWrapped d (after d (revoke_wrapped_key_record now audit owner id by d))
  unfolding revoke_wrapped_key_record
  revoke_wrapped-SameButWrapped now audit owner id by = ground arith

  pub invite-SameButContacts :
      (now : ℕ) (id : String) (p : CreateTrustedContactRelationshipParams)
      → SameButContacts d (after d (create_trusted_contact_relationship now id p d))
  unfolding create_trusted_contact_relationship
  invite-SameButContacts now id p = ground arith

  pub answer-SameButContacts :
      (now : ℕ) (a : Answer) (recipient id : String)
      → SameButContacts d (after d (set_recipient_relationship_state now a recipient id d))
  unfolding set_recipient_relationship_state
  answer-SameButContacts now a recipient id = ground arith

  pub revoke_relationship-SameButContacts :
      (now : ℕ) (owner id by : String)
      → SameButContacts d (after d (revoke_trusted_contact_relationship now owner id by d))
  unfolding revoke_trusted_contact_relationship
  revoke_relationship-SameButContacts now owner id by = ground arith

  pub replace_relationship-SameButContacts :
      (now at : ℕ) (id : String) (p : ReplaceTrustedContactRelationshipParams)
      → SameButContacts d (after d (replace_trusted_contact_relationship now at id p d))
  unfolding replace_trusted_contact_relationship
  replace_relationship-SameButContacts now at id p = ground arith

  pub create_recipient_key-SameButContacts :
      (now : ℕ) (recipient id : String) (p : CreateAccountRecipientKeyParams)
      → SameButContacts d (after d (create_account_recipient_key now recipient id p d))
  unfolding create_account_recipient_key
  create_recipient_key-SameButContacts now recipient id p = ground arith

  pub update_recipient_key-SameButContacts :
      (now : ℕ) (p : UpdateAccountRecipientKeyParams)
      → SameButContacts d (after d (update_account_recipient_key now p d))
  unfolding update_account_recipient_key
  update_recipient_key-SameButContacts now p = ground arith

  pub end_recipient-SameButContacts :
      (now : ℕ) (e : KeyEnd) (owner id : String)
      → SameButContacts d (after d (set_account_recipient_key_terminal_state now e owner id d))
  unfolding set_account_recipient_key_terminal_state
  end_recipient-SameButContacts now e owner id = ground arith

  pub replace_recipient_key-SameButContacts :
      (now at : ℕ) (id : String) (p : ReplaceAccountRecipientKeyParams)
      → SameButContacts d (after d (replace_account_recipient_key now at id p d))
  unfolding replace_account_recipient_key
  replace_recipient_key-SameButContacts now at id p = ground arith

pub share-SameEvidence : (c : SharingCall) (d : Db) → SameEvidence d (share c d)
unfolding share
share-SameEvidence (SharingCall.create_key now contact id audit p) d =
    (create_key-SameButKeys d now contact id audit p).evidence
share-SameEvidence (SharingCall.update_key now p) d = (update_key-SameButKeys d now p).evidence
share-SameEvidence (SharingCall.replace_key now at id audit p) d =
    (replace_key-SameButKeys d now at id audit p).evidence
share-SameEvidence (SharingCall.end_key now audit e owner id) d =
    (end_key-SameButKeys d now audit e owner id).evidence
share-SameEvidence (SharingCall.create_grant now id audit p) d =
    (create_grant-SameButGrants d now id audit p).evidence
share-SameEvidence (SharingCall.revoke_grant now audit owner id by) d =
    (revoke_grant-SameButGrants d now audit owner id by).evidence
share-SameEvidence (SharingCall.create_wrapped checked now id audit p) d =
    (create_wrapped-SameButWrapped d checked now id audit p).evidence
share-SameEvidence (SharingCall.revoke_wrapped now audit owner id by) d =
    (revoke_wrapped-SameButWrapped d now audit owner id by).evidence
share-SameEvidence (SharingCall.invite now id p) d = (invite-SameButContacts d now id p).evidence
share-SameEvidence (SharingCall.answer now a recipient id) d =
    (answer-SameButContacts d now a recipient id).evidence
share-SameEvidence (SharingCall.revoke_relationship now owner id by) d =
    (revoke_relationship-SameButContacts d now owner id by).evidence
share-SameEvidence (SharingCall.replace_relationship now at id p) d =
    (replace_relationship-SameButContacts d now at id p).evidence
share-SameEvidence (SharingCall.create_recipient_key now recipient id p) d =
    (create_recipient_key-SameButContacts d now recipient id p).evidence
share-SameEvidence (SharingCall.update_recipient_key now p) d =
    (update_recipient_key-SameButContacts d now p).evidence
share-SameEvidence (SharingCall.end_recipient now e owner id) d =
    (end_recipient-SameButContacts d now e owner id).evidence
share-SameEvidence (SharingCall.replace_recipient_key now at id p) d =
    (replace_recipient_key-SameButContacts d now at id p).evidence
