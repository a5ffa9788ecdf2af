-- ===== src/Repository/Sharing/Delivery.antt =====
-- internal/incidents/wrapped_keys.go: which wrapped keys are delivered, to the owner and to a
-- trusted contact.
use safety_recorder.Base.{
  ℕ, String, Bool, not, ◌&&◌, List, ◌==◌, if◌then◌else◌, find_row, any_row, select, order_by, eqb,
  text_le,
}
use safety_recorder.DbTime.{db_time_le}
use safety_recorder.Model.{
  Incident, is_active, ContactPublicKey, SharingGrant, is_grant_active, gives_ciphertext,
  WrappedKeyRecord, is_wrapped_active, TrustedContactRelationship, is_relationship_active,
  role_trusted_contact, valid_sharing_grant_recipient_type, Db, Error, Tx, reads, or_fail, ◌>>=◌,
}
use safety_recorder.Repository.Sharing.Grants.{is_key_active}
use safety_recorder.Repository.Sharing.WrappedKeys.{unexpired}

-- The grant that the joins of a record reach, active and not expired.
abbrev pub grant_of : WrappedKeyRecord → SharingGrant → Bool
grant_of w g =
    g.id == w.grant_id
    && (g.owner_account_id == w.owner_account_id
        && (g.incident_id == w.incident_id
            && (g.contact_id == w.contact_id
                && g.contact_public_key_id == w.contact_public_key_id)))

abbrev pub delivering_grant : ℕ → WrappedKeyRecord → SharingGrant → Bool
delivering_grant now w g =
    grant_of w g && (is_grant_active g.grant_state && unexpired now g.expires_at)

abbrev pub key_of : WrappedKeyRecord → ContactPublicKey → Bool
key_of w c = c.id == w.contact_public_key_id && c.owner_account_id == w.owner_account_id

abbrev pub delivering_key : WrappedKeyRecord → ContactPublicKey → Bool
delivering_key w c = key_of w c && is_key_active c.key_state

unfoldable pub is_deliverable : ℕ → Db → WrappedKeyRecord → Bool
is_deliverable now d w =
    is_wrapped_active w.wrapped_key_state
    && (any_row (delivering_grant now w) d.sharing_grants
        && any_row (delivering_key w) d.contact_public_keys)

abbrev pub oldest_wrapped_first : WrappedKeyRecord → WrappedKeyRecord → Bool
oldest_wrapped_first a b =
    if not (eqb a.created_at b.created_at)
    then db_time_le a.created_at b.created_at
    else text_le a.id b.id

unfoldable pub list_wrapped_key_records : ℕ → String → String → Tx (List WrappedKeyRecord)
unfolding is_deliverable
list_wrapped_key_records now owner incident = reads (λ d. order_by oldest_wrapped_first (
    select
      (λ w. w.owner_account_id == owner && (w.incident_id == incident && is_deliverable now d w))
      d.wrapped_key_records))

unfoldable pub get_wrapped_key_record : ℕ → String → String → Tx WrappedKeyRecord
unfolding is_deliverable
get_wrapped_key_record now owner id = do
  or_fail
      (← reads (λ d.
        find_row (λ w. w.owner_account_id == owner && (w.id == id && is_deliverable now d w))
          d.wrapped_key_records))
      Error.not_found

-- The further conditions for a trusted contact.
abbrev pub contact_grant : ℕ → WrappedKeyRecord → SharingGrant → Bool
contact_grant now w g =
    delivering_grant now w g
    && (valid_sharing_grant_recipient_type g.recipient_type && gives_ciphertext g.data_class)

abbrev pub contact_key : String → WrappedKeyRecord → ContactPublicKey → Bool
contact_key recipient w c = delivering_key w c && c.recipient_account_id == recipient

abbrev pub recipient_incident : WrappedKeyRecord → Incident → Bool
recipient_incident w i =
    i.id == w.incident_id
    && (i.owner_account_id == w.owner_account_id && is_active i.deletion_state)

abbrev pub accepted_relationship : String → WrappedKeyRecord → TrustedContactRelationship → Bool
accepted_relationship recipient w r =
    r.owner_account_id == w.owner_account_id
    && (r.recipient_account_id == recipient
        && (r.relationship_role == role_trusted_contact
            && is_relationship_active r.relationship_state))

unfoldable pub is_deliverable_to : ℕ → String → Db → WrappedKeyRecord → Bool
is_deliverable_to now recipient d w =
    is_wrapped_active w.wrapped_key_state
    && (valid_sharing_grant_recipient_type w.recipient_type
        && (any_row (contact_grant now w) d.sharing_grants
            && (any_row (contact_key recipient w) d.contact_public_keys
                && (any_row (recipient_incident w) d.incidents
                    && any_row (accepted_relationship recipient w)
                        d.trusted_contact_relationships))))

unfoldable pub list_trusted_contact_wrapped_key_records :
    ℕ → String → String → Tx (List WrappedKeyRecord)
unfolding is_deliverable_to
list_trusted_contact_wrapped_key_records now recipient incident = reads (λ d.
    order_by oldest_wrapped_first (
      select (λ w. w.incident_id == incident && is_deliverable_to now recipient d w)
        d.wrapped_key_records))

unfoldable pub get_trusted_contact_wrapped_key_record : ℕ → String → String → Tx WrappedKeyRecord
unfolding is_deliverable_to
get_trusted_contact_wrapped_key_record now recipient id = do
  or_fail
      (← reads (λ d.
        find_row (λ w. w.id == id && is_deliverable_to now recipient d w) d.wrapped_key_records))
      Error.not_found
