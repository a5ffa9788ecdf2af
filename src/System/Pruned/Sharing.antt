-- ===== src/System/Pruned/Sharing.antt =====
-- The calls of sharing keep an inactive incident without child rows.
use safety_recorder.Repository.Sharing.ContactKeys.{newest_key}
use safety_recorder.Repository.Sharing.WrappedKeys.{
  create_wrapped_key_record, revoke_wrapped_key_record, revocable_wrapped, revoked_wrapped_row,
  wrapping_grant, new_wrapped_key,
}
use safety_recorder.System.Pruned.Defs.{IsPruned}
use safety_recorder.Repository.Sharing.Frame.{
  SameButContacts, SameButKeys, SameEvidence, create_key-SameButKeys, update_key-SameButKeys,
  replace_key-SameButKeys, end_key-SameButKeys, invite-SameButContacts, answer-SameButContacts,
  revoke_relationship-SameButContacts, replace_relationship-SameButContacts,
  create_recipient_key-SameButContacts, update_recipient_key-SameButContacts,
  end_recipient-SameButContacts, replace_recipient_key-SameButContacts,
}
use safety_recorder.System.Inactive.Defs.{inactive_in, active_row}
use safety_recorder.Repository.Sharing.Calls.{share, SharingCall}
use safety_recorder.Repository.Sharing.Grants.{
  create_sharing_grant, revoke_sharing_grant, owned_active, grantable, new_grant, revocable_grant,
  revoked_grant_row,
}
use safety_recorder.Base.{
  [], ◌∷◌, ◌∙◌, ℕ, String, ◌≡◌, true, false, arith, ◌==◌, any_row, refl, List, Bool-cases,
  any_row-update_where, ap, Option-cases, inr, find_row, inl, any_row-append, eq_of_==,
}
use safety_recorder.Model.{
  Db, after, SharingGrant, WrappedKeyRecord, Incident, CreateSharingGrantParams,
  CreateWrappedKeyRecordParams, MediaStream, Chunk, Checkin, IncidentToken, UploadOperation,
}

-- An incident that a grant or a wrapped key is made for is active.
owned_active-ne :
    (owner i j : String) (l : List Incident)
    → any_row (owned_active owner j) l ≡ true
    → any_row (active_row j) l ≡ true
unfolding any_row
owned_active-ne owner i j [] h = h
owned_active-ne owner i j (x ∷ l) h = ground (arith, owned_active-ne owner i j l)

inactive-ne :
    (owner i j : String) (l : List Incident)
    → inactive_in i l ≡ true
    → any_row (owned_active owner j) l ≡ true
    → (j == i) ≡ false
inactive-ne owner i j l h a = elim (Bool-cases (j == i)) [
  | inr n ↦ n
  | inl e ↦
      ground
        (arith, owned_active-ne owner i j l a, ap (λ s. any_row (active_row s) l) (eq_of_== j i e))
]

same-IsPruned :
    (i : String) (d e : Db)
    → SameEvidence d e
    → e.sharing_grants ≡ d.sharing_grants
    → e.wrapped_key_records ≡ d.wrapped_key_records
    → IsPruned i d
    → IsPruned i e
same-IsPruned i d e s g w v = record {
  streams = ap (any_row (λ (r : MediaStream). r.incident_id == i)) s.media_streams ∙ v.streams;
  chunks = ap (any_row (λ (r : Chunk). r.incident_id == i)) s.chunks ∙ v.chunks;
  checkins = ap (any_row (λ (r : Checkin). r.incident_id == i)) s.checkins ∙ v.checkins;
  tokens = ap (any_row (λ (r : IncidentToken). r.incident_id == i)) s.incident_tokens ∙ v.tokens;
  uploads =
      ap (any_row (λ (r : UploadOperation). r.incident_id == i)) s.upload_operations ∙ v.uploads;
  grants = ap (any_row (λ (r : SharingGrant). r.incident_id == i)) g ∙ v.grants;
  wrapped_keys = ap (any_row (λ (r : WrappedKeyRecord). r.incident_id == i)) w ∙ v.wrapped_keys;
}

module _ (d : Db) (i : String) (h : inactive_in i d.incidents ≡ true) (v : IsPruned i d) where
  create_grant-IsPruned :
      (now : ℕ) (id audit : String) (p : CreateSharingGrantParams)
      → IsPruned i (after d (create_sharing_grant now id audit p d))
  unfolding create_sharing_grant
  create_grant-IsPruned now id audit p = elim (Option-cases (newest_key (grantable p) d)) [
    | inl e ↦ ground arith
    | inr (key, e) ↦ ground (
      arith,
      inactive-ne p.owner_account_id i p.incident_id d.incidents h,
      any_row-append (λ (r : SharingGrant). r.incident_id == i) d.sharing_grants
          (new_grant now id p key),
    )
  ]

  revoke_grant-IsPruned :
      (now : ℕ) (audit owner id by : String)
      → IsPruned i (after d (revoke_sharing_grant now audit owner id by d))
  unfolding revoke_sharing_grant
  revoke_grant-IsPruned now audit owner id by = ground (
    arith,
    any_row-update_where (λ (r : SharingGrant). r.incident_id == i) (revocable_grant owner id)
        (revoked_grant_row now by) (λ x. refl) d.sharing_grants,
  )

  create_wrapped-IsPruned :
      (checked now : ℕ) (id audit : String) (p : CreateWrappedKeyRecordParams)
      → IsPruned i (after d (create_wrapped_key_record checked now id audit p d))
  unfolding create_wrapped_key_record
  create_wrapped-IsPruned checked now id audit p =
      elim (Option-cases (find_row (wrapping_grant checked p) d.sharing_grants)) [
        | inl e ↦ ground arith
        | inr (grant, e) ↦ ground (
          arith,
          inactive-ne p.owner_account_id i p.incident_id d.incidents h,
          any_row-append (λ (r : WrappedKeyRecord). r.incident_id == i) d.wrapped_key_records
              (new_wrapped_key now id p grant),
        )
      ]

  revoke_wrapped-IsPruned :
      (now : ℕ) (audit owner id by : String)
      → IsPruned i (after d (revoke_wrapped_key_record now audit owner id by d))
  unfolding revoke_wrapped_key_record
  revoke_wrapped-IsPruned now audit owner id by = ground (
    arith,
    any_row-update_where (λ (r : WrappedKeyRecord). r.incident_id == i) (revocable_wrapped owner id)
        (revoked_wrapped_row now by) (λ x. refl) d.wrapped_key_records,
  )

keys-IsPruned : (i : String) (d e : Db) → SameButKeys d e → IsPruned i d → IsPruned i e
keys-IsPruned i d e s = same-IsPruned i d e s.evidence s.sharing_grants s.wrapped_key_records

contacts-IsPruned : (i : String) (d e : Db) → SameButContacts d e → IsPruned i d → IsPruned i e
contacts-IsPruned i d e s = same-IsPruned i d e s.evidence s.sharing_grants s.wrapped_key_records

pub share-IsPruned :
    (i : String) (c : SharingCall) (d : Db)
    → inactive_in i d.incidents ≡ true
    → IsPruned i d
    → IsPruned i (share c d)
unfolding share
share-IsPruned i (SharingCall.create_key now contact id audit p) d h v =
    keys-IsPruned i d (share (SharingCall.create_key now contact id audit p) d)
      (create_key-SameButKeys d now contact id audit p) v
share-IsPruned i (SharingCall.update_key now p) d h v =
    keys-IsPruned i d (share (SharingCall.update_key now p) d) (update_key-SameButKeys d now p) v
share-IsPruned i (SharingCall.replace_key now at id audit p) d h v =
    keys-IsPruned i d (share (SharingCall.replace_key now at id audit p) d)
      (replace_key-SameButKeys d now at id audit p) v
share-IsPruned i (SharingCall.end_key now audit e owner id) d h v =
    keys-IsPruned i d (share (SharingCall.end_key now audit e owner id) d)
      (end_key-SameButKeys d now audit e owner id) v
share-IsPruned i (SharingCall.create_grant now id audit p) d h v =
    create_grant-IsPruned d i h v now id audit p
share-IsPruned i (SharingCall.revoke_grant now audit owner id by) d h v =
    revoke_grant-IsPruned d i h v now audit owner id by
share-IsPruned i (SharingCall.create_wrapped checked now id audit p) d h v =
    create_wrapped-IsPruned d i h v checked now id audit p
share-IsPruned i (SharingCall.revoke_wrapped now audit owner id by) d h v =
    revoke_wrapped-IsPruned d i h v now audit owner id by
share-IsPruned i (SharingCall.invite now id p) d h v =
    contacts-IsPruned i d (share (SharingCall.invite now id p) d)
      (invite-SameButContacts d now id p) v
share-IsPruned i (SharingCall.answer now a recipient id) d h v =
    contacts-IsPruned i d (share (SharingCall.answer now a recipient id) d)
      (answer-SameButContacts d now a recipient id) v
share-IsPruned i (SharingCall.revoke_relationship now owner id by) d h v =
    contacts-IsPruned i d (share (SharingCall.revoke_relationship now owner id by) d)
      (revoke_relationship-SameButContacts d now owner id by) v
share-IsPruned i (SharingCall.replace_relationship now at id p) d h v =
    contacts-IsPruned i d (share (SharingCall.replace_relationship now at id p) d)
      (replace_relationship-SameButContacts d now at id p) v
share-IsPruned i (SharingCall.create_recipient_key now recipient id p) d h v =
    contacts-IsPruned i d (share (SharingCall.create_recipient_key now recipient id p) d)
      (create_recipient_key-SameButContacts d now recipient id p) v
share-IsPruned i (SharingCall.update_recipient_key now p) d h v =
    contacts-IsPruned i d (share (SharingCall.update_recipient_key now p) d)
      (update_recipient_key-SameButContacts d now p) v
share-IsPruned i (SharingCall.end_recipient now e owner id) d h v =
    contacts-IsPruned i d (share (SharingCall.end_recipient now e owner id) d)
      (end_recipient-SameButContacts d now e owner id) v
share-IsPruned i (SharingCall.replace_recipient_key now at id p) d h v =
    contacts-IsPruned i d (share (SharingCall.replace_recipient_key now at id p) d)
      (replace_recipient_key-SameButContacts d now at id p) v
