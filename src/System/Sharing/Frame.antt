-- ===== src/System/Sharing/Frame.antt =====
-- What the calls on incidents leave alone of the tables of sharing.
use safety_recorder.System.Pruned.Run.{completed_needs_decision}
use safety_recorder.System.Frame.{request-frame}
use safety_recorder.Repository.Deletion.Request.{request_incident_deletion}
use safety_recorder.Repository.Incidents.{close_incident, create_incident_for_account}
use safety_recorder.Repository.Streams.{
  complete_media_stream, create_media_stream, fail_media_stream,
}
use safety_recorder.Repository.Chunks.{create_chunk}
use safety_recorder.Repository.Checkins.{create_checkin}
use safety_recorder.Repository.Tokens.{create_incident_token, revoke_incident_token}
use safety_recorder.Repository.Uploads.{complete_upload_operation, reserve_upload_operation}
use safety_recorder.Repository.Deletion.Process.{
  complete_incident_deletion, fail_incident_deletion, mark_incident_deletion_deleting,
  mark_incident_deletion_item_deleted, mark_incident_deletion_item_failed, find_decision,
}
use safety_recorder.Base.{
  ℕ, String, ◌≡◌, arith, ◌==◌, delete_where, Option, ◌⊎◌, inr, inl, some, Option-cases,
}
use safety_recorder.Model.{
  Db, after, SharingGrant, WrappedKeyRecord, IncidentDeletionRequest, CreateCheckinParams,
  CreateChunkParams, CreateIncidentParams, IncidentDeletionStatus, MediaType, UploadOperationParams,
  Chunk, Result-cases, ok,
}

pub record SameSharing (d e : Db) : Type 0 where
  pub contact_public_keys : e.contact_public_keys ≡ d.contact_public_keys
  pub sharing_grants : e.sharing_grants ≡ d.sharing_grants
  pub wrapped_key_records : e.wrapped_key_records ≡ d.wrapped_key_records

-- A deletion that completes removes grants and wrapped keys, of some incident, and no more.
pub record RemovesSharing (incident : String) (d e : Db) : Type 0 where
  pub contact_public_keys : e.contact_public_keys ≡ d.contact_public_keys
  pub sharing_grants :
      e.sharing_grants
      ≡ delete_where (λ (r : SharingGrant). r.incident_id == incident) d.sharing_grants
  pub wrapped_key_records :
      e.wrapped_key_records
      ≡ delete_where (λ (r : WrappedKeyRecord). r.incident_id == incident) d.wrapped_key_records

module _ (hash : String → String) (d : Db) where
  pub create_incident-SameSharing :
      (now : ℕ) (id account : String) (p : CreateIncidentParams)
      → SameSharing d (after d (create_incident_for_account now id account p d))
  unfolding create_incident_for_account
  create_incident-SameSharing now id account p = ground arith

  pub close-SameSharing :
      (now : ℕ) (id : String) → SameSharing d (after d (close_incident now id d))
  unfolding close_incident
  close-SameSharing now id = ground arith

  pub create_stream-SameSharing :
      (now : ℕ) (id i : String) (m : MediaType) (label : String)
      → SameSharing d (after d (create_media_stream now id i m label d))
  unfolding create_media_stream
  create_stream-SameSharing now id i m label = ground arith

  pub complete_stream-SameSharing :
      (now : ℕ) (i k : String) (n : ℕ) → SameSharing d (after d (complete_media_stream now i k n d))
  unfolding complete_media_stream
  complete_stream-SameSharing now i k n = ground arith

  pub fail_stream-SameSharing :
      (now : ℕ) (i k reason : String) → SameSharing d (after d (fail_media_stream now i k reason d))
  unfolding fail_media_stream
  fail_stream-SameSharing now i k reason = ground arith

  pub add_chunk-SameSharing :
      (now : ℕ) (id : String) (p : CreateChunkParams)
      → SameSharing d (after d (create_chunk now id p d))
  unfolding create_chunk
  add_chunk-SameSharing now id p = ground arith

  pub add_checkin-SameSharing :
      (now : ℕ) (id i : String) (p : CreateCheckinParams)
      → SameSharing d (after d (create_checkin now id i p d))
  unfolding create_checkin
  add_checkin-SameSharing now id i p = ground arith

  pub create_token-SameSharing :
      (now : ℕ) (id raw i label : String) (expires : Option ℕ)
      → SameSharing d (after d (create_incident_token hash now id raw i label expires d))
  unfolding create_incident_token
  create_token-SameSharing now id raw i label expires = ground arith

  pub revoke_token-SameSharing :
      (now : ℕ) (id : String) → SameSharing d (after d (revoke_incident_token now id d))
  unfolding revoke_incident_token
  revoke_token-SameSharing now id = ground arith

  pub reserve_upload-SameSharing :
      (now : ℕ) (id : String) (p : UploadOperationParams)
      → SameSharing d (after d (reserve_upload_operation now id p d))
  unfolding reserve_upload_operation
  reserve_upload-SameSharing now id p = ground arith

  pub complete_upload-SameSharing :
      (now : ℕ) (p : UploadOperationParams) (c : Chunk)
      → SameSharing d (after d (complete_upload_operation now p c d))
  unfolding complete_upload_operation
  complete_upload-SameSharing now p c = ground arith

  pub request_deletion-SameSharing :
      (now : ℕ) (id : String) (ids : ℕ → String) (p : IncidentDeletionRequest)
      → SameSharing d (after d (request_incident_deletion now id ids p d))
  request_deletion-SameSharing now id ids p = ground (arith, (request-frame now id ids p d).0)

  pub claim_deletion-SameSharing :
      (now : ℕ) (id : String) (stale : ℕ)
      → SameSharing d (after d (mark_incident_deletion_deleting now id stale d))
  unfolding mark_incident_deletion_deleting
  claim_deletion-SameSharing now id stale = ground arith

  pub item_deleted-SameSharing :
      (now : ℕ) (id : String)
      → SameSharing d (after d (mark_incident_deletion_item_deleted now id d))
  unfolding mark_incident_deletion_item_deleted
  item_deleted-SameSharing now id = ground arith

  pub item_failed-SameSharing :
      (now : ℕ) (id code : String)
      → SameSharing d (after d (mark_incident_deletion_item_failed now id code d))
  unfolding mark_incident_deletion_item_failed
  item_failed-SameSharing now id code = ground arith

  pub fail_deletion-SameSharing :
      (now : ℕ) (id code : String) → SameSharing d (after d (fail_incident_deletion now id code d))
  unfolding fail_incident_deletion
  fail_deletion-SameSharing now id code = ground arith

completed-RemovesSharing :
    (d d' : Db) (now : ℕ) (audit id : String) (status x : IncidentDeletionStatus)
    → complete_incident_deletion now audit id d ≡ ok (status, d')
    → find_decision id d ≡ some x
    → RemovesSharing x.incident_id d d'
unfolding complete_incident_deletion
completed-RemovesSharing d d' now audit id status x e f = ground arith

-- A deletion that fails changes nothing.
pub complete_deletion-frame :
    (d : Db) (now : ℕ) (audit id : String)
    → let e = after d (complete_incident_deletion now audit id d) in
      SameSharing d e ⊎ ((i : String) × RemovesSharing i d e)
complete_deletion-frame d now audit id =
    elim (Result-cases (complete_incident_deletion now audit id d)) [
      | inr (x, e) ↦ rw e (inl (ground arith))
      | inl ((status, d'), e) ↦ rw e (elim (Option-cases (find_decision id d)) [
        | inl f ↦ absurd (completed_needs_decision d d' now audit id status e f)
        | inr (x, f) ↦ inr (x.incident_id, completed-RemovesSharing d d' now audit id status x e f)
      ])
    ]
