-- ===== src/System/Pruned/Calls.antt =====
-- Each call keeps an inactive incident without child rows.
use safety_recorder.System.Frame.{request-frame}
use safety_recorder.Repository.Deletion.Request.{request_incident_deletion}
use safety_recorder.Repository.Incidents.{
  close_incident, create_incident_for_account, find_incident,
}
use safety_recorder.Repository.Deletion.Process.{
  complete_incident_deletion, fail_incident_deletion, mark_incident_deletion_deleting,
  mark_incident_deletion_item_deleted, mark_incident_deletion_item_failed, find_decision,
}
use safety_recorder.Repository.Streams.{
  complete_media_stream, create_media_stream, fail_media_stream, open_stream_key, complete_row,
  fail_row, new_stream,
}
use safety_recorder.Repository.Chunks.{create_chunk, new_chunk}
use safety_recorder.Repository.Checkins.{create_checkin, new_checkin}
use safety_recorder.Repository.Uploads.{
  complete_upload_operation, reserve_upload_operation, fingerprint_key, commit_row, new_operation,
}
use safety_recorder.Repository.Tokens.{
  create_incident_token, revoke_incident_token, new_token, revocable, revoke_row,
}
use safety_recorder.System.Pruned.Defs.{IsPruned}
use safety_recorder.System.Inactive.Defs.{inactive_in, active_row, inactive_in-find}
use safety_recorder.Base.{
  ℕ, String, ◌≡◌, refl, List, Option, true, arith, ◌==◌, any_row, Option-cases, any_row-append,
  any_row-update_where, false, ap, eq_of_==, inl, inr, any_row-delete_where,
}
use safety_recorder.Model.{
  Db, Incident, IncidentDeletionRequest, CreateCheckinParams, CreateChunkParams,
  CreateIncidentParams, MediaType, UploadOperationParams, after, Chunk, IncidentToken, MediaStream,
  UploadOperation, Checkin, SharingGrant, WrappedKeyRecord,
}

token_needs_active :
    (i j : String) (l : List Incident)
    → inactive_in i l ≡ true
    → (j == i) ≡ true
    → any_row (active_row j) l ≡ false
token_needs_active i j l h e = ground (arith, ap (λ s. any_row (active_row s) l) (eq_of_== j i e))

module _ (d : Db) (i : String) (h : inactive_in i d.incidents ≡ true) (v : IsPruned i d) where
  pub create_incident-IsPruned :
      (now : ℕ) (id account : String) (p : CreateIncidentParams)
      → IsPruned i (after d (create_incident_for_account now id account p d))
  unfolding create_incident_for_account
  create_incident-IsPruned now id account p = ground arith

  pub close-IsPruned : (now : ℕ) (id : String) → IsPruned i (after d (close_incident now id d))
  unfolding close_incident
  close-IsPruned now id = ground arith

  pub claim-IsPruned :
      (now : ℕ) (id : String) (stale : ℕ)
      → IsPruned i (after d (mark_incident_deletion_deleting now id stale d))
  unfolding mark_incident_deletion_deleting
  claim-IsPruned now id stale = ground arith

  pub item_deleted-IsPruned :
      (now : ℕ) (id : String) → IsPruned i (after d (mark_incident_deletion_item_deleted now id d))
  unfolding mark_incident_deletion_item_deleted
  item_deleted-IsPruned now id = ground arith

  pub item_failed-IsPruned :
      (now : ℕ) (id code : String)
      → IsPruned i (after d (mark_incident_deletion_item_failed now id code d))
  unfolding mark_incident_deletion_item_failed
  item_failed-IsPruned now id code = ground arith

  pub fail_deletion-IsPruned :
      (now : ℕ) (id code : String) → IsPruned i (after d (fail_incident_deletion now id code d))
  unfolding fail_incident_deletion
  fail_deletion-IsPruned now id code = ground arith

  pub create_stream-IsPruned :
      (now : ℕ) (id j : String) (m : MediaType) (label : String)
      → IsPruned i (after d (create_media_stream now id j m label d))
  unfolding create_media_stream
  create_stream-IsPruned now id j m label = elim (Option-cases (find_incident j d)) [
    | inl e ↦ ground arith
    | inr (x, e) ↦ ground (
      arith,
      inactive_in-find i (j) d.incidents x h,
      any_row-append (λ (r : MediaStream). r.incident_id == i) d.media_streams
          (new_stream now id j m label),
    )
  ]

  pub add_chunk-IsPruned :
      (now : ℕ) (id : String) (p : CreateChunkParams)
      → IsPruned i (after d (create_chunk now id p d))
  unfolding create_chunk
  add_chunk-IsPruned now id p = elim (Option-cases (find_incident p.incident_id d)) [
    | inl e ↦ ground arith
    | inr (x, e) ↦ ground (
      arith,
      inactive_in-find i (p.incident_id) d.incidents x h,
      any_row-append (λ (r : Chunk). r.incident_id == i) d.chunks (new_chunk now id p),
    )
  ]

  pub add_checkin-IsPruned :
      (now : ℕ) (id j : String) (p : CreateCheckinParams)
      → IsPruned i (after d (create_checkin now id j p d))
  unfolding create_checkin
  add_checkin-IsPruned now id j p = elim (Option-cases (find_incident j d)) [
    | inl e ↦ ground arith
    | inr (x, e) ↦ ground (
      arith,
      inactive_in-find i (j) d.incidents x h,
      any_row-append (λ (r : Checkin). r.incident_id == i) d.checkins (new_checkin now id j p),
    )
  ]

  pub reserve-IsPruned :
      (now : ℕ) (id : String) (p : UploadOperationParams)
      → IsPruned i (after d (reserve_upload_operation now id p d))
  unfolding reserve_upload_operation
  reserve-IsPruned now id p = elim (Option-cases (find_incident p.incident_id d)) [
    | inl e ↦ ground arith
    | inr (x, e) ↦ ground (
      arith,
      inactive_in-find i (p.incident_id) d.incidents x h,
      any_row-append (λ (r : UploadOperation). r.incident_id == i) d.upload_operations
          (new_operation now id p),
    )
  ]

  pub complete_stream-IsPruned :
      (now : ℕ) (j k : String) (n : ℕ) → IsPruned i (after d (complete_media_stream now j k n d))
  unfolding complete_media_stream
  complete_stream-IsPruned now j k n = ground (
    arith,
    any_row-update_where (λ (r : MediaStream). r.incident_id == i) (open_stream_key j k)
        (complete_row now n) (λ x. refl) d.media_streams,
  )

  pub fail_stream-IsPruned :
      (now : ℕ) (j k reason : String) → IsPruned i (after d (fail_media_stream now j k reason d))
  unfolding fail_media_stream
  fail_stream-IsPruned now j k reason = ground (
    arith,
    any_row-update_where (λ (r : MediaStream). r.incident_id == i) (open_stream_key j k)
        (fail_row now reason) (λ x. refl) d.media_streams,
  )

  pub revoke_token-IsPruned :
      (now : ℕ) (id : String) → IsPruned i (after d (revoke_incident_token now id d))
  unfolding revoke_incident_token
  revoke_token-IsPruned now id = ground (
    arith,
    any_row-update_where (λ (r : IncidentToken). r.incident_id == i) (revocable id) (revoke_row now)
        (λ x. refl) d.incident_tokens,
  )

  pub complete_upload-IsPruned :
      (now : ℕ) (p : UploadOperationParams) (c : Chunk)
      → IsPruned i (after d (complete_upload_operation now p c d))
  unfolding complete_upload_operation
  complete_upload-IsPruned now p c = ground (
    arith,
    any_row-update_where (λ (r : UploadOperation). r.incident_id == i) (fingerprint_key p)
        (commit_row now c) (λ x. refl) d.upload_operations,
  )

  pub create_token-IsPruned :
      (hash : String → String) (now : ℕ) (id raw j label : String) (expires : Option ℕ)
      → IsPruned i (after d (create_incident_token hash now id raw j label expires d))
  unfolding create_incident_token
  create_token-IsPruned hash now id raw j label expires = ground (
    arith,
    token_needs_active i j d.incidents h,
    any_row-append (λ (r : IncidentToken). r.incident_id == i) d.incident_tokens
        (new_token hash now id raw j label expires),
  )

  pub request-IsPruned :
      (now : ℕ) (id : String) (ids : ℕ → String) (p : IncidentDeletionRequest)
      → IsPruned i (after d (request_incident_deletion now id ids p d))
  request-IsPruned now id ids p = ground (arith, (request-frame now id ids p d).0)

  pub complete_deletion-IsPruned :
      (now : ℕ) (audit id : String)
      → IsPruned i (after d (complete_incident_deletion now audit id d))
  unfolding complete_incident_deletion
  complete_deletion-IsPruned now audit id = elim (Option-cases (find_decision id d)) [
    | inl e ↦ ground arith
    | inr (x, e) ↦ ground (
      arith,
      any_row-delete_where (λ (r : MediaStream). r.incident_id == i)
          (λ (r : MediaStream). r.incident_id == x.incident_id) d.media_streams,
      any_row-delete_where (λ (r : Chunk). r.incident_id == i)
          (λ (r : Chunk). r.incident_id == x.incident_id) d.chunks,
      any_row-delete_where (λ (r : Checkin). r.incident_id == i)
          (λ (r : Checkin). r.incident_id == x.incident_id) d.checkins,
      any_row-delete_where (λ (r : IncidentToken). r.incident_id == i)
          (λ (r : IncidentToken). r.incident_id == x.incident_id) d.incident_tokens,
      any_row-delete_where (λ (r : UploadOperation). r.incident_id == i)
          (λ (r : UploadOperation). r.incident_id == x.incident_id) d.upload_operations,
      any_row-delete_where (λ (r : SharingGrant). r.incident_id == i)
          (λ (r : SharingGrant). r.incident_id == x.incident_id) d.sharing_grants,
      any_row-delete_where (λ (r : WrappedKeyRecord). r.incident_id == i)
          (λ (r : WrappedKeyRecord). r.incident_id == x.incident_id) d.wrapped_key_records,
    )
  ]
