-- ===== src/System/Frame.antt =====
-- What a repository call leaves alone: the tables of streams and chunks.
use safety_recorder.Repository.Tokens.{create_incident_token, revoke_incident_token}
use safety_recorder.Repository.Deletion.Process.{
  fail_incident_deletion, mark_incident_deletion_deleting, mark_incident_deletion_item_deleted,
  mark_incident_deletion_item_failed,
}
use safety_recorder.Repository.Deletion.Request.{
  insert_items, record_decision, new_item, deletion_stored_paths, new_decision, check_request,
  request_incident_deletion, set_deletion_state,
}
use safety_recorder.Base.{
  ℕ, String, ◌≡◌, arith, List, Option, ◌∷◌, suc, ◌++◌, [], ◌⊎◌, update_where, ◌==◌,
}
use safety_recorder.Model.{
  CreateIncidentParams, CreateCheckinParams, Chunk, UploadOperationParams, Db, after,
  IncidentDeletionRequest, Incident, DeletionState,
}
use safety_recorder.Repository.Incidents.{create_incident_for_account, close_incident}
use safety_recorder.Repository.Checkins.{create_checkin}
use safety_recorder.Repository.Uploads.{reserve_upload_operation, complete_upload_operation}

-- Streams and chunks are the same in both.
abbrev pub SameMedia : Db → Db → Type 0
SameMedia d e = (e.media_streams ≡ d.media_streams) × (e.chunks ≡ d.chunks)

module _ (d : Db) where
  pub create_incident-SameMedia :
      (now : ℕ) (id account : String) (p : CreateIncidentParams)
      → SameMedia d (after d (create_incident_for_account now id account p d))
  unfolding create_incident_for_account
  create_incident-SameMedia now id account p = ground arith

  pub close-SameMedia : (now : ℕ) (id : String) → SameMedia d (after d (close_incident now id d))
  unfolding close_incident
  close-SameMedia now id = ground arith

  pub checkin-SameMedia :
      (now : ℕ) (id i : String) (p : CreateCheckinParams)
      → SameMedia d (after d (create_checkin now id i p d))
  unfolding create_checkin
  checkin-SameMedia now id i p = ground arith

  pub reserve-SameMedia :
      (now : ℕ) (id : String) (p : UploadOperationParams)
      → SameMedia d (after d (reserve_upload_operation now id p d))
  unfolding reserve_upload_operation
  reserve-SameMedia now id p = ground arith

  pub complete_upload-SameMedia :
      (now : ℕ) (p : UploadOperationParams) (c : Chunk)
      → SameMedia d (after d (complete_upload_operation now p c d))
  unfolding complete_upload_operation
  complete_upload-SameMedia now p c = ground arith

  pub token-SameMedia :
      (hash : String → String) (now : ℕ) (id raw i label : String) (expires : Option ℕ)
      → SameMedia d (after d (create_incident_token hash now id raw i label expires d))
  unfolding create_incident_token
  token-SameMedia hash now id raw i label expires = ground arith

  pub revoke-SameMedia :
      (now : ℕ) (id : String) → SameMedia d (after d (revoke_incident_token now id d))
  unfolding revoke_incident_token
  revoke-SameMedia now id = ground arith

  pub claim-SameMedia :
      (now : ℕ) (id : String) (stale : ℕ)
      → SameMedia d (after d (mark_incident_deletion_deleting now id stale d))
  unfolding mark_incident_deletion_deleting
  claim-SameMedia now id stale = ground arith

  pub item_deleted-SameMedia :
      (now : ℕ) (id : String) → SameMedia d (after d (mark_incident_deletion_item_deleted now id d))
  unfolding mark_incident_deletion_item_deleted
  item_deleted-SameMedia now id = ground arith

  pub item_failed-SameMedia :
      (now : ℕ) (id code : String)
      → SameMedia d (after d (mark_incident_deletion_item_failed now id code d))
  unfolding mark_incident_deletion_item_failed
  item_failed-SameMedia now id code = ground arith

  pub fail_deletion-SameMedia :
      (now : ℕ) (id code : String) → SameMedia d (after d (fail_incident_deletion now id code d))
  unfolding fail_incident_deletion
  fail_deletion-SameMedia now id code = ground arith

-- The tables that a request for deletion leaves alone.
pub record SameRest (d e : Db) : Type 0 where
  pub media : SameMedia d e
  pub checkins : e.checkins ≡ d.checkins
  pub incident_tokens : e.incident_tokens ≡ d.incident_tokens
  pub upload_operations : e.upload_operations ≡ d.upload_operations
  pub contact_public_keys : e.contact_public_keys ≡ d.contact_public_keys
  pub sharing_grants : e.sharing_grants ≡ d.sharing_grants
  pub wrapped_key_records : e.wrapped_key_records ≡ d.wrapped_key_records

insert_items-SameRest :
    (now : ℕ) (ids : ℕ → String) (decision i : String) (n : ℕ) (paths : List String) (d : Db)
    → let e = after d (insert_items now ids decision i n paths d) in
      SameRest d e × (e.incidents ≡ d.incidents)
unfolding insert_items
insert_items-SameRest now ids decision i n [] d = ground arith
insert_items-SameRest now ids decision i n (path ∷ paths) d = ground (
  arith,
  insert_items-SameRest now ids decision i (suc n) paths
      (record d { deletion_items = d.deletion_items ++ new_item now (ids n) decision i path ∷ [] }),
)

-- The incidents after a request: as they were, or one of them is marked.
abbrev pub MarksPending : ℕ → String → Db → Db → Type 0
MarksPending now i d e =
    (e.incidents ≡ d.incidents)
    ⊎ (e.incidents
        ≡ update_where (λ (r : Incident). r.id == i) (set_deletion_state now DeletionState.pending)
            d.incidents)

record_decision-frame :
    (now : ℕ) (id : String) (ids : ℕ → String) (p : IncidentDeletionRequest) (d : Db)
    → let e = after d (record_decision now id ids p d) in
      SameRest d e × MarksPending now p.incident_id d e
unfolding record_decision
record_decision-frame now id ids p d =
    let d' = record d { deletion_decisions = d.deletion_decisions ++ new_decision now id p ∷ [] } in
    ground (
      arith,
      insert_items-SameRest now ids id p.incident_id 0 (deletion_stored_paths p.incident_id d') d',
    )

-- The checks of a request write nothing.
pub check_request-same : (p : IncidentDeletionRequest) (d : Db) → after d (check_request p d) ≡ d
unfolding check_request
check_request-same p d = ground arith

pub request-frame :
    (now : ℕ) (id : String) (ids : ℕ → String) (p : IncidentDeletionRequest) (d : Db)
    → let e = after d (request_incident_deletion now id ids p d) in
      SameRest d e × MarksPending now p.incident_id d e
unfolding request_incident_deletion
request-frame now id ids p d =
    ground (arith, check_request-same p d, record_decision-frame now id ids p d)
