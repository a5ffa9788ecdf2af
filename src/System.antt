-- ===== src/System.antt =====
-- The database under any sequence of repository calls. SQLite runs the transactions one after
-- another, so every interleaving of concurrent requests and of the worker is such a sequence.
pub mod Frame
pub mod Sealed
pub mod Latch
pub mod Inactive
pub mod Closed
pub mod Pruned
pub mod Evidence
pub mod Sharing
use safety_recorder.Repository.Sharing.Calls.{SharingCall, share}
use safety_recorder.Base.{ℕ, String, Option, List, [], ◌∷◌}
use safety_recorder.Model.{
  MediaType, CreateIncidentParams, CreateChunkParams, CreateCheckinParams, Chunk,
  UploadOperationParams, IncidentDeletionRequest, Db, after, AccountRow,
}
use safety_recorder.Repository.Incidents.{create_incident_for_account, close_incident}
use safety_recorder.Repository.Streams.{
  create_media_stream, complete_media_stream, fail_media_stream,
}
use safety_recorder.Repository.Chunks.{create_chunk}
use safety_recorder.Repository.Checkins.{create_checkin}
use safety_recorder.Repository.Tokens.{create_incident_token, revoke_incident_token}
use safety_recorder.Repository.Uploads.{reserve_upload_operation, complete_upload_operation}
use safety_recorder.Repository.Deletion.Request.{request_incident_deletion}
use safety_recorder.Repository.Deletion.Process.{
  mark_incident_deletion_deleting, mark_incident_deletion_item_deleted,
  mark_incident_deletion_item_failed, complete_incident_deletion, fail_incident_deletion,
}

-- A call that writes, with its arguments; the first are the clock's time and the drawn identifiers.
pub data Command : Type 0 where
  create_incident : ℕ → String → String → CreateIncidentParams → Command
  close : ℕ → String → Command
  create_stream : ℕ → String → String → MediaType → String → Command
  complete_stream : ℕ → String → String → ℕ → Command
  fail_stream : ℕ → String → String → String → Command
  add_chunk : ℕ → String → CreateChunkParams → Command
  add_checkin : ℕ → String → String → CreateCheckinParams → Command
  create_token : ℕ → String → String → String → String → Option ℕ → Command
  revoke_token : ℕ → String → Command
  reserve_upload : ℕ → String → UploadOperationParams → Command
  complete_upload : ℕ → UploadOperationParams → Chunk → Command
  request_deletion : ℕ → String → (ℕ → String) → IncidentDeletionRequest → Command
  claim_deletion : ℕ → String → ℕ → Command
  item_deleted : ℕ → String → Command
  item_failed : ℕ → String → String → Command
  complete_deletion : ℕ → String → String → Command
  fail_deletion : ℕ → String → String → Command
  sharing : SharingCall → Command

module _ (hash : String → String) where
  -- The database after a call, whether it succeeds or fails.
  unfoldable pub exec : Command → Db → Db
  exec (create_incident now id account p) d =
      after d (create_incident_for_account now id account p d)
  exec (close now id) d = after d (close_incident now id d)
  exec (create_stream now id i m label) d = after d (create_media_stream now id i m label d)
  exec (complete_stream now i k n) d = after d (complete_media_stream now i k n d)
  exec (fail_stream now i k reason) d = after d (fail_media_stream now i k reason d)
  exec (add_chunk now id p) d = after d (create_chunk now id p d)
  exec (add_checkin now id i p) d = after d (create_checkin now id i p d)
  exec (create_token now id raw i label expires) d =
      after d (create_incident_token hash now id raw i label expires d)
  exec (revoke_token now id) d = after d (revoke_incident_token now id d)
  exec (reserve_upload now id p) d = after d (reserve_upload_operation now id p d)
  exec (complete_upload now p c) d = after d (complete_upload_operation now p c d)
  exec (request_deletion now id ids p) d = after d (request_incident_deletion now id ids p d)
  exec (claim_deletion now id stale) d = after d (mark_incident_deletion_deleting now id stale d)
  exec (item_deleted now id) d = after d (mark_incident_deletion_item_deleted now id d)
  exec (item_failed now id code) d = after d (mark_incident_deletion_item_failed now id code d)
  exec (complete_deletion now audit id) d = after d (complete_incident_deletion now audit id d)
  exec (fail_deletion now id code) d = after d (fail_incident_deletion now id code d)
  exec (sharing c) d = share c d

  unfoldable pub run : List Command → Db → Db
  run [] d = d
  run (c ∷ cs) d = run cs (exec c d)

abbrev pub empty_db : List AccountRow → Db
empty_db accounts = record {
  accounts = accounts;
  incidents = [];
  media_streams = [];
  chunks = [];
  checkins = [];
  incident_tokens = [];
  upload_operations = [];
  contact_public_keys = [];
  sharing_grants = [];
  wrapped_key_records = [];
  trusted_contact_relationships = [];
  account_recipient_keys = [];
  sharing_audit_events = [];
  deletion_decisions = [];
  deletion_items = [];
}
