-- ===== src/Repository/Uploads.antt =====
-- internal/incidents/upload_operations.go: idempotency keys of chunk uploads.
pub mod Idempotent
use safety_recorder.Base.{
  ℕ, String, Bool, not, ◌&&◌, ◌||◌, [], ◌∷◌, ◌++◌, ◌==◌, if◌then◌else◌, find_row, any_row,
  update_where, eqb, ltb,
}
use safety_recorder.Model.{
  same_media, Chunk, UploadOperation, UploadOperationParams, reserved, metadata_committed, Db,
  Error, Tx, pure, fail, reads, or_fail, fail_if, writes, ◌>>=◌, ◌>>◌,
}
use safety_recorder.Repository.Incidents.{require_active_incident}
use safety_recorder.Repository.Constraints.{has_incident, valid_sha256_hex}

abbrev pub operation_key : String → String → UploadOperation → Bool
operation_key operation key r = r.operation == operation && r.idempotency_key_hash == key

unfoldable pub get_upload_operation_by_key : String → String → Tx UploadOperation
get_upload_operation_by_key operation key = do
  or_fail (← reads (λ d. find_row (operation_key operation key) d.upload_operations))
      Error.not_found

-- `uploadOperationMatchesParams`.
unfoldable pub matches_params : UploadOperation → UploadOperationParams → Bool
matches_params o p =
    o.operation == p.operation
    && o.idempotency_key_hash == p.idempotency_key_hash
    && o.incident_id == p.incident_id
    && o.stream_id == p.stream_id
    && eqb o.chunk_index p.chunk_index
    && same_media o.media_type p.media_type
    && eqb o.started_at p.started_at
    && eqb o.ended_at p.ended_at
    && o.original_filename == p.original_filename
    && eqb o.byte_size p.byte_size
    && o.sha256_hex == p.sha256_hex
    && o.fingerprint_hash == p.fingerprint_hash

abbrev pub new_operation : ℕ → String → UploadOperationParams → UploadOperation
new_operation now id p = record {
  id = id;
  operation = p.operation;
  idempotency_key_hash = p.idempotency_key_hash;
  incident_id = p.incident_id;
  stream_id = p.stream_id;
  chunk_index = p.chunk_index;
  media_type = p.media_type;
  started_at = p.started_at;
  ended_at = p.ended_at;
  original_filename = p.original_filename;
  byte_size = p.byte_size;
  sha256_hex = p.sha256_hex;
  fingerprint_hash = p.fingerprint_hash;
  state = reserved;
  chunk_id = "";
  stored_path = "";
  created_at = now;
  updated_at = now;
}

unfoldable pub operation_row_ok : UploadOperation → Db → Bool
operation_row_ok r d =
    not (any_row (λ (x : UploadOperation). x.id == r.id) d.upload_operations)
    && not (any_row (operation_key r.operation r.idempotency_key_hash) d.upload_operations)
    && r.operation == "upload_chunk"
    && valid_sha256_hex r.idempotency_key_hash
    && has_incident r.incident_id d.incidents
    && (r.stream_id == "" || ltb 0 r.chunk_index)
    && valid_sha256_hex r.sha256_hex
    && valid_sha256_hex r.fingerprint_hash

unfoldable pub reserve_upload_operation : ℕ → String → UploadOperationParams → Tx UploadOperation
unfolding get_upload_operation_by_key require_active_incident
reserve_upload_operation now id p = do
  require_active_incident p.incident_id
  row_ok ← reads (operation_row_ok (new_operation now id p))
  if row_ok
      then (do
        writes (λ d. record d {
          upload_operations = d.upload_operations ++ new_operation now id p ∷ [];
        })
        pure (new_operation now id p))
      else (do
        existing ← get_upload_operation_by_key p.operation p.idempotency_key_hash
        fail_if (not (matches_params existing p)) Error.idempotency_conflict
        pure existing)

abbrev pub fingerprint_key : UploadOperationParams → UploadOperation → Bool
fingerprint_key p r =
    operation_key p.operation p.idempotency_key_hash r && r.fingerprint_hash == p.fingerprint_hash

abbrev pub commit_row : ℕ → Chunk → UploadOperation → UploadOperation
commit_row now chunk r = record r {
  state = metadata_committed;
  chunk_id = chunk.id;
  stored_path = chunk.stored_path;
  updated_at = now;
}

-- The column `chunk_id` refers to a chunk.
unfoldable pub complete_upload_operation : ℕ → UploadOperationParams → Chunk → Tx UploadOperation
unfolding get_upload_operation_by_key
complete_upload_operation now p chunk = do
  affected ← reads (λ d. any_row (fingerprint_key p) d.upload_operations)
  chunk_known ← reads (λ d. any_row (λ (c : Chunk). c.id == chunk.id) d.chunks)
  fail_if (affected && not chunk_known) Error.database
  if affected
      then (do
        writes (λ d. record d {
          upload_operations =
              update_where (fingerprint_key p) (commit_row now chunk) d.upload_operations;
        })
        get_upload_operation_by_key p.operation p.idempotency_key_hash)
      else (do
        existing ← get_upload_operation_by_key p.operation p.idempotency_key_hash
        fail_if (not (matches_params existing p)) Error.idempotency_conflict
        fail Error.not_found)
