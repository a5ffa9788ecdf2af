-- ===== src/Model/Uploads.antt =====
-- Idempotent upload operations (internal/incidents/models.go).
use safety_recorder.Base.{ℕ, String}
use safety_recorder.Model.Records.{MediaType}

pub data UploadOperationState : Type 0 where
  reserved metadata_committed : UploadOperationState

-- `operation` is the route's name; `chunk_id` and `stored_path` are "" until the chunk is committed.
pub record UploadOperation : Type 0 where
  pub id : String
  pub operation : String
  pub idempotency_key_hash : String
  pub incident_id : String
  pub stream_id : String
  pub chunk_index : ℕ
  pub media_type : MediaType
  pub started_at : ℕ
  pub ended_at : ℕ
  pub original_filename : String
  pub byte_size : ℕ
  pub sha256_hex : String
  pub fingerprint_hash : String
  pub state : UploadOperationState
  pub chunk_id : String
  pub stored_path : String
  pub created_at : ℕ
  pub updated_at : ℕ

pub record UploadOperationParams : Type 0 where
  pub operation : String
  pub idempotency_key_hash : String
  pub incident_id : String
  pub stream_id : String
  pub chunk_index : ℕ
  pub media_type : MediaType
  pub started_at : ℕ
  pub ended_at : ℕ
  pub original_filename : String
  pub byte_size : ℕ
  pub sha256_hex : String
  pub fingerprint_hash : String
