-- ===== src/Model/Records.antt =====
-- Incidents, media streams, chunks, checkins and viewer tokens (internal/incidents/models.go).
-- The controlled vocabularies are data types; a Go string "" that the database stores as NULL stays
-- "". A time is the number of nanoseconds since Go's zero time, in UTC.
use safety_recorder.Base.{ℕ, String, Bool, true, false, Option, List}

pub data IncidentStatus : Type 0 where
  status_open status_closed : IncidentStatus

abbrev pub is_closed : IncidentStatus → Bool
is_closed status_open = false
is_closed status_closed = true

pub data StreamStatus : Type 0 where
  stream_status_open stream_status_complete stream_status_failed : StreamStatus

abbrev pub is_open : StreamStatus → Bool
is_open stream_status_open = true
is_open _ = false

abbrev pub is_complete : StreamStatus → Bool
is_complete stream_status_complete = true
is_complete _ = false

pub data MediaType : Type 0 where
  audio video location metadata : MediaType

abbrev pub same_media : MediaType → MediaType → Bool
same_media audio audio = true
same_media video video = true
same_media location location = true
same_media metadata metadata = true
same_media _ _ = false

-- The deletion state of an incident, and, but for `active`, of a deletion decision.
pub data DeletionState : Type 0 where
  active pending deleting failed deleted : DeletionState

abbrev pub is_active : DeletionState → Bool
is_active DeletionState.active = true
is_active _ = false

abbrev pub is_deleted : DeletionState → Bool
is_deleted DeletionState.deleted = true
is_deleted _ = false

pub record Incident : Type 0 where
  pub id : String
  pub owner_account_id : String
  pub created_at : ℕ
  pub updated_at : ℕ
  pub status : IncidentStatus
  pub client_label : String
  pub notes : String
  pub incident_mode : String
  pub capture_profile : String
  pub escalation_policy : String
  pub sharing_state : String
  pub deletion_state : DeletionState

pub record CreateIncidentParams : Type 0 where
  pub client_label : String
  pub notes : String
  pub incident_mode : String
  pub capture_profile : String
  pub escalation_policy : String
  pub sharing_state : String

pub record MediaStream : Type 0 where
  pub id : String
  pub incident_id : String
  pub media_type : MediaType
  pub label : String
  pub status : StreamStatus
  pub expected_chunk_count : Option ℕ
  pub created_at : ℕ
  pub updated_at : ℕ
  pub completed_at : Option ℕ
  pub failed_at : Option ℕ
  pub failure_reason : String

-- An empty `stream_id` is a legacy unstreamed chunk.
pub record Chunk : Type 0 where
  pub id : String
  pub incident_id : String
  pub stream_id : String
  pub chunk_index : ℕ
  pub media_type : MediaType
  pub started_at : ℕ
  pub ended_at : ℕ
  pub original_filename : String
  pub stored_path : String
  pub byte_size : ℕ
  pub sha256_hex : String
  pub created_at : ℕ

pub record CreateChunkParams : Type 0 where
  pub incident_id : String
  pub stream_id : String
  pub chunk_index : ℕ
  pub media_type : MediaType
  pub started_at : ℕ
  pub ended_at : ℕ
  pub original_filename : String
  pub stored_path : String
  pub byte_size : ℕ
  pub sha256_hex : String
  pub account_blob_quota_bytes : ℕ

-- A `float64` is its bit pattern: the repository only stores it.
pub record Checkin : Type 0 where
  pub id : String
  pub incident_id : String
  pub created_at : ℕ
  pub device_battery_percent : Option ℕ
  pub device_network : Option String
  pub latitude : Option ℕ
  pub longitude : Option ℕ
  pub accuracy_meters : Option ℕ

pub record CreateCheckinParams : Type 0 where
  pub device_battery_percent : Option ℕ
  pub device_network : Option String
  pub latitude : Option ℕ
  pub longitude : Option ℕ
  pub accuracy_meters : Option ℕ

pub record IncidentToken : Type 0 where
  pub id : String
  pub incident_id : String
  pub token_hash : String
  pub label : String
  pub created_at : ℕ
  pub expires_at : Option ℕ
  pub revoked_at : Option ℕ

pub record IncidentDetail : Type 0 where
  pub incident : Incident
  pub streams : List MediaStream
  pub chunks : List Chunk
  pub checkins : List Checkin
