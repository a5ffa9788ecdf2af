-- ===== src/Tests/Fixtures.antt =====
-- A database with one account, an open incident, an open stream and a chunk, and call parameters.
use safety_recorder.Repository.Incidents.{new_incident}
use safety_recorder.Repository.Streams.{new_stream}
use safety_recorder.Repository.Chunks.{new_chunk}
use safety_recorder.System.{empty_db}
use safety_recorder.Model.{
  Chunk, CreateChunkParams, CreateIncidentParams, Db, DeletionSource, Incident, MediaStream,
  UploadOperationParams, IncidentDeletionRequest, MediaType, AccountRow, AccountState,
}
use safety_recorder.Base.{ℕ, [], ◌∷◌, none, String, true}

abbrev pub zeros : String
zeros = "0000000000000000000000000000000000000000000000000000000000000000"

-- A stand-in for the hash: every text has the same.
abbrev pub flat_hash : String → String
flat_hash _ = zeros

abbrev pub incident_params : CreateIncidentParams
incident_params = record {
  client_label = "phone";
  notes = "";
  incident_mode = "emergency";
  capture_profile = "";
  escalation_policy = "";
  sharing_state = "";
}

abbrev pub chunk_params : ℕ → CreateChunkParams
chunk_params n = record {
  incident_id = "inc";
  stream_id = "str";
  chunk_index = n;
  media_type = MediaType.audio;
  started_at = 1;
  ended_at = 2;
  original_filename = "";
  stored_path = "incidents/inc/streams/str/audio_000001.enc";
  byte_size = 40;
  sha256_hex = zeros;
  account_blob_quota_bytes = 100;
}

abbrev pub upload_params : ℕ → UploadOperationParams
upload_params n = record {
  operation = "upload_chunk";
  idempotency_key_hash = zeros;
  incident_id = "inc";
  stream_id = "str";
  chunk_index = n;
  media_type = MediaType.audio;
  started_at = 1;
  ended_at = 2;
  original_filename = "";
  byte_size = 40;
  sha256_hex = zeros;
  fingerprint_hash = zeros;
}

abbrev pub deletion_request : DeletionSource → IncidentDeletionRequest
deletion_request source = record {
  incident_id = "inc";
  source = source;
  reason_code = "";
  actor_account_id = "";
  allow_open = true;
  require_owner_id = "";
  retention_cutoff = none;
}

abbrev pub first_incident : Incident
first_incident = new_incident 5 "inc" "acc" incident_params

abbrev pub first_stream : MediaStream
first_stream = new_stream 6 "str" "inc" MediaType.audio ""

abbrev pub first_chunk : Chunk
first_chunk = new_chunk 7 "chk1" (chunk_params 1)

abbrev pub account : String → AccountRow
account id = record { id = id; account_state = AccountState.active }

abbrev pub open_db : Db
open_db = record (empty_db (account "acc" ∷ account "con" ∷ [])) {
  incidents = first_incident ∷ [];
  media_streams = first_stream ∷ [];
  chunks = first_chunk ∷ [];
}
