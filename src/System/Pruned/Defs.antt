-- ===== src/System/Pruned/Defs.antt =====
-- The child rows of an incident: streams, chunks, checkins, viewer tokens, upload operations, sharing
-- grants and wrapped keys.
use safety_recorder.Base.{String, Bool, any_row, ◌==◌, ◌≡◌, false}
use safety_recorder.Model.{
  MediaStream, Chunk, Checkin, IncidentToken, UploadOperation, Db, SharingGrant, WrappedKeyRecord,
}

abbrev pub has_streams : String → Db → Bool
has_streams i d = any_row (λ (r : MediaStream). r.incident_id == i) d.media_streams

abbrev pub has_chunks : String → Db → Bool
has_chunks i d = any_row (λ (r : Chunk). r.incident_id == i) d.chunks

abbrev pub has_checkins : String → Db → Bool
has_checkins i d = any_row (λ (r : Checkin). r.incident_id == i) d.checkins

abbrev pub has_tokens : String → Db → Bool
has_tokens i d = any_row (λ (r : IncidentToken). r.incident_id == i) d.incident_tokens

abbrev pub has_uploads : String → Db → Bool
has_uploads i d = any_row (λ (r : UploadOperation). r.incident_id == i) d.upload_operations

abbrev pub has_grants : String → Db → Bool
has_grants i d = any_row (λ (r : SharingGrant). r.incident_id == i) d.sharing_grants

abbrev pub has_wrapped_keys : String → Db → Bool
has_wrapped_keys i d = any_row (λ (r : WrappedKeyRecord). r.incident_id == i) d.wrapped_key_records

-- No child row of the incident is left.
pub record IsPruned (i : String) (d : Db) : Type 0 where
  pub streams : has_streams i d ≡ false
  pub chunks : has_chunks i d ≡ false
  pub checkins : has_checkins i d ≡ false
  pub tokens : has_tokens i d ≡ false
  pub uploads : has_uploads i d ≡ false
  pub grants : has_grants i d ≡ false
  pub wrapped_keys : has_wrapped_keys i d ≡ false
