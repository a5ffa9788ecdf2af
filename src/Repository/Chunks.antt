-- ===== src/Repository/Chunks.antt =====
-- internal/incidents/chunks.go: the metadata of uploaded chunks.
pub mod Quota
pub mod Identity
use safety_recorder.Base.{
  ℕ, ◌-◌, String, Bool, not, ◌&&◌, ◌||◌, List, [], ◌∷◌, ◌++◌, ◌==◌, if◌then◌else◌, find_row,
  any_row, select, order_by, leb, ltb, eqb, sum_of,
}
use safety_recorder.Model.{
  Incident, is_closed, is_active, MediaType, same_media, Chunk, CreateChunkParams, is_open, Db,
  Error, Tx, pure, reads, or_fail, fail_if, writes, ◌>>=◌, ◌>>◌,
}
use safety_recorder.Repository.Incidents.{find_incident}
use safety_recorder.Repository.Constraints.{has_incident, valid_sha256_hex}
use safety_recorder.Repository.Streams.{find_stream, in_stream, lower_index}

-- The row of an identity: stream-scoped, or a legacy chunk without stream.
abbrev pub streamed_key : String → String → ℕ → Chunk → Bool
streamed_key incident stream index r = in_stream incident stream r && eqb r.chunk_index index

abbrev pub legacy_key : String → MediaType → ℕ → Chunk → Bool
legacy_key incident media_type index r =
    r.incident_id == incident
    && r.stream_id == ""
    && same_media r.media_type media_type
    && eqb r.chunk_index index

abbrev pub identity_key : String → String → MediaType → ℕ → Chunk → Bool
identity_key incident stream media_type index r =
    if not (stream == "")
    then streamed_key incident stream index r
    else legacy_key incident media_type index r

unfoldable pub chunk_exists : String → String → MediaType → ℕ → Tx Bool
chunk_exists incident stream media_type index =
    reads (λ d. any_row (identity_key incident stream media_type index) d.chunks)

unfoldable pub get_chunk_by_key : String → MediaType → ℕ → Tx Chunk
get_chunk_by_key incident media_type index = do
  or_fail (← reads (λ d. find_row (legacy_key incident media_type index) d.chunks)) Error.not_found

unfoldable pub get_chunk_by_identity : String → String → MediaType → ℕ → Tx Chunk
unfolding get_chunk_by_key
get_chunk_by_identity incident stream media_type index =
    if not (stream == "")
    then (do
      or_fail (← reads (λ d. find_row (streamed_key incident stream index) d.chunks))
          Error.not_found)
    else get_chunk_by_key incident media_type index

-- `SUM(byte_size)` of the chunks that join an incident of the account.
abbrev pub owned_by : String → Db → Chunk → Bool
owned_by account d r =
    any_row (λ (i : Incident). i.id == r.incident_id && i.owner_account_id == account) d.incidents

unfoldable pub committed_bytes : String → Db → ℕ
committed_bytes account d =
    sum_of (λ (c : Chunk). c.byte_size) (select (owned_by account d) d.chunks)

unfoldable pub account_committed_blob_bytes : String → Tx ℕ
unfolding committed_bytes
account_committed_blob_bytes account =
    if account == "" then pure 0 else reads (committed_bytes account)

unfoldable pub validate_chunk_insert_state : CreateChunkParams → Tx String
validate_chunk_insert_state p = do
  incident ← or_fail (← reads (find_incident p.incident_id)) Error.not_found
  fail_if (not (is_active incident.deletion_state)) Error.incident_deleting
  fail_if (is_closed incident.status) Error.incident_closed
  if p.stream_id == "" then pure incident.owner_account_id else (do
    stream ← or_fail (← reads (find_stream p.incident_id p.stream_id)) Error.not_found
    fail_if (not (is_open stream.status) || not (same_media stream.media_type p.media_type))
        Error.invalid_state
    pure incident.owner_account_id)

unfoldable pub enforce_account_blob_quota : String → ℕ → ℕ → Tx (Unit {0})
enforce_account_blob_quota account additional quota =
    if account == "" || eqb quota 0 || eqb additional 0 then pure tt else (do
      fail_if (ltb quota additional) Error.account_blob_quota_exceeded
      current ← reads (committed_bytes account)
      fail_if (ltb (quota - additional) current) Error.account_blob_quota_exceeded)

abbrev pub new_chunk : ℕ → String → CreateChunkParams → Chunk
new_chunk now id p = record {
  id = id;
  incident_id = p.incident_id;
  stream_id = p.stream_id;
  chunk_index = p.chunk_index;
  media_type = p.media_type;
  started_at = p.started_at;
  ended_at = p.ended_at;
  original_filename = p.original_filename;
  stored_path = p.stored_path;
  byte_size = p.byte_size;
  sha256_hex = p.sha256_hex;
  created_at = now;
}

-- The constraints of the table, its two unique indexes among them.
unfoldable pub chunk_row_ok : Chunk → Db → Bool
chunk_row_ok r d =
    not (any_row (λ (x : Chunk). x.id == r.id) d.chunks)
    && has_incident r.incident_id d.incidents
    && not (any_row (identity_key r.incident_id r.stream_id r.media_type r.chunk_index) d.chunks)
    && valid_sha256_hex r.sha256_hex

unfoldable pub create_chunk : ℕ → String → CreateChunkParams → Tx Chunk
unfolding validate_chunk_insert_state chunk_exists enforce_account_blob_quota
create_chunk now id p = do
  owner ← validate_chunk_insert_state p
  exists ← chunk_exists p.incident_id p.stream_id p.media_type p.chunk_index
  fail_if exists Error.duplicate
  enforce_account_blob_quota owner p.byte_size p.account_blob_quota_bytes
  row_ok ← reads (chunk_row_ok (new_chunk now id p))
  fail_if (not row_ok) Error.duplicate
  writes (λ d. record d { chunks = d.chunks ++ new_chunk now id p ∷ [] })
  pure (new_chunk now id p)

-- The bytes of the controlled media types order as their names do.
abbrev pub media_rank : MediaType → ℕ
media_rank MediaType.audio = 0
media_rank MediaType.location = 1
media_rank MediaType.metadata = 2
media_rank MediaType.video = 3

-- `ORDER BY chunk_index ASC, media_type ASC`.
abbrev pub listed_before : Chunk → Chunk → Bool
listed_before a b =
    if not (eqb a.chunk_index b.chunk_index)
    then lower_index a b
    else leb (media_rank a.media_type) (media_rank b.media_type)

unfoldable pub list_chunks : String → Tx (List Chunk)
list_chunks incident =
    reads (λ d. order_by listed_before (select (λ r. r.incident_id == incident) d.chunks))
