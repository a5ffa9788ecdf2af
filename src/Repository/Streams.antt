-- ===== src/Repository/Streams.antt =====
-- internal/incidents/streams.go: media streams.
pub mod Terminal
use safety_recorder.Base.{
  ℕ, suc, String, Bool, true, false, not, ◌&&◌, ◌||◌, Option, none, some, List, [], ◌∷◌, ◌++◌, ◌==◌,
  if◌then◌else◌, find_row, any_row, select, update_where, order_by, leb, eqb, text_le,
}
use safety_recorder.DbTime.{db_time_le}
use safety_recorder.Model.{
  MediaStream, MediaType, same_media, Chunk, stream_status_open, stream_status_complete,
  stream_status_failed, is_open, is_complete, Db, Error, Tx, pure, fail, reads, or_fail, fail_if,
  writes, ◌>>=◌, ◌>>◌,
}
use safety_recorder.Repository.Incidents.{require_active_incident}
use safety_recorder.Repository.Constraints.{has_incident}

abbrev pub stream_key : String → String → MediaStream → Bool
stream_key incident id r = r.incident_id == incident && r.id == id

abbrev pub find_stream : String → String → Db → Option MediaStream
find_stream incident id d = find_row (stream_key incident id) d.media_streams

abbrev pub new_stream : ℕ → String → String → MediaType → String → MediaStream
new_stream now id incident media_type label = record {
  id = id;
  incident_id = incident;
  media_type = media_type;
  label = label;
  status = stream_status_open;
  expected_chunk_count = none;
  created_at = now;
  updated_at = now;
  completed_at = none;
  failed_at = none;
  failure_reason = "";
}

unfoldable pub stream_row_ok : MediaStream → Db → Bool
stream_row_ok r d =
    not (any_row (λ (x : MediaStream). x.id == r.id) d.media_streams)
    && has_incident r.incident_id d.incidents

unfoldable pub create_media_stream : ℕ → String → String → MediaType → String → Tx MediaStream
unfolding require_active_incident
create_media_stream now id incident media_type label = do
  require_active_incident incident
  let stream = new_stream now id incident media_type label
  row_ok ← reads (stream_row_ok stream)
  fail_if (not row_ok) Error.not_found
  writes (λ d. record d { media_streams = d.media_streams ++ stream ∷ [] })
  pure stream

-- `ORDER BY created_at ASC, id ASC`.
abbrev pub oldest_stream_first : MediaStream → MediaStream → Bool
oldest_stream_first a b =
    if not (eqb a.created_at b.created_at)
    then db_time_le a.created_at b.created_at
    else text_le a.id b.id

unfoldable pub list_media_streams : String → Tx (List MediaStream)
list_media_streams incident =
    reads
      (λ d. order_by oldest_stream_first (select (λ r. r.incident_id == incident) d.media_streams))

-- NULL sorts first.
abbrev pub completed_first : MediaStream → MediaStream → Bool
completed_first a b = dispatch a.completed_at b.completed_at
  where
    dispatch : Option ℕ → Option ℕ → Bool
    dispatch none none = text_le a.id b.id
    dispatch none (some u) = true
    dispatch (some t) none = false
    dispatch (some t) (some u) = if not (eqb t u) then db_time_le t u else text_le a.id b.id

unfoldable pub list_completed_media_streams : String → Tx (List MediaStream)
list_completed_media_streams incident = reads (λ d.
    order_by completed_first
      (select (λ r. r.incident_id == incident && is_complete r.status) d.media_streams))

unfoldable pub get_media_stream : String → String → Tx MediaStream
get_media_stream incident id = do or_fail (← reads (find_stream incident id)) Error.not_found

-- `ORDER BY chunk_index ASC`.
abbrev pub lower_index : Chunk → Chunk → Bool
lower_index a b = leb a.chunk_index b.chunk_index

-- `stream_id = ?` is never true of a NULL, so an empty text selects nothing.
abbrev pub in_stream : String → String → Chunk → Bool
in_stream incident stream r =
    r.incident_id == incident && not (r.stream_id == "") && r.stream_id == stream

abbrev pub stream_chunks : String → String → Db → List Chunk
stream_chunks incident stream d = order_by lower_index (select (in_stream incident stream) d.chunks)

unfoldable pub list_stream_chunks : String → String → Tx (List Chunk)
list_stream_chunks incident stream = reads (stream_chunks incident stream)

-- The loop of `validateCompleteStreamChunkRows`; `none` is `ErrInvalidState`.
unfoldable pub count_rows : MediaType → ℕ → List Chunk → Option ℕ
count_rows media_type count [] = some count
count_rows media_type count (r ∷ rows) =
    let rest = count_rows media_type (suc count) rows in
    if not (eqb r.chunk_index (suc count)) || not (same_media r.media_type media_type)
    then none
    else rest

unfoldable pub validate_complete_stream_chunk_rows : String → String → MediaType → ℕ → Tx (Unit {0})
validate_complete_stream_chunk_rows incident stream media_type expected = do
  rows ← reads (stream_chunks incident stream)
  count ← or_fail (count_rows media_type 0 rows) Error.invalid_state
  fail_if (not (eqb count expected)) Error.invalid_state

abbrev pub open_stream_key : String → String → MediaStream → Bool
open_stream_key incident id r = stream_key incident id r && is_open r.status

abbrev pub complete_row : ℕ → ℕ → MediaStream → MediaStream
complete_row now expected r = record r {
  status = stream_status_complete;
  expected_chunk_count = some expected;
  updated_at = now;
  completed_at = some now;
  failed_at = none;
  failure_reason = "";
}

-- The statement's own check is `expected_chunk_count > 0`.
unfoldable pub complete_media_stream : ℕ → String → String → ℕ → Tx MediaStream
unfolding get_media_stream validate_complete_stream_chunk_rows require_active_incident
complete_media_stream now incident id expected = do
  require_active_incident incident
  affected ← reads (λ d. any_row (open_stream_key incident id) d.media_streams)
  fail_if (affected && eqb expected 0) Error.database
  if affected
      then (do
        writes (λ d. record d {
          media_streams =
              update_where (open_stream_key incident id) (complete_row now expected)
                d.media_streams;
        })
        stream ← or_fail (← reads (find_stream incident id)) Error.database
        validate_complete_stream_chunk_rows incident id stream.media_type expected
        get_media_stream incident id)
      else (do get_media_stream incident id; fail Error.invalid_state)

abbrev pub fail_row : ℕ → String → MediaStream → MediaStream
fail_row now reason r = record r {
  status = stream_status_failed;
  updated_at = now;
  failed_at = some now;
  failure_reason = reason;
  completed_at = none;
}

unfoldable pub fail_media_stream : ℕ → String → String → String → Tx MediaStream
unfolding get_media_stream require_active_incident
fail_media_stream now incident id reason = do
  require_active_incident incident
  affected ← reads (λ d. any_row (open_stream_key incident id) d.media_streams)
  if affected
      then (do
        writes (λ d. record d {
          media_streams =
              update_where (open_stream_key incident id) (fail_row now reason) d.media_streams;
        })
        get_media_stream incident id)
      else (do get_media_stream incident id; fail Error.invalid_state)
