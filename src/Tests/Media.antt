-- ===== src/Tests/Media.antt =====
-- Streams, chunks and upload operations at concrete inputs.
use safety_recorder.System.Sealed.Accepts.{contiguous_stream_completes}
use safety_recorder.System.Closed.{closed_incident_refuses_chunks}
use safety_recorder.Repository.Incidents.{
  create_incident_for_account, incident_row_ok, close_row, new_incident, close_incident,
}
use safety_recorder.Repository.Streams.Terminal.{fail_media_stream-open, IsFailedAs}
use safety_recorder.Repository.Chunks.Identity.{get_chunk_by_identity-create_chunk}
use safety_recorder.Repository.Uploads.Idempotent.{
  reserve_upload_operation-conflict, reserve_upload_operation-retry,
}
use safety_recorder.Repository.Streams.{
  complete_media_stream, fail_media_stream, fail_row, get_media_stream, stream_chunks, complete_row,
  create_media_stream, stream_row_ok, count_rows, validate_complete_stream_chunk_rows,
}
use safety_recorder.Repository.Uploads.{
  new_operation, reserve_upload_operation, matches_params, operation_row_ok,
}
use safety_recorder.System.{run, Command, empty_db, exec}
use safety_recorder.System.Sealed.Contiguous.{IsContiguous, complete_stream-IsContiguous}
use safety_recorder.System.Evidence.{IsKept, stored_chunk-IsKept}
use safety_recorder.Repository.Constraints.{valid_sha256_hex, valid_incident_mode}
use safety_recorder.Tests.Fixtures.{
  chunk_params, open_db, first_chunk, first_incident, first_stream, flat_hash, upload_params,
  incident_params, account,
}
use safety_recorder.Repository.Chunks.Quota.{create_chunk-within_quota}
use safety_recorder.Model.{Db, ok, err, Error, MediaType, MediaStream, UploadOperationParams}
use safety_recorder.Repository.Chunks.{
  committed_bytes, create_chunk, new_chunk, chunk_row_ok, get_chunk_by_identity,
}
use safety_recorder.Base.{
  ◌≢◌, ℕ, [], ◌∷◌, some, ◌≡◌, refl, arith, ◌≤◌, find_row, ◌==◌, any_row, sum_of, select, List,
  update_where, order_by, insert_row, ap,
}

abbrev second_db : Db
second_db = record open_db { chunks = first_chunk ∷ new_chunk 8 "chk2" (chunk_params 2) ∷ [] }

create_second :
    create_chunk 8 "chk2" (chunk_params 2) open_db
    ≡ ok (new_chunk 8 "chk2" (chunk_params 2), second_db)
unfolding create_chunk find_row ◌==◌ any_row committed_bytes sum_of select chunk_row_ok
    valid_sha256_hex
create_second = refl

create_chunk-within_quota_example : committed_bytes "acc" second_db ≤ 100
unfolding find_row ◌==◌
create_chunk-within_quota_example =
    create_chunk-within_quota open_db second_db 8 "chk2" (chunk_params 2)
      (new_chunk 8 "chk2" (chunk_params 2)) first_incident create_second refl refl (omega arith)
      (omega arith)

get_chunk_by_identity-create_chunk_example :
    get_chunk_by_identity "inc" "str" MediaType.audio 2 second_db
    ≡ ok (new_chunk 8 "chk2" (chunk_params 2), second_db)
get_chunk_by_identity-create_chunk_example =
    get_chunk_by_identity-create_chunk open_db second_db 8 "chk2" (chunk_params 2)
      (new_chunk 8 "chk2" (chunk_params 2)) create_second

-- The second chunk under one identity is refused.
create_twice : create_chunk 9 "chk3" (chunk_params 2) second_db ≡ err Error.duplicate
unfolding create_chunk find_row ◌==◌ any_row
create_twice = refl

abbrev failed_db : Db
failed_db = record open_db { media_streams = fail_row 9 "lost" first_stream ∷ [] }

fail_media_stream-open_example :
    (d' : Db) × (st' : MediaStream) × (fail_media_stream 9 "inc" "str" "lost" open_db
      ≡ ok (st', d'))
    × (get_media_stream "inc" "str" d' ≡ ok (st', d'))
    × IsFailedAs 9 "lost" first_stream st'
    × (fail_media_stream 10 "inc" "str" "again" d' ≡ err Error.invalid_state)
    × (complete_media_stream 10 "inc" "str" 1 d' ≡ err Error.invalid_state)
unfolding find_row ◌==◌
fail_media_stream-open_example =
    fail_media_stream-open open_db 9 10 0 "inc" "str" "lost" "again" first_incident first_stream
      refl refl refl refl

-- A failed stream is not completed.
complete_failed : complete_media_stream 10 "inc" "str" 1 failed_db ≡ err Error.invalid_state
unfolding complete_media_stream find_row ◌==◌ any_row
complete_failed = refl

abbrev reserved_db : Db
reserved_db = record open_db { upload_operations = new_operation 8 "upl1" (upload_params 2) ∷ [] }

reserve_first :
    reserve_upload_operation 8 "upl1" (upload_params 2) open_db
    ≡ ok (new_operation 8 "upl1" (upload_params 2), reserved_db)
unfolding reserve_upload_operation find_row ◌==◌ operation_row_ok any_row valid_sha256_hex
reserve_first = refl

reserve_upload_operation-retry_example :
    reserve_upload_operation 9 "upl2" (upload_params 2) reserved_db
    ≡ ok (new_operation 8 "upl1" (upload_params 2), reserved_db)
reserve_upload_operation-retry_example =
    reserve_upload_operation-retry open_db reserved_db 8 9 "upl1" "upl2" (upload_params 2)
      (new_operation 8 "upl1" (upload_params 2)) reserve_first

third_not_second : ◌≢◌ {A = ℕ} 3 2
third_not_second e = omega arith

reserve_upload_operation-conflict_example :
    reserve_upload_operation 9 "upl2" (upload_params 3) reserved_db ≡ err Error.idempotency_conflict
unfolding find_row ◌==◌ matches_params
reserve_upload_operation-conflict_example =
    reserve_upload_operation-conflict open_db reserved_db 8 9 "upl1" "upl2" (upload_params 2)
      (upload_params 3) (new_operation 8 "upl1" (upload_params 2)) first_incident reserve_first refl
      refl refl refl (λ e. third_not_second (ap (λ (p : UploadOperationParams). p.chunk_index) e))

abbrev recording : List Command
recording =
    Command.create_incident 5 "inc" "acc" incident_params
    ∷ Command.create_stream 6 "str" "inc" MediaType.audio ""
    ∷ Command.add_chunk 7 "chk1" (chunk_params 1)
    ∷ Command.add_chunk 8 "chk2" (chunk_params 2)
    ∷ Command.complete_stream 9 "inc" "str" 2
    ∷ []

abbrev recorded : Db
recorded = run flat_hash recording (empty_db (account "acc" ∷ []))

complete_stream-IsContiguous_example :
    (n : ℕ) × (some 2 ≡ some n)
    × IsContiguous MediaType.audio n (stream_chunks "inc" "str" recorded)
unfolding find_row run exec complete_media_stream create_chunk create_media_stream
    create_incident_for_account incident_row_ok any_row ◌==◌ valid_incident_mode stream_row_ok
    committed_bytes sum_of select chunk_row_ok valid_sha256_hex update_where order_by insert_row
    count_rows validate_complete_stream_chunk_rows
complete_stream-IsContiguous_example =
    complete_stream-IsContiguous flat_hash (account "acc" ∷ []) recording "inc" "str"
      (complete_row 9 2 first_stream) refl refl

stored_chunk-IsKept_example : IsKept "chk1" first_chunk (
    run flat_hash
      (Command.close 8 "inc" ∷ Command.add_chunk 9 "chk1" (chunk_params 2) ∷ [])
      open_db)
unfolding find_row ◌==◌
stored_chunk-IsKept_example =
    stored_chunk-IsKept flat_hash "chk1" first_chunk
      (Command.close 8 "inc" ∷ Command.add_chunk 9 "chk1" (chunk_params 2) ∷ []) open_db refl

-- A closed incident beside the open one.
abbrev beside_db : Db
beside_db = record open_db {
  incidents = close_row 6 (new_incident 5 "old" "acc" incident_params) ∷ first_incident ∷ [];
}

abbrev beside_chunk : Db
beside_chunk = record beside_db { chunks = first_chunk ∷ new_chunk 8 "chk2" (chunk_params 2) ∷ [] }

create_beside :
    create_chunk 8 "chk2" (chunk_params 2) (run flat_hash (Command.close 7 "old" ∷ []) beside_db)
    ≡ ok (
      new_chunk 8 "chk2" (chunk_params 2),
      record (run flat_hash (Command.close 7 "old" ∷ []) beside_db) {
        chunks = beside_chunk.chunks;
      },
    )
unfolding create_chunk find_row run exec close_incident any_row ◌==◌ update_where committed_bytes
    sum_of select chunk_row_ok valid_sha256_hex
create_beside = refl

closed_incident_refuses_chunks_example : (chunk_params 2).incident_id ≢ "old"
unfolding any_row ◌==◌
closed_incident_refuses_chunks_example =
    closed_incident_refuses_chunks flat_hash "old" (Command.close 7 "old" ∷ []) beside_db
      (record (run flat_hash (Command.close 7 "old" ∷ []) beside_db) {
        chunks = beside_chunk.chunks;
      })
      8 "chk2" (chunk_params 2) (new_chunk 8 "chk2" (chunk_params 2)) refl create_beside

contiguous_stream_completes_example :
    (d' : Db) × (complete_media_stream 9 "inc" "str" 2 second_db
      ≡ ok (complete_row 9 2 first_stream, d'))
    × (get_media_stream "inc" "str" d' ≡ ok (complete_row 9 2 first_stream, d'))
unfolding order_by insert_row select find_row ◌==◌
contiguous_stream_completes_example =
    contiguous_stream_completes second_db 9 "inc" "str" 2 first_incident first_stream refl refl refl
      refl refl (record { indices = refl; media = (refl, (refl, tt)) })
