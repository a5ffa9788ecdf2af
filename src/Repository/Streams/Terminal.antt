-- ===== src/Repository/Streams/Terminal.antt =====
-- The states of a media stream (internal/incidents/streams.go): open, then complete or failed.
use safety_recorder.Repository.Incidents.{find_incident}
use safety_recorder.Model.{
  Db, Incident, MediaStream, is_active, is_open, ok, err, Error, stream_status_failed,
}
use safety_recorder.Repository.Streams.{
  fail_media_stream, get_media_stream, stream_key, find_stream, open_stream_key, fail_row,
  complete_media_stream,
}
use safety_recorder.Base.{
  ℕ, arith, ◌≡◌, ◌∷◌, [], String, find_row, any_row, List, some, true, update_where, find_row_sound,
  find_row-update_where, refl, none, false, suc,
}

pub open_row_of :
    (i k : String) (l : List MediaStream) (st : MediaStream)
    → find_row (stream_key i k) l ≡ some st
    → is_open st.status ≡ true
    → any_row (open_stream_key i k) l ≡ true
unfolding find_row any_row
open_row_of i k [] st f o = cc
open_row_of i k (x ∷ xs) st f o = ground (arith, open_row_of i k xs st)

-- What a failed stream is: failed for the reason and at the time, with no completion, and otherwise
-- the stream that it was.
pub record IsFailedAs (now : ℕ) (reason : String) (old new : MediaStream) : Type 0 where
  pub status : new.status ≡ stream_status_failed
  pub failure_reason : new.failure_reason ≡ reason
  pub failed_at : new.failed_at ≡ some now
  pub updated_at : new.updated_at ≡ now
  pub completed_at : new.completed_at ≡ none
  pub id : new.id ≡ old.id
  pub incident_id : new.incident_id ≡ old.incident_id
  pub media_type : new.media_type ≡ old.media_type
  pub label : new.label ≡ old.label
  pub expected : new.expected_chunk_count ≡ old.expected_chunk_count
  pub created_at : new.created_at ≡ old.created_at

failed_row :
    (now : ℕ) (reason : String) (st : MediaStream)
    → IsFailedAs now reason st (fail_row now reason st)
failed_row now reason st = record {
  status = refl;
  failure_reason = refl;
  failed_at = refl;
  updated_at = refl;
  completed_at = refl;
  id = refl;
  incident_id = refl;
  media_type = refl;
  label = refl;
  expected = refl;
  created_at = refl;
}

abbrev failed_db : ℕ → String → String → String → Db → Db
failed_db now i k reason d = record d {
  media_streams = update_where (open_stream_key i k) (fail_row now reason) d.media_streams;
}

-- The stream that the failed table holds.
failed_stream :
    (d : Db) (now : ℕ) (i k reason : String) (st : MediaStream)
    → find_stream i k d ≡ some st
    → is_open st.status ≡ true
    → find_stream i k (failed_db now i k reason d) ≡ some (fail_row now reason st)
failed_stream d now i k reason st g o = ground (
  arith,
  find_row_sound (stream_key i k) d.media_streams st g,
  find_row-update_where (stream_key i k) (open_stream_key i k) (fail_row now reason) (λ x. refl)
      d.media_streams,
)

-- No stream is left open under the key.
none_open :
    (now : ℕ) (i k reason : String) (l : List MediaStream)
    → any_row (open_stream_key i k) (update_where (open_stream_key i k) (fail_row now reason) l)
      ≡ false
unfolding any_row update_where
none_open now i k reason [] = refl
none_open now i k reason (x ∷ l) = ground (arith, none_open now i k reason l)

-- An open stream of an active incident fails: the call succeeds, the stream that it returns has the
-- status failed, the reason, the time of the call as the time of failure and of update, no time of
-- completion, and all else as before, and it is the stream that is stored. In the database that the
-- call left, the stream can neither be failed again nor be completed, at any time and with any
-- positive count.
pub fail_media_stream-open :
    (d : Db) (now later count : ℕ) (i k reason other : String) (r : Incident) (st : MediaStream)
    → find_incident i d ≡ some r
    → is_active r.deletion_state ≡ true
    → find_stream i k d ≡ some st
    → is_open st.status ≡ true
    → (d' : Db) × (st' : MediaStream) × (fail_media_stream now i k reason d ≡ ok (st', d'))
      × (get_media_stream i k d' ≡ ok (st', d'))
      × IsFailedAs now reason st st'
      × (fail_media_stream later i k other d' ≡ err Error.invalid_state)
      × (complete_media_stream later i k (suc count) d' ≡ err Error.invalid_state)
unfolding fail_media_stream get_media_stream complete_media_stream
fail_media_stream-open d now later count i k reason other r st f a g o =
    let s = failed_stream d now i k reason st g o in
    let n = none_open now i k reason d.media_streams in
    (
      failed_db now i k reason d,
      fail_row now reason st,
      ground (arith, open_row_of i k d.media_streams st g o, s),
      ground (arith, s),
      failed_row now reason st,
      ground (arith, s, n),
      ground (arith, s, n),
    )
