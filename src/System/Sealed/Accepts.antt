-- ===== src/System/Sealed/Accepts.antt =====
-- `CompleteMediaStream` of internal/incidents/streams.go accepts every contiguous stream.
use safety_recorder.Repository.Streams.Terminal.{open_row_of}
use safety_recorder.Repository.Incidents.{find_incident}
use safety_recorder.System.Sealed.Contiguous.{count_up, IsContiguous}
use safety_recorder.Model.{
  MediaType, Chunk, same_media, Db, Incident, MediaStream, is_active, is_open, ok,
}
use safety_recorder.Repository.Streams.{
  complete_media_stream, count_rows, get_media_stream, find_stream, stream_chunks, complete_row,
  stream_key, open_stream_key,
}
use safety_recorder.Base.{
  update_where, ℕ, zero, suc, [], ◌∷◌, ◌+◌, ◌≡◌, String, List, some, arith, true, false, map, All,
  subst, sym, eqb, find_row_sound, find_row-update_where, update_where, ◌∙◌, ap, refl,
}

same_media_refl : (m : MediaType) → same_media m m ≡ true
same_media_refl m = ground arith

count_rows_complete :
    (m : MediaType) (c n : ℕ) (rows : List Chunk)
    → map (λ (r : Chunk). r.chunk_index) rows ≡ count_up c n
    → All (λ (r : Chunk). r.media_type ≡ m) rows
    → count_rows m c rows ≡ some (c + n)
unfolding count_rows
count_rows_complete m c zero [] e a = ground arith
count_rows_complete m c (suc n) [] e a = ground arith
count_rows_complete m c zero (r ∷ rows) e a = ground arith
count_rows_complete m c (suc n) (r ∷ rows) e a =
    let same : same_media r.media_type m ≡ true =
      subst (λ x. same_media x m ≡ true) (sym a.0) (same_media_refl m) in
    ground (arith, count_rows_complete m (suc c) n rows)

-- An open stream of an active incident whose chunk rows have the indices 1 to n, each once and in
-- order, and its media type is completed by a call that expects n chunks, for a positive n, and the
-- stream that the call returns is the one that is stored.
pub contiguous_stream_completes :
    (d : Db) (now : ℕ) (i k : String) (n : ℕ) (r : Incident) (st : MediaStream)
    → find_incident i d ≡ some r
    → is_active r.deletion_state ≡ true
    → find_stream i k d ≡ some st
    → is_open st.status ≡ true
    → eqb n 0 ≡ false
    → IsContiguous st.media_type n (stream_chunks i k d)
    → (d' : Db) × (complete_media_stream now i k n d ≡ ok (complete_row now n st, d'))
      × (get_media_stream i k d' ≡ ok (complete_row now n st, d'))
unfolding complete_media_stream get_media_stream
contiguous_stream_completes d now i k n r st f a g o z c =
    let counted : count_rows st.media_type 0 (stream_chunks i k d) ≡ some n =
      count_rows_complete st.media_type 0 n (stream_chunks i k d) c.indices c.media
      ∙ ap some (omega arith) in
    let open_row = open_row_of i k d.media_streams st g o in
    let keyed = find_row_sound (stream_key i k) d.media_streams st g in
    let updated =
      find_row-update_where (stream_key i k) (open_stream_key i k) (complete_row now n) (λ x. refl)
        d.media_streams in
    (
      record d {
        media_streams = update_where (open_stream_key i k) (complete_row now n) d.media_streams;
      },
      ground (arith, counted, open_row, keyed, updated),
      ground (arith, counted, open_row, keyed, updated),
    )
