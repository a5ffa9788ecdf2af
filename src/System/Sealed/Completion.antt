-- ===== src/System/Sealed/Completion.antt =====
-- Sealed streams when a stream is completed.
use safety_recorder.System.Sealed.Defs.{IsSealed}
use safety_recorder.Base.{
  ℕ, String, ◌≡◌, refl, ◌∙◌, some, arith, sym, find_row-update_where, ◌⊎◌, inl, inr, eq_of_==,
  update_where, Option-cases, find_row_sound, subst, subst₂,
}
use safety_recorder.Model.{MediaStream, Db, after}
use safety_recorder.Repository.Streams.{
  stream_key, find_stream, stream_chunks, count_rows, open_stream_key, complete_media_stream,
  complete_row,
}

-- The streams after `CompleteMediaStream` has written.
abbrev pub completed : ℕ → String → String → ℕ → Db → Db
completed now i id n d = record d {
  media_streams = update_where (open_stream_key i id) (complete_row now n) d.media_streams;
}

pub complete_stream-validated :
    (d : Db) (now : ℕ) (i id : String) (n : ℕ) (st : MediaStream)
    → find_stream i id (completed now i id n d) ≡ some st
    → (after d (complete_media_stream now i id n d) ≡ d)
      ⊎ ((after d (complete_media_stream now i id n d) ≡ completed now i id n d)
          × (count_rows st.media_type 0 (stream_chunks i id d) ≡ some n))
unfolding complete_media_stream
complete_stream-validated d now i id n st f = ground arith

pub complete_stream-writes :
    (d : Db) (now : ℕ) (i id : String) (n : ℕ)
    → (after d (complete_media_stream now i id n d) ≡ d)
      ⊎ (after d (complete_media_stream now i id n d) ≡ completed now i id n d)
unfolding complete_media_stream
complete_stream-writes d now i id n = ground arith

-- A complete stream was complete before, or is the one that was completed.
pub completed_origin :
    (d : Db) (now : ℕ) (i id : String) (n : ℕ) (j k : String) (st : MediaStream)
    → find_stream j k (completed now i id n d) ≡ some st
    → (find_stream j k d ≡ some st) ⊎ ((j ≡ i) × (k ≡ id) × (st.expected_chunk_count ≡ some n))
completed_origin d now i id n j k st f = elim (Option-cases (find_stream j k d)) [
  | inl e ↦ ground (
    arith,
    find_row-update_where (stream_key j k) (open_stream_key i id) (complete_row now n) (λ x. refl)
        d.media_streams,
  )
  | inr (x, e) ↦ ground (
    arith,
    find_row-update_where (stream_key j k) (open_stream_key i id) (complete_row now n) (λ x. refl)
        d.media_streams,
    find_row_sound (stream_key j k) d.media_streams x e,
    eq_of_== x.incident_id j,
    eq_of_== x.incident_id i,
    eq_of_== x.id k,
    eq_of_== x.id id,
  )
]

pub completed-IsSealed :
    (d : Db) (now : ℕ) (i id : String) (n : ℕ)
    → IsSealed d
    → after d (complete_media_stream now i id n d) ≡ completed now i id n d
    → IsSealed (completed now i id n d)
completed-IsSealed d now i id n h e j k st f c = elim (completed_origin d now i id n j k st f) [
  | inl old ↦ h j k st old c
  | inr (ej, ek, ex) ↦
      elim (complete_stream-validated d now i id n st
        (subst₂ (λ a b. find_stream a b (completed now i id n d) ≡ some st) ej ek f)) [
          | inl unchanged ↦ subst IsSealed (sym unchanged ∙ e) h j k st f c
          | inr (_, counted) ↦ (
            n,
            ex,
            subst₂ (λ a b. count_rows st.media_type 0 (stream_chunks a b d) ≡ some n) (sym ej)
                (sym ek) counted,
          )
        ]
]

pub complete_stream-IsSealed :
    (d : Db) (now : ℕ) (i id : String) (n : ℕ)
    → IsSealed d
    → IsSealed (after d (complete_media_stream now i id n d))
complete_stream-IsSealed d now i id n h = elim (complete_stream-writes d now i id n) [
  | inl e ↦ subst IsSealed (sym e) h
  | inr e ↦ subst IsSealed (sym e) (completed-IsSealed d now i id n h e)
]
