-- ===== src/System/Sealed/Pruning.antt =====
-- Sealed streams when a deletion prunes the metadata of an incident.
use safety_recorder.System.Sealed.Defs.{SameSealed}
use safety_recorder.Repository.Deletion.Process.{complete_incident_deletion, find_decision}
use safety_recorder.Base.{
  ℕ, String, ◌≡◌, ap, ◌∙◌, true, false, some, arith, ◌==◌, select, find_row, sym, ◌⊎◌, Bool-cases,
  inl, inr, eq_of_==, Option-cases, delete_where, find_row-delete_where_all, none,
  find_row-delete_where_none, select-delete_where_none,
}
use safety_recorder.Model.{MediaStream, Chunk, Db, after, IncidentDeletionStatus}
use safety_recorder.Repository.Streams.{stream_key, find_stream, in_stream}

-- The streams and chunks of a database from which one incident's rows are deleted.
abbrev pub SamePruned : Db → Db → Type 0
SamePruned d e =
    (e ≡ d)
    ⊎ ((x : String) × (e.media_streams
          ≡ delete_where (λ (r : MediaStream). r.incident_id == x) d.media_streams)
        × (e.chunks ≡ delete_where (λ (r : Chunk). r.incident_id == x) d.chunks))

pub complete_deletion-writes :
    (d : Db) (now : ℕ) (audit id : String) (status : IncidentDeletionStatus)
    → find_decision id d ≡ some status
    → let e = after d (complete_incident_deletion now audit id d) in
      (e ≡ d)
      ⊎ ((e.media_streams
            ≡ delete_where
                (λ (r : MediaStream). r.incident_id == status.incident_id)
                d.media_streams)
          × (e.chunks ≡ delete_where (λ (r : Chunk). r.incident_id == status.incident_id) d.chunks))
unfolding complete_incident_deletion
complete_deletion-writes d now audit id status f = ground arith

pub complete_deletion-none :
    (d : Db) (now : ℕ) (audit id : String)
    → find_decision id d ≡ none
    → after d (complete_incident_deletion now audit id d) ≡ d
unfolding complete_incident_deletion
complete_deletion-none d now audit id f = ground arith

pub complete_deletion-SamePruned :
    (d : Db) (now : ℕ) (audit id : String)
    → SamePruned d (after d (complete_incident_deletion now audit id d))
complete_deletion-SamePruned d now audit id = elim (Option-cases (find_decision id d)) [
  | inl e ↦ inl (complete_deletion-none d now audit id e)
  | inr (status, e) ↦ elim (complete_deletion-writes d now audit id status e) [
    | inl same ↦ inl same
    | inr pruned ↦ inr (status.incident_id, pruned.0, pruned.1)
  ]
]

pub other_incident_stream :
    (j k x : String) (r : MediaStream)
    → (j == x) ≡ false
    → stream_key j k r ≡ true
    → (r.incident_id == x) ≡ false
other_incident_stream j k x r n h = ground (arith, eq_of_== r.incident_id j)

pub same_incident_stream :
    (j k x : String) (r : MediaStream)
    → (j == x) ≡ true
    → stream_key j k r ≡ true
    → (r.incident_id == x) ≡ true
same_incident_stream j k x r n h = ground (arith, eq_of_== r.incident_id j)

pub other_incident_chunk :
    (j k x : String) (r : Chunk)
    → (j == x) ≡ false
    → in_stream j k r ≡ true
    → (r.incident_id == x) ≡ false
other_incident_chunk j k x r n h = ground (arith, eq_of_== r.incident_id j)

pub SamePruned-SameSealed : (d e : Db) → SamePruned d e → SameSealed d e
SamePruned-SameSealed d e (inl same) j k st f c =
    (ap (find_stream j k) (sym same) ∙ f, ap (λ (x : Db). select (in_stream j k) x.chunks) same)
SamePruned-SameSealed d e (inr (x, es, ec)) j k st f c = elim (Bool-cases (j == x)) [
  | inl y ↦ cc (
    f,
    es,
    find_row-delete_where_all (stream_key j k) (λ (r : MediaStream). r.incident_id == x)
        (λ r. same_incident_stream j k x r y) d.media_streams,
  )
  | inr n ↦ (
    sym (
          find_row-delete_where_none (stream_key j k) (λ (r : MediaStream). r.incident_id == x)
            (λ r. other_incident_stream j k x r n) d.media_streams)
        ∙ (sym (ap (find_row (stream_key j k)) es) ∙ f),
    ap (select (in_stream j k)) ec
        ∙ select-delete_where_none (in_stream j k) (λ (r : Chunk). r.incident_id == x)
            (λ r. other_incident_chunk j k x r n) d.chunks,
  )
]
