-- ===== src/System/Sealed/Uploads.antt =====
-- Sealed streams when streams are created or fail and chunks are added.
use safety_recorder.System.Sealed.Defs.{SameSealed}
use safety_recorder.Repository.Chunks.{create_chunk, new_chunk}
use safety_recorder.Base.{
  ℕ, String, ◌≡◌, refl, ap, ◌∙◌, true, false, some, arith, ◌==◌, select, find_row, find_row-append,
  sym, find_row-update_where, Bool-cases, inl, inr, select-append_ne, eq_of_==,
}
use safety_recorder.Model.{MediaType, MediaStream, Chunk, is_complete, Db, after, CreateChunkParams}
use safety_recorder.Repository.Streams.{
  stream_key, find_stream, in_stream, new_stream, create_media_stream, fail_media_stream,
  open_stream_key, fail_row,
}

pub create_stream-SameSealed :
    (d : Db) (now : ℕ) (id i : String) (m : MediaType) (label : String)
    → SameSealed d (after d (create_media_stream now id i m label d))
unfolding create_media_stream
create_stream-SameSealed d now id i m label j k st f c =
    ground (arith, find_row-append (stream_key j k) d.media_streams (new_stream now id i m label))

pub fail_stream-SameSealed :
    (d : Db) (now : ℕ) (i id reason : String)
    → SameSealed d (after d (fail_media_stream now i id reason d))
unfolding fail_media_stream
fail_stream-SameSealed d now i id reason j k st f c = ground (
  arith,
  find_row-update_where (stream_key j k) (open_stream_key i id) (fail_row now reason) (λ x. refl)
      d.media_streams,
)

-- A chunk that is accepted into a stream finds the stream open.
pub add_chunk-is_open :
    (d : Db) (now : ℕ) (id : String) (p : CreateChunkParams) (st : MediaStream)
    → find_stream p.incident_id p.stream_id d ≡ some st
    → (p.stream_id == "") ≡ false
    → is_complete st.status ≡ true
    → after d (create_chunk now id p d) ≡ d
unfolding create_chunk
add_chunk-is_open d now id p st f n c = ground arith

pub in_stream-true :
    (j k : String) (c : Chunk)
    → in_stream j k c ≡ true
    → (c.incident_id ≡ j) × (c.stream_id ≡ k) × ((c.stream_id == "") ≡ false)
in_stream-true j k c h = ground (arith, eq_of_== c.incident_id j, eq_of_== c.stream_id k)

pub add_chunk-streams :
    (d : Db) (now : ℕ) (id : String) (p : CreateChunkParams)
    → (after d (create_chunk now id p d)).media_streams ≡ d.media_streams
unfolding create_chunk
add_chunk-streams d now id p = ground arith

-- A chunk goes into another stream, or into none that is complete.
pub add_chunk-stream_chunks :
    (d : Db) (now : ℕ) (id : String) (p : CreateChunkParams) (j k : String) (st : MediaStream)
    → find_stream j k d ≡ some st
    → is_complete st.status ≡ true
    → select (in_stream j k) (after d (create_chunk now id p d)).chunks
      ≡ select (in_stream j k) d.chunks
unfolding create_chunk
add_chunk-stream_chunks d now id p j k st f c =
    elim (Bool-cases (in_stream j k (new_chunk now id p))) [
      | inl e ↦
          let t = in_stream-true j k (new_chunk now id p) e in
          ap (λ (x : Db). select (in_stream j k) x.chunks)
            (add_chunk-is_open d now id p st
              (ap (λ a. find_stream a p.stream_id d) t.0 ∙ (ap (λ a. find_stream j a d) t.1 ∙ f))
              t.2 c)
      | inr e ↦ ground (arith, select-append_ne (in_stream j k) d.chunks (new_chunk now id p) e)
    ]

pub add_chunk-SameSealed :
    (d : Db) (now : ℕ) (id : String) (p : CreateChunkParams)
    → SameSealed d (after d (create_chunk now id p d))
add_chunk-SameSealed d now id p j k st f c =
    let g = sym (ap (find_row (stream_key j k)) (add_chunk-streams d now id p)) ∙ f in
    (g, add_chunk-stream_chunks d now id p j k st g c)
