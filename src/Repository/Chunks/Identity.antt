-- ===== src/Repository/Chunks/Identity.antt =====
-- The identity of a chunk (internal/incidents/chunks.go): what is stored is found under it, and no
-- second chunk is stored under it.
use safety_recorder.Model.{CreateChunkParams, Db, Chunk, ok}
use safety_recorder.Repository.Chunks.{create_chunk, get_chunk_by_identity, identity_key, new_chunk}
use safety_recorder.Base.{ℕ, arith, String, ◌≡◌, true, ==_refl, any_row-eq-is_some, find_row-append}

identity_key-new :
    (now : ℕ) (id : String) (p : CreateChunkParams)
    → identity_key p.incident_id p.stream_id p.media_type p.chunk_index (new_chunk now id p) ≡ true
identity_key-new now id p = ground (arith, ==_refl p.incident_id, ==_refl p.stream_id)

-- A chunk that is created is the chunk that its identity finds.
pub get_chunk_by_identity-create_chunk :
    (d d' : Db) (now : ℕ) (id : String) (p : CreateChunkParams) (c : Chunk)
    → create_chunk now id p d ≡ ok (c, d')
    → get_chunk_by_identity p.incident_id p.stream_id p.media_type p.chunk_index d' ≡ ok (c, d')
unfolding create_chunk get_chunk_by_identity
get_chunk_by_identity-create_chunk d d' now id p c e = ground (
  arith,
  identity_key-new now id p,
  any_row-eq-is_some (identity_key p.incident_id p.stream_id p.media_type p.chunk_index) d.chunks,
  find_row-append (identity_key p.incident_id p.stream_id p.media_type p.chunk_index) d.chunks
      (new_chunk now id p),
)
