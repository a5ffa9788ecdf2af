-- ===== src/Repository/Chunks/Quota.antt =====
-- The account blob quota of internal/incidents/chunks.go.
use safety_recorder.Repository.Incidents.{find_incident}
use safety_recorder.Model.{Db, Chunk, CreateChunkParams, Incident, ok}
use safety_recorder.Repository.Chunks.{committed_bytes, create_chunk, new_chunk, owned_by}
use safety_recorder.Base.{
  ℕ, arith, sum_of, String, ◌≡◌, some, ◌++◌, ◌∷◌, ◌==◌, [], false, ◌<◌, ◌≤◌, ◌+◌, select, Bool,
  List,
}

bytes-new :
    (q : Chunk → Bool) (l : List Chunk) (c : Chunk)
    → sum_of (λ (r : Chunk). r.byte_size) (select q (l ++ c ∷ []))
      ≤ sum_of (λ (r : Chunk). r.byte_size) (select q l) + c.byte_size
unfolding sum_of select
bytes-new q [] c = ground arith
bytes-new q (x ∷ xs) c = ground (arith, bytes-new q xs c)

committed_bytes-new :
    (account : String) (d : Db) (c : Chunk)
    → committed_bytes account (record d { chunks = d.chunks ++ c ∷ [] })
      ≤ committed_bytes account d + c.byte_size
unfolding committed_bytes
committed_bytes-new account d c = bytes-new (owned_by account d) d.chunks c

-- A chunk of at least one byte that is accepted under a positive quota, for an incident that an account
-- owns, leaves the account with at most the quota's bytes. (The code does not look at the quota for an
-- empty chunk.)
pub create_chunk-within_quota :
    (d d' : Db) (now : ℕ) (id : String) (p : CreateChunkParams) (c : Chunk) (r : Incident)
    → create_chunk now id p d ≡ ok (c, d')
    → find_incident p.incident_id d ≡ some r
    → (r.owner_account_id == "") ≡ false
    → 0 < p.byte_size
    → 0 < p.account_blob_quota_bytes
    → committed_bytes r.owner_account_id d' ≤ p.account_blob_quota_bytes
unfolding create_chunk
create_chunk-within_quota d d' now id p c r e f o b q =
    ground (arith, committed_bytes-new r.owner_account_id d (new_chunk now id p))
