-- ===== src/System/Evidence.antt =====
-- Chunks as evidence: what any sequence of repository calls does to a chunk that is stored.
use safety_recorder.Repository.Sharing.Frame.{share-SameEvidence}
use safety_recorder.System.Pruned.Run.{
  completed_needs_decision, completed_status, completed_deletion_prunes,
}
use safety_recorder.System.Inactive.Run.{run-inactive}
use safety_recorder.System.Inactive.Defs.{inactive_in}
use safety_recorder.System.Frame.{
  SameMedia, create_incident-SameMedia, close-SameMedia, checkin-SameMedia, token-SameMedia,
  revoke-SameMedia, reserve-SameMedia, complete_upload-SameMedia, request-frame, claim-SameMedia,
  item_deleted-SameMedia, item_failed-SameMedia, fail_deletion-SameMedia,
}
use safety_recorder.Repository.Chunks.{create_chunk, new_chunk}
use safety_recorder.Repository.Streams.{
  complete_media_stream, create_media_stream, fail_media_stream,
}
use safety_recorder.Model.{
  Chunk, Db, IncidentDeletionStatus, after, ok, CreateChunkParams, MediaType, Result-cases,
}
use safety_recorder.Repository.Deletion.Process.{complete_incident_deletion, find_decision}
use safety_recorder.System.{exec, run, Command}
use safety_recorder.Base.{
  ℕ, arith, ◌≡◌, ◌∷◌, [], ◌==◌, String, List, Option, some, find_row, inl, ◌⊎◌, ap, delete_where,
  inr, Option-cases, find_row-append, true, ◌∙◌, Bool-cases, subst, sym, eq_of_==,
  find_row-delete_where_keep,
}

abbrev pub find_chunk : String → Db → Option Chunk
find_chunk id d = find_row (λ (r : Chunk). r.id == id) d.chunks

-- The chunk is stored as it was, or its incident is known and no longer active.
abbrev pub IsKept : String → Chunk → Db → Type 0
IsKept id c d = (find_chunk id d ≡ some c) ⊎ (inactive_in c.incident_id d.incidents ≡ true)

same_chunks :
    (id : String) (c : Chunk) (d e : Db) → find_chunk id d ≡ some c → SameMedia d e → IsKept id c e
same_chunks id c d e f s = inl (ap (find_row (λ (r : Chunk). r.id == id)) s.1 ∙ f)

module _ (id : String) (c : Chunk) (d : Db) (f : find_chunk id d ≡ some c) where
  add_chunk-IsKept :
      (now : ℕ) (other : String) (p : CreateChunkParams)
      → IsKept id c (after d (create_chunk now other p d))
  unfolding create_chunk
  add_chunk-IsKept now other p =
      ground (arith, find_row-append (λ (r : Chunk). r.id == id) d.chunks (new_chunk now other p))

  create_stream-IsKept :
      (now : ℕ) (k i : String) (m : MediaType) (label : String)
      → IsKept id c (after d (create_media_stream now k i m label d))
  unfolding create_media_stream
  create_stream-IsKept now k i m label = ground arith

  complete_stream-IsKept :
      (now : ℕ) (i k : String) (n : ℕ) → IsKept id c (after d (complete_media_stream now i k n d))
  unfolding complete_media_stream
  complete_stream-IsKept now i k n = ground arith

  fail_stream-IsKept :
      (now : ℕ) (i k reason : String) → IsKept id c (after d (fail_media_stream now i k reason d))
  unfolding fail_media_stream
  fail_stream-IsKept now i k reason = ground arith

completed-chunks :
    (d d' : Db) (now : ℕ) (audit id : String) (status : IncidentDeletionStatus)
    → complete_incident_deletion now audit id d ≡ ok (status, d')
    → d'.chunks ≡ delete_where (λ (r : Chunk). r.incident_id == status.incident_id) d.chunks
unfolding complete_incident_deletion
completed-chunks d d' now audit id status e = elim (Option-cases (find_decision id d)) [
  | inl f ↦ absurd (completed_needs_decision d d' now audit id status e f)
  | inr (x, f) ↦
      let q = completed_status d d' now audit id status x e f in
      subst (λ i. d'.chunks ≡ delete_where (λ (r : Chunk). r.incident_id == i) d.chunks) (sym q)
        (ground arith)
]

completed_chunk :
    (id : String) (c : Chunk) (d d' : Db) (status : IncidentDeletionStatus)
    → find_chunk id d ≡ some c
    → d'.chunks ≡ delete_where (λ (r : Chunk). r.incident_id == status.incident_id) d.chunks
    → inactive_in status.incident_id d'.incidents ≡ true
    → IsKept id c d'
completed_chunk id c d d' status f s h = elim (Bool-cases (c.incident_id == status.incident_id)) [
  | inl q ↦ inr (
      subst (λ i. inactive_in i d'.incidents ≡ true)
        (sym (eq_of_== c.incident_id status.incident_id q)) h)
  | inr n ↦ inl (
      ap (find_row (λ (r : Chunk). r.id == id)) s
      ∙ find_row-delete_where_keep (λ (r : Chunk). r.id == id)
          (λ (r : Chunk). r.incident_id == status.incident_id) d.chunks c f n)
]

complete_deletion-IsKept :
    (id : String) (c : Chunk) (d : Db) (now : ℕ) (audit decision : String)
    → find_chunk id d ≡ some c
    → IsKept id c (after d (complete_incident_deletion now audit decision d))
complete_deletion-IsKept id c d now audit decision f =
    elim (Result-cases (complete_incident_deletion now audit decision d)) [
      | inr (x, e) ↦ rw e (inl f)
      | inl ((status, d'), e) ↦ rw e (
          completed_chunk id c d d' status f (completed-chunks d d' now audit decision status e)
            (completed_deletion_prunes d d' now audit decision status e).0)
    ]

module _ (hash : String → String) where
  exec-IsKept :
      (id : String) (c : Chunk) (m : Command) (d : Db)
      → find_chunk id d ≡ some c
      → IsKept id c (exec hash m d)
  unfolding exec
  exec-IsKept id c (Command.create_incident now j account p) d f =
      same_chunks id c d (exec hash (Command.create_incident now j account p) d) f
        (create_incident-SameMedia d now j account p)
  exec-IsKept id c (Command.close now j) d f =
      same_chunks id c d (exec hash (Command.close now j) d) f (close-SameMedia d now j)
  exec-IsKept id c (Command.create_stream now k i m label) d f =
      create_stream-IsKept id c d f now k i m label
  exec-IsKept id c (Command.complete_stream now i k n) d f =
      complete_stream-IsKept id c d f now i k n
  exec-IsKept id c (Command.fail_stream now i k reason) d f =
      fail_stream-IsKept id c d f now i k reason
  exec-IsKept id c (Command.add_chunk now other p) d f = add_chunk-IsKept id c d f now other p
  exec-IsKept id c (Command.add_checkin now j i p) d f =
      same_chunks id c d (exec hash (Command.add_checkin now j i p) d) f
        (checkin-SameMedia d now j i p)
  exec-IsKept id c (Command.create_token now j raw i label expires) d f =
      same_chunks id c d (exec hash (Command.create_token now j raw i label expires) d) f
        (token-SameMedia d hash now j raw i label expires)
  exec-IsKept id c (Command.revoke_token now j) d f =
      same_chunks id c d (exec hash (Command.revoke_token now j) d) f (revoke-SameMedia d now j)
  exec-IsKept id c (Command.reserve_upload now j p) d f =
      same_chunks id c d (exec hash (Command.reserve_upload now j p) d) f
        (reserve-SameMedia d now j p)
  exec-IsKept id c (Command.complete_upload now p chunk) d f =
      same_chunks id c d (exec hash (Command.complete_upload now p chunk) d) f
        (complete_upload-SameMedia d now p chunk)
  exec-IsKept id c (Command.request_deletion now j ids p) d f =
      same_chunks id c d (exec hash (Command.request_deletion now j ids p) d) f
        (request-frame now j ids p d).0.media
  exec-IsKept id c (Command.claim_deletion now j stale) d f =
      same_chunks id c d (exec hash (Command.claim_deletion now j stale) d) f
        (claim-SameMedia d now j stale)
  exec-IsKept id c (Command.item_deleted now j) d f =
      same_chunks id c d (exec hash (Command.item_deleted now j) d) f
        (item_deleted-SameMedia d now j)
  exec-IsKept id c (Command.item_failed now j code) d f =
      same_chunks id c d (exec hash (Command.item_failed now j code) d) f
        (item_failed-SameMedia d now j code)
  exec-IsKept id c (Command.complete_deletion now audit j) d f =
      complete_deletion-IsKept id c d now audit j f
  exec-IsKept id c (Command.fail_deletion now j code) d f =
      same_chunks id c d (exec hash (Command.fail_deletion now j code) d) f
        (fail_deletion-SameMedia d now j code)
  exec-IsKept id c (Command.sharing m) d f =
      let s = share-SameEvidence m d in
      same_chunks id c d (exec hash (Command.sharing m) d) f (s.media_streams, s.chunks)

  -- A stored chunk is found unchanged under its identifier after any of the modelled writing calls in
  -- any order, unless its incident has left the active state.
  pub stored_chunk-IsKept :
      (id : String) (c : Chunk) (cs : List Command) (d : Db)
      → find_chunk id d ≡ some c
      → IsKept id c (run hash cs d)
  unfolding run
  stored_chunk-IsKept id c [] d f = inl f
  stored_chunk-IsKept id c (m ∷ cs) d f = elim (exec-IsKept id c m d f) [
    | inl g ↦ stored_chunk-IsKept id c cs (exec hash m d) g
    | inr h ↦ inr (run-inactive hash c.incident_id cs (exec hash m d) h)
  ]
