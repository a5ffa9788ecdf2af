-- ===== src/System/Latch/Run.antt =====
-- Latched incidents over any sequence of repository calls.
use safety_recorder.Repository.Sharing.Frame.{share-SameEvidence}
use safety_recorder.Repository.Streams.{
  complete_media_stream, create_media_stream, fail_media_stream,
}
use safety_recorder.Repository.Chunks.{create_chunk}
use safety_recorder.Repository.Checkins.{create_checkin}
use safety_recorder.Repository.Tokens.{create_incident_token, revoke_incident_token}
use safety_recorder.Repository.Uploads.{complete_upload_operation, reserve_upload_operation}
use safety_recorder.Repository.Deletion.Process.{
  mark_incident_deletion_item_deleted, mark_incident_deletion_item_failed,
}
use safety_recorder.System.Latch.Calls.{
  create_incident-latched, close-latched, request-latched, claim-latched, complete_deletion-latched,
  fail_deletion-latched,
}
use safety_recorder.System.Latch.Defs.{latched_in, IsLatch}
use safety_recorder.Base.{ℕ, String, ◌≡◌, List, [], ◌∷◌, Option, true, subst, sym, arith, Bool}
use safety_recorder.Model.{
  Db, CreateCheckinParams, CreateChunkParams, MediaType, UploadOperationParams, after, Chunk,
  Incident,
}
use safety_recorder.System.{Command, exec, run}

-- These calls leave the table of incidents alone.
module _ (hash : String → String) (d : Db) where
  pub create_stream-incidents :
      (now : ℕ) (id j : String) (m : MediaType) (label : String)
      → (after d (create_media_stream now id j m label d)).incidents ≡ d.incidents
  unfolding create_media_stream
  create_stream-incidents now id j m label = ground arith

  pub complete_stream-incidents :
      (now : ℕ) (j k : String) (n : ℕ)
      → (after d (complete_media_stream now j k n d)).incidents ≡ d.incidents
  unfolding complete_media_stream
  complete_stream-incidents now j k n = ground arith

  pub fail_stream-incidents :
      (now : ℕ) (j k reason : String)
      → (after d (fail_media_stream now j k reason d)).incidents ≡ d.incidents
  unfolding fail_media_stream
  fail_stream-incidents now j k reason = ground arith

  pub add_chunk-incidents :
      (now : ℕ) (id : String) (p : CreateChunkParams)
      → (after d (create_chunk now id p d)).incidents ≡ d.incidents
  unfolding create_chunk
  add_chunk-incidents now id p = ground arith

  pub add_checkin-incidents :
      (now : ℕ) (id j : String) (p : CreateCheckinParams)
      → (after d (create_checkin now id j p d)).incidents ≡ d.incidents
  unfolding create_checkin
  add_checkin-incidents now id j p = ground arith

  pub create_token-incidents :
      (now : ℕ) (id raw j label : String) (expires : Option ℕ)
      → (after d (create_incident_token hash now id raw j label expires d)).incidents ≡ d.incidents
  unfolding create_incident_token
  create_token-incidents now id raw j label expires = ground arith

  pub revoke_token-incidents :
      (now : ℕ) (id : String) → (after d (revoke_incident_token now id d)).incidents ≡ d.incidents
  unfolding revoke_incident_token
  revoke_token-incidents now id = ground arith

  pub reserve_upload-incidents :
      (now : ℕ) (id : String) (p : UploadOperationParams)
      → (after d (reserve_upload_operation now id p d)).incidents ≡ d.incidents
  unfolding reserve_upload_operation
  reserve_upload-incidents now id p = ground arith

  pub complete_upload-incidents :
      (now : ℕ) (p : UploadOperationParams) (c : Chunk)
      → (after d (complete_upload_operation now p c d)).incidents ≡ d.incidents
  unfolding complete_upload_operation
  complete_upload-incidents now p c = ground arith

  pub item_deleted-incidents :
      (now : ℕ) (id : String)
      → (after d (mark_incident_deletion_item_deleted now id d)).incidents ≡ d.incidents
  unfolding mark_incident_deletion_item_deleted
  item_deleted-incidents now id = ground arith

  pub item_failed-incidents :
      (now : ℕ) (id code : String)
      → (after d (mark_incident_deletion_item_failed now id code d)).incidents ≡ d.incidents
  unfolding mark_incident_deletion_item_failed
  item_failed-incidents now id code = ground arith

module _ (hash : String → String) where
  same_incidents :
      (live : Incident → Bool) (i : String) (d e : Db)
      → e.incidents ≡ d.incidents
      → latched_in live i d.incidents ≡ true
      → latched_in live i e.incidents ≡ true
  same_incidents live i d e s = subst (λ l. latched_in live i l ≡ true) (sym s)

  -- One call leaves a latched incident latched.
  pub exec-latched :
      (live : Incident → Bool) (latch : IsLatch live) (i : String) (c : Command) (d : Db)
      → latched_in live i d.incidents ≡ true
      → latched_in live i (exec hash c d).incidents ≡ true
  unfolding exec
  exec-latched live latch i (Command.create_incident now id account p) d h =
      create_incident-latched live latch d i h now id account p
  exec-latched live latch i (Command.close now id) d h = close-latched live latch d i h now id
  exec-latched live latch i (Command.request_deletion now id ids p) d h =
      request-latched live latch d i h now id ids p
  exec-latched live latch i (Command.claim_deletion now id stale) d h =
      claim-latched live latch d i h now id stale
  exec-latched live latch i (Command.complete_deletion now audit id) d h =
      complete_deletion-latched live latch d i h now audit id
  exec-latched live latch i (Command.fail_deletion now id code) d h =
      fail_deletion-latched live latch d i h now id code
  exec-latched live latch i (Command.create_stream now id j m label) d h =
      same_incidents live i d (exec hash (Command.create_stream now id j m label) d)
        (create_stream-incidents hash d now id j m label) h
  exec-latched live latch i (Command.complete_stream now j k n) d h =
      same_incidents live i d (exec hash (Command.complete_stream now j k n) d)
        (complete_stream-incidents hash d now j k n) h
  exec-latched live latch i (Command.fail_stream now j k reason) d h =
      same_incidents live i d (exec hash (Command.fail_stream now j k reason) d)
        (fail_stream-incidents hash d now j k reason) h
  exec-latched live latch i (Command.add_chunk now id p) d h =
      same_incidents live i d (exec hash (Command.add_chunk now id p) d)
        (add_chunk-incidents hash d now id p) h
  exec-latched live latch i (Command.add_checkin now id j p) d h =
      same_incidents live i d (exec hash (Command.add_checkin now id j p) d)
        (add_checkin-incidents hash d now id j p) h
  exec-latched live latch i (Command.create_token now id raw j label expires) d h =
      same_incidents live i d (exec hash (Command.create_token now id raw j label expires) d)
        (create_token-incidents hash d now id raw j label expires) h
  exec-latched live latch i (Command.revoke_token now id) d h =
      same_incidents live i d (exec hash (Command.revoke_token now id) d)
        (revoke_token-incidents hash d now id) h
  exec-latched live latch i (Command.reserve_upload now id p) d h =
      same_incidents live i d (exec hash (Command.reserve_upload now id p) d)
        (reserve_upload-incidents hash d now id p) h
  exec-latched live latch i (Command.complete_upload now p c) d h =
      same_incidents live i d (exec hash (Command.complete_upload now p c) d)
        (complete_upload-incidents hash d now p c) h
  exec-latched live latch i (Command.item_deleted now id) d h =
      same_incidents live i d (exec hash (Command.item_deleted now id) d)
        (item_deleted-incidents hash d now id) h
  exec-latched live latch i (Command.item_failed now id code) d h =
      same_incidents live i d (exec hash (Command.item_failed now id code) d)
        (item_failed-incidents hash d now id code) h
  exec-latched live latch i (Command.sharing c) d h =
      same_incidents live i d (exec hash (Command.sharing c) d) (share-SameEvidence c d).incidents h

  pub run-latched :
      (live : Incident → Bool) (latch : IsLatch live) (i : String) (cs : List Command) (d : Db)
      → latched_in live i d.incidents ≡ true
      → latched_in live i (run hash cs d).incidents ≡ true
  unfolding run
  run-latched live latch i [] d h = h
  run-latched live latch i (c ∷ cs) d h =
      run-latched live latch i cs (exec hash c d) (exec-latched live latch i c d h)
