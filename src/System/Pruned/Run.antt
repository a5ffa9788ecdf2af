-- ===== src/System/Pruned/Run.antt =====
-- Pruned incidents over any sequence of repository calls.
use safety_recorder.System.Pruned.Sharing.{share-IsPruned}
use safety_recorder.System.Pruned.Calls.{
  create_incident-IsPruned, close-IsPruned, create_stream-IsPruned, complete_stream-IsPruned,
  fail_stream-IsPruned, add_chunk-IsPruned, add_checkin-IsPruned, create_token-IsPruned,
  revoke_token-IsPruned, reserve-IsPruned, complete_upload-IsPruned, request-IsPruned,
  claim-IsPruned, item_deleted-IsPruned, item_failed-IsPruned, complete_deletion-IsPruned,
  fail_deletion-IsPruned,
}
use safety_recorder.System.Pruned.Defs.{IsPruned}
use safety_recorder.Repository.Deletion.Process.{
  complete_incident_deletion, find_decision, decision_key, finish_row, tombstone_row,
}
use safety_recorder.System.Inactive.Defs.{inactive_in, active_row}
use safety_recorder.Base.{
  ℕ, String, ◌≡◌, List, [], ◌∷◌, true, arith, Option-cases, any_row, inl, none, some, update_where,
  any_row-eq-is_some, find_row-update_where, inr, subst, ◌==◌, any_row-update_where, sym,
  any_row-delete_where_self, false, refl,
}
use safety_recorder.Model.{
  Db, IncidentDeletionStatus, ok, Incident, MediaStream, Chunk, Checkin, IncidentToken,
  UploadOperation, SharingGrant, WrappedKeyRecord,
}
use safety_recorder.System.{Command, exec, run}
use safety_recorder.System.Inactive.Run.{exec-inactive}

tombstones_inactive :
    (i : String) (now : ℕ) (l : List Incident)
    → any_row (active_row i) (update_where (λ (r : Incident). r.id == i) (tombstone_row now) l)
      ≡ false
unfolding any_row update_where
tombstones_inactive i now [] = refl
tombstones_inactive i now (x ∷ l) = ground (arith, tombstones_inactive i now l)

pub completed_status :
    (d d' : Db) (now : ℕ) (audit id : String) (status x : IncidentDeletionStatus)
    → complete_incident_deletion now audit id d ≡ ok (status, d')
    → find_decision id d ≡ some x
    → status.incident_id ≡ x.incident_id
unfolding complete_incident_deletion
completed_status d d' now audit id status x e f = ground (
  arith,
  find_row-update_where (decision_key id) (decision_key id) (finish_row now) (λ y. refl)
      d.deletion_decisions,
)

pub completed_needs_decision :
    (d d' : Db) (now : ℕ) (audit id : String) (status : IncidentDeletionStatus)
    → complete_incident_deletion now audit id d ≡ ok (status, d')
    → find_decision id d ≡ none
    → ⊥
unfolding complete_incident_deletion
completed_needs_decision d d' now audit id status e f = ground arith

-- The rows that are gone, for the decision `x` that was carried out.
completed_prunes :
    (d d' : Db) (now : ℕ) (audit id : String) (status x : IncidentDeletionStatus)
    → complete_incident_deletion now audit id d ≡ ok (status, d')
    → find_decision id d ≡ some x
    → (inactive_in x.incident_id d'.incidents ≡ true) × IsPruned x.incident_id d'
unfolding complete_incident_deletion
completed_prunes d d' now audit id status x e f =
    let i = x.incident_id in
    ground (
      arith,
      any_row-eq-is_some (λ (r : Incident). r.id == i) d.incidents,
      any_row-update_where (λ (r : Incident). r.id == i) (λ (r : Incident). r.id == i)
          (tombstone_row now) (λ y. refl) d.incidents,
      tombstones_inactive i now d.incidents,
      any_row-delete_where_self (λ (r : MediaStream). r.incident_id == i) d.media_streams,
      any_row-delete_where_self (λ (r : Chunk). r.incident_id == i) d.chunks,
      any_row-delete_where_self (λ (r : Checkin). r.incident_id == i) d.checkins,
      any_row-delete_where_self (λ (r : IncidentToken). r.incident_id == i) d.incident_tokens,
      any_row-delete_where_self (λ (r : UploadOperation). r.incident_id == i) d.upload_operations,
      any_row-delete_where_self (λ (r : SharingGrant). r.incident_id == i) d.sharing_grants,
      any_row-delete_where_self (λ (r : WrappedKeyRecord). r.incident_id == i)
          d.wrapped_key_records,
    )

-- A deletion that completes leaves its incident known, inactive and without child rows.
pub completed_deletion_prunes :
    (d d' : Db) (now : ℕ) (audit id : String) (status : IncidentDeletionStatus)
    → complete_incident_deletion now audit id d ≡ ok (status, d')
    → (inactive_in status.incident_id d'.incidents ≡ true) × IsPruned status.incident_id d'
completed_deletion_prunes d d' now audit id status e = elim (Option-cases (find_decision id d)) [
  | inl f ↦ absurd (completed_needs_decision d d' now audit id status e f)
  | inr (x, f) ↦
      subst (λ i. (inactive_in i d'.incidents ≡ true) × IsPruned i d')
        (sym (completed_status d d' now audit id status x e f))
        (completed_prunes d d' now audit id status x e f)
]

module _ (hash : String → String) where
  exec-IsPruned :
      (i : String) (c : Command) (d : Db)
      → inactive_in i d.incidents ≡ true
      → IsPruned i d
      → IsPruned i (exec hash c d)
  unfolding exec
  exec-IsPruned i (Command.create_incident now id account p) d h v =
      create_incident-IsPruned d i h v now id account p
  exec-IsPruned i (Command.close now id) d h v = close-IsPruned d i h v now id
  exec-IsPruned i (Command.create_stream now id j m label) d h v =
      create_stream-IsPruned d i h v now id j m label
  exec-IsPruned i (Command.complete_stream now j k n) d h v =
      complete_stream-IsPruned d i h v now j k n
  exec-IsPruned i (Command.fail_stream now j k reason) d h v =
      fail_stream-IsPruned d i h v now j k reason
  exec-IsPruned i (Command.add_chunk now id p) d h v = add_chunk-IsPruned d i h v now id p
  exec-IsPruned i (Command.add_checkin now id j p) d h v = add_checkin-IsPruned d i h v now id j p
  exec-IsPruned i (Command.create_token now id raw j label expires) d h v =
      create_token-IsPruned d i h v hash now id raw j label expires
  exec-IsPruned i (Command.revoke_token now id) d h v = revoke_token-IsPruned d i h v now id
  exec-IsPruned i (Command.reserve_upload now id p) d h v = reserve-IsPruned d i h v now id p
  exec-IsPruned i (Command.complete_upload now p c) d h v = complete_upload-IsPruned d i h v now p c
  exec-IsPruned i (Command.request_deletion now id ids p) d h v =
      request-IsPruned d i h v now id ids p
  exec-IsPruned i (Command.claim_deletion now id stale) d h v = claim-IsPruned d i h v now id stale
  exec-IsPruned i (Command.item_deleted now id) d h v = item_deleted-IsPruned d i h v now id
  exec-IsPruned i (Command.item_failed now id code) d h v = item_failed-IsPruned d i h v now id code
  exec-IsPruned i (Command.complete_deletion now audit id) d h v =
      complete_deletion-IsPruned d i h v now audit id
  exec-IsPruned i (Command.fail_deletion now id code) d h v =
      fail_deletion-IsPruned d i h v now id code
  exec-IsPruned i (Command.sharing c) d h v = share-IsPruned i c d h v

  run-IsPruned :
      (i : String) (cs : List Command) (d : Db)
      → inactive_in i d.incidents ≡ true
      → IsPruned i d
      → IsPruned i (run hash cs d)
  unfolding run
  run-IsPruned i [] d h v = v
  run-IsPruned i (c ∷ cs) d h v =
      run-IsPruned i cs (exec hash c d) (exec-inactive hash i c d h) (exec-IsPruned i c d h v)

  -- Once a deletion has completed, its incident has no stream, chunk, checkin, viewer token, upload
  -- operation, sharing grant or wrapped key, whatever of the modelled writing calls follow in whatever
  -- order.
  pub deleted_incident_stays-IsPruned :
      (d d' : Db) (now : ℕ) (audit id : String) (status : IncidentDeletionStatus)
      (cs : List Command)
      → complete_incident_deletion now audit id d ≡ ok (status, d')
      → IsPruned status.incident_id (run hash cs d')
  deleted_incident_stays-IsPruned d d' now audit id status cs e =
      let r = completed_deletion_prunes d d' now audit id status e in
      run-IsPruned status.incident_id cs d' r.0 r.1
