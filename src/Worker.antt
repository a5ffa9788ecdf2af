-- ===== src/Worker.antt =====
-- internal/retention/deletion_worker.go: one pass of the deletion worker. `remove` is the blob
-- store's `Remove`, on the state `S` of the store; `canceled` tells what `ctx.Err()` answers at each
-- item, and `now` is the clock at each repository call.
pub mod Blobs
pub mod Claimed
pub mod Counted
pub mod Kept
pub mod Pass
use safety_recorder.Repository.Deletion.Process.{
  list_incident_deletion_items, fail_incident_deletion, mark_incident_deletion_deleting,
  complete_incident_deletion, mark_incident_deletion_item_deleted,
  mark_incident_deletion_item_failed, oldest_item_first, remaining,
}
use safety_recorder.Model.{Db, Error, Tx, IncidentDeletionItem, IncidentDeletionStatus, ok, err}
use safety_recorder.Base.{
  ℕ, arith, ◌∷◌, ◌+◌, ◌==◌, ◌&&◌, ◌||◌, [], Bool, String, List, false, true, suc, if◌then◌else◌,
  order_by, select,
}

-- The errors that the worker tells apart; `other` is any other.
pub data RemoveError : Type 0 where
  not_exist unsafe_path context_canceled other : RemoveError

pub data Removal : Type 0 where
  removed : Removal
  not_removed : RemoveError → Removal

abbrev pub deletion_error_code : RemoveError → String
deletion_error_code RemoveError.unsafe_path = "unsafe_stored_path"
deletion_error_code RemoveError.context_canceled = "canceled"
deletion_error_code _ = "blob_delete_failed"

pub data WorkerError : Type 0 where
  stopped_by_context : WorkerError
  repository : Error → WorkerError

pub record World (S : Type 0) : Type 0 where
  pub db : Db
  pub blobs : S

-- A result, or the error that stopped the step, with the state that the calls so far have left.
pub data Outcome (S : Type 0) : Type 0 where
  finished : Bool → World S → Outcome S
  stopped : WorkerError → World S → Outcome S

module _ {S : Type 0} (remove : String → S → Removal × S) where
  -- A repository call on an item, then the rest of the loop.
  unfoldable pub mark_then : Tx (Unit {0}) → (World S → Outcome S) → World S → Outcome S
  mark_then call rest w = elim (call w.db) [
    | ok r ↦ rest (record w { db = r.1 })
    | err e ↦ stopped (repository e) w
  ]

  -- The loop over the items; `failed` is the flag that an earlier item has set.
  unfoldable pub remove_items :
      (ℕ → ℕ) → (ℕ → Bool) → ℕ → List IncidentDeletionItem → Bool → World S → Outcome S
  unfolding mark_then
  remove_items now canceled n [] failed w = finished failed w
  remove_items now canceled n (item ∷ items) failed w =
      let rest = remove_items now canceled (suc n) items in
      let r = remove item.stored_path w.blobs in
      let after_remove = record w { blobs = r.1 } in
      if canceled n then stopped stopped_by_context w else elim r.0 [
        | removed ↦
            mark_then (mark_incident_deletion_item_deleted (now n) item.id) (rest failed)
              after_remove
        | not_removed RemoveError.context_canceled ↦ stopped stopped_by_context after_remove
        | not_removed RemoveError.not_exist ↦
            mark_then (mark_incident_deletion_item_deleted (now n) item.id) (rest failed)
              after_remove
        | not_removed e ↦
            mark_then (mark_incident_deletion_item_failed (now n) item.id (deletion_error_code e))
              (rest true) after_remove
      ]

  -- The call that ends the processing of a decision.
  unfoldable pub conclude : Bool → Tx IncidentDeletionStatus → World S → Outcome S
  conclude completed call w = elim (call w.db) [
    | ok r ↦ finished completed (record w { db = r.1 })
    | err e ↦ stopped (repository e) w
  ]

  unfoldable pub finish_items : ℕ → String → String → Outcome S → Outcome S
  unfolding conclude
  finish_items now audit id (finished true w) =
      conclude false (fail_incident_deletion now id "blob_delete_failed") w
  finish_items now audit id (finished false w) =
      conclude true (complete_incident_deletion now audit id) w
  finish_items now audit id (stopped e w) = stopped e w

  abbrev pub is_not_found : Error → Bool
  is_not_found Error.not_found = true
  is_not_found _ = false

  -- `start` and `end` are the times of the first and of the last call.
  unfoldable pub process_deletion :
      ℕ → (ℕ → ℕ) → ℕ → (ℕ → Bool) → String → String → ℕ → World S → Outcome S
  unfolding remove_items list_incident_deletion_items finish_items
  process_deletion start now end canceled audit id stale w =
      elim (mark_incident_deletion_deleting start id stale w.db) [
        | err e ↦ if is_not_found e then finished false w else stopped (repository e) w
        | ok claimed ↦ elim (list_incident_deletion_items claimed.0.decision_id claimed.1) [
          | err e ↦ stopped (repository e) (record w { db = claimed.1 })
          | ok listed ↦
              finish_items end audit claimed.0.decision_id
                (remove_items now canceled 0 listed.0 false (record w { db = listed.1 }))
        ]
      ]
