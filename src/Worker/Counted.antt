-- ===== src/Worker/Counted.antt =====
-- What `processDeletion` of internal/retention/deletion_worker.go does to the number of deleted decisions.
use safety_recorder.Model.{Db, IncidentDeletionStatus, is_deleted, ok, Result-cases}
use safety_recorder.Repository.Deletion.Process.{
  mark_incident_deletion_deleting, decision_key, find_decision, complete_incident_deletion,
  fail_incident_deletion, failed_decision_row, finish_row, list_incident_deletion_items,
  oldest_item_first, remaining,
}
use safety_recorder.Worker.{
  Removal, World, Outcome, finished, stopped, process_deletion, remove_items, finish_items,
  conclude, is_not_found,
}
use safety_recorder.Base.{
  ◌==◌, ℕ, String, Bool, true, false, ◌+◌, ◌≡◌, arith, refl, inl, inr, some, count_where, select,
  update_where, Bool-cases, ◌∙◌, ap, count_where-update_where, sym, count_where-update_found,
  count_where-update_gain, subst, order_by,
}
use safety_recorder.Worker.Claimed.{is_gone, deleted_count, HasUniqueDecisions, claims}
use safety_recorder.Worker.Kept.{left_by, remove_items-keeps}

-- What a call that ends a deletion does to the decisions.
completed_rows :
    (d d' : Db) (now : ℕ) (audit id : String) (s : IncidentDeletionStatus)
    → complete_incident_deletion now audit id d ≡ ok (s, d')
    → d'.deletion_decisions ≡ update_where (decision_key id) (finish_row now) d.deletion_decisions
unfolding complete_incident_deletion
completed_rows d d' now audit id s h = ground arith

failed_rows :
    (d d' : Db) (now : ℕ) (id code : String) (s : IncidentDeletionStatus)
    → fail_incident_deletion now id code d ≡ ok (s, d')
    → d'.deletion_decisions
      ≡ update_where (decision_key id) (failed_decision_row now code) d.deletion_decisions
unfolding fail_incident_deletion
failed_rows d d' now id code s h = ground arith

-- Another decision state for the one row of an identifier.
unique_after :
    (d d' : Db) (id : String) (f : IncidentDeletionStatus → IncidentDeletionStatus)
    → ((x : IncidentDeletionStatus) → (f x).decision_id ≡ x.decision_id)
    → d'.deletion_decisions ≡ update_where (decision_key id) f d.deletion_decisions
    → HasUniqueDecisions d
    → HasUniqueDecisions d'
unique_after d d' id f same rows u other = omega (
  arith,
  ap (count_where (decision_key other)) rows,
  count_where-update_where (decision_key other) (decision_key id) f
      (λ x q. ap (λ t. t == other) (same x)) d.deletion_decisions,
  u other,
)

-- An outcome with the decisions that are deleted then, out of `n` that were before: one more where it
-- reports completion.
abbrev pub IsCounted : {S : Type 0} → ℕ → Outcome S → Type 0
IsCounted n (finished true w) = HasUniqueDecisions w.db × (deleted_count w.db ≡ n + 1)
IsCounted n (finished false w) = HasUniqueDecisions w.db × (deleted_count w.db ≡ n)
IsCounted n (stopped e w) = Unit {0} × (deleted_count w.db ≡ n)

module _ {S : Type 0} (remove : String → S → Removal × S) where
  conclude_failed :
      (now : ℕ) (id code : String) (s : IncidentDeletionStatus) (w : World S)
      → HasUniqueDecisions w.db
      → find_decision id w.db ≡ some s
      → is_deleted s.state ≡ false
      → IsCounted
          (deleted_count w.db)
          (conclude remove false (fail_incident_deletion now id code) w)
  unfolding conclude
  conclude_failed now id code s w u f o =
      elim (Result-cases (fail_incident_deletion now id code w.db)) [
        | inr (x, e) ↦ rw (e, conclude) (tt, refl)
        | inl ((r, d), e) ↦
            let rows = failed_rows w.db d now id code r e in
            rw (e, conclude)
              (
                unique_after w.db d id (failed_decision_row now code) (λ x. refl) rows u,
                ap (count_where is_gone) rows
                    ∙ count_where-update_found is_gone (decision_key id) (decision_key id)
                        (failed_decision_row now code) (λ x q. q) w.db.deletion_decisions s f (u id)
                        (sym o),
              )
      ]

  conclude_completed :
      (now : ℕ) (audit id : String) (s : IncidentDeletionStatus) (w : World S)
      → HasUniqueDecisions w.db
      → find_decision id w.db ≡ some s
      → is_deleted s.state ≡ false
      → IsCounted
          (deleted_count w.db)
          (conclude remove true (complete_incident_deletion now audit id) w)
  unfolding conclude
  conclude_completed now audit id s w u f o =
      elim (Result-cases (complete_incident_deletion now audit id w.db)) [
        | inr (x, e) ↦ rw (e, conclude) (tt, refl)
        | inl ((r, d), e) ↦
            let rows = completed_rows w.db d now audit id r e in
            rw (e, conclude)
              (
                unique_after w.db d id (finish_row now) (λ x. refl) rows u,
                ap (count_where is_gone) rows
                    ∙ count_where-update_gain is_gone (decision_key id) (decision_key id)
                        (finish_row now) (λ x q. q) w.db.deletion_decisions s f (u id) refl o,
              )
      ]

  finish-IsCounted :
      (now n : ℕ) (audit id : String) (s : IncidentDeletionStatus) (o : Outcome S)
      → HasUniqueDecisions (left_by o)
      → find_decision id (left_by o) ≡ some s
      → is_deleted s.state ≡ false
      → deleted_count (left_by o) ≡ n
      → IsCounted n (finish_items remove now audit id o)
  unfolding finish_items
  finish-IsCounted now n audit id s (finished true w) u f o c =
      subst
        (λ m.
          IsCounted m
            (conclude remove false (fail_incident_deletion now id "blob_delete_failed") w))
        c (conclude_failed now id "blob_delete_failed" s w u f o)
  finish-IsCounted now n audit id s (finished false w) u f o c =
      subst (λ m. IsCounted m (conclude remove true (complete_incident_deletion now audit id) w)) c
        (conclude_completed now audit id s w u f o)
  finish-IsCounted now n audit id s (stopped e w) u f o c = (tt, c)

  pub process-IsCounted :
      (start end stale : ℕ) (now : ℕ → ℕ) (canceled : ℕ → Bool) (audit id : String) (w : World S)
      → HasUniqueDecisions w.db
      → IsCounted
          (deleted_count w.db)
          (process_deletion remove start now end canceled audit id stale w)
  unfolding process_deletion list_incident_deletion_items
  process-IsCounted start end stale now canceled audit id w u =
      elim (Result-cases (mark_incident_deletion_deleting start id stale w.db)) [
        | inr (x, e) ↦ elim (Bool-cases (is_not_found remove x)) [
          | inl n ↦ rw (e, process_deletion, n) (u, refl)
          | inr n ↦ rw (e, process_deletion, n) (tt, refl)
        ]
        | inl ((s, d), e) ↦
            let c = claims w.db d start stale id s u e in
            let items =
              order_by oldest_item_first (select (remaining s.decision_id) d.deletion_items) in
            let o = remove_items remove now canceled 0 items false (record w { db = d }) in
            let k = remove_items-keeps remove now canceled 0 items false (record w { db = d }) in
            rw (e, process_deletion)
              (finish-IsCounted end (deleted_count w.db) audit s.decision_id s o
                (λ other. rw k (c.unique other)) (rw k c.found) c.open_state (rw k c.same_count))
      ]
