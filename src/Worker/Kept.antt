-- ===== src/Worker/Kept.antt =====
-- The loop over the items of a deletion (internal/retention/deletion_worker.go) leaves the decisions as
-- they are.
use safety_recorder.Model.{Db, IncidentDeletionStatus, ok, IncidentDeletionItem, Tx, Result-cases}
use safety_recorder.Repository.Deletion.Process.{
  mark_incident_deletion_item_deleted, mark_incident_deletion_item_failed,
}
use safety_recorder.Worker.{
  Removal, World, Outcome, finished, stopped, remove_items, mark_then, removed, not_removed,
  RemoveError, deletion_error_code,
}
use safety_recorder.Base.{
  ℕ, String, Bool, true, List, [], ◌∷◌, ◌≡◌, arith, refl, inl, inr, suc, ◌∙◌,
}

abbrev pub left_by : {S : Type 0} → Outcome S → Db
left_by (finished b w) = w.db
left_by (stopped e w) = w.db

item_deleted_same :
    (d e : Db) (now : ℕ) (id : String) (u : Unit {0})
    → mark_incident_deletion_item_deleted now id d ≡ ok (u, e)
    → e.deletion_decisions ≡ d.deletion_decisions
unfolding mark_incident_deletion_item_deleted
item_deleted_same d e now id u h = ground arith

item_failed_same :
    (d e : Db) (now : ℕ) (id code : String) (u : Unit {0})
    → mark_incident_deletion_item_failed now id code d ≡ ok (u, e)
    → e.deletion_decisions ≡ d.deletion_decisions
unfolding mark_incident_deletion_item_failed
item_failed_same d e now id code u h = ground arith

module _ {S : Type 0} (remove : String → S → Removal × S) where
  abbrev pub KeepsDecisions : List IncidentDeletionStatus → Outcome S → Type 0
  KeepsDecisions l o = (left_by o).deletion_decisions ≡ l

  mark_then-keeps :
      (call : Tx (Unit {0})) (rest : World S → Outcome S) (w : World S)
      → ((u : Unit {0}) (d : Db)
          → call w.db ≡ ok (u, d)
          → d.deletion_decisions ≡ w.db.deletion_decisions)
      → ((d : Db)
          → d.deletion_decisions ≡ w.db.deletion_decisions
          → KeepsDecisions w.db.deletion_decisions (rest (record w { db = d })))
      → KeepsDecisions w.db.deletion_decisions (mark_then remove call rest w)
  unfolding mark_then
  mark_then-keeps call rest w k h = elim (Result-cases (call w.db)) [
    | inl ((u, d), e) ↦ rw (e, mark_then) (h d (k u d e))
    | inr (x, e) ↦ rw (e, mark_then) refl
  ]

  module _ (now : ℕ → ℕ) (canceled : ℕ → Bool) where
    deleted_keeps :
        (n : ℕ) (x : IncidentDeletionItem) (xs : List IncidentDeletionItem) (b : Bool) (w : World S)
        → ((b' : Bool) (d : Db)
            → d.deletion_decisions ≡ w.db.deletion_decisions
            → KeepsDecisions w.db.deletion_decisions (
                remove_items remove now canceled
                  (suc n)
                  xs
                  b'
                  (record { db = d; blobs = (remove x.stored_path w.blobs).1 })))
        → KeepsDecisions w.db.deletion_decisions (
            mark_then remove
              (mark_incident_deletion_item_deleted (now n) x.id)
              (remove_items remove now canceled (suc n) xs b)
              (record w { blobs = (remove x.stored_path w.blobs).1 }))
    deleted_keeps n x xs b w rest =
        mark_then-keeps (mark_incident_deletion_item_deleted (now n) x.id)
          (remove_items remove now canceled (suc n) xs b)
          (record w { blobs = (remove x.stored_path w.blobs).1 })
          (λ u d e. item_deleted_same w.db d (now n) x.id u e) (rest b)

    failed_keeps :
        (n : ℕ) (x : IncidentDeletionItem) (xs : List IncidentDeletionItem) (code : String)
        (w : World S)
        → ((b : Bool) (d : Db)
            → d.deletion_decisions ≡ w.db.deletion_decisions
            → KeepsDecisions w.db.deletion_decisions (
                remove_items remove now canceled
                  (suc n)
                  xs
                  b
                  (record { db = d; blobs = (remove x.stored_path w.blobs).1 })))
        → KeepsDecisions w.db.deletion_decisions (
            mark_then remove
              (mark_incident_deletion_item_failed (now n) x.id code)
              (remove_items remove now canceled (suc n) xs true)
              (record w { blobs = (remove x.stored_path w.blobs).1 }))
    failed_keeps n x xs code w rest =
        mark_then-keeps (mark_incident_deletion_item_failed (now n) x.id code)
          (remove_items remove now canceled (suc n) xs true)
          (record w { blobs = (remove x.stored_path w.blobs).1 })
          (λ u d e. item_failed_same w.db d (now n) x.id code u e) (rest true)

    -- The loop keeps the decisions where the rest of it does, whatever the removal of one item answers.
    item_keeps :
        (n : ℕ) (x : IncidentDeletionItem) (xs : List IncidentDeletionItem) (failed : Bool)
        (w : World S)
        → ((b : Bool) (d : Db)
            → d.deletion_decisions ≡ w.db.deletion_decisions
            → KeepsDecisions w.db.deletion_decisions (
                remove_items remove now canceled
                  (suc n)
                  xs
                  b
                  (record { db = d; blobs = (remove x.stored_path w.blobs).1 })))
        → (v : Removal) → (remove x.stored_path w.blobs).0 ≡ v
        → KeepsDecisions w.db.deletion_decisions
            (remove_items remove now canceled n (x ∷ xs) failed w)
    unfolding remove_items
    item_keeps n x xs failed w rest removed e = ground (arith, deleted_keeps n x xs failed w rest)
    item_keeps n x xs failed w rest (not_removed RemoveError.not_exist) e =
        ground (arith, deleted_keeps n x xs failed w rest)
    item_keeps n x xs failed w rest (not_removed RemoveError.context_canceled) e = ground arith
    item_keeps n x xs failed w rest (not_removed RemoveError.unsafe_path) e =
        ground (arith, failed_keeps n x xs (deletion_error_code RemoveError.unsafe_path) w rest)
    item_keeps n x xs failed w rest (not_removed RemoveError.other) e =
        ground (arith, failed_keeps n x xs (deletion_error_code RemoveError.other) w rest)

    pub remove_items-keeps :
        (n : ℕ) (items : List IncidentDeletionItem) (failed : Bool) (w : World S)
        → KeepsDecisions w.db.deletion_decisions (remove_items remove now canceled n items failed w)
    unfolding remove_items
    remove_items-keeps n [] failed w = refl
    remove_items-keeps n (x ∷ xs) failed w =
        item_keeps n x xs failed w
          (λ b d e.
            remove_items-keeps (suc n) xs b
              (record { db = d; blobs = (remove x.stored_path w.blobs).1 })
            ∙ e)
          (remove x.stored_path w.blobs).0 refl
