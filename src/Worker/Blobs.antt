-- ===== src/Worker/Blobs.antt =====
-- What a completed pass of internal/retention/deletion_worker.go has removed from the blob store.
use safety_recorder.Repository.Deletion.Request.{request_incident_deletion, find_decision_of}
use safety_recorder.Repository.Deletion.Cover.{has_item, has_blob, request_incident_deletion-covers}
use safety_recorder.Repository.Deletion.Process.{
  mark_incident_deletion_item_deleted, mark_incident_deletion_item_failed,
  mark_incident_deletion_deleting, remaining, list_incident_deletion_items, oldest_item_first,
  find_decision, claimable, claim_row, decision_key,
}
use safety_recorder.Model.{
  IncidentDeletionItem, Db, Tx, Result-cases, IncidentDeletionStatus, ok, IncidentDeletionRequest,
}
use safety_recorder.Worker.{
  Removal, remove_items, removed, mark_then, World, not_removed, RemoveError, finished, Outcome,
  deletion_error_code, conclude, process_deletion, finish_items, stopped,
}
use safety_recorder.Base.{
  ℕ, arith, ◌≡◌, ◌∷◌, [], ◌==◌, String, Bool, List, true, any_row, false, ◌⊎◌, suc, inl, inr, refl,
  eq_of_==, ap, order_by, Option-cases, select, any_row-order_by, update_where, any_row-select, ◌∙◌,
  find_row_sound, none,
}

abbrev has_path : String → List IncidentDeletionItem → Bool
has_path p = any_row (λ (r : IncidentDeletionItem). r.stored_path == p)

-- `remove` as the store documents it: a path whose removal succeeds, or which does not exist, is gone
-- afterwards, and what is gone stays gone.
module _ {S : Type 0} (remove : String → S → Removal × S) (gone : String → S → Bool) where
  pub record RemovesBlobs : Type 0 where
    pub on_removed : (p : String) (s : S) → (remove p s).0 ≡ removed → gone p (remove p s).1 ≡ true
    pub on_absent :
        (p : String) (s : S)
        → (remove p s).0 ≡ not_removed RemoveError.not_exist
        → gone p (remove p s).1 ≡ true
    pub keeps : (p q : String) (s : S) → gone q s ≡ true → gone q (remove p s).1 ≡ true

  -- A call on an item that lets the loop go on.
  marked :
      (call : Tx (Unit {0})) (rest : World S → Outcome S) (w w' : World S)
      → mark_then remove call rest w ≡ finished false w'
      → (d : Db) × (rest (record w { db = d }) ≡ finished false w')
  unfolding mark_then
  marked call rest w w' h = elim (Result-cases (call w.db)) [
    | inl (r, e) ↦ (r.1, ground arith)
    | inr (x, e) ↦ absurd (ground arith)
  ]

  abbrev IsGone : Removal → Type 0
  IsGone r = (r ≡ removed) ⊎ (r ≡ not_removed RemoveError.not_exist)

  module _ (now : ℕ → ℕ) (canceled : ℕ → Bool) where
    -- One item of a loop that reports success: it was removed or was not there, or a flag is set that
    -- the rest of the loop starts with.
    abbrev Continues :
        ℕ → IncidentDeletionItem → List IncidentDeletionItem → Bool → World S → World S → Type 0
    Continues n x xs failed w w' =
        (d : Db) × (f : Bool) × ((IsGone (remove x.stored_path w.blobs).0 × (f ≡ failed))
          ⊎ (f ≡ true))
        × (remove_items remove now canceled (suc n) xs f
              (record { db = d; blobs = (remove x.stored_path w.blobs).1 })
            ≡ finished false w')

    removed_one :
        (n : ℕ) (x : IncidentDeletionItem) (xs : List IncidentDeletionItem) (failed : Bool)
        (w w' : World S) (v : Removal)
        → remove_items remove now canceled n (x ∷ xs) failed w ≡ finished false w'
        → (remove x.stored_path w.blobs).0 ≡ v
        → Continues n x xs failed w w'
    unfolding remove_items
    removed_one n x xs failed w w' removed h e =
        let w1 = record w { blobs = (remove x.stored_path w.blobs).1 } in
        let m =
          marked (mark_incident_deletion_item_deleted (now n) x.id)
            (remove_items remove now canceled (suc n) xs failed) w1 w' (ground arith) in
        (m.0, failed, inl (inl e, refl), m.1)
    removed_one n x xs failed w w' (not_removed RemoveError.not_exist) h e =
        let w1 = record w { blobs = (remove x.stored_path w.blobs).1 } in
        let m =
          marked (mark_incident_deletion_item_deleted (now n) x.id)
            (remove_items remove now canceled (suc n) xs failed) w1 w' (ground arith) in
        (m.0, failed, inl (inr e, refl), m.1)
    removed_one n x xs failed w w' (not_removed RemoveError.context_canceled) h e =
        absurd (ground arith)
    removed_one n x xs failed w w' (not_removed RemoveError.unsafe_path) h e =
        let w1 = record w { blobs = (remove x.stored_path w.blobs).1 } in
        let m =
          marked
            (mark_incident_deletion_item_failed (now n) x.id
              (deletion_error_code RemoveError.unsafe_path))
            (remove_items remove now canceled (suc n) xs true) w1 w' (ground arith) in
        (m.0, true, inr refl, m.1)
    removed_one n x xs failed w w' (not_removed RemoveError.other) h e =
        let w1 = record w { blobs = (remove x.stored_path w.blobs).1 } in
        let m =
          marked
            (mark_incident_deletion_item_failed (now n) x.id
              (deletion_error_code RemoveError.other))
            (remove_items remove now canceled (suc n) xs true) w1 w' (ground arith) in
        (m.0, true, inr refl, m.1)

    -- Once an item has failed, the loop does not report success.
    failed_stays :
        (n : ℕ) (items : List IncidentDeletionItem) (w w' : World S)
        → remove_items remove now canceled n items true w ≡ finished false w'
        → ⊥
    unfolding remove_items
    failed_stays n [] w w' h = ground arith
    failed_stays n (x ∷ xs) w w' h =
        let r = removed_one n x xs true w w' (remove x.stored_path w.blobs).0 h refl in
        ground (
          arith,
          failed_stays (suc n) xs (record { db = r.0; blobs = (remove x.stored_path w.blobs).1 })
              w',
        )

    removed_all :
        RemovesBlobs
        → (p : String) (n : ℕ) (items : List IncidentDeletionItem) (w w' : World S)
        → remove_items remove now canceled n items false w ≡ finished false w'
        → ((gone p w.blobs ≡ true) ⊎ (has_path p items ≡ true))
        → gone p w'.blobs ≡ true
    unfolding remove_items any_row
    removed_all l p n [] w w' h g = ground arith
    removed_all l p n (x ∷ xs) w w' h g =
        let r = removed_one n x xs false w w' (remove x.stored_path w.blobs).0 h refl in
        let w1 : World S = record { db = r.0; blobs = (remove x.stored_path w.blobs).1 } in
        let same_path : (x.stored_path == p) ≡ true
            → gone x.stored_path w1.blobs ≡ gone p w1.blobs =
          λ e. ap (λ q. gone q w1.blobs) (eq_of_== x.stored_path p e) in
        ground (
          arith,
          failed_stays (suc n) xs w1 w',
          removed_all l p (suc n) xs w1 w',
          same_path,
          l.on_removed x.stored_path w.blobs,
          l.on_absent x.stored_path w.blobs,
          l.keeps x.stored_path p w.blobs,
        )

claimed_items :
    (d d' : Db) (now : ℕ) (id : String) (stale : ℕ) (s : IncidentDeletionStatus)
    → mark_incident_deletion_deleting now id stale d ≡ ok (s, d')
    → (d'.deletion_items ≡ d.deletion_items) × (s.decision_id ≡ id)
unfolding mark_incident_deletion_deleting
claimed_items d d' now id stale s h =
    elim (Option-cases (
      find_decision id (record d {
        deletion_decisions = update_where (claimable id stale) (claim_row now) d.deletion_decisions;
      }))) [
        | inl e ↦ absurd (ground arith)
        | inr (x, e) ↦
            let k =
              find_row_sound (decision_key id)
                (update_where (claimable id stale) (claim_row now) d.deletion_decisions) x e in
            ground (arith, eq_of_== x.decision_id id)
      ]

module _ {S : Type 0} (remove : String → S → Removal × S) (gone : String → S → Bool) where
  concluded :
      (now : ℕ) (audit id : String) (o : Outcome S) (w' : World S)
      → finish_items remove now audit id o ≡ finished true w'
      → (w : World S) × (o ≡ finished false w) × (w'.blobs ≡ w.blobs)
  unfolding conclude finish_items
  concluded now audit id (finished true w) w' h = absurd (ground arith)
  concluded now audit id (finished false w) w' h = (w, refl, ground arith)
  concluded now audit id (stopped e w) w' h = absurd (ground arith)

  -- When a pass reports a deletion as completed, each stored path of an item that was left to delete
  -- is gone from the blob store, for a store whose `Remove` works as documented.
  pub completed_pass_removes_blobs :
      RemovesBlobs remove gone
      → (start end stale : ℕ) (now : ℕ → ℕ) (canceled : ℕ → Bool) (audit id p : String)
        (w w' : World S)
      → process_deletion remove start now end canceled audit id stale w ≡ finished true w'
      → has_item id p w.db.deletion_items ≡ true
      → gone p w'.blobs ≡ true
  unfolding process_deletion list_incident_deletion_items
  completed_pass_removes_blobs l start end stale now canceled audit id p w w' h i =
      elim (Result-cases (mark_incident_deletion_deleting start id stale w.db)) [
        | inr (e, q) ↦ absurd (ground arith)
        | inl ((s, d1), q) ↦
            let items =
              order_by oldest_item_first (select (remaining s.decision_id) d1.deletion_items) in
            let w1 : World S = record w { db = d1 } in
            let c =
              concluded end audit s.decision_id (remove_items remove now canceled 0 items false w1)
                w' (ground arith) in
            let k = claimed_items w.db d1 start id stale s q in
            let here : has_item s.decision_id p d1.deletion_items ≡ true = rw (k.1, k.0) i in
            let listed : any_row (λ (r : IncidentDeletionItem). r.stored_path == p) items ≡ true =
              ground (
                arith,
                any_row-order_by oldest_item_first
                    (λ (r : IncidentDeletionItem). r.stored_path == p)
                    (select (remaining s.decision_id) d1.deletion_items),
                any_row-select (λ (r : IncidentDeletionItem). r.stored_path == p)
                    (remaining s.decision_id) d1.deletion_items,
              ) in
            ap (gone p) c.2
            ∙ removed_all remove gone now canceled l p 0 items w1 c.0 c.1 (inr listed)
      ]

  -- When a request records a deletion and a pass on it, which starts in the database that the request
  -- left, reports completion, each stored path that a chunk of the incident had at the time of the
  -- request is gone from the blob store, for a store whose `Remove` works as documented.
  pub deletion_removes_all_blobs :
      RemovesBlobs remove gone
      → (requested start end stale : ℕ) (now : ℕ → ℕ) (canceled : ℕ → Bool) (audit id path : String)
        (ids : ℕ → String) (p : IncidentDeletionRequest) (d : Db) (s : IncidentDeletionStatus)
        (w w' : World S)
      → request_incident_deletion requested id ids p d ≡ ok (s, w.db)
      → find_decision_of p.incident_id d ≡ none
      → process_deletion remove start now end canceled audit id stale w ≡ finished true w'
      → has_blob p.incident_id path d.chunks ≡ true
      → gone path w'.blobs ≡ true
  deletion_removes_all_blobs l requested start end stale now canceled audit id path ids p d s w w' r
        n h b =
      completed_pass_removes_blobs l start end stale now canceled audit id path w w' h
        (request_incident_deletion-covers requested id ids p d w.db s path r n b)
