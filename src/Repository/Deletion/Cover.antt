-- ===== src/Repository/Deletion/Cover.antt =====
-- A deletion request lists every stored blob of its incident (internal/incidents/deletion.go).
use safety_recorder.Repository.Deletion.Process.{remaining}
use safety_recorder.Model.{
  Chunk, Db, IncidentDeletionItem, IncidentDeletionRequest, IncidentDeletionStatus, ok,
  Result-cases,
}
use safety_recorder.Repository.Deletion.Request.{
  deletion_stored_paths, insert_items, record_decision, request_incident_deletion, check_request,
  distinct, insert_distinct, find_decision_of, new_decision, new_item,
}
use safety_recorder.Base.{
  ℕ, arith, ◌≡◌, ◌++◌, ◌∷◌, [], ◌==◌, String, ◌&&◌, ◌||◌, List, any_row, Bool, select, eq_of_==,
  map, refl, text_le, true, ◌∙◌, none, ==_refl, any_row-append, inl, suc, inr, any_row-order_by,
}

abbrev has_path : String → List String → Bool
has_path path = any_row (λ q. q == path)

abbrev pub has_item : String → String → List IncidentDeletionItem → Bool
has_item id path = any_row (λ (r : IncidentDeletionItem). remaining id r && r.stored_path == path)

abbrev pub has_blob : String → String → List Chunk → Bool
has_blob incident path = any_row (λ (c : Chunk). c.incident_id == incident && c.stored_path == path)

has_path-insert_distinct :
    (path p : String) (l : List String)
    → has_path path (insert_distinct p l) ≡ (p == path || has_path path l)
unfolding any_row
has_path-insert_distinct path p [] = refl
has_path-insert_distinct path p (q ∷ qs) =
    ground (arith, has_path-insert_distinct path p qs, eq_of_== p q)

has_path-distinct : (path : String) (l : List String) → has_path path (distinct l) ≡ has_path path l
unfolding any_row distinct
has_path-distinct path [] = refl
has_path-distinct path (p ∷ ps) =
    ground (arith, has_path-distinct path ps, has_path-insert_distinct path p (distinct ps))

has_path-blobs :
    (incident path : String) (l : List Chunk)
    → has_path path
        (map (λ (c : Chunk). c.stored_path) (select (λ (c : Chunk). c.incident_id == incident) l))
      ≡ has_blob incident path l
unfolding any_row select
has_path-blobs incident path [] = refl
has_path-blobs incident path (c ∷ cs) = ground (arith, has_path-blobs incident path cs)

-- The paths of a request are those of the incident's chunks.
has_path-deletion_stored_paths :
    (incident path : String) (d : Db)
    → has_path path (deletion_stored_paths incident d) ≡ has_blob incident path d.chunks
unfolding deletion_stored_paths
has_path-deletion_stored_paths incident path d =
    let l =
      map (λ (c : Chunk). c.stored_path)
        (select (λ (c : Chunk). c.incident_id == incident) d.chunks) in
    any_row-order_by text_le (λ q. q == path) (distinct l)
    ∙ has_path-distinct path l
    ∙ has_path-blobs incident path d.chunks

module _ (now : ℕ) (ids : ℕ → String) (id incident path : String) where
  insert_items-keeps :
      (n : ℕ) (paths : List String) (d e : Db) (u : Unit {0})
      → insert_items now ids id incident n paths d ≡ ok (u, e)
      → has_item id path d.deletion_items ≡ true
      → has_item id path e.deletion_items ≡ true
  unfolding insert_items
  insert_items-keeps n [] d e u h i = ground arith
  insert_items-keeps n (q ∷ qs) d e u h i =
      let item = new_item now (ids n) id incident q in
      ground (
        arith,
        any_row-append (λ (r : IncidentDeletionItem). remaining id r && r.stored_path == path)
            d.deletion_items item,
        insert_items-keeps (suc n) qs (record d { deletion_items = d.deletion_items ++ item ∷ [] })
            e u,
      )

  insert_items-covers :
      (n : ℕ) (paths : List String) (d e : Db) (u : Unit {0})
      → insert_items now ids id incident n paths d ≡ ok (u, e)
      → has_path path paths ≡ true
      → has_item id path e.deletion_items ≡ true
  unfolding insert_items any_row
  insert_items-covers n [] d e u h i = cc
  insert_items-covers n (q ∷ qs) d e u h i =
      let item = new_item now (ids n) id incident q in
      let d1 = record d { deletion_items = d.deletion_items ++ item ∷ [] } in
      ground (
        arith,
        ==_refl id,
        any_row-append (λ (r : IncidentDeletionItem). remaining id r && r.stored_path == path)
            d.deletion_items item,
        insert_items-keeps (suc n) qs d1 e u,
        insert_items-covers (suc n) qs d1 e u,
      )

record_decision-covers :
    (now : ℕ) (id : String) (ids : ℕ → String) (p : IncidentDeletionRequest) (d d' : Db)
    (s : IncidentDeletionStatus) (path : String)
    → record_decision now id ids p d ≡ ok (s, d')
    → has_blob p.incident_id path d.chunks ≡ true
    → has_item id path d'.deletion_items ≡ true
unfolding record_decision
record_decision-covers now id ids p d d' s path h b =
    let e = record d { deletion_decisions = d.deletion_decisions ++ new_decision now id p ∷ [] } in
    let paths = deletion_stored_paths p.incident_id e in
    elim (Result-cases (insert_items now ids id p.incident_id 0 paths e)) [
      | inl (r, f) ↦ ground (
        arith,
        has_path-deletion_stored_paths p.incident_id path e,
        insert_items-covers now ids id p.incident_id path 0 paths e r.1 r.0 f,
      )
      | inr (x, f) ↦ ground arith
    ]

-- A request that records a new decision leaves, for each stored path of a chunk of the incident, an
-- item of the decision that is still to be deleted.
pub request_incident_deletion-covers :
    (now : ℕ) (id : String) (ids : ℕ → String) (p : IncidentDeletionRequest) (d d' : Db)
    (s : IncidentDeletionStatus) (path : String)
    → request_incident_deletion now id ids p d ≡ ok (s, d')
    → find_decision_of p.incident_id d ≡ none
    → has_blob p.incident_id path d.chunks ≡ true
    → has_item id path d'.deletion_items ≡ true
unfolding request_incident_deletion check_request
request_incident_deletion-covers now id ids p d d' s path h n b =
    ground (arith, record_decision-covers now id ids p d d' s path)
