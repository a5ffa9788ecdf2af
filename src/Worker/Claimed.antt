-- ===== src/Worker/Claimed.antt =====
-- A claim of a deletion decision, and how many decisions are deleted (internal/incidents/deletion.go).
use safety_recorder.Model.{Db, IncidentDeletionStatus, is_deleted, ok}
use safety_recorder.Repository.Deletion.Process.{
  mark_incident_deletion_deleting, decision_key, find_decision, claimable, claim_row,
}
use safety_recorder.Base.{
  ℕ, String, Bool, true, false, List, [], ◌∷◌, ◌≤◌, ◌≡◌, arith, refl, inl, inr, some, count_where,
  select, update_where, find_row, Option-cases, ◌∙◌, any_row, any_row_of_count_where,
  find_row_sound, ap, none_keyed, count_where-update_where, sym, eq_of_==, ap₂,
}

abbrev pub is_gone : IncidentDeletionStatus → Bool
is_gone r = is_deleted r.state

-- How many decisions are in the state deleted.
abbrev pub deleted_count : Db → ℕ
deleted_count d = count_where is_gone d.deletion_decisions

abbrev pub HasUniqueDecisions : Db → Type 0
HasUniqueDecisions d = (id : String) → count_where (decision_key id) d.deletion_decisions ≤ 1

-- A claim returns the decision that is stored under its identifier, and counts no decision as deleted.
pub record IsClaim (d d' : Db) (s : IncidentDeletionStatus) : Type 0 where
  pub found : find_decision s.decision_id d' ≡ some s
  pub open_state : is_deleted s.state ≡ false
  pub same_count : deleted_count d' ≡ deleted_count d
  pub unique : HasUniqueDecisions d'

claimed_row :
    (l : List IncidentDeletionStatus) (now stale : ℕ) (id : String) (s : IncidentDeletionStatus)
    → count_where (decision_key id) l ≤ 1
    → any_row (claimable id stale) l ≡ true
    → find_row (decision_key id) (update_where (claimable id stale) (claim_row now) l) ≡ some s
    → is_deleted s.state ≡ false
unfolding find_row select update_where any_row
claimed_row [] now stale id s u a f = cc
claimed_row (x ∷ l) now stale id s u a f = ground (
  arith,
  claimed_row l now stale id s,
  any_row_of_count_where (decision_key id) l,
  none_keyed (decision_key id) (claimable id stale) (decision_key id) (λ y. y) (λ y q. ground arith)
      l,
)

pub claims :
    (d d' : Db) (now stale : ℕ) (id : String) (s : IncidentDeletionStatus)
    → HasUniqueDecisions d
    → mark_incident_deletion_deleting now id stale d ≡ ok (s, d')
    → IsClaim d d' s
unfolding mark_incident_deletion_deleting
claims d d' now stale id s u h =
    let l = d.deletion_decisions in
    let m = update_where (claimable id stale) (claim_row now) l in
    elim (Option-cases (find_row (decision_key id) m)) [
      | inl e ↦ absurd (ground arith)
      | inr (x, e) ↦
          let k = find_row_sound (decision_key id) m x e in
          let rows : d'.deletion_decisions ≡ m = ground arith in
          let same : x ≡ s = ground arith in
          let key : s.decision_id ≡ id =
            sym (ap (λ (r : IncidentDeletionStatus). r.decision_id) same)
            ∙ eq_of_== x.decision_id id k in
          record {
            found = ap₂ (λ i t. find_row (decision_key i) t) key rows ∙ e ∙ ap some same;
            open_state = claimed_row l now stale id s (u id) (ground arith) (e ∙ ap some same);
            same_count =
                ap (count_where is_gone) rows
                ∙ count_where-update_where is_gone (claimable id stale) (claim_row now)
                    (λ y q. ground arith) l;
            unique = λ other. omega (
              arith,
              ap (count_where (decision_key other)) rows,
              count_where-update_where (decision_key other) (claimable id stale) (claim_row now)
                  (λ y q. refl) l,
              u other,
            );
          }
    ]
