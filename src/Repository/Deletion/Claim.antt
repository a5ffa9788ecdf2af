-- ===== src/Repository/Deletion/Claim.antt =====
-- A deletion decision is claimed by one worker at a time (internal/incidents/deletion.go).
use safety_recorder.DbTime.{db_time_le}
use safety_recorder.Model.{Db, IncidentDeletionStatus, ok, err, Error}
use safety_recorder.Repository.Deletion.Process.{
  mark_incident_deletion_deleting, decision_key, claimable, claim_row,
}
use safety_recorder.Base.{
  ℕ, arith, ◌≡◌, ◌∷◌, [], String, select, any_row, List, update_where, length, ◌≤◌, false, true,
  refl,
}

none_claimable :
    (id : String) (stale : ℕ) (l : List IncidentDeletionStatus)
    → length (select (decision_key id) l) ≤ 0
    → any_row (claimable id stale) l ≡ false
unfolding select any_row
none_claimable id stale [] h = refl
none_claimable id stale (x ∷ xs) h = ground (arith, none_claimable id stale xs)

no_claim :
    (id : String) (now stale later : ℕ) (l : List IncidentDeletionStatus)
    → length (select (decision_key id) l) ≤ 0
    → any_row (claimable id later) (update_where (claimable id stale) (claim_row now) l) ≡ false
unfolding select any_row update_where
no_claim id now stale later [] h = refl
no_claim id now stale later (x ∷ xs) h = ground (arith, no_claim id now stale later xs)

claimed_once :
    (id : String) (now stale later : ℕ) (l : List IncidentDeletionStatus)
    → length (select (decision_key id) l) ≤ 1
    → any_row (claimable id stale) l ≡ true
    → db_time_le now later ≡ false
    → any_row (claimable id later) (update_where (claimable id stale) (claim_row now) l) ≡ false
unfolding select any_row update_where
claimed_once id now stale later [] u a t = cc
claimed_once id now stale later (x ∷ xs) u a t = ground (
  arith,
  claimed_once id now stale later xs,
  no_claim id now stale later xs,
  none_claimable id stale xs,
)

-- A decision that one worker has claimed is refused to every other worker whose stale time does not
-- reach the claim's time, when the decision's identifier is unique.
pub mark_incident_deletion_deleting-once :
    (d d' : Db) (now stale later stale_later : ℕ) (id : String) (s : IncidentDeletionStatus)
    → length (select (decision_key id) d.deletion_decisions) ≤ 1
    → mark_incident_deletion_deleting now id stale d ≡ ok (s, d')
    → db_time_le now stale_later ≡ false
    → mark_incident_deletion_deleting later id stale_later d' ≡ err Error.not_found
unfolding mark_incident_deletion_deleting
mark_incident_deletion_deleting-once d d' now stale later stale_later id s u e t =
    ground (arith, claimed_once id now stale stale_later d.deletion_decisions)
