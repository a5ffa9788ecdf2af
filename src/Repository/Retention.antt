-- ===== src/Repository/Retention.antt =====
-- The retention policy: closed incidents are queued for deletion (internal/incidents/deletion.go),
-- token metadata is pruned (internal/incidents/retention_pruning.go).
pub mod Queue
pub mod Tombstones
use safety_recorder.DbTime.{db_time_le}
use safety_recorder.Repository.Deletion.Request.{request_incident_deletion}
use safety_recorder.Repository.Deletion.Process.{batch_limit}
use safety_recorder.Model.{
  Db, Error, Incident, IncidentToken, Tx, IncidentDeletionRequest, ok, reads, DeletionSource,
  is_closed, is_active, err,
}
use safety_recorder.Base.{
  [], ℕ, arith, ◌∷◌, ◌+◌, ◌==◌, ◌&&◌, ◌||◌, List, Option, String, Bool, length, map, none, take,
  false, if◌then◌else◌, order_by, select, suc, text_le, true, delete_where, not, some, eqb,
}

abbrev pub oldest_incident_first : Incident → Incident → Bool
oldest_incident_first a b =
    if not (eqb a.updated_at b.updated_at)
    then db_time_le a.updated_at b.updated_at
    else text_le a.id b.id

-- Closed, active, and not updated after the cutoff.
abbrev pub is_candidate : ℕ → Incident → Bool
is_candidate cutoff r =
    is_closed r.status && is_active r.deletion_state && db_time_le r.updated_at cutoff

unfoldable pub retention_candidates : ℕ → ℕ → Db → List Incident
retention_candidates cutoff limit d =
    take (batch_limit limit)
      (order_by oldest_incident_first (select (is_candidate cutoff) d.incidents))

pub record RetentionDeletionCandidate : Type 0 where
  pub incident_id : String
  pub updated_at : ℕ

unfoldable pub list_retention_deletion_candidates : ℕ → ℕ → Tx (List RetentionDeletionCandidate)
unfolding retention_candidates
list_retention_deletion_candidates cutoff limit = reads (λ d.
    map (λ (r : Incident). record { incident_id = r.id; updated_at = r.updated_at })
      (retention_candidates cutoff limit d))

-- What a loop of transactions leaves: the count, the error that stopped it, and the database.
pub record Counted : Type 0 where
  pub count : ℕ
  pub failure : Option Error
  pub db : Db

abbrev pub retention_request : ℕ → String → IncidentDeletionRequest
retention_request cutoff incident = record {
  incident_id = incident;
  source = DeletionSource.retention_policy;
  reason_code = "closed_incident_retention";
  actor_account_id = "";
  allow_open = false;
  require_owner_id = "";
  retention_cutoff = some cutoff;
}

abbrev pub is_skipped : Error → Bool
is_skipped Error.invalid_state = true
is_skipped Error.not_found = true
is_skipped _ = false

-- The loop over the candidates; the n-th request draws its time and identifiers from the functions.
unfoldable pub queue_candidates :
    (ℕ → ℕ) → (ℕ → String) → (ℕ → ℕ → String) → ℕ → ℕ → List Incident → ℕ → Db → Counted
queue_candidates now ids item_ids cutoff n [] queued d = record {
  count = queued;
  failure = none;
  db = d;
}
queue_candidates now ids item_ids cutoff n (r ∷ rs) queued d =
    let rest = queue_candidates now ids item_ids cutoff (suc n) rs in
    elim (request_incident_deletion (now n) (ids n) (item_ids n) (retention_request cutoff r.id)
      d) [
        | ok result ↦ rest (queued + 1) result.1
        | err e ↦
            if is_skipped e
            then rest queued d
            else record { count = queued; failure = some e; db = d }
      ]

unfoldable pub queue_retention_incident_deletions :
    (ℕ → ℕ) → (ℕ → String) → (ℕ → ℕ → String) → ℕ → ℕ → Db → Counted
unfolding queue_candidates retention_candidates
queue_retention_incident_deletions now ids item_ids cutoff limit d =
    queue_candidates now ids item_ids cutoff 0 (retention_candidates cutoff limit d) 0 d

abbrev pub passed : ℕ → Option ℕ → Bool
passed cutoff none = false
passed cutoff (some t) = db_time_le t cutoff

abbrev pub token_prunable : ℕ → IncidentToken → Bool
token_prunable cutoff r = passed cutoff r.expires_at || passed cutoff r.revoked_at

abbrev pub lower_token_id : IncidentToken → IncidentToken → Bool
lower_token_id a b = text_le a.id b.id

unfoldable pub prune_token_ids : ℕ → ℕ → Db → List String
prune_token_ids cutoff limit d =
    map (λ (r : IncidentToken). r.id)
      (take limit (order_by lower_token_id (select (token_prunable cutoff) d.incident_tokens)))

-- `DELETE` of each identifier, with the number of affected rows.
unfoldable pub delete_tokens : List String → ℕ → Db → ℕ × Db
delete_tokens [] pruned d = (pruned, d)
delete_tokens (id ∷ ids) pruned d =
    delete_tokens ids
      (pruned + length (select (λ (r : IncidentToken). r.id == id) d.incident_tokens))
      (record d {
        incident_tokens = delete_where (λ (r : IncidentToken). r.id == id) d.incident_tokens;
      })

unfoldable pub prune_incident_token_metadata : ℕ → ℕ → Tx ℕ
unfolding prune_token_ids delete_tokens
prune_incident_token_metadata cutoff limit d =
    ok (delete_tokens (prune_token_ids cutoff (batch_limit limit) d) 0 d)
