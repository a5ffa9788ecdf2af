-- ===== src/Repository/Tokens.antt =====
-- internal/incidents/incident_tokens.go: read-only viewer tokens. `raw` is the token drawn at random
-- and `hash` is `hashIncidentToken`, SHA-256 in hexadecimal.
pub mod Access
use safety_recorder.Base.{
  ℕ, String, Bool, false, not, ◌&&◌, Option, none, some, List, [], ◌∷◌, ◌++◌, ◌==◌, if◌then◌else◌,
  find_row, any_row, select, update_where, order_by, leb, eqb, text_le, is_some,
}
use safety_recorder.DbTime.{db_time_le}
use safety_recorder.Model.{
  Incident, IncidentToken, is_active, Db, Error, Tx, pure, reads, or_fail, fail_if, writes, ◌>>=◌,
  ◌>>◌,
}
use safety_recorder.Repository.Constraints.{valid_sha256_hex}

-- The join with an incident that is not being deleted.
abbrev pub active_incident : String → Db → Bool
active_incident i d =
    any_row (λ (r : Incident). r.id == i && is_active r.deletion_state) d.incidents

unfoldable pub token_row_ok : IncidentToken → Db → Bool
token_row_ok r d =
    not (any_row (λ (x : IncidentToken). x.id == r.id) d.incident_tokens)
    && not (any_row (λ (x : IncidentToken). x.token_hash == r.token_hash) d.incident_tokens)
    && valid_sha256_hex r.token_hash

module _ (hash : String → String) where
  abbrev pub new_token : ℕ → String → String → String → String → Option ℕ → IncidentToken
  new_token now id raw incident label expires_at = record {
    id = id;
    incident_id = incident;
    token_hash = hash raw;
    label = label;
    created_at = now;
    expires_at = expires_at;
    revoked_at = none;
  }

  -- `INSERT ... SELECT` from the active incident: the constraints are met only by a row.
  unfoldable pub create_incident_token :
      ℕ → String → String → String → String → Option ℕ → Tx (IncidentToken × String)
  create_incident_token now id raw incident label expires_at = do
    active ← reads (active_incident incident)
    fail_if (not active) Error.not_found
    row_ok ← reads (token_row_ok (new_token now id raw incident label expires_at))
    fail_if (not row_ok) Error.not_found
    writes (λ d. record d {
      incident_tokens = d.incident_tokens ++ new_token now id raw incident label expires_at ∷ [];
    })
    pure (new_token now id raw incident label expires_at, raw)

  abbrev pub hash_key : String → Db → IncidentToken → Bool
  hash_key raw d r = r.token_hash == hash raw && active_incident r.incident_id d

  -- `!token.ExpiresAt.After(now)`.
  abbrev pub is_expired : ℕ → Option ℕ → Bool
  is_expired now none = false
  is_expired now (some t) = leb t now

  unfoldable pub lookup_incident_token : ℕ → String → Tx IncidentToken
  lookup_incident_token now raw = do
    token ← or_fail (← reads (λ d. find_row (hash_key raw d) d.incident_tokens)) Error.not_found
    fail_if (not (token.token_hash == hash raw)) Error.not_found
    fail_if (is_some token.revoked_at) Error.not_found
    fail_if (is_expired now token.expires_at) Error.not_found
    pure token

unfoldable pub get_incident_token : String → Tx IncidentToken
get_incident_token id = do
  or_fail (← reads (λ d. find_row (λ r. r.id == id) d.incident_tokens)) Error.not_found

abbrev pub oldest_token_first : IncidentToken → IncidentToken → Bool
oldest_token_first a b =
    if not (eqb a.created_at b.created_at)
    then db_time_le a.created_at b.created_at
    else text_le a.id b.id

unfoldable pub list_incident_tokens : String → Tx (List IncidentToken)
list_incident_tokens incident = reads (λ d.
    order_by oldest_token_first (
      select (λ r. r.incident_id == incident && active_incident r.incident_id d) d.incident_tokens))

unfoldable pub get_incident_token_for_incident : String → String → Tx IncidentToken
get_incident_token_for_incident incident id = do
  or_fail
      (← reads (λ d.
        find_row (λ r. r.incident_id == incident && r.id == id && active_incident r.incident_id d)
          d.incident_tokens))
      Error.not_found

abbrev pub revocable : String → IncidentToken → Bool
revocable id r = r.id == id && not (is_some r.revoked_at)

abbrev pub revoke_row : ℕ → IncidentToken → IncidentToken
revoke_row now r = record r { revoked_at = some now }

unfoldable pub revoke_incident_token : ℕ → String → Tx (Unit {0})
revoke_incident_token now id = do
  affected ← reads (λ d. any_row (revocable id) d.incident_tokens)
  fail_if (not affected) Error.not_found
  writes (λ d. record d {
    incident_tokens = update_where (revocable id) (revoke_row now) d.incident_tokens;
  })
