-- ===== src/Tests/Access.antt =====
-- Viewer tokens at concrete inputs.
use safety_recorder.System.{Command, run, exec}
use safety_recorder.Repository.Constraints.{valid_sha256_hex}
use safety_recorder.Repository.Incidents.{new_incident, close_incident}
use safety_recorder.Repository.Tokens.Access.{
  lookup-create_incident_token, lookup-revoke_incident_token, lookup_incident_token_sound,
}
use safety_recorder.Tests.Fixtures.{flat_hash, open_db, zeros, incident_params, first_incident}
use safety_recorder.Repository.Deletion.Request.{set_deletion_state}
use safety_recorder.Model.{Db, IncidentToken, ok, DeletionState, err, Error}
use safety_recorder.Repository.Tokens.{
  active_incident, create_incident_token, lookup_incident_token, revoke_incident_token, new_token,
  revoke_row, is_expired, token_row_ok,
}
use safety_recorder.System.Inactive.Access.{inactive_incident_refuses_viewers}
use safety_recorder.Base.{
  [], ◌∷◌, none, some, ◌≡◌, refl, ◌≢◌, true, ◌==◌, false, any_row, find_row, update_where,
}

abbrev token : IncidentToken
token = new_token flat_hash 8 "itk" "raw" "inc" "" (some 50)

abbrev token_db : Db
token_db = record open_db { incident_tokens = token ∷ [] }

create_token_run :
    create_incident_token flat_hash 8 "itk" "raw" "inc" "" (some 50) open_db
    ≡ ok ((token, "raw"), token_db)
unfolding create_incident_token any_row ◌==◌ token_row_ok valid_sha256_hex
create_token_run = refl

lookup-create_incident_token_example :
    lookup_incident_token flat_hash 20 "raw" token_db ≡ ok (token, token_db)
lookup-create_incident_token_example =
    lookup-create_incident_token flat_hash open_db token_db 8 20 "itk" "raw" "inc" "" (some 50)
      token create_token_run refl

-- At the time of its expiry a token is refused.
lookup_expired : lookup_incident_token flat_hash 50 "raw" token_db ≡ err Error.not_found
unfolding lookup_incident_token find_row ◌==◌ any_row
lookup_expired = refl

abbrev revoked_db : Db
revoked_db = record open_db { incident_tokens = revoke_row 21 token ∷ [] }

revoke_run : revoke_incident_token 21 "itk" token_db ≡ ok (tt, revoked_db)
unfolding revoke_incident_token any_row ◌==◌ update_where
revoke_run = refl

lookup-revoke_incident_token_example :
    lookup_incident_token flat_hash 22 "raw" revoked_db ≡ err Error.not_found
lookup-revoke_incident_token_example =
    lookup-revoke_incident_token flat_hash token_db token_db revoked_db 20 21 22 "raw" token
      lookup-create_incident_token_example revoke_run

lookup_incident_token_sound_example :
    (active_incident "inc" token_db ≡ true)
    × ((zeros == zeros) ≡ true)
    × (token.revoked_at ≡ none)
    × (is_expired flat_hash 20 (some 50) ≡ false)
lookup_incident_token_sound_example =
    lookup_incident_token_sound flat_hash token_db token_db 20 "raw" token
      lookup-create_incident_token_example

-- An incident that is being deleted beside one that has a viewer token.
abbrev deleting_db : Db
deleting_db = record token_db {
  incidents =
      set_deletion_state 9 DeletionState.deleting (new_incident 5 "old" "acc" incident_params)
      ∷ first_incident
      ∷ [];
}

lookup_beside : lookup_incident_token flat_hash 20 "raw" deleting_db ≡ ok (token, deleting_db)
unfolding lookup_incident_token find_row ◌==◌ any_row
lookup_beside = refl

inactive_incident_refuses_viewers_example : token.incident_id ≢ "old"
unfolding any_row ◌==◌ run exec close_incident create_incident_token find_row
inactive_incident_refuses_viewers_example =
    inactive_incident_refuses_viewers flat_hash "old"
      (Command.create_token 10 "itk2" "raw2" "old" "" none ∷ Command.close 11 "old" ∷ [])
      deleting_db deleting_db 20 "raw" token refl lookup_beside
