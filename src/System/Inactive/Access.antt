-- ===== src/System/Inactive/Access.antt =====
-- Viewer tokens of an incident that a deletion decision has reached.
use safety_recorder.Repository.Tokens.Access.{lookup_incident_token_sound}
use safety_recorder.System.Inactive.Run.{run-inactive}
use safety_recorder.Repository.Tokens.{lookup_incident_token}
use safety_recorder.System.Inactive.Defs.{inactive_in, active_row}
use safety_recorder.Model.{Db, IncidentToken, ok}
use safety_recorder.System.{Command, run}
use safety_recorder.Base.{ℕ, arith, ◌≡◌, String, List, true, ◌≢◌, ap, any_row}

-- Once an incident is no longer active, no viewer token of it is looked up after any of the modelled
-- writing calls, those that create tokens included.
pub inactive_incident_refuses_viewers :
    (hash : String → String) (i : String) (cs : List Command) (d e : Db) (now : ℕ) (raw : String)
    (t : IncidentToken)
    → inactive_in i d.incidents ≡ true
    → lookup_incident_token hash now raw (run hash cs d) ≡ ok (t, e)
    → t.incident_id ≢ i
inactive_incident_refuses_viewers hash i cs d e now raw t h l = λ q. ground (
  arith,
  run-inactive hash i cs d h,
  (lookup_incident_token_sound hash (run hash cs d) e now raw t l).0,
  ap (λ s. any_row (active_row s) (run hash cs d).incidents) q,
)
