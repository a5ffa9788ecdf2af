-- ===== src/Repository/Checkins.antt =====
-- internal/incidents/checkins.go.
use safety_recorder.Base.{
  ℕ, String, Bool, not, ◌&&◌, List, [], ◌∷◌, ◌++◌, ◌==◌, any_row, select, order_by,
}
use safety_recorder.DbTime.{db_time_le}
use safety_recorder.Model.{
  Checkin, CreateCheckinParams, Db, Error, Tx, pure, reads, fail_if, writes, ◌>>=◌, ◌>>◌,
}
use safety_recorder.Repository.Incidents.{require_active_incident}
use safety_recorder.Repository.Constraints.{has_incident}

abbrev pub new_checkin : ℕ → String → String → CreateCheckinParams → Checkin
new_checkin now id incident p = record {
  id = id;
  incident_id = incident;
  created_at = now;
  device_battery_percent = p.device_battery_percent;
  device_network = p.device_network;
  latitude = p.latitude;
  longitude = p.longitude;
  accuracy_meters = p.accuracy_meters;
}

unfoldable pub checkin_row_ok : Checkin → Db → Bool
checkin_row_ok r d =
    not (any_row (λ (x : Checkin). x.id == r.id) d.checkins)
    && has_incident r.incident_id d.incidents

unfoldable pub create_checkin : ℕ → String → String → CreateCheckinParams → Tx Checkin
unfolding require_active_incident
create_checkin now id incident p = do
  require_active_incident incident
  row_ok ← reads (checkin_row_ok (new_checkin now id incident p))
  fail_if (not row_ok) Error.not_found
  writes (λ d. record d { checkins = d.checkins ++ new_checkin now id incident p ∷ [] })
  pure (new_checkin now id incident p)

unfoldable pub list_checkins : String → Tx (List Checkin)
list_checkins incident = reads (λ d.
    order_by (λ (a : Checkin) (b : Checkin). db_time_le a.created_at b.created_at)
      (select (λ r. r.incident_id == incident) d.checkins))
