-- ===== src/Repository/Detail.antt =====
-- `GetIncidentDetail` of internal/incidents/repository.go: an incident with its child rows.
use safety_recorder.Base.{String}
use safety_recorder.Model.{IncidentDetail, Tx, pure, ◌>>=◌}
use safety_recorder.Repository.Incidents.{get_incident}
use safety_recorder.Repository.Streams.{list_media_streams}
use safety_recorder.Repository.Chunks.{list_chunks}
use safety_recorder.Repository.Checkins.{list_checkins}

unfoldable pub get_incident_detail : String → Tx IncidentDetail
get_incident_detail id = do
  incident ← get_incident id
  streams ← list_media_streams id
  chunks ← list_chunks id
  checkins ← list_checkins id
  pure (record { incident = incident; streams = streams; chunks = chunks; checkins = checkins })
